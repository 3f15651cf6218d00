-- ===== src/Slab/Invariant/Reclaim.antt =====
-- Giving empty slabs back to the system keeps the invariant.
use spl.Prelude.{
  All, ℕ, ◌+◌, ◌%◌, ◌^◌, ◌<◌, ◌≡◌, refl, sym, ap, subst, Bool, true, false, List, [], ◌∷◌, ◌++◌,
  map, ltb, if◌then◌else◌, arith, if_elim, Bool-cases, inl, inr, ltb→lt,
}
use spl.Ordered.{count}
use spl.Ordered.Laws.{count-append}
use spl.Slab.{Slab, Cache, sub64}
use spl.Slab.Release.{Work, spl_slab_free, walk_one, reclaim_walk, spl_slab_reclaim}
use spl.Slab.Lists.{total}
use spl.Slab.Invariant.{
  times, one, in_use, at, refs_at, free_at, Room, Full, EmptiesLast, sums, Inv,
}

abbrev Empty : Slab → Type 0
Empty s = s.sks_ref ≡ 0

abbrev pub Used : Slab → Type 0
Used s = 0 < s.sks_ref

-- What the walk leaves of a list and a state.
record Walked (ss : List Slab) (st : Cache × Work) (r : List Slab × (Cache × Work)) : Type 1 where
  pub kept :
      (m : Slab → ℕ) → total m r.0 + total m r.1.1.sks_list ≡ total m ss + total m st.1.sks_list
  pub objects :
      (o : ℕ)
      → total (free_at o) r.0 + times o r.1.1.sko_list
        ≡ total (free_at o) ss + times o st.1.sko_list
  pub all_objects :
      (n : ℕ)
      → st.0.obj_total ≡ (n + total Slab.sks_objs ss) % 2 ^ 64
      → r.1.0.obj_total ≡ (n + total Slab.sks_objs r.0) % 2 ^ 64
  pub slabs :
      (n : ℕ)
      → st.0.slab_total ≡ (n + total one ss) % 2 ^ 64
      → r.1.0.slab_total ≡ (n + total one r.0) % 2 ^ 64
  pub rest : r.1.0 ≡ record st.0 { obj_total = r.1.0.obj_total; slab_total = r.1.0.slab_total }
  pub keeps : (P : Slab → Type 0) → All P ss → All P r.0
  pub empty : All Empty st.1.sks_list → All Empty r.1.1.sks_list
  pub used : EmptiesLast ss → All Used r.0

walk_one-Walked :
    (s : Slab) (ss : List Slab) (st : Cache × Work) (r : List Slab × (Cache × Work))
    → Walked ss st r
    → Walked (s ∷ ss) st (walk_one s r)
unfolding walk_one spl_slab_free
walk_one-Walked s ss st ([], (c, w)) k =
    if_elim (Walked (s ∷ ss) st) (ltb 0 s.sks_ref) _ _
      (λ b. record {
        kept = λ m. omega (arith, k.kept m);
        objects = λ o. omega (arith, k.objects o);
        all_objects = λ n h. omega (arith, k.all_objects (n + s.sks_objs) (omega (arith, h)));
        slabs = λ n h. omega (arith, k.slabs (n + 1) (omega (arith, h)));
        rest = k.rest;
        keeps = λ P h. (h.0, tt);
        empty = k.empty;
        used = λ e. (ground (arith, b), tt);
      })
      (λ b. record {
        kept = λ m. omega (arith, k.kept m);
        objects = λ o.
            omega (arith, k.objects o, count-append (λ (x : ℕ). x) o s.sks_free_list w.sko_list);
        all_objects = λ n h. omega (arith, k.all_objects (n + s.sks_objs) (omega (arith, h)));
        slabs = λ n h. omega (arith, k.slabs (n + 1) (omega (arith, h)));
        rest =
            ap
              (λ (x : Cache). record x {
                obj_total = sub64 c.obj_total s.sks_objs;
                slab_total = sub64 c.slab_total 1;
              })
              k.rest;
        keeps = λ P h. tt;
        empty = λ e. (ground (arith, b), k.empty e);
        used = λ e. tt;
      })
walk_one-Walked s ss st (t ∷ ts, (c, w)) k = record {
  kept = λ m. omega (arith, k.kept m);
  objects = λ o. omega (arith, k.objects o);
  all_objects = λ n h. omega (arith, k.all_objects (n + s.sks_objs) (omega (arith, h)));
  slabs = λ n h. omega (arith, k.slabs (n + 1) (omega (arith, h)));
  rest = k.rest;
  keeps = λ P h. (h.0, k.keeps P h.1);
  empty = k.empty;
  used = λ e.
      let high : 0 < s.sks_ref = elim (Bool-cases (ltb 0 s.sks_ref)) [
        | inl b ↦ ltb→lt 0 s.sks_ref b
        | inr b ↦
            absurd (omega (arith, (k.used e.1).0, (k.keeps Empty (e.0 (ground (arith, b)))).0))
      ] in
      (high, k.used e.1);
}

reclaim_walk-Walked : (ss : List Slab) (st : Cache × Work) → Walked ss st (reclaim_walk ss st)
unfolding reclaim_walk
reclaim_walk-Walked [] st = record {
  kept = λ m. omega arith;
  objects = λ o. omega arith;
  all_objects = λ n h. h;
  slabs = λ n h. h;
  rest = refl;
  keeps = λ P h. h;
  empty = λ e. e;
  used = λ e. tt;
}
reclaim_walk-Walked (s ∷ ss) st =
    walk_one-Walked s ss st (reclaim_walk ss st) (reclaim_walk-Walked ss st)

EmptiesLast-Used : (ss : List Slab) → All Used ss → EmptiesLast ss
EmptiesLast-Used [] h = tt
EmptiesLast-Used (s ∷ ss) (p, h) = ((λ z. absurd (omega (arith, z, p))), EmptiesLast-Used ss h)

sum_zero :
    (ss : List Slab)
    → All Empty ss
    → (total Slab.sks_ref ss ≡ 0) × (total in_use ss ≡ 0) × ((a : ℕ) → total (refs_at a) ss ≡ 0)
sum_zero [] h = (refl, refl, λ a. refl)
sum_zero (s ∷ ss) (z, h) =
    let (x, y, w) = sum_zero ss h in
    (omega (arith, z, x), ground (arith, z, y), λ a. ground (arith, z, w a))

count_addr : (a : ℕ) (ss : List Slab) → times a (map Slab.sks_addr ss) ≡ total (at a) ss
count_addr a [] = refl
count_addr a (s ∷ ss) = omega (arith, count_addr a ss)

all-Used : (ss : List Slab) → All Used ss → total in_use ss ≡ total one ss
all-Used [] h = refl
all-Used (s ∷ ss) (p, h) = ground (arith, p, all-Used ss h)

Full-Used : (sko : ℕ → ℕ) (ss : List Slab) → All (Full sko) ss → All Used ss
Full-Used sko [] h = tt
Full-Used sko (s ∷ ss) ((f, e), h) = (omega (arith, f.some_objs, e), Full-Used sko ss h)

-- How often an address is memory of the cache that the cache alone uses: a slab, or off slab a free
-- object.
pub held : Cache → ℕ → ℕ
held c a =
    sums c.partial_list c.complete_list (at a)
    + (if c.flags.offslab then sums c.partial_list c.complete_list (free_at a) else 0)

-- What spl_slab_reclaim does to a cache: the invariant holds, no empty slab is left, each slab that is
-- counted is counted as in use, and just the memory that the cache no longer uses has been freed.
pub record Reclaimed (c : Cache) (out : List ℕ) (r : Cache × List ℕ) : Type 0 where
  pub inv : Inv r.0 out
  pub none_empty : All Used r.0.partial_list
  pub counted : r.0.slab_total ≡ r.0.slab_alloc
  pub freed : (a : ℕ) → held r.0 a + times a r.1 ≡ held c a

freed_memory :
    (off : Bool) (a x x' y y' : ℕ) (objs : List ℕ) (ss : List Slab)
    → x' + total (at a) ss ≡ x
    → y' + times a objs ≡ y
    → x' + (if off then y' else 0) + times a ((if off then objs else []) ++ map Slab.sks_addr ss)
      ≡ x + (if off then y else 0)
freed_memory true a x x' y y' objs ss e f =
    omega (arith, e, f, count_addr a ss, count-append (λ (z : ℕ). z) a objs (map Slab.sks_addr ss))
freed_memory false a x x' y y' objs ss e f = omega (arith, e, count_addr a ss)

-- spl_slab_reclaim on a cache that meets the invariant keeps it and leaves no empty slab, so that as
-- many slabs are counted as are counted in use. The addresses that it frees are just the slabs, and
-- for KMC_OFFSLAB the free objects, that the cache has no longer, each once.
pub spl_slab_reclaim-Reclaimed :
    (c : Cache) (out : List ℕ) → Inv c out → Reclaimed c out (spl_slab_reclaim c)
unfolding spl_slab_reclaim held
spl_slab_reclaim-Reclaimed c out i =
    let (ps, (d, w)) = reclaim_walk c.partial_list (c, record { sks_list = []; sko_list = [] }) in
    let k = reclaim_walk-Walked c.partial_list (c, record { sks_list = []; sko_list = [] }) in
    let n = i.counts in
    let (z1, z2, z3) = sum_zero w.sks_list (k.empty tt) in
    let cs = c.complete_list in
    let same_cs : d.complete_list ≡ cs = ap Cache.complete_list k.rest in
    let same_sko : d.sko_slab ≡ c.sko_slab = ap Cache.sko_slab k.rest in
    let same_alloc : d.slab_alloc ≡ c.slab_alloc = ap Cache.slab_alloc k.rest in
    let same_objs : d.obj_alloc ≡ c.obj_alloc = ap Cache.obj_alloc k.rest in
    let same_em : d.obj_emergency ≡ c.obj_emergency = ap Cache.obj_emergency k.rest in
    let split : (m : Slab → ℕ) → total m ps + total m w.sks_list ≡ total m c.partial_list =
      λ m. omega (arith, k.kept m) in
    let after : (m : Slab → ℕ) → sums ps d.complete_list m ≡ total m ps + total m cs =
      λ m. omega (arith, ap (total m) same_cs) in
    let slab_count : d.slab_total ≡ (total one cs + total one ps) % 2 ^ 64 =
      k.slabs (total one cs) (omega (arith, n.slabs)) in
    let objs_count : d.obj_total
        ≡ (total Slab.sks_objs cs + c.obj_emergency + total Slab.sks_objs ps) % 2 ^ 64 =
      k.all_objects (total Slab.sks_objs cs + c.obj_emergency) (omega (arith, n.all_objects)) in
    let used = k.used i.empties_last in
    record {
      inv = record {
        counts = record {
          slabs = omega (arith, slab_count, after one);
          used = omega (arith, n.used, after in_use, split in_use, z2, same_alloc);
          objects = omega (arith, n.objects, after Slab.sks_ref, split Slab.sks_ref, z1, same_objs);
          all_objects = omega (arith, objs_count, after Slab.sks_objs, same_em);
          once = λ a. omega (arith, n.once a, after (at a), split (at a));
          apart = λ o. omega (arith, n.apart o, after (free_at o), split (free_at o));
          refs = λ a. omega (
            arith,
            n.refs a,
            after (refs_at a),
            split (refs_at a),
            z3 a,
            ap (λ (f : ℕ → ℕ). count f a out) same_sko,
          );
        };
        partial_ok =
            subst (λ (f : ℕ → ℕ). All (Room f) ps) (sym same_sko)
              (k.keeps (Room c.sko_slab) i.partial_ok);
        complete_ok =
            subst (λ (f : ℕ → ℕ). All (Full f) d.complete_list) (sym same_sko)
              (subst (All (Full c.sko_slab)) (sym same_cs) i.complete_ok);
        empties_last = EmptiesLast-Used ps used;
      };
      none_empty = used;
      counted = omega (
        arith,
        slab_count,
        n.used,
        same_alloc,
        split in_use,
        z2,
        all-Used ps used,
        all-Used cs (Full-Used c.sko_slab cs i.complete_ok),
      );
      freed = λ a.
          let same_off : d.flags.offslab ≡ c.flags.offslab =
            ap (λ (x : Cache). x.flags.offslab) k.rest in
          subst
            (λ (f : Bool).
              sums ps d.complete_list (at a)
                + (if f then sums ps d.complete_list (free_at a) else 0)
                + times a
                    ((if c.flags.offslab then w.sko_list else []) ++ map Slab.sks_addr w.sks_list)
              ≡ sums c.partial_list cs (at a)
                + (if c.flags.offslab then sums c.partial_list cs (free_at a) else 0))
            (sym same_off)
            (freed_memory c.flags.offslab a (sums c.partial_list cs (at a))
              (sums ps d.complete_list (at a)) (sums c.partial_list cs (free_at a))
              (sums ps d.complete_list (free_at a)) w.sko_list w.sks_list
              (omega (arith, after (at a), split (at a)))
              (omega (arith, after (free_at a), k.objects a)));
    }
