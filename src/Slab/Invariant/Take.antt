-- ===== src/Slab/Invariant/Take.antt =====
-- Taking objects from slabs keeps the invariant.
use spl.Prelude.{
  All, ℕ, zero, suc, ◌+◌, ◌%◌, ◌^◌, ◌≤◌, ◌<◌, ◌≡◌, refl, sym, ap, ◌∙◌, subst, some, List, [], ◌∷◌,
  ◌++◌, ltb, ◌==◌, if◌then◌else◌, length, arith, ◌⊎◌, inl, inr, if_elim,
}
use spl.Slab.{Slab, Cache, add64}
use spl.Slab.Objects.{spl_cache_obj, Taken, take_objs}
use spl.Slab.Lists.{append_nil, append_one, count_middle}
use spl.Slab.Invariant.{times, Counts, Fits, Room, Counts-sums}

-- The slab and the counters that spl_cache_obj leaves.
pub record Took (j : ℕ) (c : Cache) (s : Slab) (o : ℕ) (s' : Slab) (c' : Cache) : Type 0 where
  pub result : spl_cache_obj j c s ≡ some (o, s', c')
  pub home : c.sko_slab o ≡ s.sks_addr
  pub ref_up : s'.sks_ref ≡ s.sks_ref + 1
  pub fits : Fits c.sko_slab s'
  pub same_addr : s'.sks_addr ≡ s.sks_addr
  pub same_objs : s'.sks_objs ≡ s.sks_objs
  pub same_partial : c'.partial_list ≡ c.partial_list
  pub same_complete : c'.complete_list ≡ c.complete_list
  pub same_sko : c'.sko_slab ≡ c.sko_slab
  pub counted :
      (rest : (Slab → ℕ) → ℕ) (out : List ℕ)
      → Counts c (λ g. g s + rest g) out
      → Counts c' (λ g. g s' + rest g) (o ∷ out)

taken_from :
    (j : ℕ) (c : Cache) (s : Slab) (xs : List ℕ)
    → s.sks_free_list ≡ xs
    → Room c.sko_slab s
    → (o : ℕ) × (s' : Slab) × (c' : Cache) × Took j c s o s' c'
unfolding spl_cache_obj
taken_from j c s [] e (f, l) =
    let none_free : length s.sks_free_list ≡ 0 = ap length e in
    absurd (omega (arith, f.split, l, none_free))
taken_from j c s (o ∷ rest) e (f, l) =
    let some_free : length s.sks_free_list ≡ suc (length rest) = ap length e in
    let homes : All (λ (x : ℕ). c.sko_slab x ≡ s.sks_addr) (o ∷ rest) =
      subst (All (λ (x : ℕ). c.sko_slab x ≡ s.sks_addr)) e f.homes in
    let up : (s.sks_ref + 1) % 2 ^ 32 ≡ s.sks_ref + 1 = omega (arith, f.word, l) in
    let s' = record s { sks_free_list = rest; sks_age = j; sks_ref = (s.sks_ref + 1) % 2 ^ 32 } in
    let alloc = add64 c.obj_alloc 1 in
    let slab_alloc = if s'.sks_ref == 1 then add64 c.slab_alloc 1 else c.slab_alloc in
    let c' = record c {
      obj_alloc = alloc;
      obj_max = if ltb c.obj_max alloc then alloc else c.obj_max;
      slab_alloc = slab_alloc;
      slab_max = if ltb c.slab_max slab_alloc then slab_alloc else c.slab_max;
    } in
    (
      o,
      s',
      c',
      record {
        result = rw e refl;
        home = homes.0;
        ref_up = up;
        fits = record {
          split = omega (arith, f.split, some_free, up);
          some_objs = f.some_objs;
          word = f.word;
          homes = homes.1;
        };
        same_addr = refl;
        same_objs = refl;
        same_partial = refl;
        same_complete = refl;
        same_sko = refl;
        counted = λ r out k. record {
          slabs = k.slabs;
          used = ground (arith, k.used, up);
          objects = omega (arith, k.objects, up);
          all_objects = k.all_objects;
          once = k.once;
          apart = λ x.
              let moved : times x s.sks_free_list ≡ times x (o ∷ rest) = ap (times x) e in
              omega (arith, k.apart x, moved);
          refs = λ a. ground (arith, k.refs a, up, homes.0);
        };
      },
    )

took :
    (j : ℕ) (c : Cache) (s : Slab)
    → Room c.sko_slab s
    → (o : ℕ) × (s' : Slab) × (c' : Cache) × Took j c s o s' c'
took j c s r = taken_from j c s s.sks_free_list refl r

-- What the inner loop leaves: `new` are the objects that it took.
pub record TookAll (r : ℕ) (c : Cache) (s : Slab) (objs : List ℕ) (t : Taken) : Type 0 where
  pub new : List ℕ
  pub stored : t.objs ≡ objs ++ new
  pub wanted : t.wanted + length new ≡ r
  pub grew : t.slab.sks_ref ≡ s.sks_ref + length new
  pub fits : Fits c.sko_slab t.slab
  pub below : t.slab.sks_ref ≤ t.slab.sks_objs
  pub same_complete : t.cache.complete_list ≡ c.complete_list
  pub same_sko : t.cache.sko_slab ≡ c.sko_slab
  pub ended : (t.wanted ≡ 0) ⊎ (t.slab.sks_ref ≡ t.slab.sks_objs)
  pub counted :
      (rest : (Slab → ℕ) → ℕ) (out : List ℕ)
      → Counts c (λ g. g s + rest g) out
      → Counts t.cache (λ g. g t.slab + rest g) (new ++ out)

-- No object is taken.
stopped :
    (r : ℕ) (c : Cache) (s : Slab) (objs : List ℕ)
    → Fits c.sko_slab s
    → s.sks_ref ≤ s.sks_objs
    → (r ≡ 0) ⊎ (s.sks_ref ≡ s.sks_objs)
    → TookAll r c s objs (record { wanted = r; slab = s; cache = c; objs = objs })
stopped r c s objs f l e = record {
  new = [];
  stored = sym (append_nil objs);
  wanted = omega arith;
  grew = omega arith;
  fits = f;
  below = l;
  same_complete = refl;
  same_sko = refl;
  ended = e;
  counted = λ rest out k. k;
}

pub take_objs-TookAll :
    (j r : ℕ) (c : Cache) (s : Slab) (objs : List ℕ)
    → Fits c.sko_slab s
    → s.sks_ref ≤ s.sks_objs
    → TookAll r c s objs (take_objs j r c s objs)
unfolding take_objs
take_objs-TookAll j zero c s objs f l = stopped 0 c s objs f l (inl refl)
take_objs-TookAll j (suc r) c s objs f l =
    if_elim (TookAll (suc r) c s objs) (ltb s.sks_ref s.sks_objs) _ _
      (λ b.
        let room : s.sks_ref < s.sks_objs = ground (arith, b) in
        let (o, s', c', t) = took j c s (f, room) in
        let z =
          take_objs-TookAll j r c' s' (objs ++ (o ∷ []))
            (subst (λ (h : ℕ → ℕ). Fits h s') (sym t.same_sko) t.fits)
            (omega (arith, t.ref_up, t.same_objs, room)) in
        rw t.result (record {
          new = o ∷ z.new;
          stored = z.stored ∙ append_one objs o z.new;
          wanted = omega (arith, z.wanted);
          grew = omega (arith, z.grew, t.ref_up);
          fits =
              subst (λ (h : ℕ → ℕ). Fits h (take_objs j r c' s' (objs ++ (o ∷ []))).slab) t.same_sko
                z.fits;
          below = z.below;
          same_complete = z.same_complete ∙ t.same_complete;
          same_sko = z.same_sko ∙ t.same_sko;
          ended = z.ended;
          counted = λ rest out k.
              Counts-sums _ _ _ _ _ (λ m. refl) (λ key a. count_middle key a o z.new out)
                (z.counted rest (o ∷ out) (t.counted rest out k));
        }))
      (λ b. stopped (suc r) c s objs f l (inr (ground (arith, b, l))))
