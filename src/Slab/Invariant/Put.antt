-- ===== src/Slab/Invariant/Put.antt =====
-- Putting an object back keeps the invariant.
use spl.Prelude.{
  All, All-append, ℕ, ◌+◌, ◌-◌, ◌%◌, ◌^◌, ◌<◌, ◌≡◌, refl, sym, ◌∙◌, subst, true, false, some, none,
  List, [], ◌∷◌, ◌++◌, ◌==◌, if◌then◌else◌, arith, Bool-cases, inl, inr,
}
use spl.Ordered.{remove}
use spl.Slab.{Slab, Cache, sub64}
use spl.Slab.Release.{find_slab, write_slab}
use spl.Slab.Lists.{total, remove-All, find-All}
use spl.Slab.Invariant.{one, in_use, at, refs_at, free_at, Fits, Room, Full, EmptiesLast, sums, Inv}

-- The slab that gets the object back.
abbrev pub put_slab : (j o : ℕ) → Slab → Slab
put_slab j o s = record s {
  sks_free_list = o ∷ s.sks_free_list;
  sks_age = j;
  sks_ref = (s.sks_ref + 2 ^ 32 - 1) % 2 ^ 32;
}

abbrev pub put_cache : (c : Cache) (n : ℕ) (ps cs : List Slab) → Cache
put_cache c n ps cs = record c {
  obj_alloc = sub64 c.obj_alloc 1;
  slab_alloc = n;
  partial_list = ps;
  complete_list = cs;
}

pub put-Inv :
    (j o n : ℕ) (c : Cache) (s : Slab) (ps cs : List Slab) (out : List ℕ)
    → Inv c (o ∷ out)
    → c.sko_slab o ≡ s.sks_addr
    → Fits c.sko_slab s
    → 0 < s.sks_ref
    → ((m : Slab → ℕ)
        → sums ps cs m + m s ≡ sums c.partial_list c.complete_list m + m (put_slab j o s))
    → n ≡ (if (put_slab j o s).sks_ref == 0 then sub64 c.slab_alloc 1 else c.slab_alloc)
    → All (Room c.sko_slab) ps
    → All (Full c.sko_slab) cs
    → EmptiesLast ps
    → Inv (put_cache c n ps cs) out
put-Inv j o n c s ps cs out i home f p e q r u l =
    let k = i.counts in
    let down : (s.sks_ref + 2 ^ 32 - 1) % 2 ^ 32 + 1 ≡ s.sks_ref =
      omega (arith, p, f.word, f.split) in
    record {
      counts = record {
        slabs = omega (arith, k.slabs, e one);
        used = ground (arith, k.used, e in_use, down, q);
        objects = omega (arith, k.objects, e Slab.sks_ref, down);
        all_objects = omega (arith, k.all_objects, e Slab.sks_objs);
        once = λ a. omega (arith, k.once a, e (at a));
        apart = λ x. omega (arith, k.apart x, e (free_at x));
        refs = λ a. ground (arith, k.refs a, e (refs_at a), home, down);
      };
      partial_ok = r;
      complete_ok = u;
      empties_last = l;
    }

pub put-Fits :
    (j o : ℕ) (sko : ℕ → ℕ) (s : Slab)
    → sko o ≡ s.sks_addr
    → Fits sko s
    → 0 < s.sks_ref
    → Fits sko (put_slab j o s)
put-Fits j o sko s home f p = record {
  split = omega (arith, p, f.split, f.word);
  some_objs = f.some_objs;
  word = f.word;
  homes = (home, f.homes);
}

-- No slab at the address.
pub absent_at :
    (a : ℕ) (ss : List Slab)
    → total (at a) ss ≡ 0
    → (find_slab a ss ≡ none) × (remove Slab.sks_addr a ss ≡ ss) × (total (refs_at a) ss ≡ 0)
unfolding find_slab remove
absent_at a [] e = (refl, refl, refl)
absent_at a (t ∷ ts) e = ground (arith, e, absent_at a ts)

pub none-absent : (a : ℕ) (ss : List Slab) → find_slab a ss ≡ none → total (at a) ss ≡ 0
unfolding find_slab
none-absent a [] e = refl
none-absent a (t ∷ ts) e = ground (arith, e, none-absent a ts)

pub snoc-EmptiesLast :
    (ps : List Slab) (t : Slab) → t.sks_ref ≡ 0 → EmptiesLast ps → EmptiesLast (ps ++ (t ∷ []))
snoc-EmptiesLast [] t z e = (λ _. tt, tt)
snoc-EmptiesLast (s ∷ ss) t z (h, e) = (
  λ y. All-append (λ (u : Slab). u.sks_ref ≡ 0) ss (t ∷ []) (h y) (z, tt),
  snoc-EmptiesLast ss t z e,
)

pub remove-EmptiesLast :
    (a : ℕ) (ps : List Slab) → EmptiesLast ps → EmptiesLast (remove Slab.sks_addr a ps)
unfolding remove
remove-EmptiesLast a [] e = e
remove-EmptiesLast a (s ∷ ss) (h, e) = elim (Bool-cases (s.sks_addr == a)) [
  | inl b ↦ rw b e
  | inr b ↦
      rw b (λ y. remove-All a (λ (u : Slab). u.sks_ref ≡ 0) ss (h y), remove-EmptiesLast a ss e)
]

-- A slab in use that stays in use.
pub write-EmptiesLast :
    (s w : Slab)
    → w.sks_addr ≡ s.sks_addr
    → 0 < s.sks_ref
    → 0 < w.sks_ref
    → (ps : List Slab) → find_slab s.sks_addr ps ≡ some s
    → EmptiesLast ps
    → EmptiesLast (write_slab w ps)
unfolding write_slab find_slab
write-EmptiesLast s w same p q [] e l = l
write-EmptiesLast s w same p q (t ∷ ts) e (h, l) = elim (Bool-cases (t.sks_addr == w.sks_addr)) [
  | inl b ↦ rw b ((λ y. absurd (omega (arith, y, q))), l)
  | inr b ↦
      let later : find_slab s.sks_addr ts ≡ some s =
        sym (rw (subst (λ (x : ℕ). (t.sks_addr == x) ≡ false) same b) refl) ∙ e in
      rw b (
        (λ y.
            absurd (
              omega
                (arith, find-All s.sks_addr s (λ (u : Slab). u.sks_ref ≡ 0) ts later (h y), p))),
        write-EmptiesLast s w same p q ts later l,
      )
]

pub remove_head : (s : Slab) (ss : List Slab) → remove Slab.sks_addr s.sks_addr (s ∷ ss) ≡ ss
unfolding remove
remove_head s ss = let e : (s.sks_addr == s.sks_addr) ≡ true = ground arith in rw e refl
