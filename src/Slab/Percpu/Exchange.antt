-- ===== src/Slab/Percpu/Exchange.antt =====
-- Objects between callers, magazines and slabs.
use spl.Prelude.{
  ℕ, zero, suc, ◌-◌, ◌≤◌, ◌<◌, ◌≡◌, refl, sym, ap, ◌∙◌, subst, List, [], ◌∷◌, ◌++◌, drop, length,
  length-append, ltb, leb, if◌then◌else◌, arith, Bool-cases, inl, inr, min,
}
use spl.Slab.{Magazine, Cache}
use spl.Slab.Release.{spl_cache_shrink}
use spl.Slab.Lists.{append_one}
use spl.Slab.Percpu.{flush_objs, __spl_cache_flush, free_object}
use spl.Slab.Invariant.{Inv}
use spl.Slab.Invariant.Shrink.{spl_cache_shrink-Inv}
use spl.Slab.Invariant.Reclaim.{spl_slab_reclaim-Reclaimed}

-- The objects of a magazine and those that others have are the taken ones, and the magazine is not
-- overfull.
pub record Holds (c : Cache) (m : Magazine) (others : List ℕ) : Type 0 where
  pub inv : Inv c (m.skm_objs ++ others)
  pub bound : length m.skm_objs ≤ m.skm_size

flush_objs-Inv :
    (j n : ℕ) (objs : List ℕ) (c : Cache) (others : List ℕ)
    → Inv c (objs ++ others)
    → Inv (flush_objs j n objs c).0 ((flush_objs j n objs c).1 ++ others)
unfolding flush_objs
flush_objs-Inv j zero objs c others i = i
flush_objs-Inv j (suc n) [] c others i = i
flush_objs-Inv j (suc n) (o ∷ os) c others i =
    flush_objs-Inv j n os (spl_cache_shrink j o c) others
      (spl_cache_shrink-Inv j o c (os ++ others) i)

flush_objs-drop : (j n : ℕ) (objs : List ℕ) (c : Cache) → (flush_objs j n objs c).1 ≡ drop n objs
unfolding flush_objs
flush_objs-drop j zero objs c = refl
flush_objs-drop j (suc n) [] c = refl
flush_objs-drop j (suc n) (o ∷ os) c = flush_objs-drop j n os (spl_cache_shrink j o c)

length-drop : (n : ℕ) (xs : List ℕ) → length (drop n xs) ≡ length xs - n
length-drop zero xs = omega arith
length-drop (suc n) [] = omega arith
length-drop (suc n) (x ∷ xs) = omega (arith, length-drop n xs)

-- What a flush does: `count` objects leave the magazine.
pub record Flushed (others : List ℕ) (m : Magazine) (count : ℕ) (r : Cache × Magazine)
    : Type 0 where
  pub inv : Inv r.0 (r.1.skm_objs ++ others)
  pub newest : r.1.skm_objs ≡ drop count m.skm_objs
  pub size : r.1.skm_size ≡ m.skm_size

-- __spl_cache_flush keeps the invariant and leaves the newest objects in the magazine, all but as many
-- as it was asked to flush.
pub __spl_cache_flush-Flushed :
    (j : ℕ) (c : Cache) (m : Magazine) (flush : ℕ) (others : List ℕ)
    → Inv c (m.skm_objs ++ others)
    → Flushed others m (min flush (length m.skm_objs)) (__spl_cache_flush j c m flush)
unfolding __spl_cache_flush
__spl_cache_flush-Flushed j c m flush others i =
    let n = if ltb flush (length m.skm_objs) then flush else length m.skm_objs in
    let e : n ≡ min flush (length m.skm_objs) = ground arith in
    record {
      inv = flush_objs-Inv j n m.skm_objs c others i;
      newest = flush_objs-drop j n m.skm_objs c ∙ ap (λ (k : ℕ). drop k m.skm_objs) e;
      size = refl;
    }

put_last :
    (c : Cache) (m : Magazine) (o : ℕ) (others : List ℕ)
    → Inv c (m.skm_objs ++ (o ∷ others))
    → Inv c ((m.skm_objs ++ (o ∷ [])) ++ others)
put_last c m o others i = subst (Inv c) (sym (append_one m.skm_objs o others)) i

-- Freeing an object that a caller holds to a magazine that is not overfull, whose size and refill
-- count are not 0, on a cache that meets the invariant: afterwards the invariant holds, the magazine
-- is not overfull, and the object is no longer among those that others have.
pub free_object-Holds :
    (j : ℕ) (c : Cache) (m : Magazine) (o : ℕ) (others : List ℕ)
    → 0 < m.skm_size
    → 0 < m.skm_refill
    → Holds c m (o ∷ others)
    → Holds (free_object j c m o).0.0 (free_object j c m o).1 others
unfolding free_object
free_object-Holds j c m o others s r h = elim (Bool-cases (leb m.skm_size (length m.skm_objs))) [
  | inr b ↦ rw b (record {
    inv = put_last c m o others h.inv;
    bound = ground (arith, b, length-append m.skm_objs (o ∷ []));
  })
  | inl b ↦
      let f = __spl_cache_flush-Flushed j c m m.skm_refill (o ∷ others) h.inv in
      let (c1, m1) = __spl_cache_flush j c m m.skm_refill in
      let shorter : length m1.skm_objs ≡ length m.skm_objs - min m.skm_refill (length m.skm_objs) =
        ap length f.newest ∙ length-drop _ m.skm_objs in
      rw b (record {
        inv = (spl_slab_reclaim-Reclaimed c1 _ (put_last c1 m1 o others f.inv)).inv;
        bound = omega (arith, f.size, shorter, h.bound, length-append m1.skm_objs (o ∷ []));
      })
]
