-- ===== src/Slab/System.antt =====
-- A cache from its creation on, through any sequence of operations under skc_lock, and its end in
-- spl_kmem_cache_destroy.
use spl.Prelude.{ℕ, ◌^◌, ◌<◌, ◌≡◌, refl, sym, ap, Bool, Option, some, List, [], ◌∷◌, ◌++◌, arith}
use spl.Ordered.{count}
use spl.Slab.{Slab, Cache, Flags, Tree}
use spl.Slab.Objects.{take_slabs}
use spl.Slab.Release.{spl_cache_shrink, spl_slab_reclaim}
use spl.Slab.Grow.{Layout, spl_slab_alloc, __spl_cache_grow}
use spl.Slab.Grow.Added.{Fresh, Grew, __spl_cache_grow-Grew}
use spl.Slab.Lists.{count_middle}
use spl.Slab.Invariant.{Inv, Inv-out}
use spl.Slab.Invariant.Refill.{take_slabs-Refilled}
use spl.Slab.Invariant.Shrink.{spl_cache_shrink-Inv}
use spl.Slab.Invariant.Reclaim.{spl_slab_reclaim-Reclaimed}
use spl.Slab.Life.{Reclaimed-Emptied}

-- The fields that spl_kmem_cache_create sets for the slabs.
unfoldable pub new_cache : Flags → Cache
new_cache flags = record {
  flags = flags;
  complete_list = [];
  partial_list = [];
  emergency_tree = Tree.leaf;
  sko_slab = λ o. 0;
  slab_total = 0;
  slab_alloc = 0;
  slab_max = 0;
  obj_total = 0;
  obj_alloc = 0;
  obj_max = 0;
  obj_deadlock = 0;
  obj_emergency = 0;
  obj_emergency_max = 0;
}

pub new_cache-Inv : (flags : Flags) → Inv (new_cache flags) []
unfolding new_cache
new_cache-Inv flags = record {
  counts = record {
    slabs = refl;
    used = refl;
    objects = refl;
    all_objects = refl;
    once = λ a. omega arith;
    apart = λ o. omega arith;
    refs = λ a. refl;
  };
  partial_ok = tt;
  complete_ok = tt;
  empties_last = tt;
}

-- The caches that operations come to, with the objects that are taken from slabs: creation, a refill
-- of up to `r` objects, an object given back, a reclaim, and the growth by memory that is not in use.
pub data Reach : Cache → List ℕ → Type 0 where
  created : (flags : Flags) → Reach (new_cache flags) []
  taken :
      (j r : ℕ) {c : Cache} {out : List ℕ}
      → Reach c out
      → Reach (take_slabs j r c c.partial_list []).1 ((take_slabs j r c c.partial_list []).2 ++ out)
  given_back :
      (j o : ℕ) {c : Cache} (before after : List ℕ)
      → Reach c (before ++ (o ∷ after))
      → Reach (spl_cache_shrink j o c) (before ++ after)
  reclaimed : {c : Cache} {out : List ℕ} → Reach c out → Reach (spl_slab_reclaim c).0 out
  grown :
      (j : ℕ) (kv : ℕ → ℕ → Option ℕ) (l : Layout) {c : Cache} {out : List ℕ}
      → 0 < l.slab_objs
      → l.slab_objs < 2 ^ 32
      → ((s : Slab) → (spl_slab_alloc j kv l c.flags.offslab).0 ≡ some s → Fresh c out s)
      → Reach c out
      → Reach (__spl_cache_grow j kv l c).1.0 out

pub Grew-Inv :
    (c : Cache) (out memory : List ℕ) (r : Bool × (Cache × List ℕ))
    → Grew c out memory r
    → Inv c out
    → Inv r.1.0 out
Grew-Inv c out memory _ (Grew.grown d h) i = h
Grew-Inv c out memory _ (Grew.kept freed h) i = i

-- A cache after any sequence of refills, objects given back, reclaims and growth by memory that is
-- not in use meets the invariant with the objects that are taken: the counters are the sums over its
-- slabs, no slab is listed twice, no object is both free and taken or twice either, each slab has as
-- many references as objects of it are taken, full slabs are on the complete list and all others on
-- the partial list, and there the empty ones are at the end.
pub Reach-Inv : {c : Cache} {out : List ℕ} → Reach c out → Inv c out
Reach-Inv (created flags) = new_cache-Inv flags
Reach-Inv (taken j r {c} {out} h) =
    let t = take_slabs-Refilled j r c c.partial_list out [] (Reach-Inv h) in
    Inv-out _ _ _ (λ key a. ap (λ (xs : List ℕ). count key a (xs ++ out)) (sym t.stored)) t.inv
Reach-Inv (given_back j o {c} before after h) =
    spl_cache_shrink-Inv j o c (before ++ after)
      (Inv-out _ _ _ (λ key a. count_middle key a o before after) (Reach-Inv h))
Reach-Inv (reclaimed {c} {out} h) = (spl_slab_reclaim-Reclaimed c out (Reach-Inv h)).inv
Reach-Inv (grown j kv l {c} {out} p w f h) =
    Grew-Inv c out _ _ (__spl_cache_grow-Grew j kv l c out p w f (Reach-Inv h)) (Reach-Inv h)

-- Take a cache after any sequence of refills, objects given back, reclaims and growth by memory that
-- is not in use, in which no object is taken any more. After spl_slab_reclaim it has no slab on the
-- partial and the complete list, and the counts of slabs, of slabs in use and of objects in use are
-- 0.
pub Reach-destroyed :
    {c : Cache}
    → Reach c []
    → ((spl_slab_reclaim c).0.partial_list ≡ [])
      × ((spl_slab_reclaim c).0.complete_list ≡ [])
      × ((spl_slab_reclaim c).0.slab_total ≡ 0)
      × ((spl_slab_reclaim c).0.slab_alloc ≡ 0)
      × ((spl_slab_reclaim c).0.obj_alloc ≡ 0)
Reach-destroyed {c} h =
    let e = Reclaimed-Emptied (spl_slab_reclaim-Reclaimed c [] (Reach-Inv h)) in
    (e.partial_list, e.complete_list, e.slab_total, e.slab_alloc, e.obj_alloc)
