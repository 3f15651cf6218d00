-- ===== src/Slab/Percpu.antt =====
-- The magazines: __spl_cache_flush, spl_magazine_age, spl_kmem_cache_alloc and spl_kmem_cache_free, for
-- caches that are not backed by the Linux slab and without constructor and destructor.
pub mod Exchange
pub mod Fresh
use spl.Prelude.{
  ℕ, zero, suc, ◌+◌, ◌-◌, ◌*◌, Bool, true, false, Option, none, some, List, [], ◌∷◌, ◌++◌, length,
  ltb, leb, ◌==◌, if◌then◌else◌, ◌||◌, not,
}
use spl.Slab.{Magazine, Cache}
use spl.Slab.Objects.{Grown, Refill, spl_cache_refill}
use spl.Slab.Release.{spl_cache_shrink, spl_slab_reclaim}

-- The first `count` objects go back to their slabs and the others move to the front.
unfoldable pub flush_objs : (jiffies count : ℕ) → List ℕ → Cache → Cache × List ℕ
flush_objs j zero objs skc = (skc, objs)
flush_objs j (suc n) [] skc = (skc, [])
flush_objs j (suc n) (o ∷ os) skc = flush_objs j n os (spl_cache_shrink j o skc)

unfoldable pub __spl_cache_flush : (jiffies : ℕ) → Cache → Magazine → (flush : ℕ) → Cache × Magazine
unfolding flush_objs
__spl_cache_flush j skc skm flush =
    let count = if ltb flush (length skm.skm_objs) then flush else length skm.skm_objs in
    let (c, objs) = flush_objs j count skm.skm_objs skc in (c, record skm { skm_objs = objs })

-- The kernel's time_before and the delay in ticks are parameters. The lock may be contended.
unfoldable pub spl_magazine_age :
    (time_before : ℕ → ℕ → Bool) (delay jiffies : ℕ) (trylock : Bool)
    → Cache
    → Magazine
    → Cache × Magazine
unfolding __spl_cache_flush
spl_magazine_age time_before delay j trylock skc skm =
    if length skm.skm_objs == 0 || time_before j (skm.skm_age + delay)
    then (skc, skm)
    else if trylock
    then __spl_cache_flush j skc skm skm.skm_refill
    else (skc, skm)

-- The last object of a magazine, with the others.
unfoldable pub last : List ℕ → Option (List ℕ × ℕ)
last [] = none
last (o ∷ os) = elim (last os) [ none ↦ some ([], o) | some (xs, x) ↦ some (o ∷ xs, x) ]

-- A pass of spl_kmem_cache_alloc through a refill: the calls of spl_cache_grow in it, and the cache and
-- the magazine that a restart finds.
pub record Pass : Type 0 where
  pub grows : List (Cache → List ℕ → Grown)
  pub restart : Cache → Magazine → Cache × Magazine

-- How spl_kmem_cache_alloc ends: with an object of a magazine, with an emergency object, with NULL, or
-- it has not ended yet.
pub data Alloc : Type 0 where
  object : ℕ → Cache → Magazine → Alloc
  emergency_object : ℕ → Cache → Magazine → Alloc
  null : Cache → Magazine → Alloc
  pending : Cache → Magazine → Alloc

-- After a refill: it restarts unless there is an emergency object or the caller may not sleep.
unfoldable pub after_refill :
    (nosleep : Bool) → Magazine → (restart : Cache → Magazine → Alloc) → Refill → Alloc
after_refill nosleep skm restart (Refill.emergency o c os) =
    emergency_object o c (record skm { skm_objs = os })
after_refill nosleep skm restart (Refill.growing r c os) = pending c (record skm { skm_objs = os })
after_refill nosleep skm restart (Refill.refilled c os) =
    let m = record skm { skm_objs = os } in if nosleep then null c m else restart c m

unfoldable pub spl_kmem_cache_alloc :
    (jiffies : ℕ) (nosleep : Bool) → Cache → Magazine → List Pass → Alloc
unfolding last after_refill
spl_kmem_cache_alloc j nosleep skc skm [] = elim (last skm.skm_objs) [
  | some (os, o) ↦ object o skc (record skm { skm_objs = os; skm_age = j })
  | none ↦ pending skc skm
]
spl_kmem_cache_alloc j nosleep skc skm (pass ∷ passes) =
    let restart = λ (c : Cache) (m : Magazine).
      spl_kmem_cache_alloc j nosleep (pass.restart c m).0 (pass.restart c m).1 passes in
    elim (last skm.skm_objs) [
      | some (os, o) ↦ object o skc (record skm { skm_objs = os; skm_age = j })
      | none ↦ after_refill nosleep skm restart (spl_cache_refill j skc skm pass.grows)
    ]

-- The part of spl_kmem_cache_free for an object that is not an emergency object, with the memory that
-- is freed.
unfoldable pub free_object : (jiffies : ℕ) → Cache → Magazine → ℕ → (Cache × List ℕ) × Magazine
unfolding __spl_cache_flush
free_object j skc skm obj =
    let do_reclaim = leb skm.skm_size (length skm.skm_objs) in
    let (c, m) = if do_reclaim then __spl_cache_flush j skc skm skm.skm_refill else (skc, skm) in
    let m1 = record m { skm_objs = m.skm_objs ++ (obj ∷ []) } in
    (if do_reclaim then spl_slab_reclaim c else (c, []), m1)
