-- ===== src/Slab/Shrinker.antt =====
-- __spl_kmem_cache_generic_shrinker: the kernel asks all caches for their memory, or for the number of
-- their objects.
pub mod Shrunk
use spl.Prelude.{
  ℕ, ◌+◌, ◌-◌, ◌%◌, ◌^◌, Bool, true, false, Option, none, some, List, [], ◌∷◌, ltb, leb, ◌==◌, ◌&&◌,
  not, if◌then◌else◌,
}
use spl.Slab.Reap.{Local, spl_kmem_cache_reap_now}

-- A cache on spl_kmem_cache_list: with the magazine of this CPU, whether it is backed by the Linux slab,
-- and its reclaim function, which is taken to change no other cache.
pub record Entry : Type 0 where
  pub local : Local
  pub kmc_slab : Bool
  pub reclaim : Option (Local → Local)

-- SHRINK_STOP or a number of objects.
pub data Reply : Type 0 where
  stop : Reply
  objects : ℕ → Reply

abbrev pub obj_alloc : Entry → ℕ
obj_alloc e = e.local.cache.obj_alloc

-- spl_kmem_cache_reap_now of a cache. It does not read its count.
abbrev pub reaped_entry : Entry → Option (Local × List ℕ) → Option Entry
reaped_entry e none = none
reaped_entry e (some (s, freed)) = some (record e { local = s })

unfoldable pub reap_entry : (fuel jiffies : ℕ) (expire_mem : Bool) → Entry → Option Entry
reap_entry fuel j expire_mem e =
    reaped_entry e (spl_kmem_cache_reap_now fuel j e.kmc_slab expire_mem e.reclaim e.local)

-- `alloc` is an int, here its 32-bit pattern. With HAVE_SPLIT_SHRINKER_CALLBACK it counts the objects
-- that are given back, and else those that are left.
unfoldable pub counted : (split : Bool) → Entry → Entry → (alloc : ℕ) → ℕ
counted true e e' alloc =
    if ltb (obj_alloc e') (obj_alloc e)
    then (alloc + (obj_alloc e - obj_alloc e')) % 2 ^ 32
    else alloc
counted false e e' alloc = (alloc + obj_alloc e') % 2 ^ 32

abbrev pub keep : Entry → Option (ℕ × List Entry) → Option (ℕ × List Entry)
keep e none = none
keep e (some (alloc, es)) = some (alloc, e ∷ es)

-- The loop of a request to free objects; `none` is that the fuel of a cache has run out.
unfoldable pub scan :
    (fuel jiffies : ℕ) (expire_mem split : Bool) (alloc : ℕ) → List Entry → Option (ℕ × List Entry)
unfolding reap_entry counted
scan fuel j expire_mem split alloc [] = some (alloc, [])
scan fuel j expire_mem split alloc (e ∷ es) = elim (reap_entry fuel j expire_mem e) [
  | none ↦ none
  | some e' ↦ keep e' (scan fuel j expire_mem split (counted split e e' alloc) es)
]

-- The loop of a query.
unfoldable pub query : (alloc : ℕ) → List Entry → ℕ
query alloc [] = alloc
query alloc (e ∷ es) = query ((alloc + obj_alloc e) % 2 ^ 32) es

-- MAX(alloc, 0).
abbrev pub not_negative : ℕ → ℕ
not_negative alloc = if leb (2 ^ 31) alloc then 0 else alloc

-- `once` is KMC_RECLAIM_ONCE.
abbrev pub scanned_reply : (once : Bool) → Option (ℕ × List Entry) → Option (Reply × List Entry)
scanned_reply once none = none
scanned_reply once (some (alloc, es)) =
    some (if once then stop else objects (not_negative alloc), es)

unfoldable pub __spl_kmem_cache_generic_shrinker :
    (fuel jiffies : ℕ) (expire_mem split once fstrans : Bool) (nr_to_scan : ℕ)
    → List Entry
    → Option (Reply × List Entry)
unfolding scan query
__spl_kmem_cache_generic_shrinker fuel j expire_mem split once fstrans nr_to_scan es =
    if not (nr_to_scan == 0) && fstrans
    then some (stop, es)
    else if nr_to_scan == 0
    then some (objects (not_negative (query 0 es)), es)
    else scanned_reply once (scan fuel j expire_mem split 0 es)
