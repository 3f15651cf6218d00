-- ===== src/Slab/Reap.antt =====
-- spl_kmem_cache_reap_now and spl_cache_age: memory goes back to the system when the kernel asks for it,
-- or after some time.
pub mod Reaped
pub mod Aged
use spl.Prelude.{
  ℕ, zero, suc, ◌+◌, ◌-◌, ◌%◌, ◌^◌, Bool, true, false, Option, none, some, List, [], ◌∷◌, length,
  ltb, ◌==◌, ◌&&◌, not, if◌then◌else◌,
}
use spl.Slab.{Slab, Magazine, Cache, sub64}
use spl.Slab.Release.{spl_slab_reclaim}
use spl.Slab.Percpu.{__spl_cache_flush, spl_magazine_age}

-- The cache, and the magazine of the CPU that reaps.
pub record Local : Type 0 where
  pub cache : Cache
  pub mag : Magazine

abbrev pub uint64_max : ℕ
uint64_max = 2 ^ 64 - 1

-- Whether the reclaim callback is to be called, where `objects` is what the last pass saw.
unfoldable pub do_reclaim : (objects : ℕ) → Cache → Bool
do_reclaim objects skc =
    (ltb 0 skc.slab_total && (sub64 skc.slab_total skc.slab_alloc == 0))
    && ltb skc.obj_alloc objects

-- The loop around the callback, with fuel for its passes; `none` is that the fuel has run out.
unfoldable pub reclaim_loop : ℕ → (reclaim : Local → Local) → (objects : ℕ) → Local → Option Local
unfolding do_reclaim
reclaim_loop zero reclaim objects s = none
reclaim_loop (suc fuel) reclaim objects s =
    let rest = reclaim_loop fuel reclaim s.cache.obj_alloc (reclaim s) in
    if do_reclaim objects s.cache then rest else some s

abbrev pub set_reaping : Bool → Cache → Cache
set_reaping b skc = record skc { flags = record skc.flags { reaping = b } }

-- From the magazine too, when spl_kmem_cache_expire has KMC_EXPIRE_MEM. With the addresses that are
-- freed.
unfoldable pub reap_slabs : (jiffies : ℕ) (expire_mem : Bool) → Local → Local × List ℕ
reap_slabs j expire_mem s =
    let (c, m) =
      if expire_mem
      then __spl_cache_flush j s.cache s.mag (length s.mag.skm_objs)
      else (s.cache, s.mag) in
    let (d, freed) = spl_slab_reclaim c in (record { cache = set_reaping false d; mag = m }, freed)

abbrev pub reap_rest : (jiffies : ℕ) (expire_mem : Bool) → Option Local → Option (Local × List ℕ)
reap_rest j expire_mem none = none
reap_rest j expire_mem (some s) = some (reap_slabs j expire_mem s)

-- Without a reclaim function there is no loop.
abbrev pub reap_loop : ℕ → Option (Local → Local) → Local → Option Local
reap_loop fuel none s = some s
reap_loop fuel (some reclaim) s = reclaim_loop fuel reclaim uint64_max s

-- skc_ref, which is raised for the time of the call, is left out. A cache with KMC_SLAB has only its reclaim function called. A cache that is being reaped is left to
-- the other caller.
unfoldable pub spl_kmem_cache_reap_now :
    (fuel jiffies : ℕ) (kmc_slab expire_mem : Bool) (reclaim : Option (Local → Local))
    → Local
    → Option (Local × List ℕ)
unfolding reclaim_loop reap_slabs
spl_kmem_cache_reap_now fuel j kmc_slab expire_mem reclaim s =
    if kmc_slab
    then some (elim reclaim [ none ↦ s | some f ↦ f s ], [])
    else if s.cache.flags.reaping
    then some (s, [])
    else reap_rest j expire_mem
        (reap_loop fuel reclaim (record s { cache = set_reaping true s.cache }))

-- on_each_cpu of spl_magazine_age. The lock may be contended on any CPU.
unfoldable pub age_all :
    (time_before : ℕ → ℕ → Bool) (delay jiffies : ℕ) (trylock : ℕ → Bool)
    → (cpu : ℕ) → Cache
    → List Magazine
    → Cache × List Magazine
age_all time_before delay j trylock cpu skc [] = (skc, [])
age_all time_before delay j trylock cpu skc (m ∷ ms) =
    let (c, m') = spl_magazine_age time_before delay j (trylock cpu) skc m in
    let (d, ms') = age_all time_before delay j trylock (cpu + 1) c ms in (d, m' ∷ ms')

-- The part of spl_cache_age before it dispatches itself again.
unfoldable pub age_cache :
    (time_before : ℕ → ℕ → Bool) (delay jiffies : ℕ) (trylock : ℕ → Bool) (nomagazine : Bool)
    → Cache
    → List Magazine
    → (Cache × List Magazine) × List ℕ
unfolding age_all
age_cache time_before delay j trylock nomagazine skc ms =
    let (c, ns) = if nomagazine then (skc, ms) else age_all time_before delay j trylock 0 skc ms in
    let (d, freed) = spl_slab_reclaim c in ((d, ns), freed)

-- One pass of the loop that dispatches spl_cache_age again: whether KMC_BIT_DESTROY is seen before the
-- dispatch, the id that taskq_dispatch_delay gives, and whether the bit is seen after it.
pub record Attempt : Type 0 where
  pub destroy_before : Bool
  pub id : ℕ
  pub destroy_after : Bool

-- The id that is stored, and the ids that are canceled. The loop goes on while there is no id; it has
-- not ended yet when there are no more attempts.
unfoldable pub age_again : List Attempt → Option (ℕ × List ℕ)
age_again [] = none
age_again (a ∷ more) =
    let rest = age_again more in
    if a.destroy_before
    then some (0, [])
    else if a.id == 0
    then rest
    else some (a.id, if a.destroy_after then a.id ∷ [] else [])
