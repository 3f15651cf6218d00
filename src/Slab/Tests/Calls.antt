-- ===== src/Slab/Tests/Calls.antt =====
-- The end of a cache, reaping and growing at sample states.
use spl.Prelude.{◌^◌, ◌+◌, ◌<◌, ◌≡◌, refl, true, false, Option, some, [], ◌∷◌, arith, subst}
use spl.Slab.{Slab, Magazine}
use spl.Slab.Objects.{take_slabs}
use mathlib.Core.Option.{some-injective}
use spl.Slab.Grow.{spl_slab_alloc, __spl_cache_grow}
use spl.Slab.Grow.Added.{Fresh}
use spl.Slab.System.{new_cache, Reach, Reach-Inv}
use spl.Slab.Life.{destroy_slabs, Emptied, destroy_slabs-Emptied}
use spl.Slab.Reap.{Local, age_again, spl_kmem_cache_reap_now}
use spl.Slab.Reap.Reaped.{Kept, Answer, spl_kmem_cache_reap_now-Reaped}
use spl.Slab.Async.{Growth, Meets, spl_cache_grow}
use spl.Slab.Async.Forward.{Ready, Grown, spl_cache_grow-Grown}
use spl.Slab.Invariant.{Inv}
use spl.Slab.Shrinker.{Entry, __spl_kmem_cache_generic_shrinker}
use spl.Slab.Shrinker.Shrunk.{Reapable, Shrunk, __spl_kmem_cache_generic_shrinker-Shrunk}
use spl.Slab.Tests.{plain, two, at_4096, two-Fresh, one_slab-Reach, both_taken, empty_magazine}

-- Both objects of the only slab are in the magazine.
abbrev full_magazine : Magazine
full_magazine = record empty_magazine { skm_objs = 4160 ∷ 4176 ∷ [] }

both-Inv : Inv both_taken (4160 ∷ 4176 ∷ [])
unfolding take_slabs __spl_cache_grow new_cache
both-Inv = Reach-Inv (Reach.taken 8 2 one_slab-Reach)

no_emergency : both_taken.obj_emergency ≡ 0
unfolding take_slabs __spl_cache_grow new_cache
no_emergency = refl

destroy_slabs-Emptied_example :
    Emptied (destroy_slabs 9 both_taken (full_magazine ∷ [])).0
    × ((destroy_slabs 9 both_taken (full_magazine ∷ [])).0.obj_total ≡ 0)
destroy_slabs-Emptied_example =
    destroy_slabs-Emptied 9 both_taken (full_magazine ∷ []) both-Inv no_emergency

abbrev busy : Local
busy = record { cache = both_taken; mag = full_magazine }

few_objs : busy.cache.obj_alloc + 1 < 9
unfolding take_slabs __spl_cache_grow new_cache
few_objs = omega arith

idle : busy.cache.flags.reaping ≡ false
unfolding take_slabs __spl_cache_grow new_cache
idle = refl

-- A reclaim function that finds nothing to give back.
abbrev gives_nothing : Option (Local → Local)
gives_nothing = some (λ s. s)

gives_keeps : (f : Local → Local) → gives_nothing ≡ some f → (t : Local) → Kept t → Kept (f t)
gives_keeps f e t k = subst (λ (g : Local → Local). Kept (g t)) (some-injective _ f e) k

spl_kmem_cache_reap_now-Reaped_example :
    Answer (spl_kmem_cache_reap_now 9 8 false true gives_nothing busy)
spl_kmem_cache_reap_now-Reaped_example =
    spl_kmem_cache_reap_now-Reaped 9 8 true gives_nothing busy gives_keeps few_objs idle
      (record { others = []; holds = record { inv = both-Inv; bound = omega arith } })

abbrev busy_entry : Entry
busy_entry = record { local = busy; kmc_slab = false; reclaim = gives_nothing }

busy-Reapable : Reapable 9 busy_entry
busy-Reapable = record {
  own_slabs = refl;
  keeps = gives_keeps;
  few = few_objs;
  idle = idle;
  kept = record { others = []; holds = record { inv = both-Inv; bound = omega arith } };
}

few_in_all : busy.cache.obj_alloc + 0 < 2 ^ 31
unfolding take_slabs __spl_cache_grow new_cache
few_in_all = omega arith

__spl_kmem_cache_generic_shrinker-Shrunk_example :
    Shrunk 4
      (busy_entry ∷ [])
      (__spl_kmem_cache_generic_shrinker 9 8 true true true false 4 (busy_entry ∷ []))
__spl_kmem_cache_generic_shrinker-Shrunk_example =
    __spl_kmem_cache_generic_shrinker-Shrunk 9 8 true true true 4 (busy_entry ∷ [])
      (busy-Reapable, tt) few_in_all

-- KMC_BIT_DESTROY is seen after the second dispatch, which is canceled.
aged_again :
    age_again (
      record { destroy_before = false; id = 0; destroy_after = false }
      ∷ record { destroy_before = false; id = 5; destroy_after = true }
      ∷ [])
    ≡ some (5, 5 ∷ [])
unfolding age_again
aged_again = refl

abbrev growth : Growth
growth = record { cache = new_cache plain; ref = 1; callers = 1; works = 0 }

abbrev quiet_meets : Meets
quiet_meets = record {
  wait_on_bit = 0;
  reaped = λ s. s;
  kv_nosleep = at_4096;
  kmalloc = true;
  ske_kmalloc = true;
  pages = 8192;
  unlocked = λ s. s;
  waited = λ s. s;
  remaining = 0;
}

unfoldable growth-Ready : Ready [] growth
unfolding new_cache
growth-Ready = record {
  others = [];
  inv = Reach-Inv (Reach.created plain);
  one_work = refl;
  refs = refl;
}

first_slab :
    (s : Slab)
    → (spl_slab_alloc 7 at_4096 two growth.cache.flags.offslab).0 ≡ some s
    → Fresh growth.cache [] s
unfolding new_cache
first_slab s e = two-Fresh s e

spl_cache_grow-Grown_example :
    Grown [] 8192 (spl_cache_grow (λ t. t) (λ o t. t) quiet_meets 7 two growth)
unfolding growth-Ready
spl_cache_grow-Grown_example =
    spl_cache_grow-Grown [] 7 two (omega arith) (omega arith) (λ t. t) (λ o t. t) quiet_meets
      (λ s r. r) (λ s r. r) (λ s r. r) growth growth-Ready first_slab
