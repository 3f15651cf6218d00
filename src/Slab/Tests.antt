-- ===== src/Slab/Tests.antt =====
-- Slab caches at sample states.
mod Trees
mod Calls
mod Caches
use mathlib.Core.Option.{some-injective}
use spl.Prelude.{
  ℕ, ◌+◌, ◌-◌, ◌*◌, ◌%◌, ◌^◌, ◌≤◌, ◌<◌, ◌≡◌, refl, sym, ap, ◌∙◌, subst, ◌⊎◌, Bool, true, false,
  Option, some, none, List, [], ◌∷◌, ◌++◌, ◌==◌, if◌then◌else◌, arith,
}
use spl.Slab.{Slab, Magazine, Tree, Flags, Cache}
use spl.Slab.Objects.{take_slabs}
use spl.Slab.Release.{spl_cache_shrink, spl_slab_reclaim}
use spl.Slab.Grow.{Layout, spl_slab_alloc, __spl_cache_grow}
use spl.Slab.Grow.Added.{Fresh, Grew, got, __spl_cache_grow-Grew}
use spl.Slab.Percpu.{Pass, Alloc, spl_kmem_cache_alloc, free_object}
use spl.Slab.Percpu.Exchange.{Holds, free_object-Holds}
use spl.Slab.Percpu.Fresh.{KeepsPass, AllocKept, spl_kmem_cache_alloc-Kept}
use spl.Slab.Invariant.{Inv}
use spl.Slab.Invariant.Reclaim.{Reclaimed, spl_slab_reclaim-Reclaimed}
use spl.Slab.System.{new_cache, Reach, Reach-Inv, Reach-destroyed}
use spl.Slab.Sizes.{
  Machine, Shape, p2roundup, target, spl_sks_size, spl_obj_size, spl_slab_size, magazine_sizes,
}
use spl.Slab.Sizes.Fitting.{spl_slab_size-fits, magazine_sizes-bounds}

abbrev plain : Flags
plain = record {
  kmem = true;
  vmem = false;
  offslab = false;
  deadlocked = false;
  growing = false;
  reaping = false;
}

abbrev two : Layout
two = record { slab_objs = 2; slab_size = 4096; sks_size = 64; obj_size = 16; offslab_size = 64 }

abbrev at_4096 : ℕ → ℕ → Option ℕ
at_4096 i n = some 4096

two-Fresh :
    (s : Slab) → (spl_slab_alloc 7 at_4096 two false).0 ≡ some s → Fresh (new_cache plain) [] s
unfolding spl_slab_alloc new_cache
two-Fresh s e =
    subst (Fresh (new_cache plain) []) (some-injective _ s e)
      (record { new_slab = refl; new_objs = λ o. ground arith })

abbrev one_slab : Cache
one_slab = (__spl_cache_grow 7 at_4096 two (new_cache plain)).1.0

one_slab-Reach : Reach one_slab []
unfolding new_cache
one_slab-Reach =
    Reach.grown 7 at_4096 two (omega arith) (omega arith) two-Fresh (Reach.created plain)

used_once-Reach :
    Reach (spl_cache_shrink 9 4160 (take_slabs 8 1 one_slab one_slab.partial_list []).1) []
unfolding take_slabs __spl_cache_grow new_cache
used_once-Reach = Reach.given_back 9 4160 [] [] (Reach.taken 8 1 one_slab-Reach)

Reach-Inv_example :
    Inv (spl_cache_shrink 9 4160 (take_slabs 8 1 one_slab one_slab.partial_list []).1) []
Reach-Inv_example = Reach-Inv used_once-Reach

spl_slab_reclaim-Reclaimed_example : Reclaimed one_slab [] (spl_slab_reclaim one_slab)
spl_slab_reclaim-Reclaimed_example =
    spl_slab_reclaim-Reclaimed one_slab [] (Reach-Inv one_slab-Reach)

abbrev empty_magazine : Magazine
empty_magazine = record { skm_size = 2; skm_refill = 1; skm_age = 0; skm_objs = [] }

-- A pass that finds an object on a slab.
abbrev quiet : Pass
quiet = record { grows = []; restart = λ c m. (c, m) }

quiet-KeepsPass : KeepsPass 2 quiet
unfolding KeepsPass
quiet-KeepsPass = (tt, λ c m e k. (e, k))

spl_kmem_cache_alloc-Kept_example :
    AllocKept 2 (spl_kmem_cache_alloc 8 false one_slab empty_magazine (quiet ∷ []))
spl_kmem_cache_alloc-Kept_example =
    spl_kmem_cache_alloc-Kept 8 2 false one_slab empty_magazine (quiet ∷ []) refl
      (quiet-KeepsPass, tt) ([], Reach-Inv one_slab-Reach, omega arith)

-- A cache whose two objects are in a magazine and with a caller.
abbrev both_taken : Cache
both_taken = (take_slabs 8 2 one_slab one_slab.partial_list []).1

both-Holds :
    Holds both_taken (record empty_magazine { skm_size = 1; skm_objs = 4160 ∷ [] }) (4176 ∷ [])
unfolding take_slabs __spl_cache_grow new_cache
both-Holds = record { inv = Reach-Inv (Reach.taken 8 2 one_slab-Reach); bound = omega arith }

free_object-Holds_example :
    Holds
      (free_object 9 both_taken
        (record empty_magazine { skm_size = 1; skm_objs = 4160 ∷ [] })
        4176).0.0
      (free_object 9 both_taken
        (record empty_magazine { skm_size = 1; skm_objs = 4160 ∷ [] })
        4176).1
      []
free_object-Holds_example =
    free_object-Holds 9 both_taken (record empty_magazine { skm_size = 1; skm_objs = 4160 ∷ [] })
      4176 [] (omega arith) (omega arith) both-Holds

__spl_cache_grow-Grew_example :
    Grew
      (new_cache plain)
      []
      (got at_4096 two false)
      (__spl_cache_grow 7 at_4096 two (new_cache plain))
unfolding new_cache
__spl_cache_grow-Grew_example =
    __spl_cache_grow-Grew 7 at_4096 two (new_cache plain) [] (omega arith) (omega arith) two-Fresh
      (Reach-Inv (Reach.created plain))

-- Objects of 128 bytes on pages of 4096.
abbrev pages : Machine
pages = record {
  sizeof_slab = 96;
  sizeof_obj = 40;
  page_size = 4096;
  max_order_nr_pages = 128;
  get_order = λ n. 1;
  fls64 = λ n. 8;
  obj_per_slab = 8;
  cache_max_size = 32;
  magazine_size = 0;
}

abbrev small : Shape
small = record { obj_size = 128; obj_align = 8; kmem = true; offslab = false }

spl_slab_size-fits_example :
    (0 < 48) × (spl_sks_size pages small + 48 * spl_obj_size pages small ≤ 8192)
unfolding spl_sks_size target p2roundup spl_slab_size
spl_slab_size-fits_example =
    spl_slab_size-fits pages small 48 8192 refl (omega arith) (omega arith) refl
