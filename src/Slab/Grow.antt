-- ===== src/Slab/Grow.antt =====
-- spl_slab_alloc and __spl_cache_grow: a new slab with its objects.
pub mod Headers
pub mod Added
use spl.Prelude.{
  ℕ, zero, suc, ◌+◌, ◌*◌, ◌%◌, ◌^◌, Bool, true, false, Option, none, some, List, [], ◌∷◌, ◌++◌,
  ◌==◌, if◌then◌else◌,
}
use spl.Slab.{Slab, Flags, Cache, add64}

-- The sizes that the cache was made with.
pub record Layout : Type 0 where
  pub slab_objs : ℕ
  pub slab_size : ℕ
  pub sks_size : ℕ
  pub obj_size : ℕ
  pub offslab_size : ℕ

-- The objects of a slab without KMC_OFFSLAB, from the `i`th on.
unfoldable pub slab_objects : Layout → (base i n : ℕ) → List ℕ
slab_objects l base i zero = []
slab_objects l base i (suc n) = (base + l.sks_size + i * l.obj_size) ∷ slab_objects l base (i + 1) n

-- With KMC_OFFSLAB each object is an allocation. The objects that are got, and whether one failed.
unfoldable pub kv_objects : (kv_alloc : ℕ → ℕ → Option ℕ) → Layout → (i n : ℕ) → List ℕ × Bool
kv_objects kv_alloc l i zero = ([], false)
kv_objects kv_alloc l i (suc n) = elim (kv_alloc (i + 1) l.offslab_size) [
  | none ↦ ([], true)
  | some obj ↦ (obj ∷ (kv_objects kv_alloc l (i + 1) n).0, (kv_objects kv_alloc l (i + 1) n).1)
]

-- The slab at `base` with its objects, or NULL with the addresses that are given back.
unfoldable pub slab_from :
    (jiffies : ℕ) → Layout → (base : ℕ) → List ℕ × Bool → Option Slab × List ℕ
slab_from jiffies l base (objs, true) = (none, objs ++ (base ∷ []))
slab_from jiffies l base (objs, false) = (
  some (record {
    sks_addr = base;
    sks_objs = l.slab_objs;
    sks_ref = 0;
    sks_age = jiffies;
    sks_free_list = objs;
  }),
  [],
)

-- `kv_alloc` takes the number of the allocation and its size.
unfoldable pub spl_slab_alloc :
    (jiffies : ℕ) (kv_alloc : ℕ → ℕ → Option ℕ) → Layout → (offslab : Bool) → Option Slab × List ℕ
unfolding slab_objects kv_objects slab_from
spl_slab_alloc jiffies kv_alloc l offslab = elim (kv_alloc 0 l.slab_size) [
  | none ↦ (none, [])
  | some base ↦ slab_from jiffies l base (
      if offslab
      then kv_objects kv_alloc l 0 l.slab_objs
      else (slab_objects l base 0 l.slab_objs, false))
]

unfoldable pub member : ℕ → List ℕ → Bool
member a [] = false
member a (x ∷ xs) = if x == a then true else member a xs

-- The cache with the new slab. The headers of its objects are written by spl_slab_alloc.
unfoldable pub add_slab : Slab → Cache → Cache
unfolding member
add_slab sks skc = record skc {
  sko_slab = λ o. if member o sks.sks_free_list then sks.sks_addr else skc.sko_slab o;
  slab_total = add64 skc.slab_total 1;
  obj_total = add64 skc.obj_total sks.sks_objs;
  partial_list = skc.partial_list ++ (sks ∷ []);
  flags = record skc.flags { deadlocked = false };
}

unfoldable pub grow_with : Cache → Option Slab × List ℕ → Bool × (Cache × List ℕ)
unfolding add_slab
grow_with skc (none, freed) = (false, (skc, freed))
grow_with skc (some sks, freed) = (true, (add_slab sks skc, freed))

-- Whether a slab was added, with the cache and the addresses that are given back.
unfoldable pub __spl_cache_grow :
    (jiffies : ℕ) (kv_alloc : ℕ → ℕ → Option ℕ) → Layout → Cache → Bool × (Cache × List ℕ)
unfolding grow_with spl_slab_alloc
__spl_cache_grow jiffies kv_alloc l skc =
    grow_with skc (spl_slab_alloc jiffies kv_alloc l skc.flags.offslab)
