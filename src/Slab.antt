-- ===== src/Slab.antt =====
-- The slab caches of module/spl/spl-kmem-cache.c and include/spl/sys/kmem_cache.h. A slab and an
-- object are their addresses. The state is that under skc_lock; the counters are 64-bit numbers.
pub mod Sizes
pub mod Emergency
pub mod Life
pub mod Create
pub mod Shrinker
pub mod Reap
pub mod Async
pub mod System
pub mod Objects
pub mod Release
pub mod Percpu
pub mod Grow
pub mod Lists
pub mod Invariant
pub mod Tests
use spl.Prelude.{
  ℕ, ◌+◌, ◌-◌, ◌%◌, ◌^◌, Bool, Option, none, some, List, [], ◌∷◌, ◌++◌, ◌==◌, if◌then◌else◌,
}

abbrev pub add64 : ℕ → ℕ → ℕ
add64 a b = (a + b) % 2 ^ 64

abbrev pub sub64 : ℕ → ℕ → ℕ
sub64 a b = (a + 2 ^ 64 - b % 2 ^ 64) % 2 ^ 64

-- The objects of a slab that no one has, in the order of the free list.
pub record Slab : Type 0 where
  pub sks_addr : ℕ
  pub sks_objs : ℕ
  pub sks_ref : ℕ
  pub sks_age : ℕ
  pub sks_free_list : List ℕ

-- The objects of a magazine, skm_objs[0] first: skm_avail is their number.
pub record Magazine : Type 0 where
  pub skm_size : ℕ
  pub skm_refill : ℕ
  pub skm_age : ℕ
  pub skm_objs : List ℕ

-- A node of the tree of emergency objects.
pub data Tree : Type 0 where
  leaf : Tree
  node : Tree → (ske_obj : ℕ) → Tree → Tree

pub record Flags : Type 0 where
  pub kmem : Bool
  pub vmem : Bool
  pub offslab : Bool
  pub deadlocked : Bool
  pub growing : Bool
  pub reaping : Bool

-- `sko_slab` is the slab of an object, which its header tells.
pub record Cache : Type 0 where
  pub flags : Flags
  pub complete_list : List Slab
  pub partial_list : List Slab
  pub emergency_tree : Tree
  pub sko_slab : ℕ → ℕ
  pub slab_total : ℕ
  pub slab_alloc : ℕ
  pub slab_max : ℕ
  pub obj_total : ℕ
  pub obj_alloc : ℕ
  pub obj_max : ℕ
  pub obj_deadlock : ℕ
  pub obj_emergency : ℕ
  pub obj_emergency_max : ℕ
