-- ===== src/Slab/Emergency.antt =====
-- The emergency objects of a cache: a search tree of addresses, whose balancing and removal,
-- rb_insert_color and rb_erase, are the kernel's.
pub mod Tracked
use spl.Prelude.{
  ℕ, ◌+◌, ◌-◌, ◌%◌, ◌^◌, Bool, true, false, Option, none, some, List, [], ◌∷◌, ltb, ◌==◌, ◌&&◌, not,
  if◌then◌else◌,
}
use spl.Slab.{Magazine, Tree, Cache, add64, sub64}
use spl.Slab.Percpu.{free_object}

-- The node with the address of the object.
unfoldable pub spl_emergency_search : Tree → (address : ℕ) → Option ℕ
spl_emergency_search Tree.leaf address = none
spl_emergency_search (Tree.node left ske_obj right) address =
    if ltb address ske_obj
    then spl_emergency_search left address
    else if ltb ske_obj address
    then spl_emergency_search right address
    else some ske_obj

-- The tree with the new node, unless the address is there.
unfoldable pub link_node : Tree → (address : ℕ) → Option Tree
link_node Tree.leaf address = some (Tree.node Tree.leaf address Tree.leaf)
link_node (Tree.node left ske_obj right) address =
    if ltb address ske_obj
    then elim (link_node left address) [ none ↦ none | some l ↦ some (Tree.node l ske_obj right) ]
    else if ltb ske_obj address
    then elim (link_node right address) [ none ↦ none | some r ↦ some (Tree.node left ske_obj r) ]
    else none

abbrev pub eexist : ℕ
eexist = 17

abbrev pub enomem : ℕ
enomem = 12

abbrev pub einval : ℕ
einval = 22

abbrev pub enoent : ℕ
enoent = 2

-- The code, the object, the cache and the pages that are given back.
pub record Emergency : Type 0 where
  pub code : ℕ
  pub obj : Option ℕ
  pub cache : Cache
  pub freed : List ℕ

module _ (rb_insert_color : Tree → Tree) (rb_erase : ℕ → Tree → Tree) where
  unfoldable pub spl_emergency_insert : Tree → ℕ → Option Tree
  unfolding link_node
  spl_emergency_insert root address = elim (link_node root address) [
    | none ↦ none
    | some t ↦ some (rb_insert_color t)
  ]

  -- What follows the insertion, with the tree that it leaves.
  unfoldable pub inserted : (ske_obj : ℕ) → Cache → Option Tree → Emergency
  inserted ske_obj skc none = record {
    code = einval;
    obj = none;
    cache = skc;
    freed = ske_obj ∷ [];
  }
  inserted ske_obj skc (some t) =
      let count = add64 skc.obj_emergency 1 in
      record {
        code = 0;
        obj = some ske_obj;
        cache = record skc {
          emergency_tree = t;
          obj_total = add64 skc.obj_total 1;
          obj_emergency = count;
          obj_emergency_max =
              if ltb skc.obj_emergency_max count then count else skc.obj_emergency_max;
        };
        freed = [];
      }

  -- What is done under the lock with an object that has been allocated.
  unfoldable pub track : (ske_obj : ℕ) → Cache → Emergency
  unfolding spl_emergency_insert inserted
  track ske_obj skc = inserted ske_obj skc (spl_emergency_insert skc.emergency_tree ske_obj)

  -- `kmalloc` and `pages` are the allocations, where the page 0 is a failure; `unlocked` is what
  -- others do between the two times that the lock is held.
  unfoldable pub spl_emergency_alloc :
      (kmalloc : Bool) (pages : ℕ) (unlocked : Cache → Cache) → Cache → Emergency
  unfolding track
  spl_emergency_alloc kmalloc pages unlocked skc = elim skc.partial_list [
    | s ∷ ss ↦ record { code = eexist; obj = none; cache = skc; freed = [] }
    | [] ↦
        let c = unlocked skc in
        if kmalloc && not (pages == 0)
        then track pages c
        else record { code = enomem; obj = none; cache = c; freed = [] }
  ]

  unfoldable pub spl_emergency_free : ℕ → Cache → Emergency
  unfolding spl_emergency_search
  spl_emergency_free obj skc = elim (spl_emergency_search skc.emergency_tree obj) [
    | none ↦ record { code = enoent; obj = none; cache = skc; freed = [] }
    | some ske_obj ↦ record {
      code = 0;
      obj = none;
      cache = record skc {
        emergency_tree = rb_erase ske_obj skc.emergency_tree;
        obj_emergency = sub64 skc.obj_emergency 1;
        obj_total = sub64 skc.obj_total 1;
      };
      freed = ske_obj ∷ [];
    }
  ]

  -- A cache that is not backed by the Linux slab, without destructor. `is_vmalloc_addr` is the
  -- kernel's. The memory that is freed is that of empty slabs or of the emergency object.
  unfoldable pub spl_kmem_cache_free :
      (jiffies : ℕ) (is_vmalloc_addr : ℕ → Bool)
      → Cache
      → Magazine
      → ℕ
      → (Cache × List ℕ) × Magazine
  unfolding spl_emergency_free free_object
  spl_kmem_cache_free j is_vmalloc_addr skc skm obj =
      let do_emergency = not (is_vmalloc_addr obj) && ltb 0 skc.obj_emergency in
      let e = spl_emergency_free obj skc in
      if do_emergency && (e.code == 0) then ((e.cache, e.freed), skm) else free_object j skc skm obj
