-- ===== src/Memory/Tracking.antt =====
-- The leak tracking of module/spl/spl-kmem.c, for a build with DEBUG_KMEM and DEBUG_KMEM_TRACKING: a hash
-- table and a list of the allocations, and the count of used bytes. The lock is held over each lookup
-- and each insertion, and these are one step here.
use spl.Prelude.{
  ℕ, ◌+◌, ◌-◌, ◌%◌, ◌^◌, Bool, true, false, Option, none, some, List, [], ◌∷◌, ◌++◌, ltb, ◌==◌,
  if◌then◌else◌,
}

-- `kmem_debug_t` but for its links; the function's name is a number.
pub record Debug : Type 0 where
  pub kd_addr : ℕ
  pub kd_size : ℕ
  pub kd_func : ℕ
  pub kd_line : ℕ

-- The tables, the bytes in use with the most there were, and how many objects of the tracking itself
-- are allocated.
pub record Track : Type 0 where
  pub kmem_table : ℕ → List Debug
  pub kmem_list : List Debug
  pub used : ℕ
  pub alloc_max : ℕ
  pub objs : ℕ

unfoldable pub put_bin : ℕ → List Debug → (ℕ → List Debug) → ℕ → List Debug
put_bin h b t j = if j == h then b else t j

unfoldable pub find_addr : ℕ → List Debug → Option Debug
find_addr addr [] = none
find_addr addr (p ∷ ps) = if p.kd_addr == addr then some p else find_addr addr ps

-- hlist_del_init and list_del_init of the entry with the address.
unfoldable pub del_addr : ℕ → List Debug → List Debug
del_addr addr [] = []
del_addr addr (p ∷ ps) = if p.kd_addr == addr then ps else p ∷ del_addr addr ps

-- The bytes in use are a 64-bit pattern.
unfoldable pub spl_kmem_alloc_debug : (size : ℕ) → Track → Track
spl_kmem_alloc_debug size s =
    let used = (s.used + size) % 2 ^ 64 in
    record s { used = used; alloc_max = if ltb s.alloc_max used then used else s.alloc_max }

unfoldable pub spl_kmem_free_debug : (size : ℕ) → Track → Track
spl_kmem_free_debug size s = record s { used = (s.used + 2 ^ 64 - size % 2 ^ 64) % 2 ^ 64 }

-- spl_kmem_init_tracking and the count.
unfoldable pub spl_kmem_init : Track
spl_kmem_init = record { kmem_table = λ h. []; kmem_list = []; used = 0; alloc_max = 0; objs = 0 }

module _ (hash_ptr : ℕ → ℕ) where
  -- The new entry is at the head of its bin and at the end of the list.
  unfoldable pub track_alloc : Debug → Track → Track
  unfolding put_bin
  track_alloc d s =
      let h = hash_ptr d.kd_addr in
      record s {
        kmem_table = put_bin h (d ∷ s.kmem_table h) s.kmem_table;
        kmem_list = s.kmem_list ++ (d ∷ []);
      }

  -- `dptr` and `name` say whether the two allocations for the tracking succeed, `impl` is what
  -- spl_kmem_alloc_impl gives.
  unfoldable pub spl_kmem_alloc_track :
      (dptr name : Bool) (impl : Option ℕ) (size func line : ℕ) → Track → Option ℕ × Track
  unfolding track_alloc spl_kmem_alloc_debug
  spl_kmem_alloc_track false name impl size func line s = (none, s)
  spl_kmem_alloc_track true false impl size func line s = (none, record s { objs = s.objs + 1 - 1 })
  spl_kmem_alloc_track true true none size func line s = (none, record s { objs = s.objs + 2 - 2 })
  spl_kmem_alloc_track true true (some ptr) size func line s =
      let d : Debug = record { kd_addr = ptr; kd_size = size; kd_func = func; kd_line = line } in
      (some ptr, track_alloc d (spl_kmem_alloc_debug size (record s { objs = s.objs + 2 })))

  -- The entry that was found in the bin goes from it and from the list.
  unfoldable pub del_found : (addr : ℕ) → Track → Option Debug → Option Debug × Track
  unfolding del_addr put_bin
  del_found addr s none = (none, s)
  del_found addr s (some p) =
      let h = hash_ptr addr in
      (
        some p,
        record s {
          kmem_table = put_bin h (del_addr addr (s.kmem_table h)) s.kmem_table;
          kmem_list = del_addr addr s.kmem_list;
        },
      )

  unfoldable pub kmem_del_init : (addr : ℕ) → Track → Option Debug × Track
  unfolding find_addr del_found
  kmem_del_init addr s = del_found addr s (find_addr addr (s.kmem_table (hash_ptr addr)))

  -- The entry's name and the entry are freed; `none` is a read through NULL.
  unfoldable pub free_entry : (size : ℕ) → Option Debug × Track → Option Track
  unfolding spl_kmem_free_debug
  free_entry size (none, s) = none
  free_entry size (some p, s) = some (spl_kmem_free_debug size (record s { objs = s.objs - 2 }))

  -- For a pointer that is not NULL. NULL is ignored.
  unfoldable pub spl_kmem_free_track : (ptr size : ℕ) → Track → Option Track
  unfolding kmem_del_init free_entry
  spl_kmem_free_track ptr size s = free_entry size (kmem_del_init ptr s)
