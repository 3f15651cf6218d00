-- ===== src/Files.antt =====
-- The files of module/spl/spl-vnode.c and include/spl/sys/vnode.h: here the list of the descriptors
-- that vn_getf has handed out, with the references that the module takes on the kernel's files. A
-- `struct file` and a `task_struct` are their addresses; a descriptor is the 32-bit pattern of an int.
pub mod Types
pub mod Vnodes
pub mod Opening
pub mod Space
pub mod Pwd
pub mod Listed
pub mod Invariant
pub mod Closed
pub mod System
mod Tests
use spl.Prelude.{
  ℕ, ◌+◌, ◌-◌, ◌^◌, Bool, true, false, Option, none, some, List, [], ◌∷◌, ltb, leb, ◌==◌,
  if◌then◌else◌,
}
use spl.Files.Types.{VType, vn_mode_to_vtype}

-- `file_t`, with the fields of its vnode that the module sets. NULL is `none`.
pub record File : Type 0 where
  pub f_fd : ℕ
  pub f_task : ℕ
  pub f_ref : ℕ
  pub f_file : Option ℕ
  pub v_file : Option ℕ
  pub v_type : VType

-- The list, how many references to each kernel file the module holds, and how many objects of
-- vn_cache and vn_file_cache are allocated.
pub record Files : Type 0 where
  pub vn_file_list : List File
  pub held : ℕ → ℕ
  pub vnodes : ℕ
  pub file_objs : ℕ

abbrev pub is_file : (fd task : ℕ) → File → Bool
is_file fd task fp = if fp.f_fd == fd then fp.f_task == task else false

unfoldable pub file_find : (fd task : ℕ) → List File → Option File
file_find fd task [] = none
file_find fd task (fp ∷ fps) = if is_file fd task fp then some fp else file_find fd task fps

-- The entry is changed in place.
unfoldable pub write_file : File → List File → List File
write_file fp [] = []
write_file fp (x ∷ xs) = if is_file fp.f_fd fp.f_task x then fp ∷ xs else x ∷ write_file fp xs

-- list_del.
unfoldable pub del_file : (fd task : ℕ) → List File → List File
del_file fd task [] = []
del_file fd task (fp ∷ fps) = if is_file fd task fp then fps else fp ∷ del_file fd task fps

unfoldable pub change : ℕ → ℕ → (ℕ → ℕ) → ℕ → ℕ
change f n held g = if g == f then n else held g

-- The reference that the kernel's fget takes when the descriptor is open.
unfoldable pub fget : Option ℕ → Files → Files
fget none s = s
fget (some f) s = record s { held = change f (s.held f + 1) s.held }

-- fput reads through its argument; `none` is a fault, NULL or a reference that is not held.
unfoldable pub fput : Option ℕ → Files → Option Files
fput none s = none
fput (some f) s =
    if s.held f == 0 then none else some (record s { held = change f (s.held f - 1) s.held })

abbrev pub same_file : Option ℕ → Option ℕ → Bool
same_file none none = true
same_file none (some g) = false
same_file (some f) none = false
same_file (some f) (some g) = f == g

-- A stale file gives way to the one that the descriptor has now, and there is one more user.
unfoldable pub refreshed : (lfp : Option ℕ) → File → File
refreshed lfp fp =
    let x = if same_file lfp fp.f_file then fp else record fp { f_file = lfp; v_file = lfp } in
    record x { f_ref = x.f_ref + 1 }

-- The entry is written back and returned, unless putting the old file was a fault.
unfoldable pub put_back : File → Option Files → Option (Option File × Files)
put_back fp none = none
put_back fp (some s) = some (some fp, record s { vn_file_list = write_file fp s.vn_file_list })

-- The branch of vn_getf for a descriptor that is on the list.
unfoldable pub get_again : (lfp : Option ℕ) → File → Files → Option (Option File × Files)
unfolding refreshed put_back
get_again lfp fp s = put_back (refreshed lfp fp) (fput fp.f_file (fget lfp s))

-- What vn_getf meets: whether the two allocations succeed, the file that fget finds, the mode that
-- vfs_getattr tells if it does not fail, and what other threads do while the lock is dropped.
pub record Calls : Type 0 where
  pub alloc : Bool
  pub lfp : Option ℕ
  pub vp_alloc : Bool
  pub mode : Option ℕ
  pub unlocked : Files → Files

-- vn_alloc, vn_free, kmem_cache_alloc and kmem_cache_free.
abbrev pub vn_alloc : Files → Files
vn_alloc s = record s { vnodes = s.vnodes + 1 }

abbrev pub vn_free : Files → Files
vn_free s = record s { vnodes = s.vnodes - 1 }

abbrev pub file_alloc : Files → Files
file_alloc s = record s { file_objs = s.file_objs + 1 }

abbrev pub file_free : Files → Files
file_free s = record s { file_objs = s.file_objs - 1 }

-- The exits out_mutex and out_fget.
unfoldable pub free_file : Option Files → Option (Option File × Files)
free_file none = none
free_file (some s) = some (none, file_free s)

unfoldable pub out_fget : ℕ → Files → Option (Option File × Files)
unfolding free_file
out_fget f s = free_file (fput (some f) s)

-- The new entry goes to the head of the list. Its vnode is there when vfs_getattr is asked.
unfoldable pub get_vnode : (mode : Option ℕ) (task fd f : ℕ) → Files → Option (Option File × Files)
unfolding out_fget
get_vnode none task fd f s = out_fget f (vn_free s)
get_vnode (some mode) task fd f s =
    let fp : File = record {
      f_fd = fd;
      f_task = task;
      f_ref = 1;
      f_file = some f;
      v_file = some f;
      v_type = vn_mode_to_vtype mode;
    } in
    some (some fp, record s { vn_file_list = fp ∷ s.vn_file_list })

unfoldable pub get_file :
    (lfp : Option ℕ) (vp_alloc : Bool) (mode : Option ℕ) (task fd : ℕ)
    → Files
    → Option (Option File × Files)
unfolding free_file out_fget get_vnode
get_file none vp_alloc mode task fd s = free_file (some s)
get_file (some f) false mode task fd s = out_fget f (fget (some f) s)
get_file (some f) true mode task fd s = get_vnode mode task fd f (vn_alloc (fget (some f) s))

-- The part of vn_getf for a descriptor that is not on the list.
unfoldable pub get_new : Calls → (task fd : ℕ) → Files → Option (Option File × Files)
unfolding get_file
get_new k task fd s =
    if k.alloc then get_file k.lfp k.vp_alloc k.mode task fd (file_alloc s) else some (none, s)

abbrev pub is_negative : ℕ → Bool
is_negative fd = leb (2 ^ 31) fd

-- vn_getf of the task; `none` inside is NULL.
unfoldable pub vn_getf : Calls → (task fd : ℕ) → Files → Option (Option File × Files)
unfolding get_again get_new
vn_getf k task fd s =
    if is_negative fd then some (none, s) else elim (file_find fd task s.vn_file_list) [
      | some fp ↦ get_again k.lfp fp s
      | none ↦ get_new k task fd (k.unlocked s)
    ]

-- vn_free and kmem_cache_free, unless the put was a fault.
unfoldable pub free_both : Option Files → Option Files
free_both none = none
free_both (some s) = some (file_free (vn_free s))

unfoldable pub releasef_locked : File → Files → Option Files
unfolding free_both
releasef_locked fp s = free_both (fput fp.f_file s)

unfoldable pub release_found : File → Files → Option Files
unfolding releasef_locked
release_found fp s =
    let ref = fp.f_ref - 1 in
    if ltb 0 ref
    then some (record s { vn_file_list = write_file (record fp { f_ref = ref }) s.vn_file_list })
    else releasef_locked fp (record s { vn_file_list = del_file fp.f_fd fp.f_task s.vn_file_list })

-- vn_areleasef; vn_releasef is that of the current task.
unfoldable pub vn_areleasef : (fd task : ℕ) → Files → Option Files
unfolding release_found
vn_areleasef fd task s =
    if is_negative fd
    then some s
    else elim (file_find fd task s.vn_file_list) [ none ↦ some s | some fp ↦ release_found fp s ]

-- One more leaked entry, unless there was a fault.
unfoldable pub count_leaked : Option (ℕ × Files) → Option (ℕ × Files)
count_leaked none = none
count_leaked (some (leaked, s)) = some (leaked + 1, s)

unfoldable pub release_next :
    Option Files → (rest : Files → Option (ℕ × Files)) → Option (ℕ × Files)
unfolding count_leaked
release_next none rest = none
release_next (some s) rest = count_leaked (rest s)

-- The loop of spl_vn_fini over the list, with the number of entries that were leaked.
unfoldable pub release_all : List File → Files → Option (ℕ × Files)
unfolding releasef_locked release_next
release_all [] s = some (0, s)
release_all (fp ∷ fps) s =
    release_next
      (releasef_locked fp (record s { vn_file_list = del_file fp.f_fd fp.f_task s.vn_file_list }))
      (release_all fps)

unfoldable pub spl_vn_fini : Files → Option (ℕ × Files)
unfolding release_all
spl_vn_fini s = release_all s.vn_file_list s

unfoldable pub no_files : Files
no_files = record { vn_file_list = []; held = λ f. 0; vnodes = 0; file_objs = 0 }
