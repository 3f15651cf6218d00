-- ===== src/Files/Tests.antt =====
-- Tests of the files, and the theorems at concrete inputs.
use spl.Prelude.{arith, ℕ, ◌+◌, ◌-◌, ◌≡◌, ◌≢◌, ◌⊎◌, refl, true, false, Option, none, some, [], ◌∷◌}
use spl.Files.Types.{VType, vn_mode_to_vtype}
use spl.Files.{
  File, Files, Calls, no_files, file_find, get_again, get_new, vn_getf, vn_areleasef, fput, fget,
  change, write_file, del_file,
}
use spl.Files.Invariant.{Inv}
use spl.Files.Invariant.Answers.{Answer, vn_getf-Answer}
use spl.Files.System.{Reach, Reach-Right, Reach-released}
use spl.Files.Closed.{vn_getf-closed}
use spl.Files.Vnodes.{FileOrError, Kernel, Process, open_flags, vn_open, vn_rdwr, Moved}
use spl.Files.Opening.{Opened, Remapped, filp_for, vn_open-Opened}
use spl.Files.Space.{Spaced, vn_space}

-- Everything succeeds, and the descriptor leads to file 7, a regular one.
abbrev calls : Calls
calls = record { alloc = true; lfp = some 7; vp_alloc = true; mode = some 33188; unlocked = λ s. s }

abbrev entry : ℕ → ℕ → File
entry ref file = record {
  f_fd = 3;
  f_task = 100;
  f_ref = ref;
  f_file = some file;
  v_file = some file;
  v_type = VType.vreg;
}

abbrev state_of : Option (Option File × Files) → Files
state_of none = no_files
state_of (some (fp, s)) = s

abbrev left_of : Option Files → Files
left_of none = no_files
left_of (some s) = s

-- Task 100 gets descriptor 3, gets it again when it leads to file 8, and releases it twice.
abbrev first : Files
first = state_of (get_new calls 100 3 no_files)

abbrev second : Files
second = state_of (get_again (some 8) (entry 1 7) first)

abbrev third : Files
third = left_of (vn_areleasef 3 100 second)

abbrev fourth : Files
fourth = left_of (vn_areleasef 3 100 third)

reach_second : Reach second ((3, 100) ∷ (3, 100) ∷ [])
unfolding get_new get_again no_files file_find fput fget change vn_mode_to_vtype
reach_second =
    Reach.again 3 100 8 (entry 1 7) (entry 2 8)
      (Reach.opened calls 3 100 (entry 1 7) Reach.start refl refl) refl refl

reach_fourth : Reach fourth []
unfolding get_new get_again no_files vn_areleasef file_find fput fget change write_file del_file
reach_fourth =
    Reach.released 3 100 [] [] (Reach.released 3 100 [] ((3, 100) ∷ []) reach_second refl refl) refl
      refl

Reach-released_example :
    (fourth.vn_file_list ≡ [])
    × ((f : ℕ) → fourth.held f ≡ 0)
    × (fourth.vnodes ≡ 0)
    × (fourth.file_objs ≡ 0)
Reach-released_example = Reach-released reach_fourth

second-Inv : Inv second
second-Inv = (Reach-Right reach_second).inv

some_file : calls.lfp ≢ none
some_file e = cc

vn_getf-Answer_example :
    Answer calls 3 100 second (vn_getf calls 100 3 second)
    ⊎ Answer calls 3 100 second (vn_getf calls 100 3 second)
vn_getf-Answer_example =
    vn_getf-Answer calls 100 3 second second-Inv second-Inv (λ n. n) (λ found n. some_file n)

-- The descriptor has been closed.
abbrev closed_calls : Calls
closed_calls = record calls { lfp = none }

second_found : file_find 3 100 second.vn_file_list ≡ some (entry 2 8)
unfolding get_new get_again no_files file_find fput fget change write_file
second_found = refl

vn_getf-closed_example :
    (x : File) × (t : Files) × (vn_getf closed_calls 100 3 second ≡ some (some x, t))
    × (x.f_file ≡ none)
    × ((k : Calls) → vn_getf k 100 3 t ≡ none)
vn_getf-closed_example =
    vn_getf-closed closed_calls 3 100 (entry 2 8) second second-Inv refl second_found refl

-- A kernel that opens file 9 for every path, with the mode of a directory.
abbrev kernel : Kernel
kernel = record {
  filp_open = λ path flags mode umask. FileOrError.file 9;
  vfs_getattr = λ f. FileOrError.file 16877;
  filp_close = λ f. 0;
  vn_alloc = true;
  kmalloc = true;
  without_io = λ mask. mask - 192;
}

abbrev process : Process
process = record { umask = 18; opens = λ f. 0; gfp_mask = λ f. 208; vnodes = 0 }

-- FREAD, FWRITE and FCREAT.
vn_open-Opened_example :
    (fl : ℕ) × Remapped 67 fl
    × Opened kernel
        (filp_for kernel [] fl 67 438 process)
        process
        (vn_open kernel [] 67 438 process)
vn_open-Opened_example =
    vn_open-Opened kernel [] 67 438 process (λ e. absurd (omega (arith, e))) (omega arith)

-- FWRITE alone gives O_WRONLY and O_EXCL; no flag at all goes round.
flags_written : open_flags 2 ≡ 129
unfolding open_flags
flags_written = refl

flags_none : open_flags 0 ≡ 4294967295
unfolding open_flags
flags_none = refl

moved_short :
    vn_rdwr (λ len offset. Moved.bytes 5 (offset + 5)) 8 100 false true 0 ≡ (0, some 3, 105)
unfolding vn_rdwr
moved_short = refl

moved_failed : vn_rdwr (λ len offset. Moved.failed 28 offset) 8 100 true true 40 ≡ (28, none, 40)
unfolding vn_rdwr
moved_failed = refl

-- From byte 100 on 10000 bytes are freed, of pages of 4096.
space_found : vn_space 4096 none true 11 0 100 10000 ≡ Spaced.truncated 100 8191
unfolding vn_space
space_found = refl
