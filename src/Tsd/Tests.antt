-- ===== src/Tsd/Tests.antt =====
-- The theorems on thread specific data at a table with one key.
use spl.Prelude.{ℕ, ◌%◌, ◌≡◌, refl, true, Option, none, some, [], ◌∷◌, arith, if◌then◌else◌}
use spl.Tsd.{Kernel, pid_key, dtor_pid, Entry, Table, tsd_hash_search, find_entry, set_at}
use spl.Tsd.Entries.{
  tsd_hash_add, tsd_hash_add_key, tsd_hash_add_pid, free_key, tsd_hash_table_init,
}
use spl.Tsd.Calls.{tsd_set, tsd_get, tsd_create, add_value, tsd_exit}
use spl.Tsd.Removal.{Step, Reach, Reach-removes}
use spl.Tsd.Leaving.{leads, tsd_exit-get}
use spl.Tsd.Values.{Holds, tsd_set-Holds}
use spl.Tsd.Keys.{Fresh, tsd_create-Fresh}

abbrev kernel : Kernel
kernel = record { hash_long = λ v bits. v % 8; pid_max_limit = 32768 }

abbrev key_anchor : Entry
key_anchor = record { he_key = 2; he_pid = 32769; he_dtor = 5; he_value = 0 }

-- The table of tsd_hash_table_init, with the anchor of key 2.
abbrev table : Table
table = record {
  ht_bits = 3;
  ht_key = 2;
  ht_bins = λ h. key_anchor ∷ [];
  he_key_list = λ key. [];
  he_pid_list = λ pid. [];
  calls = [];
}

tsd_set-Holds_example :
    (u : Table) × (tsd_set kernel table 2 77 9 true true ≡ some (0, u))
    × Holds kernel table u 2 77 9
unfolding tsd_hash_search find_entry
tsd_set-Holds_example =
    tsd_set-Holds kernel table 2 77 9 key_anchor (omega arith) (omega arith) (omega arith) refl

tsd_create-Fresh_example : Fresh kernel table 6 (tsd_create kernel table 0 6 true)
tsd_create-Fresh_example = tsd_create-Fresh kernel table 6

-- A table with one key and one value, made by the module's calls.
abbrev or_table : Option (ℕ × Table) → Table
or_table none = table
or_table (some r) = r.1

abbrev created : Table
created = (tsd_create kernel (tsd_hash_table_init 3) 0 6 true).1

abbrev filled : Table
filled = or_table (tsd_set kernel created 2 77 9 true true)

filled_made : tsd_set kernel created 2 77 9 true true ≡ some (0, filled)
unfolding tsd_create tsd_hash_add_key free_key tsd_hash_table_init tsd_set add_value tsd_hash_add
    tsd_hash_add_pid tsd_hash_search find_entry set_at
filled_made = refl

filled-Reach : Reach kernel filled
filled-Reach =
    Reach.later (Reach.later (Reach.start 3) (Step.create 0 6 true))
      (Step.set 2 77 9 true true filled_made)

abbrev thread_anchor : Entry
thread_anchor = record { he_key = pid_key; he_pid = 77; he_dtor = 0; he_value = 0 }

finds_thread : tsd_hash_search kernel filled pid_key 77 ≡ some thread_anchor
unfolding tsd_create tsd_hash_add_key free_key tsd_hash_table_init tsd_set add_value tsd_hash_add
    tsd_hash_add_pid tsd_hash_search find_entry set_at
finds_thread = refl

finds_key :
    tsd_hash_search kernel filled 2 (dtor_pid kernel)
    ≡ some (record { he_key = 2; he_pid = 32769; he_dtor = 6; he_value = 0 })
unfolding tsd_create tsd_hash_add_key free_key tsd_hash_table_init tsd_set add_value tsd_hash_add
    tsd_hash_add_pid tsd_hash_search find_entry set_at
finds_key = refl

Reach-removes_example :
    (u : Table) × (tsd_set kernel filled 2 77 0 true true ≡ some (0, u))
    × Holds kernel filled u 2 77 0
Reach-removes_example = Reach-removes kernel 2 77 true true filled-Reach (omega arith) (omega arith)

tsd_exit-get_example :
    tsd_get kernel (tsd_exit kernel filled 77) 2 77
    ≡ (if leads 2 77 (filled.he_pid_list 77) then 0 else tsd_get kernel filled 2 77)
tsd_exit-get_example = tsd_exit-get kernel 77 2 77 thread_anchor filled-Reach finds_thread
