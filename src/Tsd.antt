-- ===== src/Tsd.antt =====
-- Thread specific data, module/spl/spl-tsd.c: a hash table of entries named by a key and a pid. For
-- every key there is an anchor entry with the pid DTOR_PID, for every thread one with the key PID_KEY;
-- a value's entry is linked from both. A link is modelled by the name of the entry it leads to. The
-- locks are held over whole operations and are not modelled: an operation is one step.
pub mod Entries
pub mod Calls
pub mod Search
pub mod Values
pub mod Keys
pub mod Distinct
pub mod Removal
pub mod Leaving
mod Tests
use spl.Prelude.{
  ℕ, zero, suc, ◌+◌, ◌*◌, ◌%◌, ◌^◌, ◌≡◌, Bool, true, false, ◌&&◌, Option, none, some, List, [], ◌∷◌,
  ◌==◌, if◌then◌else◌,
}

-- The kernel's hash function and its largest pid.
pub record Kernel : Type 0 where
  pub hash_long : ℕ → ℕ → ℕ
  pub pid_max_limit : ℕ

abbrev pub keys_max : ℕ
keys_max = 32768

abbrev pub pid_key : ℕ
pid_key = keys_max + 1

abbrev pub dtor_pid : Kernel → ℕ
dtor_pid k = k.pid_max_limit + 1

-- `tsd_hash_entry_t` but for its links. A NULL destructor or value is 0.
pub record Entry : Type 0 where
  pub he_key : ℕ
  pub he_pid : ℕ
  pub he_dtor : ℕ
  pub he_value : ℕ

-- `tsd_hash_table_t`, the lists that its anchors head, and the destructor calls made so far.
pub record Table : Type 0 where
  pub ht_bits : ℕ
  pub ht_key : ℕ
  pub ht_bins : ℕ → List Entry
  pub he_key_list : ℕ → List (ℕ × ℕ)
  pub he_pid_list : ℕ → List (ℕ × ℕ)
  pub calls : List (ℕ × ℕ)

abbrev pub hash : Kernel → Table → ℕ → ℕ → ℕ
hash k t key pid = k.hash_long (key * pid % 2 ^ 64) t.ht_bits

abbrev pub is_entry : ℕ → ℕ → Entry → Bool
is_entry key pid e = if e.he_key == key then e.he_pid == pid else false

unfoldable pub find_entry : ℕ → ℕ → List Entry → Option Entry
find_entry key pid [] = none
find_entry key pid (e ∷ es) = if is_entry key pid e then some e else find_entry key pid es

-- tsd_hash_search.
unfoldable pub tsd_hash_search : Kernel → Table → ℕ → ℕ → Option Entry
tsd_hash_search k t key pid = find_entry key pid (t.ht_bins (hash k t key pid))

-- A function changed at one place.
unfoldable pub set_at {ℓ} : {A : Type ℓ} → ℕ → A → (ℕ → A) → ℕ → A
set_at i a f j = if j == i then a else f j
