-- ===== src/Tsd/Calls.antt =====
-- The module's interface: tsd_set, tsd_get, tsd_get_by_thread, tsd_create, tsd_destroy and tsd_exit.
-- `none` is a read through NULL. The current thread's pid is an argument.
use spl.Prelude.{ℕ, Bool, true, Option, none, some, List, [], ◌∷◌, ltb, ◌==◌, if◌then◌else◌}
use spl.Tsd.{
  Kernel, keys_max, pid_key, dtor_pid, Entry, Table, hash, is_entry, tsd_hash_search, set_at,
}
use spl.Tsd.Entries.{
  einval, tsd_hash_add, tsd_hash_add_key, tsd_hash_add_pid, tsd_hash_del, tsd_hash_dtor,
  tsd_remove_entry,
}

abbrev pub bad_key : ℕ → Bool
bad_key key = if key == 0 then true else ltb keys_max key

unfoldable pub update : ℕ → ℕ → ℕ → List Entry → List Entry
update key pid value [] = []
update key pid value (e ∷ es) =
    if is_entry key pid e then record e { he_value = value } ∷ es else e ∷ update key pid value es

-- entry->he_value = value.
abbrev pub set_value : Kernel → Table → (key pid value : ℕ) → Table
set_value k t key pid value =
    let h = hash k t key pid in
    record t { ht_bins = set_at h (update key pid value (t.ht_bins h)) t.ht_bins }

-- The thread's anchor first, when it is not there.
unfoldable pub add_value :
    Kernel → Table → (key pid value : ℕ) → (alloc_pid alloc : Bool) → Option (ℕ × Table)
add_value k t key pid value alloc_pid alloc = elim (tsd_hash_search k t pid_key pid) [
  | some a ↦ tsd_hash_add k t key pid value alloc
  | none ↦
      let (rc, u) = tsd_hash_add_pid k t pid alloc_pid in
      if rc == 0 then tsd_hash_add k u key pid value alloc else some (rc, u)
]

unfoldable pub tsd_set :
    Kernel → Table → (key pid value : ℕ) → (alloc_pid alloc : Bool) → Option (ℕ × Table)
tsd_set k t key pid value alloc_pid alloc =
    if bad_key key then some (einval, t) else elim (tsd_hash_search k t key pid) [
      | some e ↦
          let u = set_value k t key pid value in
          some (0, if value == 0 then tsd_remove_entry k u (record e { he_value = value }) else u)
      | none ↦ if value == 0 then some (0, t) else add_value k t key pid value alloc_pid alloc
    ]

abbrev pub value_of : Option Entry → ℕ
value_of none = 0
value_of (some e) = e.he_value

unfoldable pub tsd_get : Kernel → Table → (key pid : ℕ) → ℕ
tsd_get k t key pid = if bad_key key then 0 else value_of (tsd_hash_search k t key pid)

unfoldable pub tsd_get_by_thread : Kernel → Table → (key : ℕ) → (thread_pid : ℕ) → ℕ
tsd_get_by_thread k t key thread_pid =
    if bad_key key then 0 else value_of (tsd_hash_search k t key thread_pid)

unfoldable pub tsd_create : Kernel → Table → (keyp dtor : ℕ) → (alloc : Bool) → ℕ × Table
tsd_create k t keyp dtor alloc =
    if keyp == 0
    then (let (rc, key, u) = tsd_hash_add_key k t keyp dtor alloc in (key, u))
    else (keyp, t)

-- All entries of a list go, each to the head of the work list.
unfoldable pub take_all : Kernel → Table → List Entry → List (ℕ × ℕ) → Table × List Entry
take_all k t work [] = (t, work)
take_all k t work ((key, pid) ∷ ns) = elim (tsd_hash_search k t key pid) [
  | none ↦ take_all k t work ns
  | some e ↦ take_all k (tsd_hash_del k t e) (e ∷ work) ns
]

-- The anchor after its list, and the destructors last.
abbrev pub take_anchor : Kernel → Entry → Table × List Entry → Table
take_anchor k a r = let (u, work) = r in tsd_hash_dtor k (tsd_hash_del k u a) (a ∷ work)

unfoldable pub tsd_destroy : Kernel → Table → (keyp : ℕ) → ℕ × Table
tsd_destroy k t keyp = elim (tsd_hash_search k t keyp (dtor_pid k)) [
  | none ↦ (keyp, t)
  | some a ↦ (0, take_anchor k a (take_all k t [] (t.he_key_list keyp)))
]

unfoldable pub tsd_exit : Kernel → Table → (pid : ℕ) → Table
tsd_exit k t pid = elim (tsd_hash_search k t pid_key pid) [
  | none ↦ t
  | some a ↦ take_anchor k a (take_all k t [] (t.he_pid_list pid))
]
