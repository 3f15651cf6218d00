-- ===== src/Tsd/Entries.antt =====
-- The operations on the table: adding an entry, a key and a process, deleting, running destructors.
use spl.Prelude.{
  ℕ, zero, suc, ◌+◌, ◌^◌, Bool, true, false, not, Option, none, some, List, [], ◌∷◌, ◌++◌, ltb,
  ◌==◌, if◌then◌else◌,
}
use spl.Tsd.{
  Kernel, keys_max, pid_key, dtor_pid, Entry, Table, hash, is_entry, tsd_hash_search, set_at,
}

abbrev pub enoent : ℕ
enoent = 2

abbrev pub enomem : ℕ
enomem = 12

abbrev pub einval : ℕ
einval = 22

-- hlist_add_head on the bin of an entry.
abbrev pub add_head : Kernel → Table → Entry → Table
add_head k t e =
    let h = hash k t e.he_key e.he_pid in
    record t { ht_bins = set_at h (e ∷ t.ht_bins h) t.ht_bins }

-- The anchors have to be there: the code reads through both pointers. `alloc` is kmem_alloc's success.
unfoldable pub tsd_hash_add :
    Kernel → Table → (key pid value : ℕ) → (alloc : Bool) → Option (ℕ × Table)
tsd_hash_add k t key pid value false = some (enomem, t)
tsd_hash_add k t key pid value true = elim (tsd_hash_search k t key (dtor_pid k)) [
  | none ↦ none
  | some dtor_entry ↦ elim (tsd_hash_search k t pid_key pid) [
    | none ↦ none
    | some pid_entry ↦
        let e : Entry = record {
          he_key = key;
          he_pid = pid;
          he_dtor = dtor_entry.he_dtor;
          he_value = value;
        } in
        some (
          0,
          record (add_head k t e) {
            he_key_list = set_at key ((key, pid) ∷ t.he_key_list key) t.he_key_list;
            he_pid_list = set_at pid ((key, pid) ∷ t.he_pid_list pid) t.he_pid_list;
          },
        )
  ]
]

abbrev pub next_key : ℕ → ℕ
next_key key = if ltb keys_max key then 1 else key + 1

-- The search for a free key; the number counts the keys still to check.
unfoldable pub free_key : Kernel → Table → ℕ → Bool × Table
free_key k t zero = (false, record t { ht_key = next_key t.ht_key })
free_key k t (suc n) =
    let u : Table = record t { ht_key = next_key t.ht_key } in
    elim (tsd_hash_search k u u.ht_key (dtor_pid k)) [ none ↦ (true, u) | some e ↦ free_key k u n ]

abbrev pub add_anchor : Kernel → Table → (key pid dtor : ℕ) → Table
add_anchor k t key pid dtor =
    add_head k t (record { he_key = key; he_pid = pid; he_dtor = dtor; he_value = 0 })

-- The result, the key and the table.
unfoldable pub tsd_hash_add_key : Kernel → Table → (keyp dtor : ℕ) → (alloc : Bool) → ℕ × ℕ × Table
tsd_hash_add_key k t keyp dtor false = (enomem, keyp, t)
tsd_hash_add_key k t keyp dtor true =
    let (found, u) = free_key k t keys_max in
    if found
    then (
      0,
      u.ht_key,
      record (add_anchor k u u.ht_key (dtor_pid k) dtor) {
        he_key_list = set_at u.ht_key [] u.he_key_list;
      },
    )
    else (enoent, keyp, u)

unfoldable pub tsd_hash_add_pid : Kernel → Table → ℕ → (alloc : Bool) → ℕ × Table
tsd_hash_add_pid k t pid false = (enomem, t)
tsd_hash_add_pid k t pid true =
    (0, record (add_anchor k t pid_key pid 0) { he_pid_list = set_at pid [] t.he_pid_list })

unfoldable pub drop_entry : ℕ → ℕ → List Entry → List Entry
drop_entry key pid [] = []
drop_entry key pid (e ∷ es) = if is_entry key pid e then es else e ∷ drop_entry key pid es

unfoldable pub unlink : ℕ → ℕ → List (ℕ × ℕ) → List (ℕ × ℕ)
unlink key pid [] = []
unlink key pid ((i, j) ∷ ns) =
    if (if i == key then j == pid else false) then ns else (i, j) ∷ unlink key pid ns

-- Out of the bin and of both lists.
unfoldable pub tsd_hash_del : Kernel → Table → Entry → Table
tsd_hash_del k t e =
    let h = hash k t e.he_key e.he_pid in
    record t {
      ht_bins = set_at h (drop_entry e.he_key e.he_pid (t.ht_bins h)) t.ht_bins;
      he_key_list =
          set_at e.he_key (unlink e.he_key e.he_pid (t.he_key_list e.he_key)) t.he_key_list;
      he_pid_list =
          set_at e.he_pid (unlink e.he_key e.he_pid (t.he_pid_list e.he_pid)) t.he_pid_list;
    }

-- The destructor calls for a list of removed entries, in order.
unfoldable pub dtor_calls : Kernel → List Entry → List (ℕ × ℕ)
dtor_calls k [] = []
dtor_calls k (e ∷ es) =
    if (if e.he_dtor == 0 then false else not (e.he_pid == dtor_pid k))
    then (e.he_dtor, e.he_value) ∷ dtor_calls k es
    else dtor_calls k es

unfoldable pub tsd_hash_dtor : Kernel → Table → List Entry → Table
tsd_hash_dtor k t work = record t { calls = t.calls ++ dtor_calls k work }

-- The entry's list has only the anchor besides it.
abbrev pub only_link : List (ℕ × ℕ) → Bool
only_link [] = false
only_link (n ∷ []) = true
only_link (n ∷ m ∷ ns) = false

-- The entry goes; so does the thread's anchor when this was its last entry.
unfoldable pub tsd_remove_entry : Kernel → Table → Entry → Table
tsd_remove_entry k t e =
    let u = tsd_hash_del k t e in
    if only_link (t.he_pid_list e.he_pid)
    then elim (tsd_hash_search k u pid_key e.he_pid) [
      | none ↦ tsd_hash_dtor k u (e ∷ [])
      | some a ↦ tsd_hash_dtor k (tsd_hash_del k u a) (a ∷ e ∷ [])
    ]
    else tsd_hash_dtor k u (e ∷ [])

unfoldable pub tsd_hash_table_init : ℕ → Table
tsd_hash_table_init bits = record {
  ht_bits = bits;
  ht_key = 1;
  ht_bins = λ h. [];
  he_key_list = λ key. [];
  he_pid_list = λ pid. [];
  calls = [];
}

-- All entries of a bin, from its head, to the head of the work list.
unfoldable pub drain : Kernel → Table → List Entry → List Entry → Table × List Entry
drain k t work [] = (t, work)
drain k t work (e ∷ es) = drain k (tsd_hash_del k t e) (e ∷ work) es

-- So many bins, from bin `i` on.
unfoldable pub drain_bins : Kernel → Table → List Entry → (i n : ℕ) → Table × List Entry
drain_bins k t work i zero = (t, work)
drain_bins k t work i (suc n) =
    let (u, more) = drain k t work (t.ht_bins i) in drain_bins k u more (i + 1) n

-- What is left before the memory is freed.
unfoldable pub tsd_hash_table_fini : Kernel → Table → Table
tsd_hash_table_fini k t =
    let (u, work) = drain_bins k t [] 0 (2 ^ t.ht_bits) in tsd_hash_dtor k u work
