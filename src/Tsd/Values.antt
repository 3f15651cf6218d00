-- ===== src/Tsd/Values.antt =====
-- tsd_get after tsd_set of a value.
use spl.Prelude.{
  ℕ, ◌≤◌, ◌<◌, ◌≡◌, refl, ap, ◌∙◌, inl, inr, true, false, some, ◌∷◌, ◌==◌, if◌then◌else◌, arith,
  Option-cases,
}
use spl.Tsd.{Kernel, keys_max, pid_key, dtor_pid, Entry, Table, is_entry, tsd_hash_search, set_at}
use spl.Tsd.Entries.{add_head, tsd_hash_add, tsd_hash_add_pid}
use spl.Tsd.Calls.{bad_key, set_value, add_value, tsd_set, tsd_get}
use spl.Tsd.Search.{same_name, search-add_head, search-set_value}

-- The second table holds the value for the name, and what the first holds for the other names of
-- values.
abbrev pub Holds : Kernel → Table → Table → (key pid value : ℕ) → Type 0
Holds k t u key pid value =
    (key' pid' : ℕ)
    → tsd_get k u key' pid' ≡ (if same_name key pid key' pid' then value else tsd_get k t key' pid')

pub set_value-Holds :
    (k : Kernel) (t : Table) (key pid value : ℕ) (e : Entry)
    → bad_key key ≡ false
    → tsd_hash_search k t key pid ≡ some e
    → Holds k t (set_value k t key pid value) key pid value
unfolding tsd_get
set_value-Holds k t key pid value e g h key' pid' =
    rw (search-set_value k t key pid value key' pid' e h) (ground (arith, g))

-- The anchor of a thread.
abbrev pub anchor : ℕ → Entry
anchor pid = record { he_key = pid_key; he_pid = pid; he_dtor = 0; he_value = 0 }

abbrev pub with_pid : Kernel → Table → ℕ → Table
with_pid k t pid = (tsd_hash_add_pid k t pid true).1

pub search-add_pid :
    (k : Kernel) (t : Table) (pid key' pid' : ℕ)
    → tsd_hash_search k (with_pid k t pid) key' pid' ≡ (
        if is_entry key' pid' (anchor pid)
        then some (anchor pid)
        else tsd_hash_search k t key' pid')
unfolding tsd_hash_add_pid tsd_hash_search
search-add_pid k t pid key' pid' = search-add_head k t (anchor pid) key' pid'

-- A new anchor is no value.
add_pid-same :
    (k : Kernel) (t : Table) (pid key' pid' : ℕ)
    → tsd_get k (with_pid k t pid) key' pid' ≡ tsd_get k t key' pid'
unfolding tsd_get
add_pid-same k t pid key' pid' = rw (search-add_pid k t pid key' pid') (ground arith)

add_pid-finds :
    (k : Kernel) (t : Table) (pid key p : ℕ) (d : Entry)
    → bad_key key ≡ false
    → tsd_hash_search k t key p ≡ some d
    → tsd_hash_search k (with_pid k t pid) key p ≡ some d
add_pid-finds k t pid key p d g h = search-add_pid k t pid key p ∙ ground (arith, g, h)

-- The entry that is added, and the table with it.
abbrev entry : ℕ → ℕ → ℕ → Entry → Entry
entry key pid value d = record { he_key = key; he_pid = pid; he_dtor = d.he_dtor; he_value = value }

abbrev added : Kernel → Table → ℕ → ℕ → Entry → Table
added k t key pid e = record (add_head k t e) {
  he_key_list = set_at key ((key, pid) ∷ t.he_key_list key) t.he_key_list;
  he_pid_list = set_at pid ((key, pid) ∷ t.he_pid_list pid) t.he_pid_list;
}

-- Adding succeeds when both anchors are there.
add-added :
    (k : Kernel) (t : Table) (key pid value : ℕ) (d a : Entry)
    → tsd_hash_search k t key (dtor_pid k) ≡ some d
    → tsd_hash_search k t pid_key pid ≡ some a
    → tsd_hash_add k t key pid value true ≡ some (0, added k t key pid (entry key pid value d))
unfolding tsd_hash_add
add-added k t key pid value d a h i = rw (tsd_hash_add, h) (rw (tsd_hash_add, i) refl)

search-added :
    (k : Kernel) (t : Table) (key pid : ℕ) (e : Entry) (key' pid' : ℕ)
    → tsd_hash_search k (added k t key pid e) key' pid'
      ≡ (if is_entry key' pid' e then some e else tsd_hash_search k t key' pid')
unfolding tsd_hash_search
search-added k t key pid e key' pid' = search-add_head k t e key' pid'

added-Holds :
    (k : Kernel) (t : Table) (key pid value : ℕ) (d : Entry)
    → bad_key key ≡ false
    → Holds k t (added k t key pid (entry key pid value d)) key pid value
unfolding tsd_get
added-Holds k t key pid value d g key' pid' =
    rw (search-added k t key pid (entry key pid value d) key' pid') (ground (arith, g))

-- tsd_set of a value that is not NULL, for a key from 1 to TSD_KEYS_MAX that has its anchor,
-- succeeds when memory is got. After it tsd_get of this key and thread is the value, and tsd_get of
-- every other key and thread is what it was. The hash function is any function.
pub tsd_set-Holds :
    (k : Kernel) (t : Table) (key pid value : ℕ) (d : Entry)
    → 0 < value
    → 0 < key
    → key ≤ keys_max
    → tsd_hash_search k t key (dtor_pid k) ≡ some d
    → (u : Table) × (tsd_set k t key pid value true true ≡ some (0, u)) × Holds k t u key pid value
unfolding tsd_set add_value tsd_hash_add_pid tsd_hash_add
tsd_set-Holds k t key pid value d v g l h =
    let b : bad_key key ≡ false = ground (arith, g, l) in
    let z : (value == 0) ≡ false = ground (arith, v) in
    elim (Option-cases (tsd_hash_search k t key pid)) [
      | inr (e, s) ↦ (
        set_value k t key pid value,
        rw (tsd_set, b) (rw (tsd_set, s) (rw (tsd_set, z) refl)),
        set_value-Holds k t key pid value e b s,
      )
      | inl s ↦ elim (Option-cases (tsd_hash_search k t pid_key pid)) [
        | inr (a, i) ↦
            let u = added k t key pid (entry key pid value d) in
            (
              u,
              rw (tsd_set, b)
                  (rw (tsd_set, s)
                    (rw (tsd_set, z) (rw (add_value, i) (add-added k t key pid value d a h i)))),
              added-Holds k t key pid value d b,
            )
        | inl i ↦
            let w = with_pid k t pid in
            let u = added k w key pid (entry key pid value d) in
            let f = search-add_pid k t pid pid_key pid in
            let i' : tsd_hash_search k w pid_key pid ≡ some (anchor pid) = f ∙ ground arith in
            (
              u,
              rw (tsd_set, b)
                  (rw (tsd_set, s)
                    (rw (tsd_set, z)
                      (rw (add_value, i)
                        (add-added k w key pid value d (anchor pid)
                          (add_pid-finds k t pid key (dtor_pid k) d b h) i')))),
              λ key' pid'.
                  added-Holds k w key pid value d b key' pid'
                  ∙ ap (λ o. if same_name key pid key' pid' then value else o)
                      (add_pid-same k t pid key' pid'),
            )
      ]
    ]
