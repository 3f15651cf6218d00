-- ===== src/Tsd/Distinct/Exported.antt =====
-- The names that tsd_set and tsd_create add.
use spl.Prelude.{
  ℕ, ◌≡◌, sym, ap, ◌∙◌, subst, inl, inr, Bool, true, false, Option, none, some, ◌==◌, if◌then◌else◌,
  arith, Bool-cases, Option-cases, if_elim,
}
use spl.Tsd.{Kernel, keys_max, pid_key, dtor_pid, Table, tsd_hash_search}
use spl.Tsd.Entries.{tsd_hash_add, tsd_hash_add_key, tsd_hash_add_pid, free_key}
use spl.Tsd.Calls.{bad_key, set_value, add_value, tsd_set, tsd_create}
use spl.Tsd.Values.{anchor, with_pid, search-add_pid}
use spl.Tsd.Keys.{free_key-Searched}
use spl.Tsd.Distinct.{Unique, add_head-Unique, set_value-Unique, remove-Unique}

-- A call that returns leaves such a table.
abbrev pub Ok : Option (ℕ × Table) → Type 0
Ok none = Unit {0}
Ok (some r) = Unique r.1

add-Ok :
    (k : Kernel) (t : Table) (key pid value : ℕ) (alloc : Bool)
    → Unique t
    → tsd_hash_search k t key pid ≡ none
    → Ok (tsd_hash_add k t key pid value alloc)
unfolding tsd_hash_add
add-Ok k t key pid value false u n = u
add-Ok k t key pid value true u n = elim (Option-cases (tsd_hash_search k t key (dtor_pid k))) [
  | inl h ↦ rw (tsd_hash_add, h) tt
  | inr (d, h) ↦ elim (Option-cases (tsd_hash_search k t pid_key pid)) [
    | inl i ↦ rw (tsd_hash_add, h) (rw i tt)
    | inr (a, i) ↦
        rw (tsd_hash_add, h)
          (rw i (
            add_head-Unique k t
              (record { he_key = key; he_pid = pid; he_dtor = d.he_dtor; he_value = value }) u n))
  ]
]

add_pid-Unique :
    (k : Kernel) (t : Table) (pid : ℕ)
    → Unique t
    → tsd_hash_search k t pid_key pid ≡ none
    → Unique (with_pid k t pid)
unfolding tsd_hash_add_pid
add_pid-Unique k t pid u n = add_head-Unique k t (anchor pid) u n

add_value-Ok :
    (k : Kernel) (t : Table) (key pid value : ℕ) (alloc_pid alloc : Bool)
    → Unique t
    → bad_key key ≡ false
    → tsd_hash_search k t key pid ≡ none
    → Ok (add_value k t key pid value alloc_pid alloc)
unfolding tsd_hash_add_pid add_value
add_value-Ok k t key pid value alloc_pid alloc u b n =
    elim (Option-cases (tsd_hash_search k t pid_key pid)) [
      | inr (a, i) ↦ rw (add_value, i) (add-Ok k t key pid value alloc u n)
      | inl i ↦ rw (add_value, i) (go alloc_pid i)
    ]
  where
    go :
        (a : Bool)
        → tsd_hash_search k t pid_key pid ≡ none
        → Ok (
            if (tsd_hash_add_pid k t pid a).0 == 0
            then tsd_hash_add k (tsd_hash_add_pid k t pid a).1 key pid value alloc
            else some ((tsd_hash_add_pid k t pid a).0, (tsd_hash_add_pid k t pid a).1))
    go false i = u
    go true i =
        add-Ok k (with_pid k t pid) key pid value alloc (add_pid-Unique k t pid u i)
          (search-add_pid k t pid key pid ∙ ground (arith, b, n))

pub tsd_set-Ok :
    (k : Kernel) (t : Table) (key pid value : ℕ) (alloc_pid alloc : Bool)
    → Unique t
    → Ok (tsd_set k t key pid value alloc_pid alloc)
unfolding tsd_set
tsd_set-Ok k t key pid value alloc_pid alloc u = elim (Bool-cases (bad_key key)) [
  | inl b ↦ rw (tsd_set, b) u
  | inr b ↦ elim (Option-cases (tsd_hash_search k t key pid)) [
    | inl n ↦
        rw (tsd_set, b)
          (rw n (
            if_elim Ok (value == 0) _ _ (λ _. u)
              (λ _. add_value-Ok k t key pid value alloc_pid alloc u b n)))
    | inr (e, s) ↦
        rw (tsd_set, b)
          (rw s (
            if_elim Unique (value == 0) _ _
              (λ _.
                remove-Unique k (set_value k t key pid value) (record e { he_value = value })
                  (set_value-Unique k t key pid value u))
              (λ _. set_value-Unique k t key pid value u)))
  ]
]

add_key-Unique :
    (k : Kernel) (t : Table) (keyp dtor : ℕ) (alloc : Bool)
    → Unique t
    → Unique (tsd_hash_add_key k t keyp dtor alloc).2
unfolding tsd_hash_add_key tsd_hash_search
add_key-Unique k t keyp dtor false u = u
add_key-Unique k t keyp dtor true u =
    let s = free_key-Searched k t keys_max in
    let w = (free_key k t keys_max).1 in
    let v : Unique w = subst Unique (sym s.same_table) u in
    if_elim (λ (r : ℕ × ℕ × Table). Unique r.2) (free_key k t keys_max).0 _ _
      (λ h.
        add_head-Unique k w
          (record { he_key = w.ht_key; he_pid = dtor_pid k; he_dtor = dtor; he_value = 0 }) v
          (ap (λ x. tsd_hash_search k x w.ht_key (dtor_pid k)) s.same_table ∙ s.is_free h))
      (λ _. v)

pub create-Unique :
    (k : Kernel) (t : Table) (keyp dtor : ℕ) (alloc : Bool)
    → Unique t
    → Unique (tsd_create k t keyp dtor alloc).1
unfolding tsd_create
create-Unique k t keyp dtor alloc u =
    if_elim (λ (r : ℕ × Table). Unique r.1) (keyp == 0) _ _
      (λ _. add_key-Unique k t keyp dtor alloc u) (λ _. u)
