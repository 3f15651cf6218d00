-- ===== src/Tsd/Keys.antt =====
-- tsd_create: the key that it gives, and what a search finds afterwards.
use spl.Prelude.{
  ℕ, zero, suc, ◌≤◌, ◌<◌, ◌≡◌, refl, ap, ◌∙◌, ◌⊎◌, inl, inr, Bool, true, none, some, if◌then◌else◌,
  arith, Option-cases, if_elim,
}
use spl.Tsd.{Kernel, keys_max, pid_key, dtor_pid, Table, tsd_hash_search}
use spl.Tsd.Entries.{next_key, free_key, tsd_hash_add_key, einval}
use spl.Tsd.Calls.{tsd_set, tsd_create}
use spl.Tsd.Search.{same_name, search-add_head}

-- A search for a free key changes only the next key; it ends with a key that is free, or having
-- failed on all the keys that it may check.
pub record Searched (k : Kernel) (t : Table) (r : Bool × Table) : Type 0 where
  pub same_table : r.1 ≡ record t { ht_key = r.1.ht_key }
  pub is_free : r.0 ≡ true → tsd_hash_search k t r.1.ht_key (dtor_pid k) ≡ none
  pub in_range : (0 < r.1.ht_key) × (r.1.ht_key ≤ pid_key)

pub free_key-Searched : (k : Kernel) (t : Table) (n : ℕ) → Searched k t (free_key k t n)
unfolding free_key tsd_hash_search
free_key-Searched k t zero = record {
  same_table = refl;
  is_free = λ h. ground (arith, h);
  in_range = ground arith;
}
free_key-Searched k t (suc n) =
    let u : Table = record t { ht_key = next_key t.ht_key } in
    elim (Option-cases (tsd_hash_search k u u.ht_key (dtor_pid k))) [
      | inl s ↦
          rw (free_key, s) (record { same_table = refl; is_free = λ _. s; in_range = ground arith })
      | inr (e, s) ↦
          let r = free_key-Searched k u n in
          rw (free_key, s)
            (record { same_table = r.same_table; is_free = r.is_free; in_range = r.in_range })
    ]

-- A key and a table that tsd_create may give for a destructor.
abbrev pub Fresh : Kernel → Table → ℕ → ℕ × Table → Type 0
Fresh k t dtor r =
    ((r.0 ≡ 0) × (r.1.ht_bins ≡ t.ht_bins))
    ⊎ ((0 < r.0)
        × (r.0 ≤ pid_key)
        × (tsd_hash_search k t r.0 (dtor_pid k) ≡ none)
        × ((key' pid' : ℕ)
            → tsd_hash_search k r.1 key' pid' ≡ (
                if same_name r.0 (dtor_pid k) key' pid'
                then some
                    (record { he_key = r.0; he_pid = dtor_pid k; he_dtor = dtor; he_value = 0 })
                else tsd_hash_search k t key' pid')))

-- tsd_create with memory, on a variable that holds 0. Either it leaves 0 and the entries as they
-- are, or it gives a key from 1 to PID_KEY that had no anchor, and a search of the table finds the
-- key's anchor with the destructor and otherwise what it found before.
pub tsd_create-Fresh :
    (k : Kernel) (t : Table) (dtor : ℕ) → Fresh k t dtor (tsd_create k t 0 dtor true)
unfolding tsd_create tsd_hash_add_key tsd_hash_search
tsd_create-Fresh k t dtor =
    let s = free_key-Searched k t keys_max in
    let u = (free_key k t keys_max).1 in
    let key = u.ht_key in
    if_elim (λ (r : ℕ × ℕ × Table). Fresh k t dtor (r.1, r.2)) (free_key k t keys_max).0 _ _
      (λ h. inr (
        s.in_range.0,
        s.in_range.1,
        s.is_free h,
        λ key' pid'.
            search-add_head k u
              (record { he_key = key; he_pid = dtor_pid k; he_dtor = dtor; he_value = 0 }) key' pid'
            ∙ ap
                (λ w.
                  if same_name key (dtor_pid k) key' pid'
                  then some
                      (record { he_key = key; he_pid = dtor_pid k; he_dtor = dtor; he_value = 0 })
                  else tsd_hash_search k w key' pid')
                s.same_table,
      ))
      (λ h. inl (refl, ap (λ w. w.ht_bins) s.same_table))

-- The first key to try is free.
free_key-first :
    (k : Kernel) (t : Table) (n : ℕ)
    → tsd_hash_search k t (next_key t.ht_key) (dtor_pid k) ≡ none
    → free_key k t (suc n) ≡ (true, record t { ht_key = next_key t.ht_key })
unfolding free_key tsd_hash_search
free_key-first k t n h = rw (free_key, h) refl

free_key-last :
    (k : Kernel) (t : Table)
    → t.ht_key ≡ keys_max
    → tsd_hash_search k t pid_key (dtor_pid k) ≡ none
    → free_key k t keys_max ≡ (true, record t { ht_key = pid_key })
free_key-last k t q h =
    let n : next_key t.ht_key ≡ pid_key = ground (arith, q) in
    free_key-first k t 32767 (ap (λ i. tsd_hash_search k t i (dtor_pid k)) n ∙ h)
    ∙ ap (λ i. (true, record t { ht_key = i })) n

-- When the table's last key is TSD_KEYS_MAX and PID_KEY has no anchor, tsd_create with memory, on a
-- variable that holds 0, gives PID_KEY, and tsd_set with this key returns EINVAL and changes
-- nothing, for every thread and value.
pub tsd_create-unusable :
    (k : Kernel) (t : Table) (dtor pid value : ℕ) (alloc_pid alloc : Bool)
    → t.ht_key ≡ keys_max
    → tsd_hash_search k t pid_key (dtor_pid k) ≡ none
    → let (key, u) = tsd_create k t 0 dtor true in
      (key ≡ pid_key) × (tsd_set k u key pid value alloc_pid alloc ≡ some (einval, u))
unfolding tsd_create tsd_hash_add_key tsd_set
tsd_create-unusable k t dtor pid value alloc_pid alloc q h = rw (free_key-last k t q h) (refl, refl)
