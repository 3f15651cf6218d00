-- ===== src/Tsd/Removal.antt =====
-- tsd_set of NULL, and the tables that the module's calls come to.
use spl.Prelude.{
  ℕ, ◌≤◌, ◌<◌, ◌≡◌, refl, sym, ap, ap₂, ◌∙◌, subst, inl, inr, Bool, true, false, Option, none, some,
  List, [], ◌∷◌, ◌==◌, ==_iff, if◌then◌else◌, arith, Bool-cases, Option-cases, if_elim,
}
use spl.Tsd.{Kernel, keys_max, pid_key, Entry, Table, hash, find_entry, tsd_hash_search, set_at}
use spl.Tsd.Entries.{
  drop_entry, tsd_hash_del, tsd_hash_dtor, tsd_remove_entry, only_link, tsd_hash_table_init,
}
use spl.Tsd.Calls.{bad_key, set_value, tsd_set, tsd_get, tsd_create, tsd_destroy, tsd_exit}
use spl.Tsd.Search.{same_name, same_name-true, find-drop, find_found}
use spl.Tsd.Values.{Holds, set_value-Holds}
use spl.Tsd.Distinct.{
  Distinct, Unique, drop_gone, set_value-Unique, del-Unique, exit-Unique, destroy-Unique,
}
use spl.Tsd.Distinct.Exported.{create-Unique, Ok, tsd_set-Ok}

-- The same on one bin.
bin-drop :
    (f : ℕ → List Entry) (h i key pid key' pid' : ℕ)
    → Distinct (f h)
    → (same_name key pid key' pid' ≡ true → i ≡ h)
    → find_entry key' pid' (if i == h then drop_entry key pid (f h) else f i)
      ≡ (if same_name key pid key' pid' then none else find_entry key' pid' (f i))
bin-drop f h i key pid key' pid' d g = elim (Bool-cases (same_name key pid key' pid')) [
  | inl s ↦
      let (p, q) = same_name-true key pid key' pid' s in
      let b : (i == h) ≡ true = (==_iff i h).1 (g s) in
      rw (s, b) (rw (p, q) (drop_gone key pid (f h) d))
  | inr s ↦ rw s (
      if_elim (λ es. find_entry key' pid' es ≡ find_entry key' pid' (f i)) (i == h) _ _
        (λ b.
          find-drop key pid key' pid' (f h) s
          ∙ ap (λ j. find_entry key' pid' (f j)) (sym ((==_iff i h).0 b)))
        (λ _. refl))
]

-- A deleted entry is not found any more, and the others are.
pub search-del :
    (k : Kernel) (t : Table) (e : Entry) (key' pid' : ℕ)
    → Unique t
    → tsd_hash_search k (tsd_hash_del k t e) key' pid'
      ≡ (if same_name e.he_key e.he_pid key' pid' then none else tsd_hash_search k t key' pid')
unfolding tsd_hash_search tsd_hash_del set_at
search-del k t e key' pid' u =
    bin-drop t.ht_bins (hash k t e.he_key e.he_pid) (hash k t key' pid') e.he_key e.he_pid key' pid'
      (u _)
      (λ r.
        let (p, q) = same_name-true e.he_key e.he_pid key' pid' r in ap₂ (λ a b. hash k t a b) p q)

pub search_found :
    (k : Kernel) (t : Table) (key pid : ℕ) (e : Entry)
    → tsd_hash_search k t key pid ≡ some e
    → (e.he_key ≡ key) × (e.he_pid ≡ pid)
unfolding tsd_hash_search
search_found k t key pid e h = find_found key pid _ e h

pub del-get :
    (k : Kernel) (t : Table) (e : Entry) (key' pid' : ℕ)
    → Unique t
    → tsd_get k (tsd_hash_del k t e) key' pid'
      ≡ (if same_name e.he_key e.he_pid key' pid' then 0 else tsd_get k t key' pid')
unfolding tsd_get
del-get k t e key' pid' u = rw (search-del k t e key' pid' u) (ground arith)

-- An anchor of a thread is no value.
pub del_anchor-get :
    (k : Kernel) (t : Table) (a : Entry) (key' pid' : ℕ)
    → Unique t
    → a.he_key ≡ pid_key
    → tsd_get k (tsd_hash_del k t a) key' pid' ≡ tsd_get k t key' pid'
unfolding tsd_get
del_anchor-get k t a key' pid' u p = rw (search-del k t a key' pid' u) (ground (arith, p))

pub dtor-get :
    (k : Kernel) (t : Table) (work : List Entry) (key' pid' : ℕ)
    → tsd_get k (tsd_hash_dtor k t work) key' pid' ≡ tsd_get k t key' pid'
unfolding tsd_get tsd_hash_dtor tsd_hash_search
dtor-get k t work key' pid' = refl

remove-get :
    (k : Kernel) (t : Table) (e : Entry) (key' pid' : ℕ)
    → Unique t
    → tsd_get k (tsd_remove_entry k t e) key' pid'
      ≡ (if same_name e.he_key e.he_pid key' pid' then 0 else tsd_get k t key' pid')
unfolding tsd_remove_entry
remove-get k t e key' pid' u =
    if_elim
      (λ w.
        tsd_get k w key' pid'
        ≡ (if same_name e.he_key e.he_pid key' pid' then 0 else tsd_get k t key' pid'))
      (only_link (t.he_pid_list e.he_pid)) _ _
      (λ _. go (tsd_hash_search k (tsd_hash_del k t e) pid_key e.he_pid) refl)
      (λ _. dtor-get k (tsd_hash_del k t e) (e ∷ []) key' pid' ∙ del-get k t e key' pid' u)
  where
    go :
        (o : Option Entry)
        → tsd_hash_search k (tsd_hash_del k t e) pid_key e.he_pid ≡ o
        → tsd_get k
            (elim o [
              | none ↦ tsd_hash_dtor k (tsd_hash_del k t e) (e ∷ [])
              | some a ↦ tsd_hash_dtor k (tsd_hash_del k (tsd_hash_del k t e) a) (a ∷ e ∷ [])
            ])
            key'
            pid'
          ≡ (if same_name e.he_key e.he_pid key' pid' then 0 else tsd_get k t key' pid')
    go none h = dtor-get k (tsd_hash_del k t e) (e ∷ []) key' pid' ∙ del-get k t e key' pid' u
    go (some a) h =
        dtor-get k (tsd_hash_del k (tsd_hash_del k t e) a) (a ∷ e ∷ []) key' pid'
        ∙ del_anchor-get k (tsd_hash_del k t e) a key' pid' (del-Unique k t e u)
            (search_found k (tsd_hash_del k t e) pid_key e.he_pid a h).0
        ∙ del-get k t e key' pid' u

unset-Holds :
    (k : Kernel) (t : Table) (key pid : ℕ)
    → tsd_hash_search k t key pid ≡ none
    → Holds k t t key pid 0
unfolding tsd_get
unset-Holds k t key pid s key' pid' = elim (Bool-cases (same_name key pid key' pid')) [
  | inl r ↦
      let (p, q) = same_name-true key pid key' pid' r in rw r (rw (p, q) (rw s (ground arith)))
  | inr r ↦ rw r refl
]

-- x
pub tsd_set-Removes :
    (k : Kernel) (t : Table) (key pid : ℕ) (alloc_pid alloc : Bool)
    → Unique t
    → 0 < key
    → key ≤ keys_max
    → (u : Table) × (tsd_set k t key pid 0 alloc_pid alloc ≡ some (0, u)) × Holds k t u key pid 0
unfolding tsd_set
tsd_set-Removes k t key pid alloc_pid alloc u g l =
    let b : bad_key key ≡ false = ground (arith, g, l) in
    elim (Option-cases (tsd_hash_search k t key pid)) [
      | inl s ↦ (t, rw (tsd_set, b) (rw s refl), unset-Holds k t key pid s)
      | inr (e, s) ↦
          let w = set_value k t key pid 0 in
          (
            tsd_remove_entry k w (record e { he_value = 0 }),
            rw (tsd_set, b) (rw s refl),
            λ key' pid'.
                let f = search_found k t key pid e s in
                let w' = set_value-Holds k t key pid 0 e b s key' pid' in
                remove-get k w (record e { he_value = 0 }) key' pid'
                  (set_value-Unique k t key pid 0 u)
                ∙ ground (arith, f, w'),
          )
    ]

-- One call of the module.
pub data Step (k : Kernel) (t : Table) : Table → Type 0 where
  set :
      (key pid value : ℕ) (alloc_pid alloc : Bool) {rc : ℕ} {u : Table}
      → tsd_set k t key pid value alloc_pid alloc ≡ some (rc, u)
      → Step k t u
  create : (keyp dtor : ℕ) (alloc : Bool) → Step k t (tsd_create k t keyp dtor alloc).1
  destroy : (keyp : ℕ) → Step k t (tsd_destroy k t keyp).1
  leave : (pid : ℕ) → Step k t (tsd_exit k t pid)

pub data Reach (k : Kernel) : Table → Type 0 where
  start : (bits : ℕ) → Reach k (tsd_hash_table_init bits)
  later : {t u : Table} → Reach k t → Step k t u → Reach k u

init-Unique : (bits : ℕ) → Unique (tsd_hash_table_init bits)
unfolding tsd_hash_table_init
init-Unique bits h = tt

Step-Unique : (k : Kernel) {t u : Table} → Step k t u → Unique t → Unique u
Step-Unique k {t} (set key pid value a b e) v = subst Ok e (tsd_set-Ok k t key pid value a b v)
Step-Unique k {t} (create keyp dtor a) v = create-Unique k t keyp dtor a v
Step-Unique k {t} (destroy keyp) v = destroy-Unique k t keyp v
Step-Unique k {t} (leave pid) v = exit-Unique k t pid v

pub Reach-Unique : (k : Kernel) {t : Table} → Reach k t → Unique t
Reach-Unique k (start bits) = init-Unique bits
Reach-Unique k (later r st) = Step-Unique k st (Reach-Unique k r)

-- Take a table that tsd_hash_table_init made and any sequence of tsd_set, tsd_create, tsd_destroy
-- and tsd_exit, with or without memory. Then tsd_set of NULL, for a key from 1 to TSD_KEYS_MAX,
-- returns 0, after it tsd_get of this key and thread is NULL, and tsd_get of every other key and
-- thread is what it was.
pub Reach-removes :
    (k : Kernel) {t : Table} (key pid : ℕ) (alloc_pid alloc : Bool)
    → Reach k t
    → 0 < key
    → key ≤ keys_max
    → (u : Table) × (tsd_set k t key pid 0 alloc_pid alloc ≡ some (0, u)) × Holds k t u key pid 0
Reach-removes k {t} key pid a b r g l = tsd_set-Removes k t key pid a b (Reach-Unique k r) g l
