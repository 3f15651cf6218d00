-- ===== src/Tsd/Leaving.antt =====
-- tsd_get after tsd_exit and tsd_destroy.
use spl.Prelude.{
  ℕ, ◌≤◌, ◌≡◌, refl, ap, ap₂, ◌∙◌, inl, inr, Bool, true, false, none, some, List, [], ◌∷◌,
  if◌then◌else◌, arith, Option-cases,
}
use spl.Tsd.{Kernel, pid_key, dtor_pid, Entry, Table, tsd_hash_search}
use spl.Tsd.Entries.{tsd_hash_del}
use spl.Tsd.Calls.{tsd_get, take_all, tsd_destroy, tsd_exit}
use spl.Tsd.Search.{same_name, same_name-true}
use spl.Tsd.Distinct.{Unique, del-Unique, take_all-Unique}
use spl.Tsd.Removal.{del-get, del_anchor-get, search_found, dtor-get, Reach, Reach-Unique}

-- A list of links leads to the entry of this name.
abbrev pub leads : ℕ → ℕ → List (ℕ × ℕ) → Bool
leads key pid [] = false
leads key pid ((i, j) ∷ ns) = if same_name i j key pid then true else leads key pid ns

-- A name without an entry has no value.
unset-get :
    (k : Kernel) (t : Table) (key pid key' pid' : ℕ)
    → tsd_hash_search k t key pid ≡ none
    → same_name key pid key' pid' ≡ true
    → tsd_get k t key' pid' ≡ 0
unfolding tsd_get
unset-get k t key pid key' pid' s r =
    let (p, q) = same_name-true key pid key' pid' r in rw (p, q) (rw s (ground arith))

skip_unset :
    (s l : Bool) (v : ℕ)
    → (s ≡ true → v ≡ 0)
    → (if l then 0 else v) ≡ (if (if s then true else l) then 0 else v)
skip_unset true true v h = refl
skip_unset true false v h = h refl
skip_unset false l v h = refl

join_tests :
    (s l : Bool) (v : ℕ)
    → (if l then 0 else if s then 0 else v) ≡ (if (if s then true else l) then 0 else v)
join_tests true true v = refl
join_tests true false v = refl
join_tests false l v = refl

take_all-get :
    (k : Kernel) (t : Table) (work : List Entry) (ns : List (ℕ × ℕ)) (key' pid' : ℕ)
    → Unique t
    → tsd_get k (take_all k t work ns).0 key' pid'
      ≡ (if leads key' pid' ns then 0 else tsd_get k t key' pid')
unfolding take_all
take_all-get k t work [] key' pid' u = refl
take_all-get k t work ((key, pid) ∷ ns) key' pid' u =
    elim (Option-cases (tsd_hash_search k t key pid)) [
      | inl s ↦
          let r = take_all-get k t work ns key' pid' u in
          let z = unset-get k t key pid key' pid' s in
          rw (take_all, s)
            (r
              ∙ skip_unset (same_name key pid key' pid') (leads key' pid' ns)
                  (tsd_get k t key' pid') z)
      | inr (e, s) ↦
          let r =
            take_all-get k (tsd_hash_del k t e) (e ∷ work) ns key' pid' (del-Unique k t e u) in
          let d = del-get k t e key' pid' u in
          let f = search_found k t key pid e s in
          rw (take_all, s)
            (r
              ∙ ap (λ x. if leads key' pid' ns then 0 else x)
                  (d
                    ∙ ap₂ (λ i j. if same_name i j key' pid' then 0 else tsd_get k t key' pid') f.0
                        f.1)
              ∙ join_tests (same_name key pid key' pid') (leads key' pid' ns)
                  (tsd_get k t key' pid'))
    ]

-- Take a table that tsd_hash_table_init and a sequence of tsd_set, tsd_create, tsd_destroy and
-- tsd_exit made, in which the thread has an anchor. After tsd_exit of the thread, tsd_get of every
-- key and thread that the anchor's list leads to is NULL, and every other one is what it was.
pub tsd_exit-get :
    (k : Kernel) {t : Table} (pid key' pid' : ℕ) (a : Entry)
    → Reach k t
    → tsd_hash_search k t pid_key pid ≡ some a
    → tsd_get k (tsd_exit k t pid) key' pid'
      ≡ (if leads key' pid' (t.he_pid_list pid) then 0 else tsd_get k t key' pid')
unfolding tsd_exit
tsd_exit-get k {t} pid key' pid' a r s =
    let u = Reach-Unique k r in
    let (w, work) = take_all k t [] (t.he_pid_list pid) in
    rw (tsd_exit, s)
      (dtor-get k (tsd_hash_del k w a) (a ∷ work) key' pid'
        ∙ del_anchor-get k w a key' pid' (take_all-Unique k t [] (t.he_pid_list pid) u)
            (search_found k t pid_key pid a s).0
        ∙ take_all-get k t [] (t.he_pid_list pid) key' pid' u)

-- Take a table that tsd_hash_table_init and a sequence of tsd_set, tsd_create, tsd_destroy and
-- tsd_exit made, in which the key has an anchor. After tsd_destroy of the key its variable is 0, and
-- for threads with a pid up to PID_MAX_LIMIT, tsd_get of every key and thread that the anchor's list
-- leads to is NULL, and every other one is what it was.
pub tsd_destroy-get :
    (k : Kernel) {t : Table} (keyp key' pid' : ℕ) (a : Entry)
    → Reach k t
    → tsd_hash_search k t keyp (dtor_pid k) ≡ some a
    → pid' ≤ k.pid_max_limit
    → let (key, u) = tsd_destroy k t keyp in
      (key ≡ 0)
      × (tsd_get k u key' pid'
          ≡ (if leads key' pid' (t.he_key_list keyp) then 0 else tsd_get k t key' pid'))
unfolding tsd_destroy
tsd_destroy-get k {t} keyp key' pid' a r s l =
    let u = Reach-Unique k r in
    let (w, work) = take_all k t [] (t.he_key_list keyp) in
    let f = (search_found k t keyp (dtor_pid k) a s).1 in
    let d = del-get k w a key' pid' (take_all-Unique k t [] (t.he_key_list keyp) u) in
    rw (tsd_destroy, s)
      (
        refl,
        dtor-get k (tsd_hash_del k w a) (a ∷ work) key' pid'
            ∙ ground (arith, d, f, l)
            ∙ take_all-get k t [] (t.he_key_list keyp) key' pid' u,
      )
