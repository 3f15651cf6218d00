-- ===== src/Tsd/Distinct.antt =====
-- How often a bin of the table holds a name, and what the operations do to that.
pub mod Exported
use spl.Prelude.{
  ℕ, zero, suc, ◌+◌, ◌*◌, ◌%◌, ◌^◌, ◌≤◌, ◌<◌, ◌≡◌, refl, sym, ap, ap₂, ◌∙◌, subst, ◌⊎◌, inl, inr,
  Bool, true, false, ◌&&◌, Option, none, some, List, [], ◌∷◌, ltb, ◌==◌, ==_iff, if◌then◌else◌,
  arith, Bool-cases, Option-cases, if_elim,
}
use spl.Tsd.{
  Kernel, keys_max, pid_key, dtor_pid, Entry, Table, hash, is_entry, find_entry, tsd_hash_search,
  set_at,
}
use spl.Tsd.Entries.{
  add_head, drop_entry, add_anchor, tsd_hash_add, tsd_hash_add_key, tsd_hash_add_pid, tsd_hash_del,
  tsd_hash_dtor, tsd_remove_entry, free_key, only_link, drain, drain_bins,
}
use spl.Tsd.Calls.{
  update, bad_key, set_value, add_value, tsd_set, tsd_create, take_all, take_anchor, tsd_destroy,
  tsd_exit,
}
use spl.Tsd.Search.{same_name, search-add_head, find-update, find_found}
use spl.Tsd.Values.{anchor, with_pid, search-add_pid}
use spl.Tsd.Keys.{Searched, free_key-Searched}

-- No name occurs twice in a bin.
abbrev pub Distinct : List Entry → Type 0
Distinct [] = Unit {0}
Distinct (e ∷ es) = (find_entry e.he_key e.he_pid es ≡ none) × Distinct es

-- In no bin of a table.
abbrev pub Unique : Table → Type 0
Unique t = (h : ℕ) → Distinct (t.ht_bins h)

drop_none :
    (key pid i j : ℕ) (es : List Entry)
    → find_entry i j es ≡ none
    → find_entry i j (drop_entry key pid es) ≡ none
unfolding find_entry drop_entry
drop_none key pid i j [] h = refl
drop_none key pid i j (e ∷ es) h = ground (arith, h, drop_none key pid i j es)

drop-Distinct : (key pid : ℕ) (es : List Entry) → Distinct es → Distinct (drop_entry key pid es)
unfolding drop_entry
drop-Distinct key pid [] d = tt
drop-Distinct key pid (e ∷ es) (n, d) =
    if_elim Distinct (is_entry key pid e) _ _ (λ _. d)
      (λ _. (drop_none key pid e.he_key e.he_pid es n, drop-Distinct key pid es d))

update-none :
    (key pid value i j : ℕ) (es : List Entry)
    → find_entry i j es ≡ none
    → find_entry i j (update key pid value es) ≡ none
unfolding find_entry update
update-none key pid value i j [] h = refl
update-none key pid value i j (e ∷ es) h = ground (arith, h, update-none key pid value i j es)

update-Distinct :
    (key pid value : ℕ) (es : List Entry) → Distinct es → Distinct (update key pid value es)
unfolding update
update-Distinct key pid value [] d = tt
update-Distinct key pid value (e ∷ es) (n, d) =
    if_elim Distinct (is_entry key pid e) _ _ (λ _. (n, d))
      (λ _. (update-none key pid value e.he_key e.he_pid es n, update-Distinct key pid value es d))

-- What is dropped is no longer found.
pub drop_gone :
    (key pid : ℕ) (es : List Entry)
    → Distinct es
    → find_entry key pid (drop_entry key pid es) ≡ none
unfolding find_entry drop_entry
drop_gone key pid [] d = refl
drop_gone key pid (e ∷ es) (n, d) = ground (arith, n, drop_gone key pid es d)

-- One bin changes.
set_at-Unique :
    (f : ℕ → List Entry) (h : ℕ) (es : List Entry)
    → ((i : ℕ) → Distinct (f i))
    → Distinct es
    → (i : ℕ) → Distinct (set_at h es f i)
unfolding set_at
set_at-Unique f h es u d i = if_elim Distinct (i == h) _ _ (λ _. d) (λ _. u i)

pub add_head-Unique :
    (k : Kernel) (t : Table) (e : Entry)
    → Unique t
    → tsd_hash_search k t e.he_key e.he_pid ≡ none
    → Unique (add_head k t e)
unfolding tsd_hash_search
add_head-Unique k t e u n = set_at-Unique t.ht_bins _ _ u (n, u _)

pub set_value-Unique :
    (k : Kernel) (t : Table) (key pid value : ℕ) → Unique t → Unique (set_value k t key pid value)
set_value-Unique k t key pid value u =
    set_at-Unique t.ht_bins _ _ u (update-Distinct key pid value _ (u _))

pub del-Unique : (k : Kernel) (t : Table) (e : Entry) → Unique t → Unique (tsd_hash_del k t e)
unfolding tsd_hash_del
del-Unique k t e u = set_at-Unique t.ht_bins _ _ u (drop-Distinct e.he_key e.he_pid _ (u _))

pub remove-Unique :
    (k : Kernel) (t : Table) (e : Entry) → Unique t → Unique (tsd_remove_entry k t e)
unfolding tsd_remove_entry tsd_hash_dtor
remove-Unique k t e u =
    let d = del-Unique k t e u in
    if_elim Unique (only_link (t.he_pid_list e.he_pid)) _ _
      (λ _. go (tsd_hash_search k (tsd_hash_del k t e) pid_key e.he_pid) d) (λ _. d)
  where
    go :
        (o : Option Entry)
        → Unique (tsd_hash_del k t e)
        → Unique (elim o [
          | none ↦ tsd_hash_dtor k (tsd_hash_del k t e) (e ∷ [])
          | some a ↦ tsd_hash_dtor k (tsd_hash_del k (tsd_hash_del k t e) a) (a ∷ e ∷ [])
        ])
    go none d = d
    go (some a) d = del-Unique k (tsd_hash_del k t e) a d

abbrev pub Left : Table × List Entry → Type 0
Left r = Unique r.0

pub take_all-Unique :
    (k : Kernel) (t : Table) (work : List Entry) (ns : List (ℕ × ℕ))
    → Unique t
    → Left (take_all k t work ns)
unfolding take_all
take_all-Unique k t work [] u = u
take_all-Unique k t work ((key, pid) ∷ ns) u =
    go (tsd_hash_search k t key pid) (take_all-Unique k t work ns u)
      (λ e. take_all-Unique k (tsd_hash_del k t e) (e ∷ work) ns (del-Unique k t e u))
  where
    go :
        (o : Option Entry)
        → Left (take_all k t work ns)
        → ((e : Entry) → Left (take_all k (tsd_hash_del k t e) (e ∷ work) ns))
        → Left (elim o [
          | none ↦ take_all k t work ns
          | some e ↦ take_all k (tsd_hash_del k t e) (e ∷ work) ns
        ])
    go none d f = d
    go (some e) d f = f e

anchor-Unique :
    (k : Kernel) (a : Entry) (t : Table) (ns : List (ℕ × ℕ))
    → Unique t
    → Unique (take_anchor k a (take_all k t [] ns))
unfolding tsd_hash_dtor
anchor-Unique k a t ns u = del-Unique k (take_all k t [] ns).0 a (take_all-Unique k t [] ns u)

pub exit-Unique : (k : Kernel) (t : Table) (pid : ℕ) → Unique t → Unique (tsd_exit k t pid)
unfolding tsd_exit
exit-Unique k t pid u = elim (Option-cases (tsd_hash_search k t pid_key pid)) [
  | inl e ↦ rw (tsd_exit, e) u
  | inr (a, e) ↦ rw (tsd_exit, e) (anchor-Unique k a t (t.he_pid_list pid) u)
]

pub destroy-Unique :
    (k : Kernel) (t : Table) (keyp : ℕ) → Unique t → Unique (tsd_destroy k t keyp).1
unfolding tsd_destroy
destroy-Unique k t keyp u = elim (Option-cases (tsd_hash_search k t keyp (dtor_pid k))) [
  | inl e ↦ rw (tsd_destroy, e) u
  | inr (a, e) ↦ rw (tsd_destroy, e) (anchor-Unique k a t (t.he_key_list keyp) u)
]
