-- ===== src/Tsd/Search.antt =====
-- What a search finds after an entry is added, changed or dropped.
use spl.Prelude.{
  ℕ, ◌≡◌, refl, sym, ap, ap₂, ==_iff, ◌∙◌, subst, Bool, true, false, Option, none, some, List, [],
  ◌∷◌, ◌==◌, if◌then◌else◌, arith, if_elim,
}
use spl.Tsd.{Kernel, Entry, Table, hash, is_entry, find_entry, tsd_hash_search, set_at}
use spl.Tsd.Entries.{add_head, drop_entry}
use spl.Tsd.Calls.{update, set_value}

-- Two names are the same.
abbrev pub same_name : (key pid key' pid' : ℕ) → Bool
same_name key pid key' pid' = if key == key' then pid == pid' else false

is_entry-true :
    (key pid : ℕ) (e : Entry) → is_entry key pid e ≡ true → (key ≡ e.he_key) × (pid ≡ e.he_pid)
is_entry-true key pid e h = ground (arith, h)

-- The same on one bin; the bins' numbers agree when the names do.
bin-add_head :
    (f : ℕ → List Entry) (e : Entry) (h i key pid : ℕ)
    → (is_entry key pid e ≡ true → i ≡ h)
    → find_entry key pid (if i == h then e ∷ f h else f i)
      ≡ (if is_entry key pid e then some e else find_entry key pid (f i))
unfolding find_entry
bin-add_head f e h i key pid g =
    if_elim
      (λ es.
        find_entry key pid es ≡ (if is_entry key pid e then some e else find_entry key pid (f i)))
      (i == h) _ _
      (λ q.
        subst
          (λ j.
            find_entry key pid (e ∷ f j)
            ≡ (if is_entry key pid e then some e else find_entry key pid (f i)))
          ((==_iff i h).0 q) refl)
      (λ q.
        if_elim (λ o. find_entry key pid (f i) ≡ o) (is_entry key pid e) _ _
          (λ r. let w = g r in ground (arith, q, w)) (λ _. refl))

pub search-add_head :
    (k : Kernel) (t : Table) (e : Entry) (key pid : ℕ)
    → tsd_hash_search k (add_head k t e) key pid
      ≡ (if is_entry key pid e then some e else tsd_hash_search k t key pid)
unfolding tsd_hash_search set_at find_entry
search-add_head k t e key pid =
    bin-add_head t.ht_bins e (hash k t e.he_key e.he_pid) (hash k t key pid) key pid
      (λ r. let (p, q) = is_entry-true key pid e r in ap₂ (λ a b. hash k t a b) p q)

pub find-update :
    (key pid value key' pid' : ℕ) (es : List Entry)
    → find_entry key' pid' (update key pid value es) ≡ (
        if same_name key pid key' pid'
        then elim (find_entry key pid es) [
          | none ↦ none
          | some e ↦ some (record e { he_value = value })
        ]
        else find_entry key' pid' es)
unfolding find_entry update
find-update key pid value key' pid' [] = ground arith
find-update key pid value key' pid' (e ∷ es) =
    ground (arith, find-update key pid value key' pid' es)

pub find_found :
    (key pid : ℕ) (es : List Entry) (e : Entry)
    → find_entry key pid es ≡ some e
    → (e.he_key ≡ key) × (e.he_pid ≡ pid)
unfolding find_entry
find_found key pid [] e h = ground (arith, h)
find_found key pid (f ∷ es) e h = ground (arith, find_found key pid es e)

pub find-drop :
    (key pid key' pid' : ℕ) (es : List Entry)
    → same_name key pid key' pid' ≡ false
    → find_entry key' pid' (drop_entry key pid es) ≡ find_entry key' pid' es
unfolding find_entry drop_entry
find-drop key pid key' pid' [] h = refl
find-drop key pid key' pid' (e ∷ es) h = ground (arith, find-drop key pid key' pid' es h)

bin-update :
    (f : ℕ → List Entry) (h i key pid value key' pid' : ℕ) (e : Entry)
    → (same_name key pid key' pid' ≡ true → i ≡ h)
    → find_entry key pid (f h) ≡ some e
    → find_entry key' pid' (if i == h then update key pid value (f h) else f i) ≡ (
        if same_name key pid key' pid'
        then some (record e { he_value = value })
        else find_entry key' pid' (f i))
bin-update f h i key pid value key' pid' e g s =
    let set : Option Entry → Option Entry =
      λ o. elim o [ none ↦ none | some a ↦ some (record a { he_value = value }) ] in
    if_elim
      (λ es. find_entry key' pid' es ≡ (
        if same_name key pid key' pid'
        then some (record e { he_value = value })
        else find_entry key' pid' (f i)))
      (i == h) _ _
      (λ q.
        find-update key pid value key' pid' (f h)
        ∙ ap (λ o. if same_name key pid key' pid' then set o else find_entry key' pid' (f h)) s
        ∙ ap
            (λ j.
              if same_name key pid key' pid'
              then some (record e { he_value = value })
              else find_entry key' pid' (f j))
            (sym ((==_iff i h).0 q)))
      (λ q.
        if_elim (λ o. find_entry key' pid' (f i) ≡ o) (same_name key pid key' pid') _ _
          (λ r. let w = g r in ground (arith, q, w)) (λ _. refl))

pub same_name-true :
    (key pid key' pid' : ℕ) → same_name key pid key' pid' ≡ true → (key' ≡ key) × (pid' ≡ pid)
same_name-true key pid key' pid' h = ground (arith, h)

-- Setting a value is seen by a search for that name, and by no other search.
pub search-set_value :
    (k : Kernel) (t : Table) (key pid value key' pid' : ℕ) (e : Entry)
    → tsd_hash_search k t key pid ≡ some e
    → tsd_hash_search k (set_value k t key pid value) key' pid' ≡ (
        if same_name key pid key' pid'
        then some (record e { he_value = value })
        else tsd_hash_search k t key' pid')
unfolding tsd_hash_search set_at
search-set_value k t key pid value key' pid' e h =
    bin-update t.ht_bins (hash k t key pid) (hash k t key' pid') key pid value key' pid' e
      (λ r. let (p, q) = same_name-true key pid key' pid' r in ap₂ (λ a b. hash k t a b) p q) h
