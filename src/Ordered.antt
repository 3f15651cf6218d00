-- ===== src/Ordered.antt =====
-- Kernel lists kept in the order of a key (task ids): taskq_insert_in_order, taskq_find_list and
-- the list walk of task_expire_impl in module/spl/spl-taskq.c.
pub mod Laws
use spl.Prelude.{
  ℕ, zero, suc, ◌+◌, ◌≤◌, ◌<◌, ◌≡◌, refl, ◌≢◌, ◌⊎◌, inl, inr, Bool, true, false, Option, none, some,
  List, [], ◌∷◌, ◌++◌, arith, ltb, leb, ◌==◌, if◌then◌else◌, length, min,
}

module _ {ℓ} {A : Type ℓ} (key : A → ℕ) where
  -- The walk from the tail: behind the last node with a lower key, if there is one.
  pub insert_behind : A → List A → Option (List A)
  insert_behind a [] = none
  insert_behind a (w ∷ ws) = elim (insert_behind a ws) [
    | some r ↦ some (w ∷ r)
    | none ↦ if ltb (key w) (key a) then some (w ∷ a ∷ ws) else none
  ]

  -- Without such a node the new one goes to the head.
  unfoldable pub insert_in_order : A → List A → List A
  unfolding insert_behind
  insert_in_order a ws = elim (insert_behind a ws) [ some r ↦ r | none ↦ a ∷ ws ]

  -- The search stops at the first node with a higher key.
  unfoldable pub find_list : ℕ → List A → Option A
  find_list i [] = none
  find_list i (w ∷ ws) =
      if key w == i then some w else if ltb i (key w) then none else find_list i ws

  -- list_del of the node with this key.
  unfoldable pub remove : ℕ → List A → List A
  remove i [] = []
  remove i (w ∷ ws) = if key w == i then ws else w ∷ remove i ws

  -- How often a key occurs.
  abbrev pub count : ℕ → List A → ℕ
  count i [] = 0
  count i (w ∷ ws) = (if key w == i then 1 else 0) + count i ws

  -- The keys rise along the list, from above `n`.
  abbrev pub Above : ℕ → List A → Type 0
  Above n [] = Unit {0}
  Above n (w ∷ ws) = (n < key w) × Above (key w) ws

  -- The lower of `m` and the key of the first node.
  abbrev pub head_min : List A → ℕ → ℕ
  head_min [] m = m
  head_min (w ∷ ws) m = if ltb m (key w) then m else key w
