-- ===== src/Ordered/Laws.antt =====
-- The order of the ordered lists, and what each operation does to the keys that they hold.
use spl.Prelude.{
  ℕ, ◌+◌, ◌≤◌, ◌<◌, ◌≡◌, refl, ◌⊎◌, inl, inr, none, some, List, [], ◌∷◌, ◌++◌, arith, ◌==◌,
  if◌then◌else◌, Option-cases,
}
use spl.Ordered.{insert_behind, insert_in_order, find_list, remove, count, Above, head_min}

module _ {ℓ} {A : Type ℓ} (key : A → ℕ) where
  pub Above-mono : {m n : ℕ} (ws : List A) → m ≤ n → Above key n ws → Above key m ws
  Above-mono [] h a = tt
  Above-mono (w ∷ ws) h a = (omega arith, a.1)

  -- A key that is not above the bound does not occur.
  pub count_low : (n i : ℕ) (ws : List A) → Above key n ws → i ≤ n → count key i ws ≡ 0
  count_low n i [] a h = refl
  count_low n i (w ∷ ws) a h = ground (arith, count_low (key w) i ws a.1)

  -- No key occurs twice.
  pub count-le_one : (n i : ℕ) (ws : List A) → Above key n ws → count key i ws ≤ 1
  count-le_one n i [] a = omega arith
  count-le_one n i (w ∷ ws) a =
      ground (arith, count-le_one (key w) i ws a.1, count_low (key w) i ws a.1)

  -- Where the walk from the tail finds no lower key, no key of the list is lower.
  behind-none :
      (n : ℕ) (a : A) (ws : List A)
      → insert_behind key a ws ≡ none
      → Above key n ws
      → count key (key a) ws ≡ 0
      → Above key (key a) ws
  unfolding insert_behind
  behind-none n a [] e h f = tt
  behind-none n a (w ∷ ws) e h f = elim (Option-cases (insert_behind key a ws)) [
    | inl q ↦ ground (arith, q)
    | inr (r, q) ↦ ground arith
  ]

  count-behind :
      (a : A) (ws : List A) (i : ℕ) (r : List A)
      → insert_behind key a ws ≡ some r
      → count key i r ≡ (if key a == i then 1 else 0) + count key i ws
  unfolding insert_behind
  count-behind a [] i r e = cc
  count-behind a (w ∷ ws) i r e = elim (Option-cases (insert_behind key a ws)) [
    | inl q ↦ ground arith
    | inr (q, f) ↦ ground (arith, count-behind a ws i q f)
  ]

  Above-behind :
      (n : ℕ) (a : A) (ws : List A) (r : List A)
      → insert_behind key a ws ≡ some r
      → Above key n ws
      → count key (key a) ws ≡ 0
      → Above key n r
  unfolding insert_behind
  Above-behind n a [] r e h f = cc
  Above-behind n a (w ∷ ws) r e h f = elim (Option-cases (insert_behind key a ws)) [
    | inl q ↦ ground (arith, behind-none (key w) a ws q h.1)
    | inr (q, g) ↦ ground (arith, Above-behind (key w) a ws q g h.1)
  ]

  -- An insertion adds its key and no other.
  pub count-insert_in_order :
      (a : A) (ws : List A) (i : ℕ)
      → count key i (insert_in_order key a ws) ≡ (if key a == i then 1 else 0) + count key i ws
  unfolding insert_in_order
  count-insert_in_order a ws i = elim (Option-cases (insert_behind key a ws)) [
    | inl q ↦ ground arith
    | inr (r, q) ↦ ground (arith, count-behind a ws i r q)
  ]

  pub Above-insert_in_order :
      (n : ℕ) (a : A) (ws : List A)
      → Above key n ws
      → n < key a
      → count key (key a) ws ≡ 0
      → Above key n (insert_in_order key a ws)
  unfolding insert_in_order
  Above-insert_in_order n a ws h l f = elim (Option-cases (insert_behind key a ws)) [
    | inl q ↦ ground (arith, behind-none n a ws q h f)
    | inr (r, q) ↦ ground (arith, Above-behind n a ws r q h f)
  ]

  -- A new highest key goes to the tail.
  pub Above-snoc :
      (n : ℕ) (a : A) (ws : List A)
      → Above key n ws
      → n < key a
      → ((i : ℕ) → key a ≤ i → count key i ws ≡ 0)
      → Above key n (ws ++ a ∷ [])
  Above-snoc n a [] h l f = (l, tt)
  Above-snoc n a (w ∷ ws) h l f =
      ground (arith, Above-snoc (key w) a ws h.1, f (key w), λ (i : ℕ) (k : key a ≤ i). f i k)

  pub count-append :
      (i : ℕ) (xs ys : List A) → count key i (xs ++ ys) ≡ count key i xs + count key i ys
  count-append i [] ys = omega arith
  count-append i (x ∷ xs) ys = ground (arith, count-append i xs ys)

  pub count-remove :
      (i j : ℕ) (ws : List A)
      → 0 < count key j ws
      → count key i ws ≡ (if j == i then 1 else 0) + count key i (remove key j ws)
  unfolding remove
  count-remove i j [] h = absurd (omega arith)
  count-remove i j (w ∷ ws) h = ground (arith, count-remove i j ws)

  pub remove-Above : (n j : ℕ) (ws : List A) → Above key n ws → Above key n (remove key j ws)
  unfolding remove
  remove-Above n j [] a = tt
  remove-Above n j (w ∷ ws) a =
      ground (arith, remove-Above (key w) j ws a.1, Above-mono {m = n} {n = key w} ws)

  -- The first node of an ordered list has the lowest key.
  pub head_min-le :
      (n i m : ℕ) (ws : List A) → Above key n ws → 0 < count key i ws → head_min key ws m ≤ i
  head_min-le n i m [] a h = absurd (omega arith)
  head_min-le n i m (w ∷ ws) a h = ground (arith, count_low (key w) i ws a.1)

  -- The search with its early end finds a key of an ordered list exactly if it occurs.
  pub find_list_cases :
      (n i : ℕ) (ws : List A)
      → Above key n ws
      → ((find_list key i ws ≡ none) × (count key i ws ≡ 0))
        ⊎ ((a : A) × (find_list key i ws ≡ some a) × (key a ≡ i) × (count key i ws ≡ 1))
  unfolding find_list
  find_list_cases n i [] h = inl (refl, refl)
  find_list_cases n i (w ∷ ws) h =
      ground (arith, find_list_cases (key w) i ws h.1, count_low (key w) i ws h.1)
