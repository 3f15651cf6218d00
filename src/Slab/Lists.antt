-- ===== src/Slab/Lists.antt =====
-- Sums and properties over the lists of slabs.
pub use spl.Prelude.{total, total-append}
use spl.Prelude.{
  All, if◌then◌else◌, ℕ, ◌+◌, ◌≡◌, refl, sym, ap, ◌∙◌, true, false, none, some, List, [], ◌∷◌, ◌++◌,
  ◌==◌, arith, Bool-cases, ==_iff, inl, inr, subst,
}
use mathlib.Core.Option.{some-injective, none-ne-some}
use spl.Ordered.{remove, count}
use spl.Slab.{Slab}
use spl.Slab.Release.{find_slab, write_slab}

pub find_total :
    (g : Slab → ℕ) (a : ℕ) (s : Slab) (ss : List Slab)
    → find_slab a ss ≡ some s
    → (s.sks_addr ≡ a) × (total g (remove Slab.sks_addr a ss) + g s ≡ total g ss)
unfolding find_slab remove
find_total g a s [] e = ground (arith, e)
find_total g a s (t ∷ ts) e = elim (Bool-cases (t.sks_addr == a)) [
  | inl h ↦
      let same : t ≡ s = some-injective t s (sym (rw h refl) ∙ e) in
      let at : t.sks_addr ≡ a = (==_iff (t.sks_addr) a).0 h in
      rw h (sym (ap Slab.sks_addr same) ∙ at, omega (arith, ap g same))
  | inr h ↦
      let later : find_slab a ts ≡ some s = sym (rw h refl) ∙ e in
      let (i, j) = find_total g a s ts later in rw h (i, omega (arith, j))
]

-- Without the slab, taking it off changes nothing.
pub find_none :
    (a : ℕ) (ss : List Slab)
    → find_slab a ss ≡ none
    → (remove Slab.sks_addr a ss ≡ ss) × (count Slab.sks_addr a ss ≡ 0)
unfolding find_slab remove
find_none a [] e = (refl, refl)
find_none a (t ∷ ts) e = ground (arith, e, find_none a ts)

module _ (a : ℕ) (s w : Slab) (same : w.sks_addr ≡ a) where
  -- Writing a slab that is on the list.
  pub write_total :
      (g : Slab → ℕ) (ss : List Slab)
      → find_slab a ss ≡ some s
      → total g (write_slab w ss) + g s ≡ total g ss + g w
  unfolding find_slab write_slab
  write_total g [] e = ground (arith, e)
  write_total g (t ∷ ts) e = elim (Bool-cases (t.sks_addr == a)) [
    | inl h ↦
        let at : t ≡ s = some-injective t s (sym (rw h refl) ∙ e) in
        rw (subst (λ (x : ℕ). (t.sks_addr == x) ≡ true) (sym same) h) (omega (arith, ap g at))
    | inr h ↦
        let later : find_slab a ts ≡ some s = sym (rw h refl) ∙ e in
        rw (subst (λ (x : ℕ). (t.sks_addr == x) ≡ false) (sym same) h)
          (omega (arith, write_total g ts later))
  ]

  pub write_none : (ss : List Slab) → find_slab a ss ≡ none → write_slab w ss ≡ ss
  unfolding find_slab write_slab
  write_none [] e = refl
  write_none (t ∷ ts) e = ground (arith, same, e, write_none ts)

  pub remove_write :
      (ss : List Slab) → remove Slab.sks_addr a (write_slab w ss) ≡ remove Slab.sks_addr a ss
  unfolding remove write_slab
  remove_write [] = refl
  remove_write (t ∷ ts) = ground (arith, same, remove_write ts)

  pub write-All : (P : Slab → Type 0) (ss : List Slab) → P w → All P ss → All P (write_slab w ss)
  unfolding write_slab
  write-All P [] p h = h
  write-All P (t ∷ ts) p h = elim (Bool-cases (t.sks_addr == w.sks_addr)) [
    | inl e ↦ rw e (p, h.1)
    | inr e ↦ rw e (h.0, write-All P ts p h.1)
  ]

pub remove-All :
    (a : ℕ) (P : Slab → Type 0) (ss : List Slab) → All P ss → All P (remove Slab.sks_addr a ss)
unfolding remove
remove-All a P [] h = h
remove-All a P (t ∷ ts) h = elim (Bool-cases (t.sks_addr == a)) [
  | inl e ↦ rw e h.1
  | inr e ↦ rw e (h.0, remove-All a P ts h.1)
]

pub find-All :
    (a : ℕ) (s : Slab) (P : Slab → Type 0) (ss : List Slab)
    → find_slab a ss ≡ some s
    → All P ss
    → P s
unfolding find_slab
find-All a s P [] e h = absurd (none-ne-some s e)
find-All a s P (t ∷ ts) e h = elim (Bool-cases (t.sks_addr == a)) [
  | inl b ↦ subst P (some-injective t s (sym (rw b refl) ∙ e)) h.0
  | inr b ↦ find-All a s P ts (sym (rw b refl) ∙ e) h.1
]

-- Lists of objects, whose order does not matter to a count.
pub append_nil : (xs : List ℕ) → xs ++ [] ≡ xs
append_nil [] = refl
append_nil (x ∷ xs) = ap (λ (ys : List ℕ). x ∷ ys) (append_nil xs)

pub append_one : (xs : List ℕ) (y : ℕ) (zs : List ℕ) → (xs ++ (y ∷ [])) ++ zs ≡ xs ++ (y ∷ zs)
append_one [] y zs = refl
append_one (x ∷ xs) y zs = ap (λ (ys : List ℕ). x ∷ ys) (append_one xs y zs)

pub append_assoc : (xs ys zs : List ℕ) → (xs ++ ys) ++ zs ≡ xs ++ (ys ++ zs)
append_assoc [] ys zs = refl
append_assoc (x ∷ xs) ys zs = ap (λ (ws : List ℕ). x ∷ ws) (append_assoc xs ys zs)

pub count_middle :
    (key : ℕ → ℕ) (a y : ℕ) (xs zs : List ℕ)
    → count key a (xs ++ (y ∷ zs)) ≡ count key a (y ∷ (xs ++ zs))
count_middle key a y [] zs = refl
count_middle key a y (x ∷ xs) zs = omega (arith, count_middle key a y xs zs)

pub count_swap :
    (key : ℕ → ℕ) (a : ℕ) (xs ys zs : List ℕ)
    → count key a (ys ++ (xs ++ zs)) ≡ count key a ((xs ++ ys) ++ zs)
count_swap key a [] ys zs = refl
count_swap key a (x ∷ xs) ys zs =
    count_middle key a x ys (xs ++ zs)
    ∙ ap (λ (n : ℕ). (if key x == a then 1 else 0) + n) (count_swap key a xs ys zs)
