-- ===== src/Strings/Parsing.antt =====
-- Parsing the digits of a number.
use native.Mathlib.Nat.{le-mul_of_pos_right}
use spl.Prelude.{
  ℕ, ◌+◌, ◌-◌, ◌*◌, ◌%◌, ◌^◌, ◌≤◌, ◌<◌, ◌≡◌, refl, subst, ◌∙◌, true, false, some, ◌⊎◌, List, [],
  ◌∷◌, ◌++◌, ltb, leb, ◌==◌, arith, Option-cases, inl, inr,
}
use spl.Strings.{digit_of, parsed, scan, ddi_strtoull}

-- A byte is the digit with a value: '0' and the following, 'a' or 'A' and the following.
pub data Digit : (c d : ℕ) → Type 0 where
  decimal : (d : ℕ) → d < 10 → Digit (48 + d) d
  lower : (d : ℕ) → d < 26 → Digit (97 + d) (10 + d)
  upper : (d : ℕ) → d < 26 → Digit (65 + d) (10 + d)

-- Bytes are the digits of a base with the given values.
pub data Digits (base : ℕ) : (cs ds : List ℕ) → Type 0 where
  nil : Digits base [] []
  cons :
      {c d : ℕ} {cs ds : List ℕ}
      → Digit c d
      → d < base
      → Digits base cs ds
      → Digits base (c ∷ cs) (d ∷ ds)

-- The number that digits stand for, behind a number.
abbrev pub number : ℕ → ℕ → List ℕ → ℕ
number base v [] = v
number base v (d ∷ ds) = number base (v * base + d) ds

-- What follows does not begin with a digit of the base.
abbrev pub Ends : ℕ → List ℕ → Type 0
Ends base [] = Unit {0}
Ends base (c ∷ cs) = (d : ℕ) → Digit c d → base ≤ d

pub Digit-digit_of : (c d : ℕ) → Digit c d → digit_of c ≡ some d
Digit-digit_of _ _ (decimal d h) = ground (arith, h)
Digit-digit_of _ _ (lower d h) = ground (arith, h)
Digit-digit_of _ _ (upper d h) = ground (arith, h)

-- A byte with a value is in one of the three ranges.
digit_ranges :
    (c d : ℕ)
    → digit_of c ≡ some d
    → ((48 ≤ c) × (c ≤ 57) × (d ≡ c - 48))
      ⊎ (((65 ≤ c) × (c ≤ 90) × (d ≡ c - 65 + 10)) ⊎ ((97 ≤ c) × (c ≤ 122) × (d ≡ c - 97 + 10)))
digit_ranges c d e = ground (arith, e)

digit_of-Digit : (c d : ℕ) → digit_of c ≡ some d → Digit c d
digit_of-Digit c d e = elim (digit_ranges c d e) [
  | inl (l, u, v) ↦
      subst (λ (x : ℕ). Digit x d) (let k : 48 + d ≡ c = omega arith in k) (decimal d (omega arith))
  | inr (inl (l, u, v)) ↦
      let x : 65 + (c - 65) ≡ c = omega arith in
      let y : 10 + (c - 65) ≡ d = omega arith in
      subst (λ (n : ℕ). Digit n d) x
        (subst (λ (n : ℕ). Digit (65 + (c - 65)) n) y (upper (c - 65) (omega arith)))
  | inr (inr (l, u, v)) ↦
      let x : 97 + (c - 97) ≡ c = omega arith in
      let y : 10 + (c - 97) ≡ d = omega arith in
      subst (λ (n : ℕ). Digit n d) x
        (subst (λ (n : ℕ). Digit (97 + (c - 97)) n) y (lower (c - 97) (omega arith)))
]

step_le : (v base d : ℕ) → 0 < base → v ≤ v * base + d
step_le v base d h = omega (arith, le-mul_of_pos_right v h)

number_le : (base v : ℕ) (ds : List ℕ) → 0 < base → v ≤ number base v ds
number_le base v [] h = omega arith
number_le base v (d ∷ ds) h = omega (arith, step_le v base d h, number_le base (v * base + d) ds h)

scan_end : (base v : ℕ) (rest : List ℕ) → Ends base rest → scan base v rest ≡ parsed v rest
unfolding scan
scan_end base v [] h = refl
scan_end base v (c ∷ cs) h = elim (Option-cases (digit_of c)) [
  | inl e ↦ rw (scan, e) refl
  | inr (d, e) ↦
      let l : base ≤ d = h d (digit_of-Digit c d e) in
      let x : leb base d ≡ true = ground arith in rw (scan, e) (rw x refl)
]

scan_step :
    (base v d c : ℕ) (cs : List ℕ)
    → digit_of c ≡ some d
    → d < base
    → v ≤ v * base + d
    → v * base + d < 2 ^ 64
    → scan base v (c ∷ cs) ≡ scan base (v * base + d) cs
unfolding scan
scan_step base v d c cs e b l h =
    let next = v * base + d in
    let m : next % 2 ^ 64 ≡ next = omega arith in
    let x : leb base d ≡ false = ground (arith, b) in
    let y : ltb next v ≡ false = ground (arith, l) in rw (scan, e) (rw m (rw x (rw y refl)))

scan-Digits :
    (base v : ℕ) (cs ds rest : List ℕ)
    → 0 < base
    → Digits base cs ds
    → Ends base rest
    → number base v ds < 2 ^ 64
    → scan base v (cs ++ rest) ≡ parsed (number base v ds) rest
unfolding scan
scan-Digits base v _ _ rest p nil e h = scan_end base v rest e
scan-Digits base v _ _ rest p (cons {c} {d} {cs} {ds} digit b a) e h =
    let next = v * base + d in
    let k = number_le base next ds p in
    scan_step base v d c (cs ++ rest) (Digit-digit_of c d digit) b (step_le v base d p)
      (omega arith)
    ∙ scan-Digits base next cs ds rest p a e h

-- ddi_strtoull with a base that is not 0, on one or more digits of that base whose number is below
-- 2^64, followed by anything that does not begin with a digit of the base. The digits are '0' to '9'
-- with the values 0 to 9, and 'a' to 'z' and 'A' to 'Z' with the values 10 to 35. It returns 0 with
-- that number and stops behind the digits.
pub ddi_strtoull-number :
    (base c d : ℕ) (cs ds rest : List ℕ)
    → 0 < base
    → Digits base (c ∷ cs) (d ∷ ds)
    → Ends base rest
    → number base 0 (d ∷ ds) < 2 ^ 64
    → ddi_strtoull ((c ∷ cs) ++ rest) base ≡ parsed (number base 0 (d ∷ ds)) rest
unfolding ddi_strtoull
ddi_strtoull-number base c d cs ds rest p a e h =
    let z : (base == 0) ≡ false = ground (arith, p) in
    rw z (scan-Digits base 0 (c ∷ cs) (d ∷ ds) rest p a e h)
