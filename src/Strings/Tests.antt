-- ===== src/Strings/Tests.antt =====
-- The theorem on parsing at the string "1Fc/" and base 16.
use spl.Prelude.{ℕ, ◌≡◌, none, some, List, [], ◌∷◌, arith}
use spl.Strings.{parsed, ddi_strtoull}
use spl.Strings.Parsing.{
  decimal, lower, upper, Digits, nil, cons, Ends, Digit-digit_of, number, ddi_strtoull-number,
}

abbrev slash : List ℕ
slash = 47 ∷ []

hex-Digits : Digits 16 (49 ∷ 70 ∷ 99 ∷ []) (1 ∷ 15 ∷ 12 ∷ [])
hex-Digits =
    cons (decimal 1 (omega arith)) (omega arith)
      (cons (upper 5 (omega arith)) (omega arith) (cons (lower 2 (omega arith)) (omega arith) nil))

slash-Ends : Ends 16 slash
slash-Ends d h = absurd (let e : none ≡ some d = Digit-digit_of 47 d h in cc)

ddi_strtoull-number_example :
    ddi_strtoull (49 ∷ 70 ∷ 99 ∷ 47 ∷ []) 16 ≡ parsed (number 16 0 (1 ∷ 15 ∷ 12 ∷ [])) slash
ddi_strtoull-number_example =
    ddi_strtoull-number 16 49 1 (70 ∷ 99 ∷ []) (15 ∷ 12 ∷ []) slash (omega arith) hex-Digits
      slash-Ends (omega arith)
