-- ===== src/Strings.antt =====
-- The number parsers of module/spl/spl-generic.c, the macro define_ddi_strtoux at a type of 64 bits. A
-- string is the list of its bytes before the NUL, in ASCII; the pointer is what is left of it.
pub mod Parsing
mod Tests
use spl.Prelude.{
  ℕ, zero, suc, ◌+◌, ◌-◌, ◌*◌, ◌%◌, ◌^◌, Bool, true, false, Option, none, some, List, [], ◌∷◌, ltb,
  leb, ◌==◌, if◌then◌else◌, get_or, drop,
}

-- The value of a byte as a digit: isdigit, or isalpha after tolower.
abbrev pub digit_of : ℕ → Option ℕ
digit_of c =
    if (if leb 48 c then leb c 57 else false)
    then some (c - 48)
    else if (if leb 65 c then leb c 90 else false)
    then some (c - 65 + 10)
    else if (if leb 97 c then leb c 122 else false)
    then some (c - 97 + 10)
    else none

-- EINVAL, ERANGE, or 0 with the value and the string that is left.
pub data Parsed : Type 0 where
  invalid : Parsed
  overflow : Parsed
  parsed : ℕ → List ℕ → Parsed

-- The loop.
unfoldable pub scan : (base value : ℕ) → List ℕ → Parsed
scan base value [] = parsed value []
scan base value (c ∷ cs) = elim (digit_of c) [
  | none ↦ parsed value (c ∷ cs)
  | some digit ↦
      let next = (value * base + digit) % 2 ^ 64 in
      if leb base digit
      then parsed value (c ∷ cs)
      else if ltb next value
      then overflow
      else scan base next cs
]

abbrev pub is_xdigit : ℕ → Bool
is_xdigit c = elim (digit_of c) [ none ↦ false | some d ↦ ltb d 16 ]

-- The base and the start of the digits, from the prefix. The octal test compares with the number 8.
unfoldable pub detect_base : List ℕ → Option (ℕ × List ℕ)
detect_base str =
    if get_or str 0 0 == 48
    then (if (if get_or str 1 0 == 120 then true else get_or str 1 0 == 88)
        then (if is_xdigit (get_or str 2 0) then some (16, drop 2 str) else none)
        else if (if leb 48 (get_or str 1 0) then ltb (get_or str 1 0) 8 else false)
        then some (8, drop 1 str)
        else none)
    else some (10, str)

unfoldable pub ddi_strtoull : List ℕ → (base : ℕ) → Parsed
ddi_strtoull [] base = invalid
ddi_strtoull (c ∷ cs) base =
    if base == 0
    then (elim (detect_base (c ∷ cs)) [ none ↦ invalid | some (b, ptr) ↦ scan b 0 ptr ])
    else scan base 0 (c ∷ cs)
