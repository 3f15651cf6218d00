-- ===== src/Division/Tests.antt =====
-- The division at sample numbers.
use spl.Prelude.{ℕ, ◌+◌, ◌-◌, ◌/◌, ◌^◌, ◌≡◌, refl, arith, inl, true, some}
use spl.Division.{__udivdi3, __divmoddi4, __aeabi_ldivmod, neg64}
use spl.Division.Unsigned.{Divides, __udivdi3-div}
use spl.Division.Signed.{to_int, quot, rem, __divmoddi4-quot-rem}

abbrev exact : ℕ → ℕ → ℕ
exact a b = a / b

exact-Divides : Divides exact
unfolding Divides
exact-Divides a b h p l = refl

__udivdi3-div_example : __udivdi3 exact (2 ^ 64 - 1) (2 ^ 40 + 1) ≡ (2 ^ 64 - 1) / (2 ^ 40 + 1)
__udivdi3-div_example =
    __udivdi3-div exact exact-Divides (2 ^ 64 - 1) (2 ^ 40 + 1) (omega arith) (omega arith)
      (omega arith)

__divmoddi4-quot-rem_example :
    (to_int (__divmoddi4 exact (neg64 7) 2 true).0 ≡ quot (to_int (neg64 7)) (to_int 2))
    × ((r : ℕ) × ((__divmoddi4 exact (neg64 7) 2 true).1 ≡ some r)
        × (to_int r ≡ rem (to_int (neg64 7)) (to_int 2)))
__divmoddi4-quot-rem_example =
    __divmoddi4-quot-rem exact exact-Divides (neg64 7) 2 (omega arith) (omega arith) (omega arith)
      (inl (λ e. omega (arith, e)))

-- The ARM call for signed operands: -7 by 2 gives -3, with the remainder 1 of the bit patterns.
ldivmod_minus_seven : __aeabi_ldivmod exact (neg64 7) 2 ≡ (neg64 3, 1)
unfolding __aeabi_ldivmod __udivdi3
ldivmod_minus_seven = refl
