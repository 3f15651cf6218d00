-- ===== src/Division.antt =====
-- The division of module/spl/spl-generic.c for 32-bit machines. A 64-bit integer is its bit pattern, a
-- number below 2^64; a signed one is negative from 2^63 on. The kernel's do_div,
-- which divides a 64-bit number by a 32-bit one, is a parameter.
pub mod Normalize
pub mod Estimate
pub mod Unsigned
pub mod Signed
pub mod Tests
use spl.Prelude.{
  ℕ, ◌+◌, ◌-◌, ◌*◌, ◌/◌, ◌%◌, ◌^◌, Bool, true, false, ltb, leb, ◌==◌, not, Option, none, some,
  if◌then◌else◌,
}

-- A shift of a 64-bit number to the left, and the difference of two.
abbrev pub shl64 : ℕ → ℕ → ℕ
shl64 x n = x * 2 ^ n % 2 ^ 64

abbrev pub sub64 : ℕ → ℕ → ℕ
sub64 a b = (a + 2 ^ 64 - b) % 2 ^ 64

-- One of the tests of nlz64, at a limit of 64 - `k` bits.
abbrev pub nlz_step : (k : ℕ) → ℕ × ℕ → ℕ × ℕ
nlz_step k (n, x) = if ltb x (2 ^ (64 - k)) then (n + k, shl64 x k) else (n, x)

unfoldable pub nlz64 : ℕ → ℕ
nlz64 x =
    if x == 0
    then 64
    else let (n, y) = nlz_step 2 (nlz_step 4 (nlz_step 8 (nlz_step 16 (nlz_step 32 (0, x))))) in
      if ltb y (2 ^ 63) then n + 1 else n

unfoldable pub correct : (u v q0 : ℕ) → ℕ
correct u v q0 =
    let q = if q0 == 0 then q0 else q0 - 1 in if leb v (sub64 u (q * v % 2 ^ 64)) then q + 1 else q

-- The sign of a 64-bit integer: x >> 63 is 0 or has all bits set, and x ^ t keeps or flips all bits.
abbrev pub negative : ℕ → Bool
negative x = leb (2 ^ 63) x

abbrev pub sign_mask : Bool → ℕ
sign_mask s = if s then 2 ^ 64 - 1 else 0

abbrev pub xor_mask : ℕ → Bool → ℕ
xor_mask x s = if s then 2 ^ 64 - 1 - x else x

abbrev pub neg64 : ℕ → ℕ
neg64 x = sub64 0 x

unfoldable pub abs64 : ℕ → ℕ
abs64 x = sub64 (xor_mask x (negative x)) (sign_mask (negative x))

-- The sign of u ^ v.
abbrev pub signs_differ : ℕ → ℕ → Bool
signs_differ u v = if negative u then not (negative v) else negative v

module _ (do_div : ℕ → ℕ → ℕ) where
  -- The divisor is cut to 32 bits.
  unfoldable pub __div_u64 : ℕ → ℕ → ℕ
  __div_u64 u v = do_div u (v % 2 ^ 32)

  -- The quotient digits of the grade school method, by a divisor below 2^32.
  unfoldable pub two_digits : ℕ → ℕ → ℕ
  unfolding __div_u64
  two_digits u v =
      let u1 = u / 2 ^ 32 in
      let q1 = __div_u64 u1 v in
      let k = sub64 u1 (q1 * v % 2 ^ 64) in
      let u0 = (u % 2 ^ 32 + shl64 k 32) % 2 ^ 64 in (shl64 q1 32 + __div_u64 u0 v) % 2 ^ 64

  -- The estimate for a divisor from 2^32 on, correct or too large by one.
  unfoldable pub estimate : ℕ → ℕ → ℕ
  unfolding nlz64 __div_u64
  estimate u v =
      let n = nlz64 v in
      let v1 = shl64 v n / 2 ^ 32 in let q1 = __div_u64 (u / 2) v1 in shl64 q1 n / 2 ^ 31

  unfoldable pub __udivdi3 : ℕ → ℕ → ℕ
  unfolding __div_u64 two_digits estimate correct
  __udivdi3 u v =
      if v / 2 ^ 32 == 0
      then (if ltb (u / 2 ^ 32) v then __div_u64 u v else two_digits u v)
      else correct u v (estimate u v)

  unfoldable pub __umoddi3 : ℕ → ℕ → ℕ
  __umoddi3 dividend divisor = sub64 dividend (divisor * __udivdi3 dividend divisor % 2 ^ 64)

  -- `r` tells that the caller passes a place for the remainder.
  unfoldable pub __udivmoddi4 : ℕ → ℕ → (r : Bool) → ℕ × Option ℕ
  __udivmoddi4 n d r =
      let q = __udivdi3 n d in (q, if r then some (sub64 n (d * q % 2 ^ 64)) else none)

  unfoldable pub __divdi3 : ℕ → ℕ → ℕ
  unfolding abs64
  __divdi3 u v =
      let q = __udivdi3 (abs64 u) (abs64 v) in
      let t = signs_differ u v in sub64 (xor_mask q t) (sign_mask t)

  unfoldable pub __divmoddi4 : ℕ → ℕ → (r : Bool) → ℕ × Option ℕ
  __divmoddi4 n d r =
      let nn = negative n in
      let nd = negative d in
      let n1 = if nn then neg64 n else n in
      let d1 = if nd then neg64 d else d in
      let q = __udivdi3 n1 d1 in
      let rr = sub64 n1 (d1 * q % 2 ^ 64) in
      let q1 = if (if nn then not nd else nd) then neg64 q else q in
      let rr1 = if nn then neg64 rr else rr in (q1, if r then some rr1 else none)

  -- The registers r0 to r3 of the ARM calls hold the quotient and the remainder.
  unfoldable pub __aeabi_uldivmod : ℕ → ℕ → ℕ × ℕ
  unfolding __umoddi3
  __aeabi_uldivmod u v = (__udivdi3 u v, __umoddi3 u v)

  unfoldable pub __aeabi_ldivmod : ℕ → ℕ → ℕ × ℕ
  unfolding __divdi3 __umoddi3
  __aeabi_ldivmod u v = (__divdi3 u v, __umoddi3 u v)
