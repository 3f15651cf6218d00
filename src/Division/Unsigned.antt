-- ===== src/Division/Unsigned.antt =====
-- __udivdi3 beside the quotient of natural numbers.
use native.Mathlib.Nat.{
  mod-eq_of_lt, mul-div-le, mod-eq-sub-mul-div, div-lt_iff_lt-mul, mul-le-mul_left,
}
use spl.Prelude.{
  ℕ, ◌+◌, ◌-◌, ◌*◌, ◌/◌, ◌%◌, ◌^◌, ◌≤◌, ◌<◌, ◌≡◌, refl, sym, ap, ap₂, some, ◌∙◌, ltb, leb, ◌==◌,
  if◌then◌else◌, arith, if_elim, true, zero, suc, ◌⊎◌, inl, inr,
}
use spl.Prelude.Powers.{pow_pos, pow-add, div_unique}
use spl.Division.{
  shl64, sub64, nlz64, two_digits, estimate, correct, __udivdi3, __umoddi3, __udivmoddi4,
  __aeabi_uldivmod,
}
use spl.Division.Normalize.{nlz64_large}
use spl.Division.Estimate.{quotient_bounds, estimate_near}

-- What do_div is documented to do.
unfoldable pub Divides : (ℕ → ℕ → ℕ) → Type 0
Divides do_div = (a b : ℕ) → a < 2 ^ 64 → 0 < b → b < 2 ^ 32 → do_div a b ≡ a / b

sub64_le : (u x : ℕ) → u < 2 ^ 64 → x ≤ u → sub64 u (x % 2 ^ 64) ≡ u - x
sub64_le u x h l = omega (arith, h, l)

-- The tail of `correct`, from its first decision on.
settle : (u v q : ℕ) → ℕ
settle u v q = if leb v (sub64 u (q * v % 2 ^ 64)) then q + 1 else q

settle_exact : (u v q : ℕ) → u < 2 ^ 64 → q * v ≤ u → u < q * v + v → settle u v q ≡ q
unfolding settle
settle_exact u v q h a b =
    let d : sub64 u (q * v % 2 ^ 64) ≡ u - q * v = sub64_le u (q * v) h a in
    rw d (ground (arith, a, b))

settle_low : (u v q : ℕ) → u < 2 ^ 64 → q * v + v ≤ u → settle u v q ≡ q + 1
unfolding settle
settle_low u v q h a =
    let d : sub64 u (q * v % 2 ^ 64) ≡ u - q * v = sub64_le u (q * v) h (omega (arith, a)) in
    rw d (ground (arith, a))

correct-settle : (u v q0 : ℕ) → correct u v q0 ≡ settle u v (q0 - 1)
unfolding correct settle
correct-settle u v q0 =
    let e : (if q0 == 0 then q0 else q0 - 1) ≡ q0 - 1 = ground arith in rw e refl

succ_mul : (q v : ℕ) → suc q * v ≡ q * v + v
succ_mul q v = grind arith

settle_div : (u v q : ℕ) → u < 2 ^ 64 → q * v ≤ u → u < q * v + v → settle u v (q - 1) ≡ q
settle_div u v zero h a b = settle_exact u v 0 h a b
settle_div u v (suc q) h a b =
    let e : suc q - 1 ≡ q = omega arith in
    rw e (settle_low u v q h (omega (arith, succ_mul q v, a)) ∙ omega arith)

-- The correction of an estimate that is exact or too large by one.
correct-div :
    (u v q0 : ℕ) → u < 2 ^ 64 → 0 < v → (q0 ≡ u / v) ⊎ (q0 ≡ u / v + 1) → correct u v q0 ≡ u / v
correct-div u v q0 h p (inl e) =
    let (lo, hi) = quotient_bounds u v p in
    rw (correct-settle u v q0, e) (settle_div u v (u / v) h lo hi)
correct-div u v q0 h p (inr e) =
    let (lo, hi) = quotient_bounds u v p in
    let z : q0 - 1 ≡ u / v = omega (arith, e) in
    rw (correct-settle u v q0, z) (settle_exact u v (u / v) h lo hi)

module _ (do_div : ℕ → ℕ → ℕ) (divides : Divides do_div) where
  digit : (a b : ℕ) → a < 2 ^ 64 → 0 < b → b < 2 ^ 32 → do_div a b ≡ a / b
  unfolding Divides
  digit = divides

  -- Two digits in base 2^32.
  two_digits-div : (u v : ℕ) → u < 2 ^ 64 → 0 < v → v < 2 ^ 32 → two_digits do_div u v ≡ u / v
  unfolding two_digits
  two_digits-div u v h p l =
      let u1 = u / 2 ^ 32 in
      let q1 = u1 / v in
      let (lo, hi) = quotient_bounds u1 v p in
      let small : u1 < 2 ^ 32 = omega (arith, h) in
      let q1_small : q1 ≤ u1 = grind arith in
      let dv : v % 2 ^ 32 ≡ v = mod-eq_of_lt l in
      let k : sub64 u1 (q1 * v % 2 ^ 64) ≡ u1 - q1 * v =
        sub64_le u1 (q1 * v) (omega (arith, small)) lo in
      let kb : shl64 (u1 - q1 * v) 32 ≡ (u1 - q1 * v) * 2 ^ 32 =
        mod-eq_of_lt (omega (arith, hi, lo, l)) in
      let r = u % 2 ^ 32 + (u1 - q1 * v) * 2 ^ 32 in
      let rb : r % 2 ^ 64 ≡ r = mod-eq_of_lt (omega (arith, hi, lo, l)) in
      let (lo0, hi0) = quotient_bounds r v p in
      let qb : shl64 q1 32 ≡ q1 * 2 ^ 32 = mod-eq_of_lt (omega (arith, q1_small, small)) in
      let d1 : do_div u1 v ≡ q1 = digit u1 v (omega (arith, small)) p l in
      let d0 : do_div r v ≡ r / v = digit r v (omega (arith, hi, lo, l)) p l in
      let high : r / v < 2 ^ 32 = (div-lt_iff_lt-mul p).1 (omega (arith, hi, lo, l)) in
      let s : (q1 * 2 ^ 32 + r / v) % 2 ^ 64 ≡ q1 * 2 ^ 32 + r / v =
        mod-eq_of_lt (omega (arith, high, q1_small, small)) in
      let m : (q1 * 2 ^ 32 + r / v) * v ≡ q1 * v * 2 ^ 32 + r / v * v = grind (arith) in
      rw (dv, d1, k, kb, rb, d0, qb, s)
        (sym (
          div_unique u v (q1 * 2 ^ 32 + r / v) (omega (arith, m, lo0, hi0, lo))
            (omega (arith, m, lo0, hi0, lo))))

  estimate-div :
      (u v : ℕ)
      → u < 2 ^ 64
      → 2 ^ 32 ≤ v
      → v < 2 ^ 64
      → (estimate do_div u v ≡ u / v) ⊎ (estimate do_div u v ≡ u / v + 1)
  unfolding estimate
  estimate-div u v h l b =
      let (few, large, fits) = nlz64_large v l b in
      let n = nlz64 v in
      let p = 2 ^ n in
      let whole : n + (31 - n) ≡ 31 = omega (arith, few) in
      let one : 1 ≤ 2 ^ (31 - n) = pow_pos (31 - n) in
      let pr : p * 2 ^ (31 - n) ≡ 2 ^ 31 = sym (pow-add n (31 - n)) ∙ ap (λ (k : ℕ). 2 ^ k) whole in
      let norm : shl64 v n ≡ v * p = mod-eq_of_lt fits in
      let v1 : 2 ^ 31 ≤ v * p / 2 ^ 32 = omega (arith, large) in
      let cut : (v * p / 2 ^ 32) % 2 ^ 32 ≡ v * p / 2 ^ 32 = mod-eq_of_lt (omega (arith, fits)) in
      let q1 = u / 2 / (v * p / 2 ^ 32) in
      let d : do_div (u / 2) (v * p / 2 ^ 32) ≡ q1 =
        digit (u / 2) (v * p / 2 ^ 32) (omega (arith, h)) (omega (arith, v1))
          (omega (arith, fits)) in
      let q1_small : q1 < 2 ^ 32 =
        (div-lt_iff_lt-mul (omega (arith, v1))).1 (omega (arith, h, v1)) in
      let p1 : p * 1 ≤ p * 2 ^ (31 - n) = mul-le-mul_left p one in
      let qp : q1 * p ≤ q1 * 2 ^ 31 = mul-le-mul_left q1 (omega (arith, p1, pr)) in
      let back : shl64 q1 n ≡ q1 * p = mod-eq_of_lt (omega (arith, qp, q1_small)) in
      rw (norm, cut, d, back)
        (estimate_near u v p (2 ^ (31 - n)) pr (pow_pos n) (pow_pos (31 - n)) h large)

  -- Suppose that do_div is the quotient of a 64-bit number by a 32-bit number that is not 0. Then
  -- __udivdi3 is the quotient of natural numbers, for a 64-bit dividend and a 64-bit divisor that is
  -- not 0.
  pub __udivdi3-div : (u v : ℕ) → u < 2 ^ 64 → 0 < v → v < 2 ^ 64 → __udivdi3 do_div u v ≡ u / v
  unfolding __udivdi3
  __udivdi3-div u v h p b =
      if_elim (λ (r : ℕ). r ≡ u / v) (v / 2 ^ 32 == 0) _ _
        (λ small.
          let l : v < 2 ^ 32 = ground (arith, small) in
          if_elim (λ (r : ℕ). r ≡ u / v) (ltb (u / 2 ^ 32) v) _ _
            (λ _. ap (λ (x : ℕ). do_div u x) (mod-eq_of_lt l) ∙ digit u v h p l)
            (λ _. two_digits-div u v h p l))
        (λ large.
          correct-div u v (estimate do_div u v) h p (estimate-div u v h (ground (arith, large)) b))

  -- The product and the difference of `__umoddi3` and `__udivmoddi4` do not wrap around.
  pub remainder-mod :
      (u v : ℕ)
      → u < 2 ^ 64
      → 0 < v
      → v < 2 ^ 64
      → sub64 u (v * __udivdi3 do_div u v % 2 ^ 64) ≡ u % v
  remainder-mod u v h p b =
      let q = __udivdi3-div u v h p b in
      rw q (sub64_le u (v * (u / v)) h (mul-div-le u v) ∙ sym (mod-eq-sub-mul-div u v))

  -- Suppose that do_div is the quotient of a 64-bit number by a 32-bit number that is not 0. For a
  -- 64-bit dividend and a 64-bit divisor that is not 0, __umoddi3 is the remainder of natural
  -- numbers, and __udivmoddi4, with a place for the remainder, and __aeabi_uldivmod yield the
  -- quotient and the remainder.
  pub __umoddi3-mod :
      (u v : ℕ)
      → u < 2 ^ 64
      → 0 < v
      → v < 2 ^ 64
      → (__umoddi3 do_div u v ≡ u % v)
        × (__udivmoddi4 do_div u v true ≡ (u / v, some (u % v)))
        × (__aeabi_uldivmod do_div u v ≡ (u / v, u % v))
  unfolding __umoddi3 __udivmoddi4 __aeabi_uldivmod
  __umoddi3-mod u v h p b =
      let r = remainder-mod u v h p b in
      let q = __udivdi3-div u v h p b in
      (r, ap₂ (λ (x y : ℕ). (x, some y)) q r, ap₂ (λ (x y : ℕ). (x, y)) q r)
