-- ===== src/Division/Estimate.antt =====
-- The estimate of a quotient for a divisor from 2^32 on.
use native.Mathlib.Nat.{
  mul_comm, mul-add, mul-div-mul_right, div-div-eq-div-mul, le-div_iff_mul-le, div-lt_iff_lt-mul,
  mul-le-mul_left, mul-le-mul_right, le_of_mul-le-mul_left,
}
use spl.Prelude.{
  ℕ, ◌+◌, ◌-◌, ◌*◌, ◌/◌, ◌^◌, ◌≤◌, ◌<◌, ◌≡◌, sym, ap, ◌∙◌, ◌==◌, arith, Bool-cases, ==_iff, ◌⊎◌,
  inl, inr,
}

-- A quotient and its remainder, as the bounds of the product.
pub quotient_bounds : (a d : ℕ) → 0 < d → (a / d * d ≤ a) × (a < a / d * d + d)
quotient_bounds a d p = (grind arith, grind arith)

-- The estimate divides by a number w that is a little smaller than v.
pub near :
    (u v w : ℕ)
    → 0 < w
    → w ≤ v
    → (u / v + 1) * v ≤ (u / v + 2) * w
    → (u / w ≡ u / v) ⊎ (u / w ≡ u / v + 1)
near u v w p l b =
    let (lo, hi) = quotient_bounds u v (omega (arith, p, l)) in
    let up : (u / v + 1) * v ≡ u / v * v + v = grind arith in
    let low : u / v * w ≤ u / v * v = mul-le-mul_left (u / v) l in
    let top : u / w < u / v + 2 = (div-lt_iff_lt-mul p).1 (omega (arith, hi, up, b)) in
    let bot : u / v ≤ u / w = (le-div_iff_mul-le p).1 (omega (arith, low, lo)) in
    elim (Bool-cases (u / w == u / v)) [
      | inl e ↦ inl (ground (arith, e))
      | inr e ↦ inr (ground (arith, e, top, bot))
    ]

-- The distance of w and v, at a normalized divisor.
pub close :
    (q v p r w : ℕ)
    → p * r ≡ 2 ^ 31
    → 0 < r
    → q < 2 * p
    → 2 ^ 32 * r ≤ w
    → v < w + 2 * r
    → (q + 1) * v ≤ (q + 2) * w
close q v p r w e r0 b l h =
    let d = 2 * r - 1 in
    let d1 : d + 1 ≡ 2 * r = omega (arith, r0) in
    let p0 : 0 < p = omega (arith, b) in
    let over : (q + 1) * v ≤ (q + 1) * (w + d) = mul-le-mul_left (q + 1) (omega (arith, h, r0)) in
    let split : (q + 1) * (w + d) ≡ (q + 1) * w + (q + 1) * d = mul-add (q + 1) w d in
    let last : (q + 2) * w ≡ (q + 1) * w + w = grind arith in
    let rest : (q + 1) * d ≤ 2 * p * d = mul-le-mul_right d (omega (arith, b)) in
    let whole : 2 * p * d + 2 * p ≡ 4 * (p * r) =
      sym (mul-add (2 * p) d 1 ∙ grind arith) ∙ ap (λ (x : ℕ). 2 * p * x) d1 ∙ grind arith in
    let room : 2 ^ 33 ≤ w + 2 * p = elim (Bool-cases (r == 1)) [
      | inl a ↦
          let pr : p * r ≡ p = ap (λ (x : ℕ). p * x) ((==_iff r 1).0 a) ∙ grind arith in
          ground (arith, a, l, e, pr)
      | inr a ↦ ground (arith, a, r0, l)
    ] in
    omega (arith, over, split, last, rest, whole, room, e)

pub estimate_near :
    (u v p r : ℕ)
    → p * r ≡ 2 ^ 31
    → 0 < p
    → 0 < r
    → u < 2 ^ 64
    → 2 ^ 63 ≤ v * p
    → (u / 2 / (v * p / 2 ^ 32) * p / 2 ^ 31 ≡ u / v)
      ⊎ (u / 2 / (v * p / 2 ^ 32) * p / 2 ^ 31 ≡ u / v + 1)
estimate_near u v p r e p0 r0 h l =
    let v1 = v / (2 * r) in
    let w = 2 * v1 * r in
    let full : 2 ^ 32 ≡ 2 * r * p = grind (arith) in
    let half : 2 ^ 31 ≡ r * p = grind (arith) in
    let d : v * p / 2 ^ 32 ≡ v1 = ap (λ (x : ℕ). v * p / x) full ∙ mul-div-mul_right v (2 * r) p0 in
    let s : u / 2 / v1 * p / 2 ^ 31 ≡ u / 2 / v1 / r =
      ap (λ (x : ℕ). u / 2 / v1 * p / x) half ∙ mul-div-mul_right (u / 2 / v1) r p0 in
    let c : u / 2 / v1 / r ≡ u / w =
      ap (λ (x : ℕ). x / r) (div-div-eq-div-mul u 2 v1) ∙ div-div-eq-div-mul u (2 * v1) r in
    let (lo, hi) = quotient_bounds v (2 * r) (omega (arith, r0)) in
    let same : v1 * (2 * r) ≡ w = grind arith in
    let shift : p * (2 ^ 32 * r) ≡ 2 ^ 32 * (p * r) = grind arith in
    let comm : v * p ≡ p * v = mul_comm v p in
    let big : 2 ^ 32 * r ≤ v =
      le_of_mul-le-mul_left {k = p} (omega (arith, l, shift, comm, e)) p0 in
    let r2 : 0 < 2 * r = omega (arith, r0) in
    let digits : 2 ^ 31 ≤ v1 = (le-div_iff_mul-le r2).1 (omega (arith, big)) in
    let wl : 2 ^ 32 * r ≤ w = mul-le-mul_right r (omega (arith, digits)) in
    let double : 2 * p * v ≡ 2 * (v * p) = grind arith in
    let q2 : u / v < 2 * p =
      (div-lt_iff_lt-mul (omega (arith, big, r0))).1 (omega (arith, h, l, double)) in
    rw (d, s, c)
      (near u v w (omega (arith, wl, r0)) (omega (arith, same, lo))
        (close (u / v) v p r w e r0 q2 wl (omega (arith, same, hi))))
