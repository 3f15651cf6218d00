-- ===== src/Division/Signed.antt =====
-- The signed division beside the division of integers, which cuts towards 0. The integer of a bit
-- pattern is its value in two's complement.
use native.Mathlib.Nat.{div-lt_iff_lt-mul, div-le_self, mod-lt}
use spl.Prelude.{
  ℕ, ◌+◌, ◌-◌, ◌*◌, ◌/◌, ◌%◌, ◌^◌, ◌≤◌, ◌<◌, ◌≡◌, ◌≢◌, refl, sym, ap, ap₂, ◌∙◌, subst, leb, ◌==◌,
  if◌then◌else◌, arith, not, Bool, Bool-cases, if_elim, true, false, ◌⊎◌, inl, inr, some,
}
use spl.Division.{
  sub64, neg64, negative, sign_mask, xor_mask, abs64, signs_differ, __udivdi3, __divdi3,
  __divmoddi4,
}
use spl.Division.Unsigned.{__udivdi3-div, remainder-mod, Divides}

pub data ℤ : Type 0 where
  pos : ℕ → ℤ
  negsuc : ℕ → ℤ

unfoldable pub neg : ℕ → ℤ
neg m = if m == 0 then pos 0 else negsuc (m - 1)

unfoldable pub to_int : ℕ → ℤ
to_int x = if negative x then negsuc (2 ^ 64 - 1 - x) else pos x

-- The division of C, with the remainder's sign from the dividend.
unfoldable pub quot : ℤ → ℤ → ℤ
unfolding neg
quot (pos a) (pos b) = pos (a / b)
quot (pos a) (negsuc b) = neg (a / (b + 1))
quot (negsuc a) (pos b) = neg ((a + 1) / b)
quot (negsuc a) (negsuc b) = pos ((a + 1) / (b + 1))

unfoldable pub rem : ℤ → ℤ → ℤ
unfolding neg
rem (pos a) (pos b) = pos (a % b)
rem (pos a) (negsuc b) = pos (a % (b + 1))
rem (negsuc a) (pos b) = neg ((a + 1) % b)
rem (negsuc a) (negsuc b) = neg ((a + 1) % (b + 1))

signed : Bool → ℕ → ℤ
signed s m = if s then neg m else pos m

is_neg : ℤ → Bool
is_neg (pos _) = false
is_neg (negsuc _) = true

size : ℤ → ℕ
size (pos a) = a
size (negsuc a) = a + 1

differ : Bool → Bool → Bool
differ s t = if s then not t else t

quot-signed : (z w : ℤ) → quot z w ≡ signed (differ (is_neg z) (is_neg w)) (size z / size w)
unfolding quot signed differ is_neg size
quot-signed (pos a) (pos b) = refl
quot-signed (pos a) (negsuc b) = refl
quot-signed (negsuc a) (pos b) = refl
quot-signed (negsuc a) (negsuc b) = refl

rem-signed : (z w : ℤ) → rem z w ≡ signed (is_neg z) (size z % size w)
unfolding rem signed is_neg size
rem-signed (pos a) (pos b) = refl
rem-signed (pos a) (negsuc b) = refl
rem-signed (negsuc a) (pos b) = refl
rem-signed (negsuc a) (negsuc b) = refl

is_neg-to_int : (x : ℕ) → is_neg (to_int x) ≡ negative x
unfolding to_int is_neg
is_neg-to_int x = elim (Bool-cases (negative x)) [ inl e ↦ rw e refl | inr e ↦ rw e refl ]

size-to_int : (x : ℕ) → x < 2 ^ 64 → size (to_int x) ≡ (if negative x then neg64 x else x)
unfolding to_int size
size-to_int x h = elim (Bool-cases (negative x)) [
  | inl e ↦ rw e (ground (arith, e, h))
  | inr e ↦ rw e refl
]

abs64-size : (x : ℕ) → x < 2 ^ 64 → abs64 x ≡ size (to_int x)
unfolding abs64 to_int size
abs64-size x h = elim (Bool-cases (negative x)) [
  | inl e ↦ rw e (ground (arith, e, h))
  | inr e ↦ rw e (ground (arith, e, h))
]

size_bound : (x : ℕ) → x < 2 ^ 64 → size (to_int x) ≤ 2 ^ 63
size_bound x h = subst (λ (m : ℕ). m ≤ 2 ^ 63) (sym (size-to_int x h)) (ground (arith, h))

size_pos : (x : ℕ) → x < 2 ^ 64 → 0 < x → 0 < size (to_int x)
size_pos x h p = subst (λ (m : ℕ). 0 < m) (sym (size-to_int x h)) (ground (arith, h, p))

to_int_small : (m : ℕ) → m < 2 ^ 63 → to_int m ≡ pos m
unfolding to_int
to_int_small m h =
    if_elim (λ (z : ℤ). z ≡ pos m) (negative m) _ _ (λ b. ground (arith, b, h)) (λ _. refl)

to_int_large : (x : ℕ) → 2 ^ 63 ≤ x → to_int x ≡ negsuc (2 ^ 64 - 1 - x)
unfolding to_int
to_int_large x h =
    if_elim (λ (z : ℤ). z ≡ negsuc (2 ^ 64 - 1 - x)) (negative x) _ _ (λ _. refl)
      (λ b. ground (arith, b, h))

to_int-neg64 : (m : ℕ) → m ≤ 2 ^ 63 → to_int (neg64 m) ≡ neg m
unfolding neg
to_int-neg64 m h =
    if_elim (λ (z : ℤ). to_int (neg64 m) ≡ z) (m == 0) _ _
      (λ b. let e : neg64 m ≡ 0 = ground (arith, b) in rw e (to_int_small 0 (omega arith)))
      (λ b.
        let large : 2 ^ 63 ≤ neg64 m = ground (arith, b, h) in
        to_int_large (neg64 m) large ∙ ap (λ (k : ℕ). negsuc k) (ground (arith, b, h)))

to_int-signed :
    (s : Bool) (m : ℕ)
    → m ≤ 2 ^ 63
    → (s ≡ false → m < 2 ^ 63)
    → to_int (if s then neg64 m else m) ≡ signed s m
unfolding signed
to_int-signed true m h f = to_int-neg64 m h
to_int-signed false m h f = to_int_small m (f refl)

apply_mask :
    (s : Bool) (q : ℕ)
    → q < 2 ^ 64
    → sub64 (xor_mask q s) (sign_mask s) ≡ (if s then neg64 q else q)
apply_mask true q h = omega (arith, h)
apply_mask false q h = omega (arith, h)

-- The quotient fits, but for the one that overflows.
quotient_fits :
    (u v : ℕ)
    → u < 2 ^ 64
    → v < 2 ^ 64
    → 0 < v
    → (u ≢ 2 ^ 63) ⊎ (v ≢ 2 ^ 64 - 1)
    → signs_differ u v ≡ false
    → size (to_int u) / size (to_int v) < 2 ^ 63
quotient_fits u v h b p o s =
    let a = size_bound u h in
    let d = size_pos v b p in
    let x = size-to_int u h in
    let y = size-to_int v b in
    elim (Bool-cases (leb 2 (size (to_int v)))) [
      | inl e ↦ (div-lt_iff_lt-mul d).1 (ground (arith, a, e))
      | inr e ↦
          let one : (if negative v then neg64 v else v) < 2 = ground (arith, e, y) in
          let small : (if negative u then neg64 u else u) < 2 ^ 63 =
            ground (arith, s, o, one, h, b) in
          omega (arith, div-le_self (size (to_int u)) (size (to_int v)), x, small)
    ]

quotient_bound : (u v : ℕ) → u < 2 ^ 64 → size (to_int u) / size (to_int v) ≤ 2 ^ 63
quotient_bound u v h =
    omega (arith, div-le_self (size (to_int u)) (size (to_int v)), size_bound u h)

quot-to_int :
    (u v : ℕ)
    → quot (to_int u) (to_int v) ≡ signed (signs_differ u v) (size (to_int u) / size (to_int v))
unfolding differ
quot-to_int u v =
    quot-signed (to_int u) (to_int v)
    ∙ ap₂ (λ (s t : Bool). signed (differ s t) (size (to_int u) / size (to_int v)))
        (is_neg-to_int u) (is_neg-to_int v)

module _ (do_div : ℕ → ℕ → ℕ) (divides : Divides do_div) where
  -- Suppose that do_div is the quotient of a 64-bit number by a 32-bit number that is not 0. For
  -- 64-bit patterns, where the divisor is not 0 and it is not the least integer divided by -1,
  -- __divdi3 is the pattern of the quotient of integers that is cut towards 0.
  pub __divdi3-quot :
      (u v : ℕ)
      → u < 2 ^ 64
      → v < 2 ^ 64
      → 0 < v
      → (u ≢ 2 ^ 63) ⊎ (v ≢ 2 ^ 64 - 1)
      → to_int (__divdi3 do_div u v) ≡ quot (to_int u) (to_int v)
  unfolding __divdi3
  __divdi3-quot u v h b p o =
      let a : size (to_int u) ≤ 2 ^ 63 = size_bound u h in
      let c : size (to_int v) ≤ 2 ^ 63 = size_bound v b in
      let q = size (to_int u) / size (to_int v) in
      let e : __udivdi3 do_div (size (to_int u)) (size (to_int v)) ≡ q =
        __udivdi3-div do_div divides (size (to_int u)) (size (to_int v)) (omega (arith, a))
          (size_pos v b p) (omega (arith, c)) in
      let m : q ≤ 2 ^ 63 = quotient_bound u v h in
      rw
        (
          abs64-size u h,
          abs64-size v b,
          e,
          apply_mask (signs_differ u v) q (omega (arith, m)),
          quot-to_int u v,
        )
        (to_int-signed (signs_differ u v) q m (quotient_fits u v h b p o))

  -- Suppose that do_div is the quotient of a 64-bit number by a 32-bit number that is not 0. For
  -- 64-bit patterns, where the divisor is not 0 and it is not the least integer divided by -1,
  -- __divmoddi4 yields the patterns of the quotient of integers that is cut towards 0 and of the
  -- remainder, which has the dividend's sign.
  pub __divmoddi4-quot-rem :
      (n d : ℕ)
      → n < 2 ^ 64
      → d < 2 ^ 64
      → 0 < d
      → (n ≢ 2 ^ 63) ⊎ (d ≢ 2 ^ 64 - 1)
      → (to_int (__divmoddi4 do_div n d true).0 ≡ quot (to_int n) (to_int d))
        × ((r : ℕ) × ((__divmoddi4 do_div n d true).1 ≡ some r)
            × (to_int r ≡ rem (to_int n) (to_int d)))
  unfolding __divmoddi4
  __divmoddi4-quot-rem u v h b p o =
      let a : size (to_int u) ≤ 2 ^ 63 = size_bound u h in
      let c : size (to_int v) ≤ 2 ^ 63 = size_bound v b in
      let a2 : size (to_int u) < 2 ^ 64 = omega (arith, a) in
      let c2 : size (to_int v) < 2 ^ 64 = omega (arith, c) in
      let c0 = size_pos v b p in
      let q = size (to_int u) / size (to_int v) in
      let r = size (to_int u) % size (to_int v) in
      let e : __udivdi3 do_div (size (to_int u)) (size (to_int v)) ≡ q =
        __udivdi3-div do_div divides (size (to_int u)) (size (to_int v)) a2 c0 c2 in
      let f : sub64 (size (to_int u))
            (size (to_int v) * __udivdi3 do_div (size (to_int u)) (size (to_int v)) % 2 ^ 64)
          ≡ r =
        remainder-mod do_div divides (size (to_int u)) (size (to_int v)) a2 c0 c2 in
      let n1 = if negative u then neg64 u else u in
      let d1 = if negative v then neg64 v else v in
      let rr = sub64 n1 (d1 * __udivdi3 do_div n1 d1 % 2 ^ 64) in
      let m : q ≤ 2 ^ 63 = quotient_bound u v h in
      let small : r < 2 ^ 63 = omega (arith, mod-lt (size (to_int u)) c0, c) in
      let x = size-to_int u h in
      let y = size-to_int v b in
      (
        rw (← x, ← y, e, quot-to_int u v)
            (to_int-signed (signs_differ u v) q m (quotient_fits u v h b p o)),
        (
          (if negative u then neg64 rr else rr),
          refl,
          rw (← x, ← y, f)
              (to_int-signed (negative u) r (omega (arith, small)) (λ _. small)
                ∙ sym (
                    rem-signed (to_int u) (to_int v)
                    ∙ ap (λ (s : Bool). signed s r) (is_neg-to_int u))),
        ),
      )
