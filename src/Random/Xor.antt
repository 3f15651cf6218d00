-- ===== src/Random/Xor.antt =====
-- When an exclusive or is 0, and the state of the generator.
use Prim.Native.Nat.{bit_xor, differ, digits, bit_xor-bitwise}
use spl.Prelude.{ℕ, zero, suc, ◌*◌, ◌/◌, ◌%◌, ◌^◌, ◌≤◌, ◌≡◌, refl, sym, ap, ap₂, ◌∙◌, arith}
use spl.Random.{spl_rand_next}

differ_same : (x y : ℕ) → differ x y ≡ 0 → x ≡ y
differ_same zero y h = sym h
differ_same (suc x) zero h = h
differ_same (suc x) (suc y) h = ap suc (differ_same x y h)

differ_zero : (x : ℕ) → differ x 0 ≡ x
differ_zero zero = refl
differ_zero (suc x) = refl

abbrev xor_digits : ℕ → ℕ → ℕ → ℕ
xor_digits n a b = digits (λ b. b) differ n a b

digits_same : (n a b : ℕ) → a ≤ n → xor_digits n a b ≡ 0 → a ≡ b
digits_same zero a b l h = omega (arith, l, h)
digits_same (suc n) zero b l h = sym h
digits_same (suc n) (suc a) b l h =
    let half = digits_same n (suc a / 2) (b / 2) (omega (arith, l)) (omega (arith, h)) in
    let low = differ_same (suc a % 2) (b % 2) (omega (arith, h)) in omega (arith, half, low)

digits_zero : (n a : ℕ) → a ≤ n → xor_digits n a 0 ≡ a
digits_zero zero a l = omega (arith, l)
digits_zero (suc n) zero l = refl
digits_zero (suc n) (suc a) l =
    omega (arith, digits_zero n (suc a / 2) (omega (arith, l)), differ_zero (suc a % 2))

pub bit_xor_same : (a b : ℕ) → bit_xor a b ≡ 0 → a ≡ b
bit_xor_same a b h = digits_same a a b (omega arith) (sym (λ i. bit_xor-bitwise a b i) ∙ h)

pub bit_xor_zero : (a : ℕ) → bit_xor a 0 ≡ a
bit_xor_zero a = (λ i. bit_xor-bitwise a 0 i) ∙ digits_zero a a (omega arith)

shift_same : (x : ℕ) → x ≡ x * 2 ^ 23 % 2 ^ 64 → x ≡ 0
shift_same x h = omega (arith, h)

-- The state of all zeros comes from itself only.
pub spl_rand_next-zero : (s : ℕ × ℕ) → (spl_rand_next s).0 ≡ (0, 0) → s ≡ (0, 0)
unfolding spl_rand_next
spl_rand_next-zero (x, s0) h =
    let z : s0 ≡ 0 = ap (λ (p : ℕ × ℕ). p.0) h in
    let s1 = bit_xor x (x * 2 ^ 23 % 2 ^ 64) in
    let y : bit_xor (bit_xor (bit_xor s1 s0) (s1 / 2 ^ 18)) (s0 / 2 ^ 5) ≡ 0 =
      ap (λ (p : ℕ × ℕ). p.1) h in
    let a : bit_xor (bit_xor s1 s0) (s1 / 2 ^ 18) ≡ s0 / 2 ^ 5 = bit_xor_same _ _ y in
    let b : bit_xor s1 s0 ≡ s1 / 2 ^ 18 = bit_xor_same _ _ (omega (arith, a, z)) in
    let c : bit_xor s1 s0 ≡ s1 = ap (λ (k : ℕ). bit_xor s1 k) z ∙ bit_xor_zero s1 in
    let d : s1 ≡ 0 = omega (arith, b, c) in
    let e : x ≡ 0 = shift_same x (bit_xor_same x (x * 2 ^ 23 % 2 ^ 64) d) in
    ap₂ (λ (p q : ℕ). (p, q)) e z
