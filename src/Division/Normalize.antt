-- ===== src/Division/Normalize.antt =====
-- The leading zeros of a 64-bit number.
use native.Mathlib.Nat.{mul_assoc, mod-eq_of_lt}
use spl.Prelude.{
  ℕ, ◌+◌, ◌-◌, ◌*◌, ◌^◌, ◌≤◌, ◌<◌, ◌≡◌, refl, sym, subst, ap, ◌∙◌, ltb, ◌==◌, if◌then◌else◌, arith,
  if_elim, false,
}
use spl.Prelude.Powers.{pow_pos, pow-add}
use spl.Division.{shl64, nlz_step, nlz64}

-- The number is the first one, shifted by the count, and has no more than `k` leading zeros.
pub record Shifted (v k : ℕ) (s : ℕ × ℕ) : Type 0 where
  pub shifted : s.1 ≡ v * 2 ^ s.0
  pub fits : s.1 < 2 ^ 64
  pub large : 2 ^ (64 - k) ≤ s.1
  pub few : s.0 + k ≤ 32

pub times_small : (x l m : ℕ) → 0 < m → x < l → x * m < l * m
times_small x l m p h = grind arith

pub times_large : (l x m : ℕ) → l ≤ x → l * m ≤ x * m
times_large l x m h = grind arith

-- A test at half the zeros, with 2^k and the limits as numbers.
step-Shifted :
    (v k : ℕ) (s : ℕ × ℕ)
    → 2 ^ (64 - k) * 2 ^ k ≡ 2 ^ 64
    → 2 ^ (64 - (k + k)) * 2 ^ k ≡ 2 ^ (64 - k)
    → Shifted v (k + k) s
    → Shifted v k (nlz_step k s)
step-Shifted v k (n, x) w z r =
    if_elim (Shifted v k) (ltb x (2 ^ (64 - k))) _ _
      (λ h.
        let small : x < 2 ^ (64 - k) = ground (arith, h) in
        let fit : x * 2 ^ k < 2 ^ 64 =
          omega (arith, times_small x (2 ^ (64 - k)) (2 ^ k) (pow_pos k) small) in
        let exact : shl64 x k ≡ x * 2 ^ k = mod-eq_of_lt fit in
        rw exact (record {
          shifted =
              ap (λ (y : ℕ). y * 2 ^ k) r.shifted
              ∙ mul_assoc v (2 ^ n) (2 ^ k)
              ∙ ap (λ (y : ℕ). v * y) (sym (pow-add n k));
          fits = fit;
          large = omega (arith, times_large (2 ^ (64 - (k + k))) x (2 ^ k) r.large, z);
          few = omega (arith, r.few);
        }))
      (λ h. record {
        shifted = r.shifted;
        fits = r.fits;
        large = ground (arith, h);
        few = omega (arith, r.few);
      })

last_test : ℕ × ℕ → ℕ
last_test s = if ltb s.1 (2 ^ 63) then s.0 + 1 else s.0

nlz64_steps :
    (v : ℕ)
    → 2 ^ 32 ≤ v
    → nlz64 v ≡ last_test (nlz_step 2 (nlz_step 4 (nlz_step 8 (nlz_step 16 (nlz_step 32 (0, v))))))
unfolding nlz64 last_test
nlz64_steps v l = let z : (v == 0) ≡ false = ground (arith, l) in rw z refl

abbrev Normal : ℕ → ℕ → Type 0
Normal v n = (n ≤ 31) × (2 ^ 63 ≤ v * 2 ^ n) × (v * 2 ^ n < 2 ^ 64)

last-Normal : (v : ℕ) (s : ℕ × ℕ) → Shifted v 2 s → Normal v (last_test s)
unfolding last_test
last-Normal v (n, y) r =
    let double : v * 2 ^ (n + 1) ≡ y * 2 =
      ap (λ (x : ℕ). v * x) (pow-add n 1)
      ∙ sym (mul_assoc v (2 ^ n) 2)
      ∙ ap (λ (x : ℕ). x * 2) (sym r.shifted) in
    if_elim (Normal v) (ltb y (2 ^ 63)) _ _
      (λ b. (omega (arith, r.few), ground (arith, b, double, r.large), ground (arith, b, double)))
      (λ b. (omega (arith, r.few), ground (arith, b, r.shifted), ground (arith, r.shifted, r.fits)))

-- A 64-bit number from 2^32 on has at most 31 leading zeros, and they are counted.
pub nlz64_large :
    (v : ℕ)
    → 2 ^ 32 ≤ v
    → v < 2 ^ 64
    → (nlz64 v ≤ 31) × (2 ^ 63 ≤ v * 2 ^ nlz64 v) × (v * 2 ^ nlz64 v < 2 ^ 64)
nlz64_large v l h =
    let first : nlz_step 32 (0, v) ≡ (0, v) = ground (arith, l) in
    let s32 : Shifted v 32 (0, v) = record {
      shifted = omega arith;
      fits = h;
      large = l;
      few = omega arith;
    } in
    let s16 = step-Shifted v 16 (0, v) refl refl s32 in
    let s8 = step-Shifted v 8 (nlz_step 16 (0, v)) refl refl s16 in
    let s4 = step-Shifted v 4 (nlz_step 8 (nlz_step 16 (0, v))) refl refl s8 in
    let s2 = step-Shifted v 2 (nlz_step 4 (nlz_step 8 (nlz_step 16 (0, v)))) refl refl s4 in
    subst (Normal v)
      (sym (
        nlz64_steps v l
        ∙ ap (λ (r : ℕ × ℕ). last_test (nlz_step 2 (nlz_step 4 (nlz_step 8 (nlz_step 16 r)))))
            first))
      (last-Normal v (nlz_step 2 (nlz_step 4 (nlz_step 8 (nlz_step 16 (0, v))))) s2)
