-- ===== src/Prelude/Powers.antt =====
-- Powers of two at variables, and division characterised by its bounds.
use Prim.Native.Nat.{ℕ, zero, suc, ◌+◌, ◌*◌, ◌/◌, ◌^◌, ◌≤◌, ◌<◌}
use mathlib.Core.Path.{◌≡◌}
use native.Mathlib.Nat.{pow-suc, zero-add, suc-add}
use native.Mathlib.Omega.{arith}

pub pow_pos : (n : ℕ) → 0 < 2 ^ n
pow_pos zero = omega arith
pow_pos (suc n) = omega (arith, pow-suc 2 n, pow_pos n)

pub pow-add : (m n : ℕ) → 2 ^ (m + n) ≡ 2 ^ m * 2 ^ n
pow-add zero n = rw zero-add (omega arith)
pow-add (suc m) n = rw suc-add (grind (arith, pow-suc 2 (m + n), pow-suc 2 m, pow-add m n))

-- A number that fits the bounds of a quotient is the quotient.
pub div_unique : (a d q : ℕ) → q * d ≤ a → a < q * d + d → a / d ≡ q
div_unique a d q h k = grind arith
