-- ===== src/Random.antt =====
-- The pseudo random numbers of module/spl/spl-generic.c. The state of a CPU, spl_pseudo_entropy, is a
-- pair of 64-bit numbers; a 64-bit number is stored with its lowest byte first.
pub mod Xor
pub mod Filled
pub mod Tests
use Prim.Native.Nat.{bit_xor}
use spl.Prelude.{
  ℕ, zero, suc, ◌+◌, ◌-◌, ◌*◌, ◌/◌, ◌%◌, ◌^◌, min, Option, none, some, List, [], ◌∷◌, ◌++◌, ◌==◌,
  if◌then◌else◌,
}

-- The new state and the number that is returned.
unfoldable pub spl_rand_next : ℕ × ℕ → (ℕ × ℕ) × ℕ
spl_rand_next (x, s0) =
    let s1 = bit_xor x (x * 2 ^ 23 % 2 ^ 64) in
    let y = bit_xor (bit_xor (bit_xor s1 s0) (s1 / 2 ^ 18)) (s0 / 2 ^ 5) in
    ((s0, y), (y + s0) % 2 ^ 64)

-- The bits of a jump word from the lowest on, `n` of them, with the sums so far.
unfoldable pub jump_bits : (n jump : ℕ) → (s sum : ℕ × ℕ) → (ℕ × ℕ) × (ℕ × ℕ)
unfolding spl_rand_next
jump_bits zero jump s sum = (s, sum)
jump_bits (suc n) jump s sum =
    jump_bits n (jump / 2) (spl_rand_next s).0
      (if jump % 2 == 1 then (bit_xor sum.0 s.0, bit_xor sum.1 s.1) else sum)

unfoldable pub spl_rand_jump : ℕ × ℕ → ℕ × ℕ
unfolding jump_bits
spl_rand_jump s =
    let (s1, sum1) = jump_bits 64 0x8a5cd789635d2dff s (0, 0) in
    (jump_bits 64 0x121fd2155c472f96 s1 sum1).1

-- The bytes i - 1 down to 0 of a number.
unfoldable pub store_bytes : (i entropy : ℕ) → List ℕ
store_bytes zero entropy = []
store_bytes (suc i) entropy = (entropy / 2 ^ (8 * i) % 256) ∷ store_bytes i entropy

unfoldable pub stored_first : List ℕ → Option (List ℕ × (ℕ × ℕ)) → Option (List ℕ × (ℕ × ℕ))
stored_first bytes none = none
stored_first bytes (some (rest, t)) = some (bytes ++ rest, t)

-- The loop, in so many rounds at most: the bytes that are stored and the state, if it ends.
unfoldable pub fill : (rounds len : ℕ) → ℕ × ℕ → Option (List ℕ × (ℕ × ℕ))
unfolding spl_rand_next store_bytes stored_first
fill rounds zero s = some ([], s)
fill zero (suc len) s = none
fill (suc rounds) (suc len) s =
    let i = min (suc len) 8 in
    let (s', entropy) = spl_rand_next s in
    stored_first (store_bytes i entropy) (fill rounds (suc len - i) s')

-- The bytes that are stored from `ptr` on and the state that is kept, in `len` rounds at most.
unfoldable pub random_get_pseudo_bytes : (len : ℕ) → ℕ × ℕ → Option (List ℕ × (ℕ × ℕ))
unfolding fill
random_get_pseudo_bytes len xp = fill len len xp
