-- ===== src/Random/Filled.antt =====
-- The bytes of random_get_pseudo_bytes.
use spl.Prelude.{
  All, All-append, ℕ, zero, suc, ◌+◌, ◌-◌, ◌/◌, ◌≤◌, ◌<◌, ◌≡◌, refl, ap, ◌∙◌, sym, min, Option,
  some, List, [], ◌++◌, length, length-append, arith,
}
use spl.Random.{spl_rand_next, store_bytes, stored_first, fill, random_get_pseudo_bytes}
use spl.Random.Xor.{spl_rand_next-zero}

-- The state after so many draws.
abbrev pub draws : ℕ → ℕ × ℕ → ℕ × ℕ
draws zero s = s
draws (suc n) s = draws n (spl_rand_next s).0

length-store_bytes : (i e : ℕ) → length (store_bytes i e) ≡ i
unfolding store_bytes
length-store_bytes zero e = refl
length-store_bytes (suc i) e = omega (arith, length-store_bytes i e)

store_bytes-range : (i e : ℕ) → All (λ (b : ℕ). b < 256) (store_bytes i e)
unfolding store_bytes
store_bytes-range zero e = tt
store_bytes-range (suc i) e = (omega arith, store_bytes-range i e)

-- A loop that has ended: it stored `len` bytes and drew a number for each eight of them.
pub record Filled (len : ℕ) (s : ℕ × ℕ) (r : Option (List ℕ × (ℕ × ℕ))) : Type 0 where
  pub bytes : List ℕ
  pub state : ℕ × ℕ
  pub ended : r ≡ some (bytes, state)
  pub size : length bytes ≡ len
  pub range : All (λ (b : ℕ). b < 256) bytes
  pub drawn : state ≡ draws ((len + 7) / 8) s
  pub zeros : state ≡ (0, 0) → s ≡ (0, 0)

fill-Filled : (rounds len : ℕ) (s : ℕ × ℕ) → len ≤ rounds → Filled len s (fill rounds len s)
unfolding fill
fill-Filled rounds zero s l = record {
  bytes = [];
  state = s;
  ended = refl;
  size = refl;
  range = tt;
  drawn = refl;
  zeros = λ h. h;
}
fill-Filled zero (suc len) s l = absurd (omega (arith, l))
fill-Filled (suc rounds) (suc len) s l =
    let i = min (suc len) 8 in
    let (s', e) = spl_rand_next s in
    let f = fill-Filled rounds (suc len - i) s' (omega (arith, l)) in
    let n : (suc len + 7) / 8 ≡ suc ((suc len - i + 7) / 8) = omega arith in
    record {
      bytes = store_bytes i e ++ f.bytes;
      state = f.state;
      ended = ap (stored_first (store_bytes i e)) f.ended;
      size = omega (arith, length-append (store_bytes i e) f.bytes, length-store_bytes i e, f.size);
      range =
          All-append (λ (b : ℕ). b < 256) (store_bytes i e) f.bytes (store_bytes-range i e) f.range;
      drawn = f.drawn ∙ ap (λ (k : ℕ). draws k s) (sym n);
      zeros = λ h. spl_rand_next-zero s (f.zeros h);
    }

-- For every length and state, the loop of random_get_pseudo_bytes ends within as many rounds as
-- there are bytes to store. It stores exactly that many, each below 256, draws one number for each
-- eight bytes or part of eight, keeps the state after these draws, and comes to the state of all
-- zeros from that state only.
pub random_get_pseudo_bytes-Filled :
    (len : ℕ) (xp : ℕ × ℕ) → Filled len xp (random_get_pseudo_bytes len xp)
unfolding random_get_pseudo_bytes
random_get_pseudo_bytes-Filled len xp = fill-Filled len len xp (omega arith)
