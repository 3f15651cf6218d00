-- ===== src/Xdr/Memory.antt =====
-- memcpy and memset on memory as a function.
use spl.Prelude.{
  ℕ, zero, suc, ◌+◌, ◌≤◌, ◌<◌, ◌≡◌, refl, ap, ap₂, List, [], ◌∷◌, ◌==◌, if◌then◌else◌, arith,
  length,
}
use spl.Xdr.{Memory}

unfoldable pub store : Memory → ℕ → ℕ → Memory
store m p b q = if q == p then b else m q

-- The bytes from `p` on are overwritten.
unfoldable pub write : Memory → ℕ → List ℕ → Memory
write m p [] = m
write m p (b ∷ bs) = write (store m p b) (p + 1) bs

unfoldable pub read : Memory → ℕ → ℕ → List ℕ
read m p zero = []
read m p (suc n) = m p ∷ read m (p + 1) n

-- The two memories hold the same bytes from `lo` up to `hi`.
abbrev pub Agree : ℕ → ℕ → Memory → Memory → Type 0
Agree lo hi m m' = (q : ℕ) → lo ≤ q → q < hi → m' q ≡ m q

-- Bytes before the ones that are written, and behind them, stay.
pub write_below : (m : Memory) (p q : ℕ) (bs : List ℕ) → q < p → write m p bs q ≡ m q
unfolding write store
write_below m p q [] h = refl
write_below m p q (b ∷ bs) h = ground (arith, write_below (store m p b) (p + 1) q bs)

pub write_above : (m : Memory) (p q : ℕ) (bs : List ℕ) → p + length bs ≤ q → write m p bs q ≡ m q
unfolding write store
write_above m p q [] h = refl
write_above m p q (b ∷ bs) h = ground (arith, write_above (store m p b) (p + 1) q bs)

-- What was written is read, also from a memory that agrees on those bytes.
pub read-Agree : (m m' : Memory) (p n : ℕ) → Agree p (p + n) m m' → read m' p n ≡ read m p n
unfolding read
read-Agree m m' p zero h = refl
read-Agree m m' p (suc n) h =
    ap₂ ◌∷◌ (h p (omega arith) (omega arith))
      (read-Agree m m' (p + 1) n (λ q l k. h q (omega arith) (omega arith)))

pub read-write : (m : Memory) (p : ℕ) (bs : List ℕ) → read (write m p bs) p (length bs) ≡ bs
unfolding read write store
read-write m p [] = refl
read-write m p (b ∷ bs) =
    ap₂ ◌∷◌ (ground (arith, write_below (store m p b) (p + 1) p bs))
      (read-write (store m p b) (p + 1) bs)

pub length-read : (m : Memory) (p n : ℕ) → length (read m p n) ≡ n
unfolding read
length-read m p zero = refl
length-read m p (suc n) = ap suc (length-read m (p + 1) n)
