-- ===== src/Xdr/Laws/Bytes.antt =====
-- xdrmem_enc_bytes and xdrmem_dec_bytes.
use spl.Prelude.{
  ℕ, zero, suc, ◌+◌, ◌-◌, ◌≤◌, ◌<◌, ◌≡◌, refl, ◌∙◌, subst, true, false, some, List, if_elim, arith,
  length, replicate, length-replicate,
}
use spl.Xdr.{Memory, Xdr, Advances, Decodes}
use spl.Xdr.Memory.{
  write, read, write_below, write_above, read-Agree, read-write, length-read, Agree,
}
use spl.Xdr.Opaque.{roundup4, no_room, all_zero, xdrmem_enc_bytes, xdrmem_dec_bytes}

padding : List ℕ → ℕ
padding s = roundup4 (length s) - length s

-- The memory that an encoding leaves.
padded : Xdr → List ℕ → Memory
padded x s = write (write x.mem x.x_addr s) (x.x_addr + length s) (replicate (padding s) 0)

enc_bytes-some :
    (x x' : Xdr) (s : List ℕ)
    → xdrmem_enc_bytes x s ≡ some x'
    → (no_room x (length s) ≡ false)
      × (x' ≡ record x { mem = padded x s; x_addr = x.x_addr + length s + padding s })
unfolding xdrmem_enc_bytes padding padded
enc_bytes-some x x' s =
    if_elim
      (λ o.
        o ≡ some x'
        → (no_room x (length s) ≡ false)
          × (x' ≡ record x { mem = padded x s; x_addr = x.x_addr + length s + padding s }))
      (no_room x (length s)) _ _ (λ h e. ground (arith, e)) (λ h e. (h, ground (arith, e)))

-- There is room for all bytes and the padding.
has_room :
    (x : Xdr) (n : ℕ)
    → no_room x n ≡ false
    → (n ≤ roundup4 n) × (x.x_addr ≤ x.x_addr_end) × (x.x_addr + roundup4 n ≤ x.x_addr_end)
has_room x n h = ground arith

-- Where xdrmem_enc_bytes succeeds, the stream moves on and not past its end, keeps its end and
-- operations, and memory before the old address and from the new one on is unchanged.
pub bytes-Advances : (x x' : Xdr) (s : List ℕ) → xdrmem_enc_bytes x s ≡ some x' → Advances x x'
unfolding padding padded
bytes-Advances x x' s e =
    let (h, q) = enc_bytes-some x x' s e in
    let (a, b, c) = has_room x (length s) h in
    let w = write x.mem x.x_addr s in
    let l = length-replicate {A = ℕ} (padding s) 0 in
    rw q (record {
      forward = omega arith;
      inside = λ _. omega arith;
      same_end = refl;
      same_ops = refl;
      below = λ p k.
          write_below w (x.x_addr + length s) p (replicate (padding s) 0) (omega arith)
          ∙ write_below x.mem x.x_addr p s k;
      above = λ p k.
          write_above w (x.x_addr + length s) p (replicate (padding s) 0) (omega (arith, l))
          ∙ write_above x.mem x.x_addr p s (omega arith);
    })

all_zero-replicate : (n : ℕ) → all_zero (replicate n 0) ≡ true
all_zero-replicate zero = refl
all_zero-replicate (suc n) = all_zero-replicate n

-- What the two reads of a decoding see.
reads :
    (x : Xdr) (s : List ℕ) (m : Memory)
    → Agree x.x_addr (x.x_addr + length s + padding s) (padded x s) m
    → (read m x.x_addr (length s) ≡ s)
      × (read m (x.x_addr + length s) (padding s) ≡ replicate (padding s) 0)
unfolding padded
reads x s m k =
    let w = write x.mem x.x_addr s in
    let n = length s in
    let z = replicate (padding s) 0 in
    (
      read-Agree (padded x s) m x.x_addr n (λ p l h. k p l (omega arith))
          ∙ read-Agree w (padded x s) x.x_addr n (λ p l h. write_below w (x.x_addr + n) p z h)
          ∙ read-write x.mem x.x_addr s,
      read-Agree (padded x s) m (x.x_addr + n) (padding s) (λ p l h. k p (omega arith) h)
          ∙ subst (λ j. read (padded x s) (x.x_addr + n) j ≡ z) (length-replicate (padding s) 0)
              (read-write w (x.x_addr + n) z),
    )

-- Bytes that xdrmem_enc_bytes encodes are decoded by xdrmem_dec_bytes with the same count, from any
-- memory that holds the encoded bytes, to the same bytes, and the decoding stops where the encoding
-- did.
pub bytes-Decodes :
    (x x' : Xdr) (s : List ℕ)
    → xdrmem_enc_bytes x s ≡ some x'
    → Decodes (λ y. xdrmem_dec_bytes y (length s)) x x' s
unfolding xdrmem_dec_bytes padding
bytes-Decodes x x' s e m k =
    let (h, q) = enc_bytes-some x x' s e in
    let (r, r') =
      reads x s m (subst (λ y. (p : ℕ) → x.x_addr ≤ p → p < y.x_addr → m p ≡ y.mem p) q k) in
    rw h (rw r (rw r' (rw (all_zero-replicate (padding s)) (rw q refl))))

-- Where xdrmem_dec_bytes succeeds, its result is that many bytes from the stream's address on, and
-- the new address is not past the end.
pub dec_bytes-some :
    (x x' : Xdr) (n : ℕ) (s : List ℕ)
    → xdrmem_dec_bytes x n ≡ some (s, x')
    → (length s ≡ n) × (s ≡ read x.mem x.x_addr n) × (x'.x_addr ≤ x.x_addr_end)
unfolding xdrmem_dec_bytes
dec_bytes-some x x' n s =
    if_elim
      (λ o.
        o ≡ some (s, x')
        → (length s ≡ n) × (s ≡ read x.mem x.x_addr n) × (x'.x_addr ≤ x.x_addr_end))
      (no_room x n) _ _ (λ h e. ground (arith, e))
      (λ h.
        if_elim
          (λ o.
            o ≡ some (s, x')
            → (length s ≡ n) × (s ≡ read x.mem x.x_addr n) × (x'.x_addr ≤ x.x_addr_end))
          (all_zero (read x.mem (x.x_addr + n) (roundup4 n - n))) _ _
          (λ z e.
            let (a, b, c) = has_room x n h in
            ground (arith, e, a, b, c, length-read x.mem x.x_addr n))
          (λ z e. ground (arith, e)))
