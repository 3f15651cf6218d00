-- ===== src/Xdr/Fixed/Proofs.antt =====
-- Encoding and decoding the items of fixed size.
use spl.Prelude.{
  ℕ, ◌+◌, ◌*◌, ◌/◌, ◌%◌, ◌^◌, ◌≤◌, ◌<◌, ◌≡◌, refl, ap, ◌∙◌, Option, none, some, ltb, arith, subst,
  if_elim,
}
use spl.Xdr.{Memory, Xdr, ◌>>=◌, Advances, Decodes, Codec}
use spl.Xdr.Memory.{write, write_below, write_above, read-Agree, read-write}
use spl.Xdr.Fixed.{
  be_bytes, be_value, xdrmem_enc_uint32, xdrmem_dec_uint32, xdrmem_enc_char, xdrmem_dec_char,
  xdrmem_enc_ushort, xdrmem_dec_ushort, xdrmem_enc_uint, xdrmem_dec_uint, xdrmem_enc_ulonglong,
  xdrmem_dec_ulonglong,
}

be_value-be_bytes : (v : ℕ) → v < 2 ^ 32 → be_value (be_bytes v) ≡ v
be_value-be_bytes v h = omega arith

-- A successful encoding of a word.
enc_uint32-some :
    (x x' : Xdr) (v : ℕ)
    → xdrmem_enc_uint32 x v ≡ some x'
    → (x.x_addr + 4 ≤ x.x_addr_end)
      × (x' ≡ record x { mem = write x.mem x.x_addr (be_bytes v); x_addr = x.x_addr + 4 })
unfolding xdrmem_enc_uint32
enc_uint32-some x x' v e = ground arith

uint32-Advances : (x x' : Xdr) (v : ℕ) → xdrmem_enc_uint32 x v ≡ some x' → Advances x x'
uint32-Advances x x' v e =
    let (r, s) = enc_uint32-some x x' v e in
    rw s (record {
      forward = omega arith;
      inside = λ _. r;
      same_end = refl;
      same_ops = refl;
      below = λ q h. write_below x.mem x.x_addr q (be_bytes v) h;
      above = λ q h. write_above x.mem x.x_addr q (be_bytes v) h;
    })

pub uint32-Decodes :
    (x x' : Xdr) (v : ℕ)
    → v < 2 ^ 32
    → xdrmem_enc_uint32 x v ≡ some x'
    → Decodes xdrmem_dec_uint32 x x' v
unfolding xdrmem_dec_uint32
uint32-Decodes x x' v h e m k =
    let (r, s) = enc_uint32-some x x' v e in
    let w =
      read-Agree (write x.mem x.x_addr (be_bytes v)) m x.x_addr 4
        (subst (λ y. (q : ℕ) → x.x_addr ≤ q → q < y.x_addr → m q ≡ y.mem q) s k) in
    let w' = read-write x.mem x.x_addr (be_bytes v) in
    rw s (
      if_elim (λ d. d ≡ some (v, record x { mem = m; x_addr = x.x_addr + 4 }))
        (ltb x.x_addr_end (x.x_addr + 4)) _ _ (λ l. ground (arith, r, l))
        (λ _.
          ap (λ z. some (z, record x { mem = m; x_addr = x.x_addr + 4 }))
            (ap be_value (w ∙ w') ∙ be_value-be_bytes v h)))

-- Advancing is transitive.
pub Advances-trans : {x y z : Xdr} → Advances x y → Advances y z → Advances x z
Advances-trans {x} {y} {z} a b =
    let c = a.forward in
    let d = b.forward in
    record {
      forward = omega arith;
      inside = λ h. b.inside (a.inside h);
      same_end = b.same_end ∙ a.same_end;
      same_ops = b.same_ops ∙ a.same_ops;
      below = λ q h. b.below q (omega arith) ∙ a.below q h;
      above = λ q h. b.above q h ∙ a.above q (omega arith);
    }

pub uint32-Codec : Codec ℕ (λ v. v < 2 ^ 32) xdrmem_enc_uint32 xdrmem_dec_uint32
uint32-Codec = record { advances = uint32-Advances; decodes = uint32-Decodes }

char-Decodes :
    (x x' : Xdr) (v : ℕ) → v < 256 → xdrmem_enc_char x v ≡ some x' → Decodes xdrmem_dec_char x x' v
unfolding xdrmem_enc_char xdrmem_dec_char
char-Decodes x x' v h e m k =
    let d = uint32-Decodes x x' v (omega arith) e m k in rw d (ground arith)

ushort-Decodes :
    (x x' : Xdr) (v : ℕ)
    → v < 65536
    → xdrmem_enc_ushort x v ≡ some x'
    → Decodes xdrmem_dec_ushort x x' v
unfolding xdrmem_enc_ushort xdrmem_dec_ushort
ushort-Decodes x x' v h e m k =
    let d = uint32-Decodes x x' v (omega arith) e m k in rw d (ground arith)

-- Two encodings one after the other, by the first's result.
pub bind-some {ℓ κ} :
    {A : Type ℓ} {B : Type κ} (o : Option A) (f : A → Option B) (b : B)
    → (o >>= f) ≡ some b
    → (a : A) × (o ≡ some a) × (f a ≡ some b)
bind-some none f b e = ground (arith, e)
bind-some (some a) f b e = (a, refl, e)

ulonglong-Advances : (x x' : Xdr) (v : ℕ) → xdrmem_enc_ulonglong x v ≡ some x' → Advances x x'
unfolding xdrmem_enc_ulonglong
ulonglong-Advances x x' v e =
    let (y, p, q) =
      bind-some (xdrmem_enc_uint32 x (v / 2 ^ 32)) (λ y. xdrmem_enc_uint32 y (v % 2 ^ 32)) x' e in
    Advances-trans (uint32-Advances x y (v / 2 ^ 32) p) (uint32-Advances y x' (v % 2 ^ 32) q)

-- Bytes that agree with the end of two encodings agree with the end of the first.
pub agree_first :
    (m : Memory) (x y x' : Xdr)
    → Advances x y
    → Advances y x'
    → ((q : ℕ) → x.x_addr ≤ q → q < x'.x_addr → m q ≡ x'.mem q)
    → (q : ℕ) → x.x_addr ≤ q
    → q < y.x_addr
    → m q ≡ y.mem q
agree_first m x y x' a b k q l h = let c = b.forward in k q l (omega arith) ∙ b.below q h

ulonglong-Decodes :
    (x x' : Xdr) (v : ℕ)
    → v < 2 ^ 64
    → xdrmem_enc_ulonglong x v ≡ some x'
    → Decodes xdrmem_dec_ulonglong x x' v
unfolding xdrmem_enc_ulonglong xdrmem_dec_ulonglong
ulonglong-Decodes x x' v h e m k =
    let (y, p, q) =
      bind-some (xdrmem_enc_uint32 x (v / 2 ^ 32)) (λ y. xdrmem_enc_uint32 y (v % 2 ^ 32)) x' e in
    let a = uint32-Advances x y (v / 2 ^ 32) p in
    let b = uint32-Advances y x' (v % 2 ^ 32) q in
    let c = a.forward in
    let high = uint32-Decodes x y (v / 2 ^ 32) (omega arith) p m (agree_first m x y x' a b k) in
    let low = uint32-Decodes y x' (v % 2 ^ 32) (omega arith) q m (λ q l. k q (omega arith)) in
    let f : v / 2 ^ 32 * 2 ^ 32 + v % 2 ^ 32 ≡ v = omega arith in
    rw high (rw low (ap (λ z. some (z, record x' { mem = m })) f))

-- xdrmem_enc_char, where it succeeds, moves the stream on inside its buffer and writes nothing else;
-- a value below 256 that it encodes is decoded by xdrmem_dec_char, from any memory that holds the
-- encoded bytes, to the same value, and the decoding stops where the encoding did.
pub char-Codec : Codec ℕ (λ v. v < 256) xdrmem_enc_char xdrmem_dec_char
unfolding xdrmem_enc_char
char-Codec = record { advances = uint32-Advances; decodes = char-Decodes }

-- xdrmem_enc_ushort, where it succeeds, moves the stream on inside its buffer and writes nothing
-- else; a value below 2^16 that it encodes is decoded by xdrmem_dec_ushort, from any memory that
-- holds the encoded bytes, to the same value, and the decoding stops where the encoding did.
pub ushort-Codec : Codec ℕ (λ v. v < 65536) xdrmem_enc_ushort xdrmem_dec_ushort
unfolding xdrmem_enc_ushort
ushort-Codec = record { advances = uint32-Advances; decodes = ushort-Decodes }

-- xdrmem_enc_uint, where it succeeds, moves the stream on inside its buffer and writes nothing else;
-- a value below 2^32 that it encodes is decoded by xdrmem_dec_uint, from any memory that holds the
-- encoded bytes, to the same value, and the decoding stops where the encoding did.
pub uint-Codec : Codec ℕ (λ v. v < 2 ^ 32) xdrmem_enc_uint xdrmem_dec_uint
unfolding xdrmem_enc_uint xdrmem_dec_uint
uint-Codec = uint32-Codec

-- xdrmem_enc_ulonglong, where it succeeds, moves the stream on inside its buffer and writes nothing
-- else; a value below 2^64 that it encodes is decoded by xdrmem_dec_ulonglong, from any memory that
-- holds the encoded bytes, to the same value, and the decoding stops where the encoding did.
pub ulonglong-Codec : Codec ℕ (λ v. v < 2 ^ 64) xdrmem_enc_ulonglong xdrmem_dec_ulonglong
ulonglong-Codec = record { advances = ulonglong-Advances; decodes = ulonglong-Decodes }

-- For char, ushort, uint and ulonglong: the encoder, where it succeeds, moves the stream on inside
-- its buffer and writes nothing else; a value of the type that it encodes is decoded, from any
-- memory that holds the encoded bytes, to the same value, and the decoding stops where the encoding
-- did.
pub items-Codec :
    Codec ℕ (λ v. v < 256) xdrmem_enc_char xdrmem_dec_char
    × Codec ℕ (λ v. v < 65536) xdrmem_enc_ushort xdrmem_dec_ushort
    × Codec ℕ (λ v. v < 2 ^ 32) xdrmem_enc_uint xdrmem_dec_uint
    × Codec ℕ (λ v. v < 2 ^ 64) xdrmem_enc_ulonglong xdrmem_dec_ulonglong
items-Codec = (char-Codec, ushort-Codec, uint-Codec, ulonglong-Codec)
