-- ===== src/Xdr/Laws/Items.antt =====
-- Arrays of any element that has a codec, and strings.
use spl.Prelude.{
  ℕ, ◌+◌, ◌-◌, ◌*◌, ◌/◌, ◌^◌, ◌≤◌, ◌<◌, ◌≡◌, refl, ap, subst, Bool, true, false, ◌||◌, Option, none,
  some, List, [], ◌∷◌, ltb, if◌then◌else◌, arith, length,
}
use native.Mathlib.Nat.{div-le_self}
use spl.Xdr.{Xdr, ◌>>=◌, Advances, Decodes, Codec}
use spl.Xdr.Fixed.{xdrmem_enc_uint, xdrmem_dec_uint}
use spl.Xdr.Fixed.Proofs.{Advances-trans, bind-some, agree_first, uint-Codec}
use spl.Xdr.Opaque.{xdrmem_enc_bytes, xdrmem_dec_bytes}
use spl.Xdr.Arrays.{
  uint_max, too_many, enc_elements, dec_elements, xdr_enc_array, xdr_dec_array, has_zero,
  xdr_enc_string, xdr_dec_string,
}
use spl.Xdr.Laws.Bytes.{bytes-Advances, bytes-Decodes, dec_bytes-some}

-- Every element meets the condition.
pub data All {ℓ} {A : Type 0} (P : A → Type ℓ) : List A → Type ℓ where
  nil : All P []
  cons : {a : A} {vs : List A} → P a → All P vs → All P (a ∷ vs)

if-some {ℓ} :
    {A : Type ℓ} (b : Bool) (o : Option A) (a : A)
    → (if b then none else o) ≡ some a
    → (b ≡ false) × (o ≡ some a)
if-some true o a e = ground (arith, e)
if-some false o a e = (refl, e)

then-some {ℓ} :
    {A : Type ℓ} (b : Bool) (o : Option A) (a : A) → (if b then o else none) ≡ some a → o ≡ some a
then-some true o a e = e
then-some false o a e = ground (arith, e)

some-injective {ℓ} : {A : Type ℓ} (a b : A) → some a ≡ some b → a ≡ b
some-injective a b e = ground (arith, e)

Advances-refl : (x : Xdr) → Advances x x
Advances-refl x = record {
  forward = omega arith;
  inside = λ h. h;
  same_end = refl;
  same_ops = refl;
  below = λ q h. refl;
  above = λ q h. refl;
}

quotient_le : (a d : ℕ) → a / d ≤ a
quotient_le a d = div-le_self a d

-- A count that passes the test fits an unsigned int.
few : (size maxsize elsize : ℕ) → too_many size maxsize elsize ≡ false → size < 2 ^ 32
few size maxsize elsize h = let q = quotient_le uint_max elsize in ground (arith, h, q)

module _ {ℓ} {A : Type 0} {Valid : A → Type ℓ} {enc : Xdr → A → Option Xdr}
    {dec : Xdr → Option (A × Xdr)} (codec : Codec A Valid enc dec) where
  elements-Advances : (x x' : Xdr) (vs : List A) → enc_elements enc x vs ≡ some x' → Advances x x'
  unfolding enc_elements
  elements-Advances x x' [] e = subst (Advances x) (some-injective x x' e) (Advances-refl x)
  elements-Advances x x' (v ∷ vs) e =
      let (y, p, q) = bind-some (enc x v) (λ y. enc_elements enc y vs) x' e in
      Advances-trans (codec.advances x y v p) (elements-Advances y x' vs q)

  elements-Decodes :
      (x x' : Xdr) (vs : List A)
      → All Valid vs
      → enc_elements enc x vs ≡ some x'
      → Decodes (λ y. dec_elements dec y (length vs)) x x' vs
  unfolding enc_elements dec_elements
  elements-Decodes x x' [] nil e m k =
      ap (λ y. some ([], record y { mem = m })) (some-injective x x' e)
  elements-Decodes x x' (v ∷ vs) (cons h hs) e m k =
      let (y, p, q) = bind-some (enc x v) (λ y. enc_elements enc y vs) x' e in
      let a = codec.advances x y v p in
      let b = elements-Advances y x' vs q in
      let c = a.forward in
      let first = codec.decodes x y v h p m (agree_first m x y x' a b k) in
      let rest = elements-Decodes y x' vs hs q m (λ p l. k p (omega arith)) in
      rw first (rw rest refl)

  -- Suppose of the element procedures that the encoder, where it succeeds, moves the stream on
  -- inside its buffer and writes nothing but the bytes that it moves over, and that the decoder
  -- gives a valid element that was encoded back from any memory that holds the encoded bytes, and
  -- stops where the encoder did. An array of valid elements that xdr_enc_array encodes is decoded by
  -- xdr_dec_array with the same limits, from any memory that holds the encoded bytes, to the same
  -- elements, and the decoding stops where the encoding did, if the caller gave a buffer or memory
  -- is got.
  pub array-Decodes :
      (x x' : Xdr) (vs : List A) (maxsize elsize : ℕ) (room : ℕ → Bool)
      → All Valid vs
      → xdr_enc_array enc x vs maxsize elsize ≡ some x'
      → room (length vs * elsize) ≡ true
      → Decodes (λ y. xdr_dec_array dec y room maxsize elsize) x x' vs
  unfolding xdr_enc_array xdr_dec_array
  array-Decodes x x' vs maxsize elsize room hs e r m k =
      let (h, e') =
        if-some (too_many (length vs) maxsize elsize)
          (xdrmem_enc_uint x (length vs) >>= λ y. enc_elements enc y vs) x' e in
      let (y, p, q) =
        bind-some (xdrmem_enc_uint x (length vs)) (λ y. enc_elements enc y vs) x' e' in
      let a = uint-Codec.advances x y (length vs) p in
      let b = elements-Advances y x' vs q in
      let c = a.forward in
      let size =
        uint-Codec.decodes x y (length vs) (few (length vs) maxsize elsize h) p m
          (agree_first m x y x' a b k) in
      let rest = elements-Decodes y x' vs hs q m (λ p l. k p (omega arith)) in
      rw size (rw h (rw r rest))

  -- Suppose that the element procedure, where it succeeds, moves the stream on inside its buffer and
  -- writes nothing else. Then so does xdr_enc_array, where it succeeds.
  pub array-Advances :
      (x x' : Xdr) (vs : List A) (maxsize elsize : ℕ)
      → xdr_enc_array enc x vs maxsize elsize ≡ some x'
      → Advances x x'
  unfolding xdr_enc_array
  array-Advances x x' vs maxsize elsize e =
      let (h, e') =
        if-some (too_many (length vs) maxsize elsize)
          (xdrmem_enc_uint x (length vs) >>= λ y. enc_elements enc y vs) x' e in
      let (y, p, q) =
        bind-some (xdrmem_enc_uint x (length vs)) (λ y. enc_elements enc y vs) x' e' in
      Advances-trans (uint-Codec.advances x y (length vs) p) (elements-Advances y x' vs q)

-- A string without NUL, of fewer than UINT_MAX bytes, that xdr_enc_string encodes is decoded by
-- xdr_dec_string with the same limit, from any memory that holds the encoded bytes, to the same
-- string, and the decoding stops where the encoding did, if the caller gave a buffer or memory is
-- got.
pub string-Decodes :
    (x x' : Xdr) (s : List ℕ) (maxsize : ℕ) (room : ℕ → Bool)
    → length s < uint_max
    → has_zero s ≡ false
    → xdr_enc_string x s maxsize ≡ some x'
    → room (length s + 1) ≡ true
    → Decodes (λ y. xdr_dec_string y room maxsize) x x' s
unfolding xdr_enc_string xdr_dec_string
string-Decodes x x' s maxsize room f z e r m k =
    let (h, e') =
      if-some (ltb maxsize (length s)) (xdrmem_enc_uint x (length s) >>= λ y. xdrmem_enc_bytes y s)
        x' e in
    let (y, p, q) = bind-some (xdrmem_enc_uint x (length s)) (λ y. xdrmem_enc_bytes y s) x' e' in
    let a = uint-Codec.advances x y (length s) p in
    let b = bytes-Advances y x' s q in
    let c = a.forward in
    let size = uint-Codec.decodes x y (length s) (omega arith) p m (agree_first m x y x' a b k) in
    let rest = bytes-Decodes y x' s q m (λ p l. k p (omega arith)) in
    let g : ltb (uint_max - 1) (length s) ≡ false = ground arith in
    rw size (rw h (rw g (rw r (rw rest (rw z refl)))))

-- A string that xdr_dec_string accepts, from any stream, holds no NUL, is no longer than the limit
-- and has fewer than UINT_MAX bytes.
pub dec_string-fits :
    (x x' : Xdr) (s : List ℕ) (maxsize : ℕ) (room : ℕ → Bool)
    → xdr_dec_string x room maxsize ≡ some (s, x')
    → (has_zero s ≡ false) × (length s ≤ maxsize) × (length s < uint_max)
unfolding xdr_dec_string
dec_string-fits x x' s maxsize room e =
    let ((size, y), p, q) = bind-some (xdrmem_dec_uint x) _ (s, x') e in
    let (h, q') = if-some (ltb maxsize size || ltb (uint_max - 1) size) _ (s, x') q in
    let ((s', z), p', f) =
      bind-some (xdrmem_dec_bytes y size) _ (s, x') (then-some (room (size + 1)) _ (s, x') q') in
    let (g, i) = if-some (has_zero s') (some (s', z)) (s, x') f in
    let (l, _, _) = dec_bytes-some y z size s' p' in
    let same : s' ≡ s = ap (λ r. r.0) (some-injective (s', z) (s, x') i) in
    subst (λ j. (has_zero j ≡ false) × (length j ≤ maxsize) × (length j < uint_max)) same
      (g, ground (arith, h), ground (arith, h, l))
