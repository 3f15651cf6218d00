-- ===== src/Xdr/Arrays.antt =====
-- Arrays and strings: xdr_enc_array, xdr_dec_array, xdr_enc_string and xdr_dec_string. An array's
-- element procedure is an argument. `room` says whether the caller gave a buffer or kmem_alloc gives
-- one of that many bytes; what is allocated is freed on failure and is not part of the stream.
use spl.Prelude.{
  ℕ, zero, suc, ◌+◌, ◌-◌, ◌*◌, ◌/◌, ◌^◌, Bool, true, false, ◌||◌, Option, none, some, List, [], ◌∷◌,
  ltb, ◌==◌, if◌then◌else◌, length,
}
use spl.Xdr.{Xdr, ◌>>=◌}
use spl.Xdr.Fixed.{xdrmem_enc_uint, xdrmem_dec_uint}
use spl.Xdr.Opaque.{xdrmem_enc_bytes, xdrmem_dec_bytes}

abbrev pub uint_max : ℕ
uint_max = 2 ^ 32 - 1

abbrev pub too_many : ℕ → ℕ → ℕ → Bool
too_many size maxsize elsize = ltb maxsize size || ltb (uint_max / elsize) size

unfoldable pub enc_elements : {A : Type 0} → (Xdr → A → Option Xdr) → Xdr → List A → Option Xdr
enc_elements elproc x [] = some x
enc_elements elproc x (a ∷ vs) = elproc x a >>= λ y. enc_elements elproc y vs

unfoldable pub dec_elements :
    {A : Type 0} → (Xdr → Option (A × Xdr)) → Xdr → ℕ → Option (List A × Xdr)
dec_elements elproc x zero = some ([], x)
dec_elements elproc x (suc n) = do
  (a, y) ← elproc x
  (vs, z) ← dec_elements elproc y n
  some (a ∷ vs, z)

unfoldable pub xdr_enc_array :
    {A : Type 0} → (Xdr → A → Option Xdr) → Xdr → List A → (maxsize elsize : ℕ) → Option Xdr
xdr_enc_array elproc x vs maxsize elsize =
    if too_many (length vs) maxsize elsize
    then none
    else xdrmem_enc_uint x (length vs) >>= λ y. enc_elements elproc y vs

unfoldable pub xdr_dec_array :
    {A : Type 0}
    → (Xdr → Option (A × Xdr))
    → Xdr
    → (room : ℕ → Bool) → (maxsize elsize : ℕ) → Option (List A × Xdr)
xdr_dec_array elproc x room maxsize elsize = do
  (size, y) ← xdrmem_dec_uint x
  if too_many size maxsize elsize
      then none
      else if room (size * elsize)
      then dec_elements elproc y size
      else none

-- memchr(s, 0, size) != NULL.
abbrev pub has_zero : List ℕ → Bool
has_zero [] = false
has_zero (b ∷ bs) = if b == 0 then true else has_zero bs

-- The string is its bytes before the NUL.
unfoldable pub xdr_enc_string : Xdr → List ℕ → (maxsize : ℕ) → Option Xdr
xdr_enc_string x s maxsize =
    if ltb maxsize (length s)
    then none
    else xdrmem_enc_uint x (length s) >>= λ y. xdrmem_enc_bytes y s

unfoldable pub xdr_dec_string : Xdr → (room : ℕ → Bool) → (maxsize : ℕ) → Option (List ℕ × Xdr)
xdr_dec_string x room maxsize = do
  (size, y) ← xdrmem_dec_uint x
  if ltb maxsize size || ltb (uint_max - 1) size
      then none
      else if room (size + 1)
      then (xdrmem_dec_bytes y size >>= λ r.
          (let (s, z) = r in if has_zero s then none else some (s, z)))
      else none
