-- ===== src/Xdr/Fixed.antt =====
-- The items of fixed size: char, unsigned short, unsigned int and u_longlong_t.
pub mod Proofs
use spl.Prelude.{
  ℕ, ◌+◌, ◌*◌, ◌/◌, ◌%◌, ◌^◌, Bool, Option, none, some, List, [], ◌∷◌, ltb, if◌then◌else◌, get_or,
}
use spl.Xdr.{Xdr, ◌>>=◌}
use spl.Xdr.Memory.{write, read}

-- The bytes of cpu_to_be32(v) in memory.
abbrev pub be_bytes : ℕ → List ℕ
be_bytes v = (v / 2 ^ 24 % 256) ∷ (v / 2 ^ 16 % 256) ∷ (v / 2 ^ 8 % 256) ∷ (v % 256) ∷ []

-- be32_to_cpu of four bytes.
abbrev pub be_value : List ℕ → ℕ
be_value bs =
    get_or bs 0 0 * 2 ^ 24 + get_or bs 1 0 * 2 ^ 16 + get_or bs 2 0 * 2 ^ 8 + get_or bs 3 0

unfoldable pub xdrmem_enc_uint32 : Xdr → ℕ → Option Xdr
xdrmem_enc_uint32 x val =
    if ltb x.x_addr_end (x.x_addr + 4)
    then none
    else some (record x { mem = write x.mem x.x_addr (be_bytes val); x_addr = x.x_addr + 4 })

unfoldable pub xdrmem_dec_uint32 : Xdr → Option (ℕ × Xdr)
xdrmem_dec_uint32 x =
    if ltb x.x_addr_end (x.x_addr + 4)
    then none
    else some (be_value (read x.mem x.x_addr 4), record x { x_addr = x.x_addr + 4 })

unfoldable pub xdrmem_enc_char : Xdr → ℕ → Option Xdr
xdrmem_enc_char x c = xdrmem_enc_uint32 x c

unfoldable pub xdrmem_dec_char : Xdr → Option (ℕ × Xdr)
xdrmem_dec_char x = do
  (val, x') ← xdrmem_dec_uint32 x
  if ltb 0xff val then none else some (val, x')

unfoldable pub xdrmem_enc_ushort : Xdr → ℕ → Option Xdr
xdrmem_enc_ushort x us = xdrmem_enc_uint32 x us

unfoldable pub xdrmem_dec_ushort : Xdr → Option (ℕ × Xdr)
xdrmem_dec_ushort x = do
  (val, x') ← xdrmem_dec_uint32 x
  if ltb 0xffff val then none else some (val, x')

unfoldable pub xdrmem_enc_uint : Xdr → ℕ → Option Xdr
xdrmem_enc_uint x u = xdrmem_enc_uint32 x u

unfoldable pub xdrmem_dec_uint : Xdr → Option (ℕ × Xdr)
xdrmem_dec_uint x = xdrmem_dec_uint32 x

-- The high word goes first.
unfoldable pub xdrmem_enc_ulonglong : Xdr → ℕ → Option Xdr
xdrmem_enc_ulonglong x ull = do
  x' ← xdrmem_enc_uint32 x (ull / 2 ^ 32)
  xdrmem_enc_uint32 x' (ull % 2 ^ 32)

-- `|` joins disjoint bits, which is their sum.
unfoldable pub xdrmem_dec_ulonglong : Xdr → Option (ℕ × Xdr)
xdrmem_dec_ulonglong x = do
  (high, x') ← xdrmem_dec_uint32 x
  (low, x'') ← xdrmem_dec_uint32 x'
  some (high * 2 ^ 32 + low, x'')
