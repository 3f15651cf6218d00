-- ===== src/Xdr/Opaque.antt =====
-- Opaque bytes: xdrmem_enc_bytes and xdrmem_dec_bytes.
use spl.Prelude.{
  ℕ, ◌+◌, ◌-◌, ◌*◌, ◌/◌, ◌%◌, ◌^◌, Bool, true, false, Option, none, some, List, [], ◌∷◌, ltb, ◌==◌,
  if◌then◌else◌, length, replicate,
}
use spl.Xdr.{Xdr}
use spl.Xdr.Memory.{write, read}

-- roundup(cnt, 4) in an unsigned int.
abbrev pub roundup4 : ℕ → ℕ
roundup4 cnt = (cnt + 3) % 2 ^ 32 / 4 * 4

-- The three tests before any byte is touched.
abbrev pub no_room : Xdr → ℕ → Bool
no_room x cnt =
    if ltb (roundup4 cnt) cnt
    then true
    else if ltb x.x_addr_end x.x_addr
    then true
    else ltb (x.x_addr_end - x.x_addr) (roundup4 cnt)

abbrev pub all_zero : List ℕ → Bool
all_zero [] = true
all_zero (b ∷ bs) = if b == 0 then all_zero bs else false

-- The bytes, and zeros up to a multiple of four.
unfoldable pub xdrmem_enc_bytes : Xdr → List ℕ → Option Xdr
xdrmem_enc_bytes x cp =
    let cnt = length cp in
    let pad = roundup4 cnt - cnt in
    if no_room x cnt
    then none
    else some (record x {
      mem = write (write x.mem x.x_addr cp) (x.x_addr + cnt) (replicate pad 0);
      x_addr = x.x_addr + cnt + pad;
    })

-- The padding has to be zero.
unfoldable pub xdrmem_dec_bytes : Xdr → ℕ → Option (List ℕ × Xdr)
xdrmem_dec_bytes x cnt =
    let pad = roundup4 cnt - cnt in
    if no_room x cnt
    then none
    else if all_zero (read x.mem (x.x_addr + cnt) pad)
    then some (read x.mem x.x_addr cnt, record x { x_addr = x.x_addr + cnt + pad })
    else none
