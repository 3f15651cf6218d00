-- ===== src/Xdr.antt =====
-- The XDR memory streams of module/spl/spl-xdr.c and include/spl/rpc/xdr.h. Memory is a function from
-- addresses to bytes; a stream is its two addresses, its direction and whether xdrmem_create set the
-- operations. An operation that returns FALSE is `none`: the file's own header says that nothing may
-- be relied on then. The children hold the codecs and their laws.
pub mod Memory
pub mod Fixed
pub mod Opaque
pub mod Arrays
pub mod Laws
mod Tests
use spl.Prelude.{
  ℕ, zero, suc, ◌+◌, ◌-◌, ◌*◌, ◌/◌, ◌%◌, ◌^◌, ◌≤◌, ◌<◌, ◌≡◌, Bool, true, false, Option, none, some,
  List, [], ◌∷◌, ltb, if◌then◌else◌, ◌==◌,
}

abbrev pub Memory : Type 0
Memory = ℕ → ℕ

pub data XdrOp : Type 0 where
  xdr_encode xdr_decode xdr_other : XdrOp

-- `XDR`, with the memory that its addresses are of. `x_ops` is `none` for NULL.
pub record Xdr : Type 0 where
  pub mem : Memory
  pub x_ops : Option XdrOp
  pub x_addr : ℕ
  pub x_addr_end : ℕ

-- A pointer holds 64 bits.
abbrev pub add_ptr : ℕ → ℕ → ℕ
add_ptr p n = (p + n) % 2 ^ 64

infixl 5 ◌>>=◌
abbrev pub ◌>>=◌ {ℓ κ} : {A : Type ℓ} {B : Type κ} → Option A → (A → Option B) → Option B
none >>= f = none
some a >>= f = f a

-- An unknown operation only clears `x_ops`; so does a size that goes round the address space.
unfoldable pub xdrmem_create : Xdr → ℕ → ℕ → XdrOp → Xdr
xdrmem_create x addr size xdr_other = record x { x_ops = none }
xdrmem_create x addr size op = record x {
  x_ops = if ltb (add_ptr addr size) addr then none else some op;
  x_addr = addr;
  x_addr_end = add_ptr addr size;
}

-- XDR_GET_BYTES_AVAIL is the only request: whether this is the last record, and the bytes left.
unfoldable pub xdrmem_control : Xdr → ℕ → Option (Bool × ℕ)
xdrmem_control x req =
    if req == 1 then some (true, (x.x_addr_end + 2 ^ 64 - x.x_addr) % 2 ^ 64) else none

-- What an encoder may do to a stream: it moves on, no further than the end, and writes nothing but
-- the bytes that it moves over.
pub record Advances (x x' : Xdr) : Type 0 where
  pub forward : x.x_addr ≤ x'.x_addr
  pub inside : x.x_addr ≤ x.x_addr_end → x'.x_addr ≤ x'.x_addr_end
  pub same_end : x'.x_addr_end ≡ x.x_addr_end
  pub same_ops : x'.x_ops ≡ x.x_ops
  pub below : (q : ℕ) → q < x.x_addr → x'.mem q ≡ x.mem q
  pub above : (q : ℕ) → x'.x_addr ≤ q → x'.mem q ≡ x.mem q

-- Decoding, from any memory that holds the encoder's bytes, gives the value back and stops where the
-- encoder did.
abbrev pub Decodes {ℓ} : {A : Type ℓ} → (Xdr → Option (A × Xdr)) → Xdr → Xdr → A → Type ℓ
Decodes dec x x' a =
    (m : Memory)
    → ((q : ℕ) → x.x_addr ≤ q → q < x'.x_addr → m q ≡ x'.mem q)
    → dec (record x { mem = m }) ≡ some (a, record x' { mem = m })

-- An encoder and a decoder that fit each other, on the values that meet a condition.
pub record Codec {ℓ} (A : Type 0) (Valid : A → Type ℓ) (enc : Xdr → A → Option Xdr)
    (dec : Xdr → Option (A × Xdr)) : Type ℓ where
  pub advances : (x x' : Xdr) (a : A) → enc x a ≡ some x' → Advances x x'
  pub decodes : (x x' : Xdr) (a : A) → Valid a → enc x a ≡ some x' → Decodes dec x x' a
