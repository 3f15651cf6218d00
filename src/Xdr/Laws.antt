-- ===== src/Xdr/Laws.antt =====
-- Opaque bytes, arrays, strings and the creation of a stream.
mod Bytes
mod Items
pub use Bytes.*
pub use Items.*
use spl.Prelude.{
  ℕ, ◌+◌, ◌%◌, ◌^◌, ◌<◌, ◌≡◌, ◌≢◌, refl, ◌⊎◌, inl, inr, Bool, true, false, Option, none, some, ltb,
  ◌==◌, if◌then◌else◌, arith,
}
use spl.Xdr.{Xdr, XdrOp, xdr_encode, xdr_decode, xdr_other, xdrmem_create, xdrmem_control}

-- A stream that xdrmem_create makes over a buffer that does not go round the address space, for
-- encoding or decoding, has the operations set, and xdrmem_control tells that all of the buffer is
-- left.
pub control-create :
    (x : Xdr) (addr size : ℕ) (op : XdrOp)
    → addr + size < 2 ^ 64
    → op ≢ xdr_other
    → ((xdrmem_create x addr size op).x_ops ≡ some op)
      × (xdrmem_control (xdrmem_create x addr size op) 1 ≡ some (true, size))
unfolding xdrmem_create xdrmem_control
control-create x addr size xdr_encode h n = ground arith
control-create x addr size xdr_decode h n = ground arith
control-create x addr size xdr_other h n = absurd (n refl)
