-- ===== src/Xdr/Tests.antt =====
-- The theorems on XDR streams at a buffer of 64 bytes.
use spl.Prelude.{ℕ, ◌≡◌, refl, true, Option, none, some, List, [], ◌∷◌, arith}
use spl.Xdr.{Xdr, xdr_encode, Decodes}
use spl.Xdr.Fixed.{xdrmem_enc_uint32, xdrmem_enc_char, xdrmem_dec_char, xdrmem_enc_uint}
use spl.Xdr.Fixed.Proofs.{char-Codec}
use spl.Xdr.Opaque.{xdrmem_enc_bytes}
use spl.Xdr.Arrays.{enc_elements, xdr_enc_array, xdr_dec_array, xdr_enc_string, xdr_dec_string}
use spl.Xdr.Laws.{nil, cons, array-Decodes, string-Decodes}

abbrev buffer : Xdr
buffer = record { mem = λ q. 0xaa; x_ops = some xdr_encode; x_addr = 4096; x_addr_end = 4160 }

abbrev word : List ℕ
word = 115 ∷ 112 ∷ 108 ∷ []

abbrev or_buffer : Option Xdr → Xdr
or_buffer none = buffer
or_buffer (some x) = x

abbrev after_bytes : Xdr
after_bytes = or_buffer (xdrmem_enc_bytes buffer word)

enc_bytes_word : xdrmem_enc_bytes buffer word ≡ some after_bytes
unfolding xdrmem_enc_bytes
enc_bytes_word = refl

abbrev after_array : Xdr
after_array = or_buffer (xdr_enc_array xdrmem_enc_char buffer word 10 1)

enc_array_word : xdr_enc_array xdrmem_enc_char buffer word 10 1 ≡ some after_array
unfolding xdr_enc_array enc_elements xdrmem_enc_char xdrmem_enc_uint xdrmem_enc_uint32
enc_array_word = refl

array-Decodes_example :
    Decodes (λ y. xdr_dec_array xdrmem_dec_char y (λ n. true) 10 1) buffer after_array word
array-Decodes_example =
    array-Decodes char-Codec buffer after_array word 10 1 (λ n. true)
      (cons (omega arith) (cons (omega arith) (cons (omega arith) nil))) enc_array_word refl

abbrev after_string : Xdr
after_string = or_buffer (xdr_enc_string buffer word 10)

enc_string_word : xdr_enc_string buffer word 10 ≡ some after_string
unfolding xdr_enc_string xdrmem_enc_bytes xdrmem_enc_uint xdrmem_enc_uint32
enc_string_word = refl

string-Decodes_example : Decodes (λ y. xdr_dec_string y (λ n. true) 10) buffer after_string word
string-Decodes_example =
    string-Decodes buffer after_string word 10 (λ n. true) (omega arith) refl enc_string_word refl
