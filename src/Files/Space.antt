-- ===== src/Files/Space.antt =====
-- vn_space and vn_seek: the range of F_FREESP that is freed through the file system's
-- truncate_range, where fallocate cannot punch a hole. Offsets are not negative, nor is a sum of them, and the size of a page
-- is a power of two.
use native.Mathlib.Nat.{div-add-mod', mod-lt, mul-mod_left}
use spl.Prelude.{
  ℕ, ◌+◌, ◌-◌, ◌*◌, ◌/◌, ◌%◌, ◌^◌, ◌≤◌, ◌<◌, ◌≡◌, refl, sym, ap, ◌∙◌, Bool-cases, inl, inr, ==_iff,
  Bool, true, Option, none, some, arith, ltb, leb, ◌==◌, if◌then◌else◌, ◌||◌, not,
}

abbrev pub eopnotsupp : ℕ
eopnotsupp = 95

abbrev pub einval : ℕ
einval = 22

abbrev pub f_freesp : ℕ
f_freesp = 11

-- MAXOFFSET_T, the largest offset. Offsets are 64-bit patterns.
abbrev pub maxoffset_t : ℕ
maxoffset_t = 2 ^ 63 - 1

unfoldable pub vn_seek : ℕ → ℕ
vn_seek noff = if leb (2 ^ 63) noff || ltb maxoffset_t noff then einval else 0

-- How vn_space ends: a code, or a call of truncate_range from one offset to another and the code 0.
pub data Spaced : Type 0 where
  code : ℕ → Spaced
  truncated : (first last : ℕ) → Spaced

-- The range for truncate_range: its end is inclusive and at the end of a page.
unfoldable pub truncate_space : (page_size l_start l_len : ℕ) → Spaced
truncate_space page_size l_start l_len =
    let end_at = l_start + l_len in
    let aligned = end_at / page_size * page_size in
    if not (end_at % page_size == 0)
    then if leb aligned l_start then code 0 else truncated l_start (aligned - 1)
    else truncated l_start (end_at - 1)

-- `fallocate` is what the file system answers where it is built in, `truncate_range` whether the
-- inode has that operation.
unfoldable pub vn_space :
    (page_size : ℕ) (fallocate : Option ℕ) (truncate_range : Bool) (cmd l_whence l_start l_len : ℕ)
    → Spaced
unfolding truncate_space
vn_space page_size fallocate truncate_range cmd l_whence l_start l_len =
    let error : ℕ = elim fallocate [ none ↦ eopnotsupp | some e ↦ e ] in
    if not (cmd == f_freesp) || not (l_whence == 0)
    then code eopnotsupp
    else if error == 0
    then code 0
    else if truncate_range
    then truncate_space page_size l_start l_len
    else code error

-- The range begins where the caller says, is not empty, lies inside what the caller frees and ends
-- with the last byte of a page, and fewer bytes than a page are left of what the caller frees.
pub record Range (page_size l_start l_len first last : ℕ) : Type 0 where
  pub at_start : first ≡ l_start
  pub from_start : first ≤ last
  pub inside : last < l_start + l_len
  pub page_end : (last + 1) % page_size ≡ 0
  pub most : l_start + l_len < last + 1 + page_size

truncated_eq : (a b c d : ℕ) → truncated a b ≡ truncated c d → (a ≡ c) × (b ≡ d)
truncated_eq a b c d e = (cc, cc)

truncate_space-truncated :
    (page_size l_start l_len first last : ℕ)
    → 0 < page_size
    → 0 < l_len
    → truncate_space page_size l_start l_len ≡ truncated first last
    → Range page_size l_start l_len first last
unfolding truncate_space
truncate_space-truncated p l n first last pos some_bytes e =
    let end_at = l + n in
    let a = end_at / p * p in
    let split = div-add-mod' end_at p in
    let rest = mod-lt end_at pos in
    elim (Bool-cases (end_at % p == 0)) [
      | inl h ↦
          let (f, g) = truncated_eq l (end_at - 1) first last (sym (rw h refl) ∙ e) in
          let m : end_at % p ≡ 0 = (==_iff _ _).0 h in
          record {
            at_start = sym f;
            from_start = omega arith;
            inside = omega arith;
            page_end = ap (λ (x : ℕ). x % p) (let k : last + 1 ≡ end_at = omega arith in k) ∙ m;
            most = omega arith;
          }
      | inr h ↦ elim (Bool-cases (leb a l)) [
        | inl low ↦
            absurd (let k : code 0 ≡ truncated first last = sym (rw (h, low) refl) ∙ e in cc)
        | inr high ↦
            let (f, g) = truncated_eq l (a - 1) first last (sym (rw (h, high) refl) ∙ e) in
            let above : l < a = ground arith in
            record {
              at_start = sym f;
              from_start = omega arith;
              inside = omega arith;
              page_end =
                  ap (λ (x : ℕ). x % p) (let k : last + 1 ≡ a = omega arith in k)
                  ∙ mul-mod_left (end_at / p) p;
              most = omega arith;
            }
      ]
    ]

reached :
    (p : ℕ) (fallocate : Option ℕ) (cmd l_whence l n first last : ℕ)
    → vn_space p fallocate true cmd l_whence l n ≡ truncated first last
    → truncate_space p l n ≡ truncated first last
unfolding vn_space
reached p fallocate cmd l_whence l n first last e = ground arith

-- Where vn_space calls truncate_range, for a length that is not 0 and pages of at least one byte,
-- the range begins where the caller says, is not empty, lies inside what the caller frees, and ends
-- with the last byte of a page; and fewer bytes than a page are left of what the caller frees.
pub vn_space-truncated :
    (page_size : ℕ) (fallocate : Option ℕ) (cmd l_whence l_start l_len first last : ℕ)
    → 0 < page_size
    → 0 < l_len
    → vn_space page_size fallocate true cmd l_whence l_start l_len ≡ truncated first last
    → Range page_size l_start l_len first last
vn_space-truncated p fallocate cmd l_whence l n first last pos some_bytes e =
    truncate_space-truncated p l n first last pos some_bytes
      (reached p fallocate cmd l_whence l n first last e)
