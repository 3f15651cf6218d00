-- ===== src/Slab/Sizes.antt =====
-- The sizes of objects, slabs and magazines. A size is a 32-bit number; alignments and the size of a
-- page are powers of two. get_order and fls64 are the kernel's.
pub mod Fitting
use spl.Prelude.{
  ℕ, ◌+◌, ◌-◌, ◌*◌, ◌/◌, ◌%◌, ◌^◌, min, max, Bool, Option, none, some, ltb, leb, ◌==◌, ◌&&◌, ◌||◌,
  if◌then◌else◌,
}

-- The sizes of the structures, of a page and of the largest allocation in pages, and the tunables.
pub record Machine : Type 0 where
  pub sizeof_slab : ℕ
  pub sizeof_obj : ℕ
  pub page_size : ℕ
  pub max_order_nr_pages : ℕ
  pub get_order : ℕ → ℕ
  pub fls64 : ℕ → ℕ
  pub obj_per_slab : ℕ
  pub cache_max_size : ℕ
  pub magazine_size : ℕ

pub record Shape : Type 0 where
  pub obj_size : ℕ
  pub obj_align : ℕ
  pub kmem : Bool
  pub offslab : Bool

-- (x - 1 | align - 1) + 1, where the bits of align - 1 are the low ones.
unfoldable pub p2roundup : (x align : ℕ) → ℕ
p2roundup x align = ((x + 2 ^ 32 - 1) % 2 ^ 32 / align * align + (align - 1) + 1) % 2 ^ 32

unfoldable pub spl_sks_size : Machine → Shape → ℕ
spl_sks_size m skc = p2roundup m.sizeof_slab skc.obj_align

unfoldable pub spl_obj_size : Machine → Shape → ℕ
spl_obj_size m skc =
    (p2roundup skc.obj_size skc.obj_align + p2roundup m.sizeof_obj skc.obj_align) % 2 ^ 32

unfoldable pub spl_sko_from_obj : Shape → (obj : ℕ) → ℕ
spl_sko_from_obj skc obj = obj + p2roundup skc.obj_size skc.obj_align

unfoldable pub spl_offslab_size : Machine → Shape → ℕ
unfolding spl_obj_size
spl_offslab_size m skc = 2 ^ (m.fls64 (spl_obj_size m skc) + 1) % 2 ^ 32

abbrev pub sub32 : ℕ → ℕ → ℕ
sub32 a b = (a + 2 ^ 32 - b) % 2 ^ 32

-- The target size on slab, with its maximum.
unfoldable pub target : Machine → Shape → ℕ × ℕ
unfolding spl_obj_size spl_sks_size
target m skc =
    let tgt_size = (m.obj_per_slab * spl_obj_size m skc + spl_sks_size m skc) % 2 ^ 32 in
    let max_size = m.max_order_nr_pages * m.page_size % 2 ^ 32 in
    if skc.kmem
    then (min max_size (m.page_size * 2 ^ max (m.get_order tgt_size - 1) 1), max_size)
    else (tgt_size, m.cache_max_size * 1024 * 1024 % 2 ^ 32)

-- The number of objects and the size that fit under the maximum.
unfoldable pub objs_and_size : (obj_size sks_size tgt_size max_size : ℕ) → ℕ × ℕ
objs_and_size obj_size sks_size tgt_size max_size =
    if leb tgt_size max_size
    then (sub32 tgt_size sks_size / obj_size, tgt_size)
    else let objs = sub32 max_size sks_size / obj_size in
      (objs, (objs * obj_size + sks_size) % 2 ^ 32)

-- The number of objects and the size of a slab, or ENOSPC.
unfoldable pub spl_slab_size : Machine → Shape → Option (ℕ × ℕ)
unfolding target objs_and_size
spl_slab_size m skc =
    if skc.offslab
    then (if (skc.kmem && ltb (m.max_order_nr_pages * m.page_size) (spl_obj_size m skc))
          || m.obj_per_slab == 0
        then none
        else some (m.obj_per_slab, p2roundup m.sizeof_slab m.page_size))
    else let (tgt_size, max_size) = target m skc in
      let (objs, size) =
        objs_and_size (spl_obj_size m skc) (spl_sks_size m skc) tgt_size max_size in
      if objs == 0 then none else some (objs, size)

unfoldable pub spl_magazine_size : Machine → Shape → ℕ
spl_magazine_size m skc =
    let obj_size = spl_obj_size m skc in
    if ltb 0 m.magazine_size
    then max (min m.magazine_size 256) 2
    else if ltb (m.page_size * 256) obj_size
    then 4
    else if ltb (m.page_size * 32) obj_size
    then 16
    else if ltb m.page_size obj_size
    then 64
    else if ltb (m.page_size / 4) obj_size
    then 128
    else 256

-- skc_mag_size and skc_mag_refill, as spl_magazine_create sets them.
unfoldable pub magazine_sizes : Machine → Shape → ℕ × ℕ
unfolding spl_magazine_size
magazine_sizes m skc = (spl_magazine_size m skc, (spl_magazine_size m skc + 1) / 2)
