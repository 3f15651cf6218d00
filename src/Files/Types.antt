-- ===== src/Files/Types.antt =====
-- vn_mode_to_vtype and vn_vtype_to_mode: the file types of Solaris and the bits S_IFMT of a mode.
use spl.Prelude.{ℕ, ◌+◌, ◌*◌, ◌/◌, ◌%◌, ◌<◌, ◌≡◌, ◌≢◌, refl, arith, ◌==◌, if◌then◌else◌}

pub data VType : Type 0 where
  vnon : VType
  vreg : VType
  vdir : VType
  vblk : VType
  vchr : VType
  vlnk : VType
  vfifo : VType
  vdoor : VType
  vproc : VType
  vsock : VType
  vport : VType
  vbad : VType

-- S_IFIFO, S_IFCHR, S_IFDIR, S_IFBLK, S_IFREG, S_IFLNK and S_IFSOCK are 1, 2, 4, 6, 8, 10 and 12 times
-- this.
abbrev pub s_ifmt_unit : ℕ
s_ifmt_unit = 4096

abbrev pub s_ifmt : ℕ → ℕ
s_ifmt mode = mode / s_ifmt_unit % 16

unfoldable pub vn_mode_to_vtype : ℕ → VType
vn_mode_to_vtype mode =
    if s_ifmt mode == 8
    then vreg
    else if s_ifmt mode == 4
    then vdir
    else if s_ifmt mode == 2
    then vchr
    else if s_ifmt mode == 6
    then vblk
    else if s_ifmt mode == 1
    then vfifo
    else if s_ifmt mode == 10
    then vlnk
    else if s_ifmt mode == 12
    then vsock
    else vnon

-- For a type without a mode the code yields VNON, 0.
unfoldable pub vn_vtype_to_mode : VType → ℕ
vn_vtype_to_mode vreg = 8 * s_ifmt_unit
vn_vtype_to_mode vdir = 4 * s_ifmt_unit
vn_vtype_to_mode vchr = 2 * s_ifmt_unit
vn_vtype_to_mode vblk = 6 * s_ifmt_unit
vn_vtype_to_mode vfifo = s_ifmt_unit
vn_vtype_to_mode vlnk = 10 * s_ifmt_unit
vn_vtype_to_mode vsock = 12 * s_ifmt_unit
vn_vtype_to_mode other = 0

-- For a type with a mode, and any permissions, vn_mode_to_vtype of the mode with the permissions is
-- the type again.
pub vn_mode_to_vtype-vn_vtype_to_mode :
    (t : VType) (perm : ℕ)
    → perm < s_ifmt_unit
    → vn_vtype_to_mode t ≢ 0
    → vn_mode_to_vtype (vn_vtype_to_mode t + perm) ≡ t
unfolding vn_vtype_to_mode vn_mode_to_vtype
vn_mode_to_vtype-vn_vtype_to_mode vnon perm h m = absurd (m refl)
vn_mode_to_vtype-vn_vtype_to_mode t perm h m = ground arith
