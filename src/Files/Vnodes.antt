-- ===== src/Files/Vnodes.antt =====
-- vn_open, vn_openat, vn_close, vn_rdwr and vn_fsync. The kernel's files are addresses; what its
-- functions answer is the parameter `Kernel`, and what they are given is written out.
use spl.Prelude.{
  ℕ, ◌+◌, ◌-◌, ◌/◌, ◌%◌, ◌^◌, Bool, false, Option, none, some, List, ◌∷◌, leb, ◌==◌, not, ◌&&◌,
  if◌then◌else◌,
}
use spl.Files.Types.{VType, vn_mode_to_vtype}

-- The flags of the generic architecture: FWRITE, FCREAT and FEXCL.
abbrev pub fwrite : ℕ
fwrite = 2

abbrev pub fcreat : ℕ
fcreat = 64

abbrev pub fexcl : ℕ
fexcl = 128

abbrev pub enomem : ℕ
enomem = 12

abbrev pub eio : ℕ
eio = 5

-- A flag is a power of two.
abbrev pub has : ℕ → ℕ → Bool
has flags flag = not (flags / flag % 2 == 0)

abbrev pub with_flag : ℕ → ℕ → ℕ
with_flag flags flag = if has flags flag then flags else flags + flag

-- A file or an error code.
pub data FileOrError : Type 0 where
  file : ℕ → FileOrError
  error : ℕ → FileOrError

-- filp_open for a path, flags, a mode and the umask of the process; the mode of a file by vfs_getattr
-- or its error code; and whether vn_alloc and the kmalloc of vn_openat succeed.
pub record Kernel : Type 0 where
  pub filp_open : List ℕ → (flags mode umask : ℕ) → FileOrError
  pub vfs_getattr : ℕ → FileOrError
  pub filp_close : ℕ → ℕ
  pub vn_alloc : Bool
  pub kmalloc : Bool
  -- The mask without __GFP_IO and __GFP_FS.
  pub without_io : ℕ → ℕ

pub record Vnode : Type 0 where
  pub v_type : VType
  pub v_file : ℕ
  pub v_gfp_mask : ℕ

-- The umask of the process, the files that are open with their number of opens, the allocation mask
-- of each file's mapping, and how many vnodes are allocated.
pub record Process : Type 0 where
  pub umask : ℕ
  pub opens : ℕ → ℕ
  pub gfp_mask : ℕ → ℕ
  pub vnodes : ℕ

unfoldable pub put_at : ℕ → ℕ → (ℕ → ℕ) → ℕ → ℕ
put_at f n g k = if k == f then n else g k

-- The flags for filp_open, where flags are the 32-bit pattern of an int.
unfoldable pub open_flags : ℕ → ℕ
open_flags flags =
    ((if not (has flags fcreat) && has flags fwrite then with_flag flags fexcl else flags)
      + 2 ^ 32
      - 1)
    % 2 ^ 32

abbrev pub opened : ℕ → Process → Process
opened f p = record p { opens = put_at f (p.opens f + 1) p.opens }

abbrev pub closed : ℕ → Process → Process
closed f p = record p { opens = put_at f (p.opens f - 1) p.opens }

module _ (k : Kernel) where
  -- The file is open; its mode is known.
  unfoldable pub open_vnode : (f mode : ℕ) → Process → ℕ × Option Vnode × Process
  open_vnode f mode p =
      let vp : Vnode = record {
        v_type = vn_mode_to_vtype mode;
        v_file = f;
        v_gfp_mask = p.gfp_mask f;
      } in
      if k.vn_alloc
      then (
        0,
        some vp,
        record p {
          gfp_mask = put_at f (k.without_io (p.gfp_mask f)) p.gfp_mask;
          vnodes = p.vnodes + 1;
        },
      )
      else (enomem, none, closed f p)

  unfoldable pub open_stat : (f : ℕ) → FileOrError → Process → ℕ × Option Vnode × Process
  unfolding open_vnode
  open_stat f (file mode) p = open_vnode f mode p
  open_stat f (error rc) p = (rc, none, closed f p)

  unfoldable pub open_filp : FileOrError → Process → ℕ × Option Vnode × Process
  unfolding open_stat
  open_filp (file f) p = open_stat f (k.vfs_getattr f) (opened f p)
  open_filp (error rc) p = (rc, none, p)

  -- The umask is 0 while a file may be made, and is put back before the result is looked at.
  unfoldable pub vn_open : List ℕ → (flags mode : ℕ) → Process → ℕ × Option Vnode × Process
  unfolding open_flags open_filp
  vn_open path flags mode p =
      let fl = open_flags flags in
      let saved_umask = if has fl fcreat then p.umask else 0 in
      let q = if has fl fcreat then record p { umask = 0 } else p in
      let fp = k.filp_open path fl mode q.umask in
      let r = if has fl fcreat then record q { umask = saved_umask } else q in open_filp fp r

  -- The path is taken from the root, "/".
  unfoldable pub vn_openat : List ℕ → (flags mode : ℕ) → Process → ℕ × Option Vnode × Process
  unfolding vn_open
  vn_openat path flags mode p =
      if k.kmalloc then vn_open (b'/' ∷ path) flags mode p else (enomem, none, p)

  unfoldable pub vn_close : Vnode → Process → ℕ × Process
  vn_close vp p =
      let f = vp.v_file in
      (
        k.filp_close f,
        record p {
          gfp_mask = put_at f vp.v_gfp_mask p.gfp_mask;
          opens = put_at f (p.opens f - 1) p.opens;
          vnodes = p.vnodes - 1;
        },
      )

-- What a transfer answers, as an ssize_t: the bytes that were moved or a negative error code; and the
-- offset that it leaves.
pub data Moved : Type 0 where
  bytes : (n offset : ℕ) → Moved
  failed : (errno offset : ℕ) → Moved

-- The answer as the 32-bit pattern of an int.
abbrev pub int_rc : Moved → ℕ
int_rc (bytes n offset) = n % 2 ^ 32
int_rc (failed errno offset) = (2 ^ 32 - errno % 2 ^ 32) % 2 ^ 32

abbrev pub left_offset : Moved → ℕ
left_offset (bytes n offset) = offset
left_offset (failed errno offset) = offset

-- The code, what is written through `residp` as a 64-bit pattern if it is not NULL, and f_pos.
-- `kernel_rw` is spl_kernel_write or spl_kernel_read at an offset.
unfoldable pub vn_rdwr :
    (kernel_rw : (len offset : ℕ) → Moved) (len off : ℕ) (fappend residp : Bool) (f_pos : ℕ)
    → ℕ × Option ℕ × ℕ
vn_rdwr kernel_rw len off fappend residp f_pos =
    let r = kernel_rw len (if fappend then f_pos else off) in
    let rc = int_rc r in
    let pos = left_offset r in
    if leb (2 ^ 31) rc
    then (2 ^ 32 - rc, none, pos)
    else if residp
    then (0, some ((len + 2 ^ 64 - rc) % 2 ^ 64), pos)
    else if rc == len
    then (0, none, pos)
    else (eio, none, pos)

-- The flags of the current thread are PF_FSTRANS and the rest. vfs_fsync is given the first and
-- whether only the contents are written.
unfoldable pub vn_fsync :
    (vfs_fsync : (fstrans datasync : Bool) → ℕ) (fdsync fstrans : Bool) → ℕ × Bool
vn_fsync vfs_fsync fdsync fstrans = (vfs_fsync false fdsync, fstrans)
