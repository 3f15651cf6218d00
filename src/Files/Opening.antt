-- ===== src/Files/Opening.antt =====
-- vn_open and vn_openat on every exit, and vn_close after them.
use spl.Prelude.{
  ℕ, ◌+◌, ◌/◌, ◌%◌, ◌^◌, ◌<◌, ◌||◌, ◌&&◌, not, ◌≡◌, ◌≢◌, refl, Option, none, some, List, arith,
  Bool-cases, inl, inr, if◌then◌else◌, if_elim, Bool, subst,
}
use spl.Files.Types.{vn_mode_to_vtype}
use spl.Files.Vnodes.{
  fwrite, fcreat, fexcl, has, FileOrError, file, error, Kernel, Vnode, Process, put_at, open_flags,
  opened, closed, open_vnode, open_stat, open_filp, vn_open, vn_close,
}

-- A process with the same umask, open files, masks and vnodes.
pub record Same (p q : Process) : Type 0 where
  pub umask : q.umask ≡ p.umask
  pub opens : (f : ℕ) → q.opens f ≡ p.opens f
  pub gfp_mask : (f : ℕ) → q.gfp_mask f ≡ p.gfp_mask f
  pub vnodes : q.vnodes ≡ p.vnodes

-- How vn_open ends for the file or error that filp_open gives: with a vnode of the file, whose
-- closing leaves the process as it was; or without one and with the process as it was.
pub data Opened (k : Kernel) (fp : FileOrError) (p : Process)
    : ℕ × Option Vnode × Process → Type 0 where
  vnode :
      (f mode : ℕ) (vp : Vnode) (q : Process)
      → fp ≡ file f
      → vp.v_file ≡ f
      → k.vfs_getattr f ≡ file mode
      → vp.v_type ≡ vn_mode_to_vtype mode
      → q.umask ≡ p.umask
      → Same p (vn_close k vp q).1
      → Opened k fp p (0, some vp, q)
  null : (rc : ℕ) (q : Process) → Same p q → Opened k fp p (rc, none, q)

closed-opened : (f : ℕ) (p : Process) → Same p (closed f (opened f p))
unfolding put_at
closed-opened f p = record {
  umask = refl;
  opens = λ g. ground arith;
  gfp_mask = λ g. refl;
  vnodes = refl;
}

module _ (k : Kernel) (p : Process) where
  open_vnode-Opened :
      (f mode : ℕ)
      → k.vfs_getattr f ≡ file mode
      → Opened k (file f) p (open_vnode k f mode (opened f p))
  unfolding open_vnode vn_close put_at
  open_vnode-Opened f mode e =
      if_elim (Opened k (file f) p) k.vn_alloc _ _
        (λ h. vnode f mode _ _ refl refl e refl refl (record {
          umask = refl;
          opens = λ g. ground arith;
          gfp_mask = λ g. ground arith;
          vnodes = omega arith;
        }))
        (λ h. null _ _ (closed-opened f p))

  open_stat-Opened :
      (f : ℕ) (stat : FileOrError)
      → k.vfs_getattr f ≡ stat
      → Opened k (file f) p (open_stat k f stat (opened f p))
  unfolding open_stat
  open_stat-Opened f (file mode) e = open_vnode-Opened f mode e
  open_stat-Opened f (error rc) e = null rc _ (closed-opened f p)

  open_filp-Opened : (fp : FileOrError) → Opened k fp p (open_filp k fp p)
  unfolding open_filp
  open_filp-Opened (file f) = open_stat-Opened f (k.vfs_getattr f) refl
  open_filp-Opened (error rc) =
      null rc p (record { umask = refl; opens = λ g. refl; gfp_mask = λ g. refl; vnodes = refl })

-- What the flags for filp_open are of those of the caller: the two low bits are one less, which makes
-- FREAD O_RDONLY, FWRITE O_WRONLY and both O_RDWR; FEXCL is set for a file that is to be written and
-- may not be made, and else as it was; and the other bits are as they were.
pub record Remapped (flags fl : ℕ) : Type 0 where
  pub low : fl % 4 + 1 ≡ flags % 4
  pub below_fexcl : fl % fexcl / 4 ≡ flags % fexcl / 4
  pub excl : has fl fexcl ≡ (has flags fexcl || (has flags fwrite && not (has flags fcreat)))
  pub above_fexcl : fl / 256 ≡ flags / 256

open_flags-Remapped :
    (flags : ℕ) → flags % 4 ≢ 0 → flags < 2 ^ 32 → Remapped flags (open_flags flags)
unfolding open_flags
open_flags-Remapped flags h l = record {
  low = ground arith;
  below_fexcl = ground arith;
  excl = ground arith;
  above_fexcl = ground arith;
}

open_flags_creat :
    (flags : ℕ) → flags % 4 ≢ 0 → flags < 2 ^ 32 → has (open_flags flags) fcreat ≡ has flags fcreat
unfolding open_flags
open_flags_creat flags h l = ground arith

-- The call of filp_open that vn_open makes.
abbrev pub filp_for : Kernel → List ℕ → (fl flags mode : ℕ) → Process → FileOrError
filp_for k path fl flags mode p = k.filp_open path fl mode (if has flags fcreat then 0 else p.umask)

vn_open-asked :
    (k : Kernel) (path : List ℕ) (flags mode : ℕ) (p : Process)
    → let fl = open_flags flags in
      Opened k
        (k.filp_open path fl mode (if has fl fcreat then 0 else p.umask))
        p
        (vn_open k path flags mode p)
unfolding vn_open
vn_open-asked k path flags mode p = elim (Bool-cases (has (open_flags flags) fcreat)) [
  | inl h ↦ rw h (open_filp-Opened k p (k.filp_open path (open_flags flags) mode 0))
  | inr h ↦ rw h (open_filp-Opened k p (k.filp_open path (open_flags flags) mode p.umask))
]

-- vn_open, for every path, mode and 32-bit pattern of flags with FREAD or FWRITE set, as the code
-- asserts. It asks filp_open with remapped flags: the two low bits are one less, FEXCL is set for a
-- file that is to be written and may not be made, and all other bits are those of the caller; and
-- with the umask 0 if the file may be made. It ends with the code 0 and a vnode of the file that
-- filp_open gave, typed by the mode that vfs_getattr told, and vn_close of it then leaves the umask,
-- the opens of every file, the allocation mask of every mapping and the number of vnodes as they
-- were before vn_open; or it ends without a vnode and has left them all as they were.
pub vn_open-Opened :
    (k : Kernel) (path : List ℕ) (flags mode : ℕ) (p : Process)
    → flags % 4 ≢ 0
    → flags < 2 ^ 32
    → (fl : ℕ) × Remapped flags fl
      × Opened k (filp_for k path fl flags mode p) p (vn_open k path flags mode p)
vn_open-Opened k path flags mode p h l = (
  open_flags flags,
  open_flags-Remapped flags h l,
  subst
      (λ (creat : Bool).
        Opened k (k.filp_open path (open_flags flags) mode (if creat then 0 else p.umask)) p
          (vn_open k path flags mode p))
      (open_flags_creat flags h l) (vn_open-asked k path flags mode p),
)
