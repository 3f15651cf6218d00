-- ===== src/Files/Pwd.antt =====
-- vn_set_pwd: the working directory of the process. A path is a number, and the kernel counts the
-- references to each.
use spl.Prelude.{
  ℕ, ◌+◌, ◌-◌, ◌≡◌, refl, Bool, true, Option, none, some, arith, sym, subst, ◌==◌, ==_iff,
  Bool-cases, inl, inr, if◌then◌else◌,
}

-- Whether the limit of the data segment is raised, the working directory with a dentry or none, and the
-- references to each path.
pub record Fs : Type 0 where
  pub raised : Bool
  pub pwd : Option ℕ
  pub refs : ℕ → ℕ

abbrev pub path_get : ℕ → Fs → Fs
path_get p s = record s { refs = λ q. if q == p then s.refs q + 1 else s.refs q }

abbrev pub path_put : ℕ → Fs → Fs
path_put p s = record s { refs = λ q. if q == p then s.refs q - 1 else s.refs q }

abbrev pub put_old : Option ℕ → Fs → Fs
put_old none s = s
put_old (some p) s = path_put p s

unfoldable pub vn_set_fs_pwd : (path : ℕ) → Fs → Fs
vn_set_fs_pwd path s = put_old s.pwd (path_get path (record s { pwd = some path }))

-- user_path_dir finds a path, to which it takes a reference, or fails with a code.
pub data Found : Type 0 where
  found : (path : ℕ) → Found
  error : (rc : ℕ) → Found

-- With the path found: inode_permission answers a code for it.
unfoldable pub set_found : (inode_permission : ℕ → ℕ) → Found → Fs → ℕ × Fs
unfolding vn_set_fs_pwd
set_found inode_permission (error rc) s = (rc, s)
set_found inode_permission (found path) s =
    let rc = inode_permission path in
    let t = path_get path s in (rc, path_put path (if rc == 0 then vn_set_fs_pwd path t else t))

-- The code without its sign.
unfoldable pub vn_set_pwd :
    (user_path_dir : (raised : Bool) → Found) (inode_permission : ℕ → ℕ) → Fs → ℕ × Fs
unfolding set_found
vn_set_pwd user_path_dir inode_permission s =
    let saved = s.raised in
    let (rc, t) = set_found inode_permission (user_path_dir true) (record s { raised = true }) in
    (rc, record t { raised = saved })

-- How vn_set_pwd ends. With the code 0 the process is in the directory that was found, which has one
-- reference more, and the old one has one less. With another code nothing has changed.
pub data Moved (s : Fs) : ℕ × Fs → Type 0 where
  moved :
      (path : ℕ) (t : Fs)
      → t.raised ≡ s.raised
      → t.pwd ≡ some path
      → ((p : ℕ) → t.refs p ≡ (put_old s.pwd (path_get path s)).refs p)
      → Moved s (0, t)
  stayed :
      (rc : ℕ) (t : Fs)
      → t.raised ≡ s.raised
      → t.pwd ≡ s.pwd
      → ((p : ℕ) → t.refs p ≡ s.refs p)
      → Moved s (rc, t)

put_same :
    (path : ℕ) (old : Option ℕ) (s t : Fs)
    → ((p : ℕ) → t.refs p ≡ (if p == path then s.refs p + 1 else s.refs p))
    → (p : ℕ)
    → (path_put path (put_old old (path_get path t))).refs p
      ≡ (put_old old (path_get path s)).refs p
put_same path none s t h p = ground (arith, h p)
put_same path (some old) s t h p = ground (arith, h p)

put_pwd : (old : Option ℕ) (s : Fs) → (put_old old s).pwd ≡ s.pwd
put_pwd none s = refl
put_pwd (some old) s = refl

set_found-Moved :
    (permission : ℕ → ℕ) (o : Found) (s : Fs)
    → Moved s (
      (set_found permission o (record s { raised = true })).0,
      record (set_found permission o (record s { raised = true })).1 { raised = s.raised },
    )
unfolding set_found vn_set_fs_pwd
set_found-Moved permission (error rc) s = stayed rc _ refl refl (λ p. refl)
set_found-Moved permission (found path) s = elim (Bool-cases (permission path == 0)) [
  | inl h ↦
      let e : permission path ≡ 0 = (==_iff _ _).0 h in
      let t : Fs = record s { raised = true } in
      rw (set_found, h)
        (subst
          (λ (n : ℕ). Moved s (
            n,
            record (path_put path (vn_set_fs_pwd path (path_get path t))) { raised = s.raised },
          ))
          (sym e)
          (moved path _ refl (put_pwd s.pwd _)
            (put_same path s.pwd s (record (path_get path t) { pwd = some path }) (λ p. refl))))
  | inr h ↦ rw (set_found, h) (stayed (permission path) _ refl refl (λ p. ground arith))
]

-- vn_set_pwd ends with the code 0 in the directory that was found, which has one reference more while
-- the old one has one less, or with the working directory and all references as they were; the limit
-- of the data segment is restored in any case.
pub vn_set_pwd-Moved :
    (user_path_dir : (raised : Bool) → Found) (inode_permission : ℕ → ℕ) (s : Fs)
    → Moved s (vn_set_pwd user_path_dir inode_permission s)
unfolding vn_set_pwd
vn_set_pwd-Moved user_path_dir permission s = set_found-Moved permission (user_path_dir true) s
