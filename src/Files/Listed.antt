-- ===== src/Files/Listed.antt =====
-- Sums over the list of files, and the entry that file_find finds.
pub use spl.Prelude.{total}
use spl.Prelude.{
  All, ℕ, ◌+◌, ◌<◌, ◌≡◌, refl, sym, ap, ◌∙◌, true, none, some, List, [], ◌∷◌, ◌==◌, arith,
  Bool-cases, if◌then◌else◌, inl, inr, subst,
}
use mathlib.Core.Option.{some-injective}
use spl.Files.{File, is_file, file_find, write_file, del_file}

abbrev pub one : File → ℕ
one fp = 1

-- For an entry of the descriptor and task, and for one with the kernel's file.
abbrev pub entry : (fd task : ℕ) → File → ℕ
entry fd task fp = if is_file fd task fp then 1 else 0

abbrev pub use_of : ℕ → File → ℕ
use_of f fp = elim fp.f_file [ none ↦ 0 | some g ↦ if g == f then 1 else 0 ]

abbrev pub refs_of : (fd task : ℕ) → File → ℕ
refs_of fd task fp = if is_file fd task fp then fp.f_ref else 0

-- An entry has users and a file, which is that of its vnode.
pub record Good (fp : File) : Type 0 where
  pub file : ℕ
  pub users : 0 < fp.f_ref
  pub open_file : fp.f_file ≡ some file
  pub vnode : fp.v_file ≡ fp.f_file

pub is_file_eq :
    (fd task : ℕ) (fp : File) → is_file fd task fp ≡ true → (fp.f_fd ≡ fd) × (fp.f_task ≡ task)
is_file_eq fd task fp e = ground arith

pub find_eq :
    (fd task : ℕ) (fp : File) (fps : List File)
    → file_find fd task fps ≡ some fp
    → is_file fd task fp ≡ true
unfolding file_find
find_eq fd task fp [] e = ground (arith, e)
find_eq fd task fp (x ∷ xs) e = elim (Bool-cases (is_file fd task x)) [
  | inl h ↦
      subst (λ (y : File). is_file fd task y ≡ true) (some-injective x fp (sym (rw h refl) ∙ e)) h
  | inr h ↦ find_eq fd task fp xs (sym (rw h refl) ∙ e)
]

pub find_none :
    (fd task : ℕ) (fps : List File) → file_find fd task fps ≡ none → total (entry fd task) fps ≡ 0
unfolding file_find
find_none fd task [] e = refl
find_none fd task (x ∷ xs) e = ground (arith, e, find_none fd task xs)

pub find_no_refs :
    (fd task : ℕ) (fps : List File) → file_find fd task fps ≡ none → total (refs_of fd task) fps ≡ 0
unfolding file_find
find_no_refs fd task [] e = refl
find_no_refs fd task (x ∷ xs) e = ground (arith, e, find_no_refs fd task xs)

pub find_Good :
    (fd task : ℕ) (fp : File) (fps : List File)
    → file_find fd task fps ≡ some fp
    → All Good fps
    → Good fp
unfolding file_find
find_Good fd task fp [] e g = ground (arith, e)
find_Good fd task fp (x ∷ xs) e (g, gs) = elim (Bool-cases (is_file fd task x)) [
  | inl h ↦ subst Good (some-injective x fp (sym (rw h refl) ∙ e)) g
  | inr h ↦ find_Good fd task fp xs (sym (rw h refl) ∙ e) gs
]

pub del_total :
    (g : File → ℕ) (fd task : ℕ) (fp : File) (fps : List File)
    → file_find fd task fps ≡ some fp
    → total g (del_file fd task fps) + g fp ≡ total g fps
unfolding file_find del_file
del_total g fd task fp [] e = ground (arith, e)
del_total g fd task fp (x ∷ xs) e = elim (Bool-cases (is_file fd task x)) [
  | inl h ↦
      let same : x ≡ fp = some-injective x fp (sym (rw h refl) ∙ e) in
      rw h (omega (arith, ap g same))
  | inr h ↦ rw h (omega (arith, del_total g fd task fp xs (sym (rw h refl) ∙ e)))
]

pub del_Good : (fd task : ℕ) (fps : List File) → All Good fps → All Good (del_file fd task fps)
unfolding del_file
del_Good fd task [] g = tt
del_Good fd task (x ∷ xs) (g, gs) = elim (Bool-cases (is_file fd task x)) [
  | inl h ↦ rw h gs
  | inr h ↦ rw h (g, del_Good fd task xs gs)
]

-- `w` is written over the entry with its descriptor and task.
pub write_total :
    (g : File → ℕ) (fp w : File) (fps : List File)
    → file_find w.f_fd w.f_task fps ≡ some fp
    → total g (write_file w fps) + g fp ≡ total g fps + g w
unfolding file_find write_file
write_total g fp w [] e = ground (arith, e)
write_total g fp w (x ∷ xs) e = elim (Bool-cases (is_file w.f_fd w.f_task x)) [
  | inl h ↦
      let same : x ≡ fp = some-injective x fp (sym (rw h refl) ∙ e) in
      rw h (omega (arith, ap g same))
  | inr h ↦ rw h (omega (arith, write_total g fp w xs (sym (rw h refl) ∙ e)))
]

pub write_Good : (w : File) (fps : List File) → Good w → All Good fps → All Good (write_file w fps)
unfolding write_file
write_Good w [] k g = tt
write_Good w (x ∷ xs) k (g, gs) = elim (Bool-cases (is_file w.f_fd w.f_task x)) [
  | inl h ↦ rw h (k, gs)
  | inr h ↦ rw h (g, write_Good w xs k gs)
]
