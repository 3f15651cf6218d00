-- ===== src/Files/System.antt =====
-- All tasks that get and release descriptors, in any order.
use spl.Prelude.{
  ℕ, ◌+◌, ◌<◌, ◌≡◌, refl, sym, ap, ◌∙◌, false, Option, none, some, List, [], ◌∷◌, ◌++◌, arith,
  subst, All,
}
use mathlib.Core.Option.{some-injective}
use spl.Files.{
  File, Files, Calls, no_files, file_find, is_negative, get_again, get_new, vn_areleasef,
}
use spl.Files.Listed.{total, one, use_of, refs_of, Good}
use spl.Files.Invariant.{Inv, refs, same, self_is_file, Got, get_again-Got}
use spl.Files.Invariant.Answers.{Answer, Refused, get_new-Answer}
use spl.Files.Invariant.Released.{vn_areleasef-Released}

-- How often a task has a descriptor.
abbrev pub times : (fd task : ℕ) → List (ℕ × ℕ) → ℕ
times fd task [] = 0
times fd task ((fd', task') ∷ out) = same fd' task' fd task + times fd task out

-- The tables that calls come to, with the descriptors and tasks that vn_getf has answered with an
-- entry and that have not been released. A call of vn_getf is one of its parts under the lock: that
-- for a descriptor on the list, and that for another one, which others precede. A descriptor that is
-- on the list is open.
pub data Reach : Files → List (ℕ × ℕ) → Type 0 where
  start : Reach no_files []
  again :
      (fd task f : ℕ) (fp x : File) {s t : Files} {out : List (ℕ × ℕ)}
      → Reach s out
      → file_find fd task s.vn_file_list ≡ some fp
      → get_again (some f) fp s ≡ some (some x, t)
      → Reach t ((fd, task) ∷ out)
  opened :
      (k : Calls) (fd task : ℕ) (x : File) {s t : Files} {out : List (ℕ × ℕ)}
      → Reach s out
      → file_find fd task s.vn_file_list ≡ none
      → get_new k task fd s ≡ some (some x, t)
      → Reach t ((fd, task) ∷ out)
  failed :
      (k : Calls) (fd task : ℕ) {s t : Files} {out : List (ℕ × ℕ)}
      → Reach s out
      → file_find fd task s.vn_file_list ≡ none
      → get_new k task fd s ≡ some (none, t)
      → Reach t out
  released :
      (fd task : ℕ) (before after : List (ℕ × ℕ)) {s t : Files}
      → Reach s (before ++ ((fd, task) ∷ after))
      → is_negative fd ≡ false
      → vn_areleasef fd task s ≡ some t
      → Reach t (before ++ after)

times_middle :
    (fd task fd' task' : ℕ) (before after : List (ℕ × ℕ))
    → times fd task (before ++ ((fd', task') ∷ after))
      ≡ same fd' task' fd task + times fd task (before ++ after)
times_middle fd task fd' task' [] after = refl
times_middle fd task fd' task' ((a, b) ∷ before) after =
    omega (arith, times_middle fd task fd' task' before after)

-- The invariant, and the users of every descriptor.
pub record Right (s : Files) (out : List (ℕ × ℕ)) : Type 0 where
  pub inv : Inv s
  pub users : (fd task : ℕ) → refs fd task s ≡ times fd task out

Got-Right :
    (fd task f : ℕ) (x : File) (s t : Files) (out : List (ℕ × ℕ)) (r : Option (Option File × Files))
    → Got fd task f s r
    → r ≡ some (some x, t)
    → Right s out
    → Right t ((fd, task) ∷ out)
Got-Right fd task f x s t out r g e h =
    let same_t : g.after ≡ t =
      ap (λ (p : Option File × Files). p.1) (some-injective _ _ (sym g.returns ∙ e)) in
    subst (λ (u : Files). Right u ((fd, task) ∷ out)) same_t
      (record {
        inv = g.inv;
        users = λ fd' task'. omega (arith, g.users fd' task', h.users fd' task');
      })

Refused-Right :
    (s t : Files) (out : List (ℕ × ℕ)) (r : Option (Option File × Files))
    → Refused s r
    → r ≡ some (none, t)
    → Right s out
    → Right t out
Refused-Right s t out r g e h =
    let same_t : g.after ≡ t =
      ap (λ (p : Option File × Files). p.1) (some-injective _ _ (sym g.returns ∙ e)) in
    subst (λ (u : Files). Right u out) same_t
      (record {
        inv = g.inv;
        users = λ fd task. ap (total (refs_of fd task)) g.unchanged ∙ h.users fd task;
      })

Answer-some :
    (k : Calls) (fd task : ℕ) (x : File) (s t : Files) (out : List (ℕ × ℕ))
    (r : Option (Option File × Files))
    → Answer k fd task s r
    → r ≡ some (some x, t)
    → Right s out
    → Right t ((fd, task) ∷ out)
Answer-some k fd task x s t out r (Answer.got f l g) e h = Got-Right fd task f x s t out r g e h
Answer-some k fd task x s t out r (Answer.refused why g) e h =
    let same_r : none ≡ some x =
      ap (λ (p : Option File × Files). p.0) (some-injective _ _ (sym g.returns ∙ e)) in
    cc

Answer-none :
    (k : Calls) (fd task : ℕ) (s t : Files) (out : List (ℕ × ℕ)) (r : Option (Option File × Files))
    → Answer k fd task s r
    → r ≡ some (none, t)
    → Right s out
    → Right t out
Answer-none k fd task s t out r (Answer.got f l g) e h =
    let same_r : some g.fp ≡ none =
      ap (λ (p : Option File × Files). p.0) (some-injective _ _ (sym g.returns ∙ e)) in
    cc
Answer-none k fd task s t out r (Answer.refused why g) e h = Refused-Right s t out r g e h

no_files-Right : Right no_files []
unfolding no_files
no_files-Right = record {
  inv = record {
    once = λ fd task. omega arith;
    good = tt;
    held = λ f. refl;
    vnodes = refl;
    file_objs = refl;
  };
  users = λ fd task. refl;
}

-- In every table that is reached the invariant holds, and an entry has as many users as vn_getf has
-- answered with it without a release since.
pub Reach-Right : {s : Files} {out : List (ℕ × ℕ)} → Reach s out → Right s out
Reach-Right start = no_files-Right
Reach-Right (again fd task f fp x {s} {t} {out} h e r) =
    let k = Reach-Right h in
    Got-Right fd task f x s t out _ (get_again-Got fd task f fp s k.inv e) r k
Reach-Right (opened k fd task x {s} {t} {out} h e r) =
    let i = Reach-Right h in
    Answer-some k fd task x s t out _ (get_new-Answer k task fd s i.inv e) r i
Reach-Right (failed k fd task {s} {t} {out} h e r) =
    let i = Reach-Right h in
    Answer-none k fd task s t out _ (get_new-Answer k task fd s i.inv e) r i
Reach-Right (released fd task before after {s} {t} h n r) =
    let i = Reach-Right h in
    let middle = λ (a b : ℕ). times_middle a b fd task before after in
    let there : 0 < refs fd task s = ground (arith, i.users fd task, middle fd task) in
    let g = vn_areleasef-Released fd task s i.inv n there in
    subst (λ (u : Files). Right u (before ++ after)) (some-injective _ _ (sym g.returns ∙ r))
      (record { inv = g.inv; users = λ a b. omega (arith, g.users a b, i.users a b, middle a b) })

no_users :
    (fps : List File) → All Good fps → ((fd task : ℕ) → total (refs_of fd task) fps ≡ 0) → fps ≡ []
no_users [] g h = refl
no_users (fp ∷ fps) (g, gs) h =
    let e = self_is_file fp in let pos = g.users in absurd (ground (arith, h fp.f_fd fp.f_task))

-- Take the empty table and any sequence of calls of vn_getf and areleasef by any tasks, where
-- vn_getf is the part for a descriptor on the list or the part for another one, a descriptor that is
-- on the list is open, and only what vn_getf has answered with an entry is released. When each has
-- been released as often as vn_getf has answered with it, the list is empty and the module holds no
-- reference to a file, no vnode and no entry, whatever was the order of the calls, which of them
-- failed and which descriptors led to another file meanwhile.
pub Reach-released :
    {s : Files}
    → Reach s []
    → (s.vn_file_list ≡ []) × ((f : ℕ) → s.held f ≡ 0) × (s.vnodes ≡ 0) × (s.file_objs ≡ 0)
Reach-released {s} h =
    let r = Reach-Right h in
    let e : s.vn_file_list ≡ [] = no_users s.vn_file_list r.inv.good r.users in
    (
      e,
      λ f. r.inv.held f ∙ ap (total (use_of f)) e,
      r.inv.vnodes ∙ ap (total one) e,
      r.inv.file_objs ∙ ap (total one) e,
    )
