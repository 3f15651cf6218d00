-- ===== src/Files/Invariant/Answers.antt =====
-- vn_getf and vn_areleasef as whole calls, on every exit.
use spl.Prelude.{
  ℕ, ◌+◌, ◌≡◌, ◌≢◌, ◌⊎◌, refl, sym, ap, ◌∙◌, Bool, true, false, Option, none, some, ◌==◌, arith,
  Bool-cases, Option-cases, if◌then◌else◌, inl, inr, subst,
}
use spl.Files.Types.{vn_mode_to_vtype}
use spl.Files.{
  File, Files, Calls, is_negative, file_find, fget, get_again, get_new, get_file, get_vnode,
  free_file, out_fget, vn_getf, file_alloc, file_free, vn_alloc, vn_free,
}
use spl.Files.Listed.{total, one, use_of, find_none}
use spl.Files.Invariant.{Inv, bit, Got, fput_lem, fget_lem, get_again-Got}

-- Nothing is on the list that was not, and nothing is held for the call.
pub record Refused (s : Files) (r : Option (Option File × Files)) : Type 0 where
  pub after : Files
  pub returns : r ≡ some (none, after)
  pub inv : Inv after
  pub unchanged : after.vn_file_list ≡ s.vn_file_list

-- Why vn_getf may fail.
pub data Failed (k : Calls) (fd : ℕ) : Type 0 where
  negative : is_negative fd ≡ true → Failed k fd
  no_object : k.alloc ≡ false → Failed k fd
  not_open : k.lfp ≡ none → Failed k fd
  no_vnode : k.vp_alloc ≡ false → Failed k fd
  no_attributes : k.mode ≡ none → Failed k fd

here : (f : ℕ) → bit (f == f) ≡ 1
here f = ground arith

-- The fields that count are those of a state that meets the invariant.
same-Inv :
    (s t : Files)
    → Inv s
    → t.vn_file_list ≡ s.vn_file_list
    → ((f : ℕ) → t.held f ≡ s.held f)
    → t.vnodes ≡ s.vnodes
    → t.file_objs ≡ s.file_objs
    → Inv t
same-Inv s t i l h v o = record {
  once = λ fd task. rw l (i.once fd task);
  good = rw l i.good;
  held = λ f. h f ∙ i.held f ∙ ap (total (use_of f)) (sym l);
  vnodes = v ∙ i.vnodes ∙ ap (total one) (sym l);
  file_objs = o ∙ i.file_objs ∙ ap (total one) (sym l);
}

-- The exit out_fget, when all else is as before the call.
out_fget-Refused :
    (f : ℕ) (s t : Files)
    → Inv s
    → t.vn_file_list ≡ s.vn_file_list
    → ((k : ℕ) → t.held k ≡ s.held k + bit (f == k))
    → t.vnodes ≡ s.vnodes
    → t.file_objs ≡ s.file_objs + 1
    → Refused s (out_fget f t)
unfolding out_fget
out_fget-Refused f s t i l held v o =
    let (h, put, law) = fput_lem f t (omega (arith, held f, here f)) in
    let u = record t { held = h } in
    record {
      after = file_free u;
      returns = ap free_file put;
      inv = same-Inv s (file_free u) i l (λ k. omega (arith, law k, held k)) v (omega arith);
      unchanged = l;
    }

-- What a call of vn_getf for a descriptor that is not negative may answer.
pub data Answer (k : Calls) (fd task : ℕ) (s : Files) (r : Option (Option File × Files))
    : Type 0 where
  got : (f : ℕ) → k.lfp ≡ some f → Got fd task f s r → Answer k fd task s r
  refused : Failed k fd → Refused s r → Answer k fd task s r

-- A new entry at the head of the list.
new_Got :
    (mode task fd f : ℕ) (s : Files)
    → Inv s
    → file_find fd task s.vn_file_list ≡ none
    → Got fd task f s (get_vnode (some mode) task fd f (vn_alloc (fget (some f) (file_alloc s))))
unfolding get_vnode fget file_find
new_Got mode task fd f s i n =
    let held = λ (k : ℕ). fget_lem f k (file_alloc s) in
    record {
      fp = record {
        f_fd = fd;
        f_task = task;
        f_ref = 1;
        f_file = some f;
        v_file = some f;
        v_type = vn_mode_to_vtype mode;
      };
      after = _;
      returns = refl;
      inv = record {
        once = λ fd' task'. ground (arith, i.once fd' task', find_none fd task s.vn_file_list n);
        good = (record { file = f; users = omega arith; open_file = refl; vnode = refl }, i.good);
        held = λ k. omega (arith, held k, i.held k);
        vnodes = omega (arith, i.vnodes);
        file_objs = omega (arith, i.file_objs);
      };
      listed = ground arith;
      file = refl;
      vnode = refl;
      users = λ fd' task'. ground arith;
    }

module _ (k : Calls) (task fd : ℕ) (s : Files) (i : Inv s)
    (n : file_find fd task s.vn_file_list ≡ none) where
  get_file-Answer :
      (lfp : Option ℕ) (vp_alloc : Bool) (mode : Option ℕ)
      → k.lfp ≡ lfp
      → k.vp_alloc ≡ vp_alloc
      → k.mode ≡ mode
      → Answer k fd task s (get_file lfp vp_alloc mode task fd (file_alloc s))
  unfolding get_file fget
  get_file-Answer none vp mode l v m = refused (not_open l) (record {
    after = file_free (file_alloc s);
    returns = refl;
    inv = same-Inv s _ i refl (λ f. refl) refl (omega arith);
    unchanged = refl;
  })
  get_file-Answer (some f) false mode l v m = refused (no_vnode v) (
      out_fget-Refused f s (fget (some f) (file_alloc s)) i refl (λ g. fget_lem f g (file_alloc s))
        refl refl)
  get_file-Answer (some f) true none l v m = refused (no_attributes m) (
      out_fget-Refused f s (vn_free (vn_alloc (fget (some f) (file_alloc s)))) i refl
        (λ g. fget_lem f g (file_alloc s)) (omega arith) refl)
  get_file-Answer (some f) true (some mode) l v m = got f l (new_Got mode task fd f s i n)

  abbrev ByMemory : Bool → Type 0
  ByMemory b =
      Answer k fd task s
        (if b then get_file k.lfp k.vp_alloc k.mode task fd (file_alloc s) else some (none, s))

  pub get_new-Answer : Answer k fd task s (get_new k task fd s)
  unfolding get_new
  get_new-Answer = elim (Bool-cases k.alloc) [
    | inl h ↦ subst ByMemory (sym h) (get_file-Answer k.lfp k.vp_alloc k.mode refl refl refl)
    | inr h ↦
        let r : Refused s (some (none, s)) = record {
          after = s;
          returns = refl;
          inv = i;
          unchanged = refl;
        } in
        subst ByMemory (sym h) (refused (no_object h) r)
  ]

-- A call of vn_getf by a task, in a table that meets the invariant. What other threads do while the
-- lock is dropped keeps the invariant and does not put this task's descriptor on the list; a
-- descriptor that is on the list is open. Either the call answers with an entry, which holds the
-- file that the descriptor has now and is what file_find finds; then the descriptor of the task has
-- one more user and every other as many as before, counted from the call, or from when the lock was
-- taken back if it was dropped. Or one of the five failures is the case, and the call answers NULL
-- with the list as it was and no reference, vnode or object left behind. In both cases the invariant
-- holds, and no put is a fault.
pub vn_getf-Answer :
    (k : Calls) (task fd : ℕ) (s : Files)
    → Inv s
    → Inv (k.unlocked s)
    → (file_find fd task s.vn_file_list ≡ none
        → file_find fd task (k.unlocked s).vn_file_list ≡ none)
    → (file_find fd task s.vn_file_list ≢ none → k.lfp ≢ none)
    → Answer k fd task s (vn_getf k task fd s)
      ⊎ Answer k fd task (k.unlocked s) (vn_getf k task fd s)
unfolding vn_getf
vn_getf-Answer k task fd s i j others open_file = elim (Bool-cases (is_negative fd)) [
  | inl h ↦
      rw h (
        inl
          (refused (negative h) (record { after = s; returns = refl; inv = i; unchanged = refl })))
  | inr h ↦ rw h (elim (Option-cases (file_find fd task s.vn_file_list)) [
    | inl n ↦ rw n (inr (get_new-Answer k task fd (k.unlocked s) j (others n)))
    | inr (fp, e) ↦ elim (Option-cases k.lfp) [
      | inl none_open ↦ absurd (open_file (λ n. cc) none_open)
      | inr (f, l) ↦
          let again = get_again-Got fd task f fp s i e in
          rw e (
            inl (
              got f l (subst (λ (o : Option ℕ). Got fd task f s (get_again o fp s)) (sym l) again)))
    ]
  ])
]
