-- ===== src/Files/Invariant.antt =====
-- What vn_getf and vn_areleasef keep: one entry for a descriptor of a task, and one reference to the
-- kernel's file for each entry, none of them lost on an error.
pub mod Answers
pub mod Released
use spl.Prelude.{
  All, ℕ, ◌+◌, ◌-◌, ◌^◌, ◌≤◌, ◌<◌, ◌≡◌, ◌≢◌, refl, sym, ap, ap₂, ◌∙◌, Bool, true, false, Option,
  none, some, List, [], ◌∷◌, ltb, leb, ◌==◌, arith, Bool-cases, Option-cases, if◌then◌else◌, inl,
  inr, ==_iff, subst,
}
use spl.Files.Types.{VType}
use spl.Files.{
  File, Files, Calls, is_file, is_negative, file_find, write_file, del_file, change, fget, fput,
  refreshed, put_back, get_again, get_new, get_file, get_vnode, out_fget, vn_getf, releasef_locked,
  release_found, vn_areleasef, same_file, file_alloc, file_free, vn_alloc, vn_free,
}
use spl.Files.Listed.{
  total, one, entry, use_of, refs_of, Good, is_file_eq, find_eq, find_none, find_Good, del_total,
  del_Good, write_total, write_Good,
}

pub record Inv (s : Files) : Type 0 where
  pub once : (fd task : ℕ) → total (entry fd task) s.vn_file_list ≤ 1
  pub good : All Good s.vn_file_list
  pub held : (f : ℕ) → s.held f ≡ total (use_of f) s.vn_file_list
  pub vnodes : s.vnodes ≡ total one s.vn_file_list
  pub file_objs : s.file_objs ≡ total one s.vn_file_list

-- The users that a descriptor of a task has.
abbrev pub refs : (fd task : ℕ) → Files → ℕ
refs fd task s = total (refs_of fd task) s.vn_file_list

abbrev pub bit : Bool → ℕ
bit b = if b then 1 else 0

abbrev pub same : (fd task fd' task' : ℕ) → ℕ
same fd task fd' task' = bit (if fd == fd' then task == task' else false)

-- A descriptor of a task has got one more user, and none else.
pub record Got (fd task f : ℕ) (s : Files) (r : Option (Option File × Files)) : Type 0 where
  pub fp : File
  pub after : Files
  pub returns : r ≡ some (some fp, after)
  pub inv : Inv after
  pub listed : file_find fd task after.vn_file_list ≡ some fp
  pub file : fp.f_file ≡ some f
  pub vnode : fp.v_file ≡ some f
  pub users : (fd' task' : ℕ) → refs fd' task' after ≡ refs fd' task' s + same fd task fd' task'

pub fput_lem :
    (g : ℕ) (s : Files)
    → 0 < s.held g
    → (h : ℕ → ℕ) × (fput (some g) s ≡ some (record s { held = h }))
      × ((k : ℕ) → h k + bit (g == k) ≡ s.held k)
unfolding fput change
fput_lem g s p = (change g (s.held g - 1) s.held, ground arith, λ k. ground arith)

pub fget_lem : (f k : ℕ) (s : Files) → (fget (some f) s).held k ≡ s.held k + bit (f == k)
unfolding fget change
fget_lem f k s = ground arith

-- The module's own record update on both sides.
fget_rest : (f : ℕ) (s : Files) → fget (some f) s ≡ record s { held = (fget (some f) s).held }
unfolding fget
fget_rest f s = refl

abbrev put_again : File → (ℕ → ℕ) → Files → Option (Option File × Files)
put_again x h s = put_back x (some (record s { held = h }))

same_file_eq : (f : ℕ) (o : Option ℕ) → same_file (some f) o ≡ true → o ≡ some f
same_file_eq f none e = cc
same_file_eq f (some g) e = ground arith

-- What `refreshed` leaves of the entry.
record Refreshed (f : ℕ) (fp x : File) : Type 0 where
  file : x.f_file ≡ some f
  vnode : x.v_file ≡ some f
  ref : x.f_ref ≡ fp.f_ref + 1
  fd : x.f_fd ≡ fp.f_fd
  task : x.f_task ≡ fp.f_task

refreshed_lem : (f : ℕ) (fp : File) → fp.v_file ≡ fp.f_file → Refreshed f fp (refreshed (some f) fp)
unfolding refreshed
refreshed_lem f fp v = elim (Bool-cases (same_file (some f) fp.f_file)) [
  | inl h ↦
      let e : fp.f_file ≡ some f = same_file_eq f fp.f_file h in
      rw h (record { file = e; vnode = v ∙ e; ref = refl; fd = refl; task = refl })
  | inr h ↦ rw h (record { file = refl; vnode = refl; ref = refl; fd = refl; task = refl })
]

pub use_of_lem : (f k : ℕ) (fp : File) → fp.f_file ≡ some f → use_of k fp ≡ bit (f == k)
use_of_lem f k fp e = rw e refl

find_written :
    (w : File) (fps : List File)
    → total (entry w.f_fd w.f_task) fps ≢ 0
    → file_find w.f_fd w.f_task (write_file w fps) ≡ some w
unfolding file_find write_file
find_written w [] m = absurd (m refl)
find_written w (x ∷ xs) m = ground (arith, find_written w xs)

pub self_is_file : (fp : File) → is_file fp.f_fd fp.f_task fp ≡ true
self_is_file fp = ground arith

-- An entry `fp` is replaced by `w`, which has the same descriptor and task.
module _ (fp w : File) (s : Files)
    (found : file_find w.f_fd w.f_task s.vn_file_list ≡ some fp) where
  is_same : (fd task : ℕ) → is_file fd task fp ≡ is_file fd task w
  is_same fd task =
      let e = find_eq w.f_fd w.f_task fp s.vn_file_list found in
      ground (arith, is_file_eq w.f_fd w.f_task fp e)

  pub written-Inv :
      (h : ℕ → ℕ)
      → Inv s
      → Good w
      → ((k : ℕ) → h k + use_of k fp ≡ s.held k + use_of k w)
      → Inv (record s { held = h; vn_file_list = write_file w s.vn_file_list })
  written-Inv h i g law = record {
    once = λ fd task. omega (
      arith,
      write_total (entry fd task) fp w s.vn_file_list found,
      ap bit (is_same fd task),
      i.once fd task,
    );
    good = write_Good w s.vn_file_list g i.good;
    held = λ k. omega (arith, write_total (use_of k) fp w s.vn_file_list found, law k, i.held k);
    vnodes = omega (arith, write_total one fp w s.vn_file_list found, i.vnodes);
    file_objs = omega (arith, write_total one fp w s.vn_file_list found, i.file_objs);
  }

  pub listed_written : file_find w.f_fd w.f_task (write_file w s.vn_file_list) ≡ some w
  listed_written = find_written w s.vn_file_list λ e. absurd (
      omega (
        arith,
        e,
        del_total (entry w.f_fd w.f_task) w.f_fd w.f_task fp s.vn_file_list found,
        ap bit (find_eq w.f_fd w.f_task fp s.vn_file_list found),
      ))

  users_written :
      (fd task : ℕ)
      → total (refs_of fd task) (write_file w s.vn_file_list)
          + (if is_file fd task w then fp.f_ref else 0)
        ≡ refs fd task s + refs_of fd task w
  users_written fd task =
      let t = write_total (refs_of fd task) fp w s.vn_file_list found in
      subst
        (λ (b : Bool).
          total (refs_of fd task) (write_file w s.vn_file_list) + (if b then fp.f_ref else 0)
          ≡ refs fd task s + refs_of fd task w)
        (is_same fd task) t

  pub users_down :
      w.f_ref + 1 ≡ fp.f_ref
      → (fd task : ℕ)
      → total (refs_of fd task) (write_file w s.vn_file_list) + same w.f_fd w.f_task fd task
        ≡ refs fd task s
  users_down r fd task = ground (arith, users_written fd task, r)

  users_up :
      w.f_ref ≡ fp.f_ref + 1
      → (fd task : ℕ)
      → total (refs_of fd task) (write_file w s.vn_file_list)
        ≡ refs fd task s + same w.f_fd w.f_task fd task
  users_up r fd task = ground (arith, users_written fd task, r)

pub used :
    (g fd task : ℕ) (fp : File) (fps : List File)
    → file_find fd task fps ≡ some fp
    → fp.f_file ≡ some g
    → 0 < total (use_of g) fps
used g fd task fp fps e o =
    let u = del_total (use_of g) fd task fp fps e in
    let v : use_of g fp ≡ 1 = use_of_lem g g fp o ∙ ground arith in omega arith

pub get_again-Got :
    (fd task f : ℕ) (fp : File) (s : Files)
    → Inv s
    → file_find fd task s.vn_file_list ≡ some fp
    → Got fd task f s (get_again (some f) fp s)
unfolding get_again
get_again-Got fd task f fp s i e =
    let gd = find_Good fd task fp s.vn_file_list e i.good in
    let g = gd.file in
    let x = refreshed (some f) fp in
    let r = refreshed_lem f fp gd.vnode in
    let here = is_file_eq fd task fp (find_eq fd task fp s.vn_file_list e) in
    let efd : x.f_fd ≡ fd = r.fd ∙ here.0 in
    let etask : x.f_task ≡ task = r.task ∙ here.1 in
    let at : file_find x.f_fd x.f_task s.vn_file_list ≡ some fp =
      ap₂ (λ (a b : ℕ). file_find a b s.vn_file_list) efd etask ∙ e in
    let u = used g fd task fp s.vn_file_list e gd.open_file in
    let (h, put, law) = fput_lem g (fget (some f) s) (omega (arith, fget_lem f g s, i.held g, u)) in
    let good : Good x = record {
      file = f;
      users = omega (arith, r.ref);
      open_file = r.file;
      vnode = r.vnode ∙ sym r.file;
    } in
    record {
      fp = x;
      after = record s { held = h; vn_file_list = write_file x s.vn_file_list };
      returns =
          ap (put_back x) (ap (λ (o : Option ℕ). fput o (fget (some f) s)) gd.open_file ∙ put)
          ∙ ap (put_again x h) (fget_rest f s);
      inv = written-Inv fp x s at h i good (λ k.
          omega (
            arith,
            law k,
            fget_lem f k s,
            use_of_lem g k fp gd.open_file,
            use_of_lem f k x r.file,
          ));
      listed =
          subst (λ (a : ℕ). file_find a task (write_file x s.vn_file_list) ≡ some x) efd
            (subst (λ (b : ℕ). file_find x.f_fd b (write_file x s.vn_file_list) ≡ some x) etask
              (listed_written fp x s at));
      file = r.file;
      vnode = r.vnode;
      users = λ fd' task'.
          users_up fp x s at r.ref fd' task'
          ∙ ap₂ (λ (a b : ℕ). refs fd' task' s + same a b fd' task') efd etask;
    }
