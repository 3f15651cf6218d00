-- ===== src/Files/Invariant/Released.antt =====
-- vn_areleasef and spl_vn_fini.
use spl.Prelude.{
  ℕ, ◌+◌, ◌-◌, ◌<◌, ◌≡◌, refl, sym, ap, ap₂, ◌∙◌, false, Option, some, List, [], ◌∷◌, ltb, arith,
  Bool-cases, Option-cases, inl, inr, subst, tests,
}
use spl.Files.{
  File, Files, is_negative, file_find, write_file, del_file, fput, free_both, releasef_locked,
  release_found, vn_areleasef, count_leaked, release_next, release_all, spl_vn_fini, file_free,
  vn_free,
}
use spl.Files.Listed.{
  total, one, entry, use_of, refs_of, is_file_eq, find_eq, find_no_refs, find_Good, del_total,
  del_Good,
}
use spl.Files.Invariant.{
  Inv, refs, same, fput_lem, used, use_of_lem, written-Inv, users_down, self_is_file,
}

-- A descriptor of a task has one user less, and every other as many as before.
pub record Released (fd task : ℕ) (s : Files) (r : Option Files) : Type 0 where
  pub after : Files
  pub returns : r ≡ some after
  pub inv : Inv after
  pub users : (fd' task' : ℕ) → refs fd' task' after + same fd task fd' task' ≡ refs fd' task' s

-- An entry has gone, with all that was got for it.
record Unlisted (fp : File) (s : Files) (r : Option Files) : Type 0 where
  after : Files
  returns : r ≡ some after
  inv : Inv after
  list : after.vn_file_list ≡ del_file fp.f_fd fp.f_task s.vn_file_list

unlisted :
    (fp : File) (s : Files)
    → Inv s
    → file_find fp.f_fd fp.f_task s.vn_file_list ≡ some fp
    → Unlisted fp s
        (releasef_locked fp (record s { vn_file_list = del_file fp.f_fd fp.f_task s.vn_file_list }))
unfolding releasef_locked
unlisted fp s i e =
    let gd = find_Good fp.f_fd fp.f_task fp s.vn_file_list e i.good in
    let g = gd.file in
    let u = used g fp.f_fd fp.f_task fp s.vn_file_list e gd.open_file in
    let d = λ (w : File → ℕ). del_total w fp.f_fd fp.f_task fp s.vn_file_list e in
    let t = record s { vn_file_list = del_file fp.f_fd fp.f_task s.vn_file_list } in
    let (h, put, law) = fput_lem g t (omega (arith, i.held g, u)) in
    record {
      after = file_free (vn_free (record t { held = h }));
      returns = ap free_both (ap (λ (o : Option ℕ). fput o t) gd.open_file ∙ put);
      inv = record {
        once = λ fd task. omega (arith, d (entry fd task), i.once fd task);
        good = del_Good fp.f_fd fp.f_task s.vn_file_list i.good;
        held = λ k. omega (arith, d (use_of k), law k, i.held k, use_of_lem g k fp gd.open_file);
        vnodes = omega (arith, d one, i.vnodes);
        file_objs = omega (arith, d one, i.file_objs);
      };
      list = refl;
    }

last_user :
    (fp : File) (s : Files) (r : Option Files)
    → file_find fp.f_fd fp.f_task s.vn_file_list ≡ some fp
    → fp.f_ref ≡ 1
    → Unlisted fp s r
    → Released fp.f_fd fp.f_task s r
last_user fp s r e one_user u = record {
  after = u.after;
  returns = u.returns;
  inv = u.inv;
  users = λ fd task. ground (
    arith,
    ap (total (refs_of fd task)) u.list,
    del_total (refs_of fd task) fp.f_fd fp.f_task fp s.vn_file_list e,
    one_user,
  );
}

release_found-Released :
    (fp : File) (s : Files)
    → Inv s
    → file_find fp.f_fd fp.f_task s.vn_file_list ≡ some fp
    → Released fp.f_fd fp.f_task s (release_found fp s)
unfolding release_found
release_found-Released fp s i e =
    let gd = find_Good fp.f_fd fp.f_task fp s.vn_file_list e i.good in
    let users = gd.users in
    elim (Bool-cases (ltb 0 (fp.f_ref - 1))) [
      | inl h ↦
          let w = record fp { f_ref = fp.f_ref - 1 } in
          rw h (record {
            after = record s { vn_file_list = write_file w s.vn_file_list };
            returns = refl;
            inv =
                written-Inv fp w s e s.held i
                  (record {
                    file = gd.file;
                    users = omega tests;
                    open_file = gd.open_file;
                    vnode = gd.vnode;
                  })
                  (λ k. refl);
            users = users_down fp w s e (omega tests);
          })
      | inr h ↦ rw h (last_user fp s _ e (ground arith) (unlisted fp s i e))
    ]

-- vn_areleasef of a task's descriptor that has users, in a table that meets the invariant, takes one
-- user away. With the last one the entry goes and the reference to its file, its vnode and its object
-- with it. The invariant holds, and no put is a fault.
pub vn_areleasef-Released :
    (fd task : ℕ) (s : Files)
    → Inv s
    → is_negative fd ≡ false
    → 0 < refs fd task s
    → Released fd task s (vn_areleasef fd task s)
unfolding vn_areleasef
vn_areleasef-Released fd task s i n u =
    rw n (elim (Option-cases (file_find fd task s.vn_file_list)) [
      | inl e ↦ absurd (omega (arith, find_no_refs fd task s.vn_file_list e))
      | inr (fp, e) ↦
          let (efd, etask) = is_file_eq fd task fp (find_eq fd task fp s.vn_file_list e) in
          let at : file_find fp.f_fd fp.f_task s.vn_file_list ≡ some fp =
            ap₂ (λ (a b : ℕ). file_find a b s.vn_file_list) efd etask ∙ e in
          rw e (
            subst (λ (a : ℕ). Released a task s (release_found fp s)) efd
              (subst (λ (b : ℕ). Released fp.f_fd b s (release_found fp s)) etask
                (release_found-Released fp s i at)))
    ])

-- How spl_vn_fini ends: with the number of entries, and nothing left.
pub record Ended (s : Files) (r : Option (ℕ × Files)) : Type 0 where
  pub after : Files
  pub returns : r ≡ some (total one s.vn_file_list, after)
  pub empty : after.vn_file_list ≡ []
  pub inv : Inv after

-- The entry at the head of the list.
find_head : (fp : File) (fps : List File) → file_find fp.f_fd fp.f_task (fp ∷ fps) ≡ some fp
unfolding file_find
find_head fp fps = rw (self_is_file fp) refl

del_head : (fp : File) (fps : List File) → del_file fp.f_fd fp.f_task (fp ∷ fps) ≡ fps
unfolding del_file
del_head fp fps = rw (self_is_file fp) refl

release_all-Ended :
    (fps : List File) (s : Files) → Inv s → s.vn_file_list ≡ fps → Ended s (release_all fps s)
unfolding release_all
release_all-Ended [] s i l = record {
  after = s;
  returns = ap (λ (xs : List File). some (total one xs, s)) (sym l);
  empty = l;
  inv = i;
}
release_all-Ended (fp ∷ fps) s i l =
    let find = λ (xs : List File). file_find fp.f_fd fp.f_task xs in
    let del = λ (xs : List File). del_file fp.f_fd fp.f_task xs in
    let u = unlisted fp s i (ap find l ∙ find_head fp fps) in
    let rest : u.after.vn_file_list ≡ fps = u.list ∙ ap del l ∙ del_head fp fps in
    let r = release_all-Ended fps u.after u.inv rest in
    let count : total one u.after.vn_file_list + 1 ≡ total one s.vn_file_list =
      omega (arith, ap (total one) rest, ap (total one) l) in
    record {
      after = r.after;
      returns =
          ap (λ (o : Option Files). release_next o (release_all fps)) u.returns
          ∙ ap count_leaked r.returns
          ∙ ap (λ (n : ℕ). some (n, r.after)) count;
      empty = r.empty;
      inv = r.inv;
    }

-- In a table that meets the invariant spl_vn_fini counts the entries as leaked and gives everything
-- back that they hold, so that the list is empty and the invariant holds; no put is a fault.
pub spl_vn_fini-Ended : (s : Files) → Inv s → Ended s (spl_vn_fini s)
unfolding spl_vn_fini
spl_vn_fini-Ended s i = release_all-Ended s.vn_file_list s i refl
