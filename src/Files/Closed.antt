-- ===== src/Files/Closed.antt =====
-- What vn_getf does for a descriptor on the list that has been closed: areleasef has not run yet, and
-- the descriptor has not been used again.
use spl.Prelude.{ℕ, ◌≡◌, refl, sym, ap, ap₂, ◌∙◌, false, Option, none, some, arith}
use spl.Files.{
  File, Files, Calls, is_negative, file_find, write_file, fget, fput, refreshed, put_back,
  get_again, vn_getf,
}
use spl.Files.Listed.{find_Good, is_file_eq, find_eq}
use spl.Files.Invariant.{Inv, fput_lem, used, listed_written}

record Emptied (fp x : File) : Type 0 where
  file : x.f_file ≡ none
  fd : x.f_fd ≡ fp.f_fd
  task : x.f_task ≡ fp.f_task

refreshed-Emptied : (g : ℕ) (fp : File) → fp.f_file ≡ some g → Emptied fp (refreshed none fp)
unfolding refreshed
refreshed-Emptied g fp e = rw e (record { file = refl; fd = refl; task = refl })

-- An entry without a file on the list makes the next call of vn_getf a fault.
no_file_faults :
    (k : Calls) (fd task : ℕ) (x : File) (s : Files)
    → is_negative fd ≡ false
    → file_find fd task s.vn_file_list ≡ some x
    → x.f_file ≡ none
    → vn_getf k task fd s ≡ none
unfolding vn_getf get_again fput
no_file_faults k fd task x s n e f =
    rw (n, e) (ap (λ (o : Option ℕ). put_back (refreshed k.lfp x) (fput o (fget k.lfp s))) f)

-- Take a table that meets the invariant, and a task's descriptor that is on the list and is not open
-- any more. Then vn_getf does not answer NULL: it answers with an entry that has no file, and the
-- next vn_getf of the task for the descriptor puts a NULL file, whatever that call meets.
pub vn_getf-closed :
    (k : Calls) (fd task : ℕ) (fp : File) (s : Files)
    → Inv s
    → is_negative fd ≡ false
    → file_find fd task s.vn_file_list ≡ some fp
    → k.lfp ≡ none
    → (x : File) × (t : Files) × (vn_getf k task fd s ≡ some (some x, t))
      × (x.f_file ≡ none)
      × ((k' : Calls) → vn_getf k' task fd t ≡ none)
unfolding vn_getf get_again fget
vn_getf-closed k fd task fp s i n e l =
    let gd = find_Good fd task fp s.vn_file_list e i.good in
    let x = refreshed none fp in
    let r = refreshed-Emptied gd.file fp gd.open_file in
    let here = is_file_eq fd task fp (find_eq fd task fp s.vn_file_list e) in
    let efd : x.f_fd ≡ fd = r.fd ∙ here.0 in
    let etask : x.f_task ≡ task = r.task ∙ here.1 in
    let at : file_find x.f_fd x.f_task s.vn_file_list ≡ some fp =
      ap₂ (λ (a b : ℕ). file_find a b s.vn_file_list) efd etask ∙ e in
    let u = used gd.file fd task fp s.vn_file_list e gd.open_file in
    let (h, put, law) = fput_lem gd.file s (omega (arith, i.held gd.file, u)) in
    let t = record s { held = h; vn_file_list = write_file x s.vn_file_list } in
    let listed : file_find fd task t.vn_file_list ≡ some x =
      ap₂ (λ (a b : ℕ). file_find a b t.vn_file_list) (sym efd) (sym etask)
      ∙ listed_written fp x s at in
    let again : get_again none fp s ≡ some (some x, t) =
      ap (put_back x) (ap (λ (o : Option ℕ). fput o s) gd.open_file ∙ put) in
    (
      x,
      t,
      rw (n, e) (ap (λ (o : Option ℕ). get_again o fp s) l ∙ again),
      r.file,
      λ k'. no_file_faults k' fd task x t n listed r.file,
    )
