-- ===== src/Condvar/Destroying.antt =====
-- __cv_destroy against all other calls: it returns when no thread uses the variable any more.
use spl.Prelude.{
  All, ℕ, ◌+◌, ◌^◌, ◌≤◌, ◌<◌, ◌≡◌, ◌↔◌, refl, sym, ap, ◌∙◌, Bool, true, false, none, List, [], ◌∷◌,
  ◌++◌, inl, inr, arith, length, total, total_middle, if◌then◌else◌, ◌==◌, length-append,
}
use spl.Condvar.{
  Cv, Pc, outside, noted, relocking, signaling, Thread, WaitQueue, cv_init, cv_destroy_wakeup,
  destroy, enter, advance,
}
use spl.Condvar.Interleaving.{
  times, Queueing, System, at, Step, wait, signal, go_on, destroy_begins, destroy_returns,
  IsOutside, Reach, start, next,
}
use spl.Condvar.Counts.{
  refs_at, waits_at, mutex_at, queue_at, on_queue, Fits, advance-With, refs_of, waits_of, mutex_of,
  Inv, refs-le-length, waits-le-mutex, mutex-le-refs, length_middle,
}

Fits-eq :
    (cv : Cv) (r r' n n' m m' : ℕ) (q q' : ℕ → ℕ)
    → r ≡ r'
    → n ≡ n'
    → m ≡ m'
    → ((i : ℕ) → q i ≡ q' i)
    → Fits cv r n m q
    → Fits cv r' n' m' q'
Fits-eq cv r r' n n' m m' q q' er en em eq f = record {
  refs = omega (arith, f.refs);
  waiters = f.waiters ∙ en;
  mutex = ground (arith, f.mutex);
  queue = λ i. omega (arith, f.queue i, eq i);
}

module _ (before after : List Thread) where
  abbrev others : (Thread → ℕ) → ℕ
  others g = total g before + total g after

  abbrev Spread : Thread → Cv → Type 0
  Spread t cv =
      Fits cv (refs_at t.pc + others refs_of) (waits_at t.pc + others waits_of)
        (mutex_at t.pc + others mutex_of) (λ i. on_queue i t + others (on_queue i))

  abbrev Whole : Thread → Cv → Type 0
  Whole t cv =
      let ts = before ++ (t ∷ after) in
      Fits cv (total refs_of ts) (total waits_of ts) (total mutex_of ts)
        (λ i. total (on_queue i) ts)

  spread : (t : Thread) (cv : Cv) → Whole t cv → Spread t cv
  spread t cv f =
      Fits-eq cv _ _ _ _ _ _ _ _ (total_middle refs_of before t after)
        (total_middle waits_of before t after) (total_middle mutex_of before t after)
        (λ i. total_middle (on_queue i) before t after) f

  whole : (t : Thread) (cv : Cv) → Spread t cv → Whole t cv
  whole t cv f =
      Fits-eq cv _ _ _ _ _ _ _ _ (sym (total_middle refs_of before t after))
        (sym (total_middle waits_of before t after)) (sym (total_middle mutex_of before t after))
        (λ i. sym (total_middle (on_queue i) before t after)) f

advance_unused :
    (w : WaitQueue) (i mp : ℕ) (p : Pc) (cv : Cv)
    → refs_at p ≡ 0
    → (refs_at (advance w (record { id = i; mp = mp; pc = p }) cv).0 ≡ 0)
      × ((advance w (record { id = i; mp = mp; pc = p }) cv).1 ≡ cv)
unfolding advance
advance_unused w i mp outside cv e = (refl, refl)
advance_unused w i mp relocking cv e = (refl, refl)
advance_unused w i mp p cv e = absurd (omega arith)

-- The threads but one have a reference each at most.
others-lt :
    (n : ℕ) (before after : List Thread) (t : Thread)
    → length (before ++ (t ∷ after)) ≡ n
    → others before after refs_of + 1 ≤ n
others-lt n before after t e =
    omega (arith, refs-le-length before, refs-le-length after, length-append before (t ∷ after))

-- A thread begins a call at a point with a reference and nothing else.
enter-Inv :
    (n : ℕ) (before after : List Thread) (t u : Thread) (cv : Cv) (r : Bool)
    → n + 1 < 2 ^ 32
    → t.pc ≡ outside
    → cv.destroyed ≡ false
    → (refs_at u.pc ≡ 1) × (waits_at u.pc ≡ 0) × (mutex_at u.pc ≡ 0) × (queue_at u.pc ≡ 0)
    → Inv n (record { cv = cv; threads = before ++ (t ∷ after); returned = r })
    → Inv n (record { cv = enter cv; threads = before ++ (u ∷ after); returned = r })
unfolding enter
enter-Inv n before after t u cv r few out alive (ur, uw, um, uq) i =
    let f = spread before after t cv i.fits in
    let room = others-lt n before after t i.few in
    record {
      few = length_middle before after u t ∙ i.few;
      fits = whole before after u (enter cv) (record {
        refs = ground (arith, f.refs, ap refs_at out);
        waiters = omega (arith, f.waiters, ap waits_at out);
        mutex = ground (arith, f.mutex, ap mutex_at out);
        queue = λ j. ground (arith, f.queue j, ap queue_at out);
      });
      none_left = λ e. absurd (let d = (i.none_left e).0 in cc);
    }

begins-Inv :
    (n : ℕ) (threads : List Thread) (cv : Cv)
    → n + 1 < 2 ^ 32
    → cv.destroyed ≡ false
    → Inv n (record { cv = cv; threads = threads; returned = false })
    → Inv n (record { cv = destroy cv; threads = threads; returned = false })
unfolding destroy
begins-Inv n threads cv few alive i = record {
  few = i.few;
  fits = record {
    refs = ground (arith, i.fits.refs, alive, refs-le-length threads, i.few);
    waiters = i.fits.waiters;
    mutex = i.fits.mutex;
    queue = i.fits.queue;
  };
  none_left = λ e. cc;
}

returns-Inv :
    (n : ℕ) (threads : List Thread) (cv : Cv)
    → cv.destroyed ≡ true
    → cv_destroy_wakeup cv ≡ true
    → Inv n (record { cv = cv; threads = threads; returned = false })
    → Inv n (record { cv = cv; threads = threads; returned = true })
unfolding cv_destroy_wakeup
returns-Inv n threads cv gone e i = record {
  few = i.few;
  fits = i.fits;
  none_left = λ h. (gone, ground (arith, i.fits.refs, gone, e));
}

no_refs : (ts : List Thread) → All IsOutside ts → total refs_of ts ≡ 0
no_refs [] h = refl
no_refs (t ∷ ts) (e, h) = omega (arith, ap refs_at e, no_refs ts h)

init-Inv :
    (n : ℕ) (threads : List Thread)
    → length threads ≡ n
    → All IsOutside threads
    → Inv n (record { cv = cv_init; threads = threads; returned = false })
unfolding cv_init
init-Inv n threads e out =
    let z = no_refs threads out in
    record {
      few = e;
      fits = record {
        refs = omega arith;
        waiters = omega (arith, waits-le-mutex threads, mutex-le-refs threads);
        mutex = inl refl;
        queue = λ i. omega arith;
      };
      none_left = λ h. cc;
    }

module _ (w : WaitQueue) (law : Queueing w) (n : ℕ) (few : n + 1 < 2 ^ 32) where
  go_on-Inv :
      (before after : List Thread) (t : Thread) (cv : Cv) (r : Bool)
      → Inv n (record { cv = cv; threads = before ++ (t ∷ after); returned = r })
      → Inv n (record {
        cv = (advance w t cv).1;
        threads = before ++ (at (advance w t cv).0 t ∷ after);
        returned = r;
      })
  go_on-Inv before after t cv r i =
      let g = λ (h : Thread → ℕ). others before after h in
      let u = at (advance w t cv).0 t in
      let room = others-lt n before after t i.few in
      let waits : g waits_of ≤ g mutex_of =
        omega (arith, waits-le-mutex before, waits-le-mutex after) in
      let mutexes : g mutex_of ≤ g refs_of =
        omega (arith, mutex-le-refs before, mutex-le-refs after) in
      record {
        few = length_middle before after u t ∙ i.few;
        fits = whole before after u (advance w t cv).1 (
            advance-With w law (g refs_of) (g waits_of) (g mutex_of) (λ j. g (on_queue j))
              (omega arith) (omega arith) waits t.id t.mp t.pc cv
              (spread before after t cv i.fits));
        none_left = λ e.
            let (d, z) = i.none_left e in
            let m = total_middle refs_of before t after in
            let (y, c) = advance_unused w t.id t.mp t.pc cv (omega arith) in
            (ap Cv.destroyed c ∙ d, omega (arith, total_middle refs_of before u after, y));
      }

  Step-Inv : {s t : System} → Step w s t → Inv n s → Inv n t
  Step-Inv (wait mp before after t cv r out alive) i =
      enter-Inv n before after t (record t { mp = mp; pc = noted }) cv r few out alive
        (refl, refl, refl, refl) i
  Step-Inv (signal all before after t cv r out alive) i =
      enter-Inv n before after t (at (signaling all) t) cv r few out alive (refl, refl, refl, refl)
        i
  Step-Inv (go_on before after t cv r) i = go_on-Inv before after t cv r i
  Step-Inv (destroy_begins threads cv alive) i = begins-Inv n threads cv few alive i
  Step-Inv (destroy_returns threads cv gone e) i = returns-Inv n threads cv gone e i

  pub Reach-Inv :
      {threads : List Thread} {s : System} → length threads ≡ n → Reach w threads s → Inv n s
  Reach-Inv {threads} e (start out) = init-Inv n threads e out
  Reach-Inv e (next h st) = Step-Inv st (Reach-Inv e h)

-- A thread that does not use the variable any more: it is outside, or has only its mutex to take.
pub data Done (t : Thread) : Type 0 where
  not_calling : t.pc ≡ outside → Done t
  locking : t.pc ≡ relocking → Done t

-- Without a reference a thread is done.
no_refs-Done : (i mp : ℕ) (p : Pc) → refs_at p ≡ 0 → Done (record { id = i; mp = mp; pc = p })
no_refs-Done i mp outside e = not_calling refl
no_refs-Done i mp relocking e = locking refl
no_refs-Done i mp p e = absurd (omega arith)

all_Done : (ts : List Thread) → total refs_of ts ≡ 0 → All Done ts
all_Done [] e = tt
all_Done (t ∷ ts) e = (no_refs-Done t.id t.mp t.pc (omega arith), all_Done ts (omega (arith, e)))

refs_of-Done : (t : Thread) → Done t → refs_of t ≡ 0
refs_of-Done t (not_calling e) = ap refs_at e
refs_of-Done t (locking e) = ap refs_at e

none_of_Done : (ts : List Thread) → All Done ts → total refs_of ts ≡ 0
none_of_Done [] h = refl
none_of_Done (t ∷ ts) (d, h) = omega (arith, refs_of-Done t d, none_of_Done ts h)

on_queue-le : (p : Pc) (i j : ℕ) → (if j == i then queue_at p else 0) ≤ refs_at p
on_queue-le outside i j = ground arith
on_queue-le p i j = ground arith

no_queue : (ts : List Thread) (i : ℕ) → total (on_queue i) ts ≤ total refs_of ts
no_queue [] i = omega arith
no_queue (t ∷ ts) i = omega (arith, on_queue-le t.pc i t.id, no_queue ts i)

empty_of_times : (q : List ℕ) → ((i : ℕ) → times i q ≤ 0) → q ≡ []
empty_of_times [] h = refl
empty_of_times (x ∷ q) h = absurd (ground (arith, h x))

-- Take threads, fewer than 2^32 - 1, that call cv_wait, cv_timedwait, cv_signal and cv_broadcast on
-- a variable from __cv_init on, interleaved at every atomic operation, where none begins a call
-- after __cv_destroy has set cv_magic, and where the kernel's queue gets only the thread that
-- prepares to wait and loses the one that finishes. Once __cv_destroy has set cv_magic, the test
-- that it polls holds exactly when no thread uses the variable any more: each is outside, or back
-- from a wait with only its mutex to take.
pub Reach-cv_destroy_wakeup_iff :
    (w : WaitQueue)
    → Queueing w
    → {threads : List Thread} {s : System} → length threads + 1 < 2 ^ 32
    → Reach w threads s
    → s.cv.destroyed ≡ true
    → (cv_destroy_wakeup s.cv ≡ true) ↔ All Done s.threads
unfolding cv_destroy_wakeup
Reach-cv_destroy_wakeup_iff w law {threads} {s} few h gone =
    let i = Reach-Inv w law (length threads) few refl h in
    let f = i.fits in
    let waits : total waits_of s.threads ≤ total refs_of s.threads =
      omega (arith, waits-le-mutex s.threads, mutex-le-refs s.threads) in
    let refs : s.cv.cv_refs ≡ total refs_of s.threads = ground (arith, f.refs, gone) in
    (
      λ e. all_Done s.threads (ground (arith, refs, e)),
      λ d. let z = none_of_Done s.threads d in ground (arith, f.waiters, refs),
    )

-- Take threads, fewer than 2^32 - 1, that call cv_wait, cv_timedwait, cv_signal and cv_broadcast on
-- a variable from __cv_init on, interleaved at every atomic operation, where none begins a call
-- after __cv_destroy has set cv_magic, and where the kernel's queue gets only the thread that
-- prepares to wait and loses the one that finishes. When __cv_destroy has returned, no thread uses
-- the variable any more, both counts are 0, cv_mutex is NULL and the queue is empty, as the code
-- asserts.
pub Reach-returned :
    (w : WaitQueue)
    → Queueing w
    → {threads : List Thread} {s : System} → length threads + 1 < 2 ^ 32
    → Reach w threads s
    → s.returned ≡ true
    → All Done s.threads
      × (s.cv.cv_refs ≡ 0)
      × (s.cv.cv_waiters ≡ 0)
      × (s.cv.cv_mutex ≡ none)
      × (s.cv.cv_event ≡ [])
Reach-returned w law {threads} {s} few h e =
    let i = Reach-Inv w law (length threads) few refl h in
    let f = i.fits in
    let (gone, z) = i.none_left e in
    let m = mutex-le-refs s.threads in
    (
      all_Done s.threads z,
      ground (arith, f.refs, gone),
      omega (arith, f.waiters, waits-le-mutex s.threads),
      elim f.mutex [ inl n ↦ n | inr p ↦ absurd (omega arith) ],
      empty_of_times s.cv.cv_event (λ j. omega (arith, f.queue j, no_queue s.threads j)),
    )
