-- ===== src/Condvar/Interleaving.antt =====
-- All threads at once, in any interleaving, and a thread that destroys the variable.
use spl.Prelude.{All, ℕ, ◌+◌, ◌≤◌, ◌≡◌, Bool, true, false, List, [], ◌∷◌, ◌++◌, if◌then◌else◌, ◌==◌}
use spl.Condvar.{
  Cv, Pc, outside, noted, signaling, Thread, WaitQueue, cv_init, cv_destroy_wakeup, destroy, enter,
  advance,
}

abbrev pub times : ℕ → List ℕ → ℕ
times i [] = 0
times i (x ∷ xs) = (if x == i then 1 else 0) + times i xs

-- What the code relies on of the kernel's queue: only prepare_to_wait puts a thread on it, and only
-- the one that it is called for, and finish_wait takes that thread off.
pub record Queueing (w : WaitQueue) : Type 0 where
  pub prepare_adds :
      (i : ℕ) (q : List ℕ) (j : ℕ)
      → times j (w.prepare_to_wait i q) ≤ times j q + (if i == j then 1 else 0)
  pub finish_takes :
      (i : ℕ) (q : List ℕ) (j : ℕ) → times j (w.finish_wait i q) ≤ (if i == j then 0 else times j q)
  pub wake_adds_none : (q : List ℕ) (j : ℕ) → times j (w.wake_up q) ≤ times j q
  pub wake_all_adds_none : (q : List ℕ) (j : ℕ) → times j (w.wake_up_all q) ≤ times j q

-- The variable, the threads, and whether __cv_destroy has returned.
pub record System : Type 0 where
  pub cv : Cv
  pub threads : List Thread
  pub returned : Bool

abbrev pub at : Pc → Thread → Thread
at p t = record t { pc = p }

-- A wait or a signal begins where the test of cv_magic holds. Which threads come back from schedule,
-- and when, is left open: a timer, a signal or a wake_up.
pub data Step (w : WaitQueue) : System → System → Type 0 where
  wait :
      (mp : ℕ) (before after : List Thread) (t : Thread) (cv : Cv) (r : Bool)
      → t.pc ≡ outside
      → cv.destroyed ≡ false
      → Step w
          (record { cv = cv; threads = before ++ (t ∷ after); returned = r })
          (record {
            cv = enter cv;
            threads = before ++ (record t { mp = mp; pc = noted } ∷ after);
            returned = r;
          })
  signal :
      (all : Bool) (before after : List Thread) (t : Thread) (cv : Cv) (r : Bool)
      → t.pc ≡ outside
      → cv.destroyed ≡ false
      → Step w
          (record { cv = cv; threads = before ++ (t ∷ after); returned = r })
          (record {
            cv = enter cv;
            threads = before ++ (at (signaling all) t ∷ after);
            returned = r;
          })
  go_on :
      (before after : List Thread) (t : Thread) (cv : Cv) (r : Bool)
      → Step w
          (record { cv = cv; threads = before ++ (t ∷ after); returned = r })
          (record {
            cv = (advance w t cv).1;
            threads = before ++ (at (advance w t cv).0 t ∷ after);
            returned = r;
          })
  destroy_begins :
      (threads : List Thread) (cv : Cv)
      → cv.destroyed ≡ false
      → Step w
          (record { cv = cv; threads = threads; returned = false })
          (record { cv = destroy cv; threads = threads; returned = false })
  destroy_returns :
      (threads : List Thread) (cv : Cv)
      → cv.destroyed ≡ true
      → cv_destroy_wakeup cv ≡ true
      → Step w
          (record { cv = cv; threads = threads; returned = false })
          (record { cv = cv; threads = threads; returned = true })

abbrev pub IsOutside : Thread → Type 0
IsOutside t = t.pc ≡ outside

-- From __cv_init on, with all threads outside.
pub data Reach (w : WaitQueue) (threads : List Thread) : System → Type 0 where
  start :
      All IsOutside threads
      → Reach w threads (record { cv = cv_init; threads = threads; returned = false })
  next : {s t : System} → Reach w threads s → Step w s t → Reach w threads t
