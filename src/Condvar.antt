-- ===== src/Condvar.antt =====
-- Condition variables, module/spl/spl-condvar.c and include/spl/sys/condvar.h: the counts of references
-- and waiters, by which cv_destroy waits for all users. A thread in cv_wait, cv_timedwait, cv_signal
-- or cv_broadcast is at one of the points between the atomic operations of the code, so threads
-- interleave at each of them.
pub mod Clock
pub mod Interleaving
pub mod Counts
pub mod Destroying
mod Tests
use spl.Prelude.{
  ℕ, ◌+◌, ◌-◌, ◌%◌, ◌^◌, Bool, true, false, Option, none, some, List, [], ◌∷◌, ltb, ◌==◌, ◌&&◌,
  if◌then◌else◌,
}

-- `kcondvar_t`: whether cv_magic is CV_DESTROY, the two counts as 32-bit patterns, the mutex, and the
-- threads on the queue cv_event.
pub record Cv : Type 0 where
  pub destroyed : Bool
  pub cv_refs : ℕ
  pub cv_waiters : ℕ
  pub cv_mutex : Option ℕ
  pub cv_event : List ℕ

-- Where a thread is. The points from `noted` to `relocking` are those of cv_wait_common, after the
-- operation that the name tells: the reference taken, cv_mutex read as NULL or not, the mutex set, the
-- thread queued, counted and asleep without the mutex, back from schedule, counted out as the last
-- one, cv_mutex cleared, before finish_wait, off the queue, and without the reference. Those from
-- `signaling` on are of cv_signal or, with `true`, of cv_broadcast.
pub data Pc : Type 0 where
  outside : Pc
  noted : Pc
  read_mutex : (is_null : Bool) → Pc
  agreed : Pc
  queued : Pc
  counted : Pc
  asleep : Pc
  awake : Pc
  last_out : Pc
  cleared : Pc
  leaving : Pc
  unqueued : Pc
  relocking : Pc
  signaling : (all : Bool) → Pc
  waking : (all : Bool) → Pc
  signaled : Pc

-- A thread and the mutex that it calls with.
pub record Thread : Type 0 where
  pub id : ℕ
  pub mp : ℕ
  pub pc : Pc

-- The kernel's queue: prepare_to_wait_exclusive, finish_wait, wake_up and wake_up_all.
pub record WaitQueue : Type 0 where
  pub prepare_to_wait : ℕ → List ℕ → List ℕ
  pub finish_wait : ℕ → List ℕ → List ℕ
  pub wake_up : List ℕ → List ℕ
  pub wake_up_all : List ℕ → List ℕ

abbrev pub atomic_inc : ℕ → ℕ
atomic_inc n = (n + 1) % 2 ^ 32

abbrev pub atomic_dec : ℕ → ℕ
atomic_dec n = (n + 2 ^ 32 - 1) % 2 ^ 32

-- __cv_init.
unfoldable pub cv_init : Cv
cv_init = record { destroyed = false; cv_refs = 1; cv_waiters = 0; cv_mutex = none; cv_event = [] }

unfoldable pub cv_destroy_wakeup : Cv → Bool
cv_destroy_wakeup cv = cv.cv_waiters == 0 && (cv.cv_refs == 0)

-- What __cv_destroy does before it waits for cv_destroy_wakeup.
unfoldable pub destroy : Cv → Cv
destroy cv = record cv { destroyed = true; cv_refs = atomic_dec cv.cv_refs }

abbrev pub is_null : Option ℕ → Bool
is_null none = true
is_null (some m) = false

-- The first operation of a wait or of a signal.
unfoldable pub enter : Cv → Cv
enter cv = record cv { cv_refs = atomic_inc cv.cv_refs }

abbrev pub wake : WaitQueue → (all : Bool) → List ℕ → List ℕ
wake w true q = w.wake_up_all q
wake w false q = w.wake_up q

-- The next operation of a thread that is in a call, with the point after it. A thread that is asleep
-- comes back from schedule, which is not an operation of its own. `cleared` wakes cv_destroy, whose
-- thread is not on cv_event; `relocking` takes the mutex.
unfoldable pub advance : WaitQueue → Thread → Cv → Pc × Cv
advance w t cv = elim t.pc [
  | outside ↦ (outside, cv)
  | noted ↦ (read_mutex (is_null cv.cv_mutex), cv)
  | read_mutex true ↦ (agreed, record cv { cv_mutex = some t.mp })
  | read_mutex false ↦ (agreed, cv)
  | agreed ↦ (queued, record cv { cv_event = w.prepare_to_wait t.id cv.cv_event })
  | queued ↦ (counted, record cv { cv_waiters = atomic_inc cv.cv_waiters })
  | counted ↦ (asleep, cv)
  | asleep ↦ (awake, cv)
  | awake ↦
      let n = atomic_dec cv.cv_waiters in
      (if n == 0 then last_out else leaving, record cv { cv_waiters = n })
  | last_out ↦ (cleared, record cv { cv_mutex = none })
  | cleared ↦ (leaving, cv)
  | leaving ↦ (unqueued, record cv { cv_event = w.finish_wait t.id cv.cv_event })
  | unqueued ↦ (relocking, record cv { cv_refs = atomic_dec cv.cv_refs })
  | relocking ↦ (outside, cv)
  | signaling all ↦ (if ltb 0 cv.cv_waiters then waking all else signaled, cv)
  | waking all ↦ (signaled, record cv { cv_event = wake w all cv.cv_event })
  | signaled ↦ (outside, record cv { cv_refs = atomic_dec cv.cv_refs })
]
