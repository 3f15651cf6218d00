-- ===== src/Condvar/Counts.antt =====
-- What the counts of a condition variable are of its threads, kept by every operation of a thread.
use spl.Prelude.{
  ℕ, suc, ◌+◌, ◌^◌, ◌≤◌, ◌<◌, ◌≡◌, ◌⊎◌, refl, ap, true, false, none, List, [], ◌∷◌, ◌++◌, inl, inr,
  arith, length, total, if◌then◌else◌, ltb, ◌==◌, if_elim,
}
use spl.Condvar.{
  Cv, Pc, outside, noted, read_mutex, agreed, queued, counted, asleep, awake, last_out, cleared,
  leaving, unqueued, relocking, signaling, waking, signaled, Thread, WaitQueue, atomic_dec, advance,
}
use spl.Condvar.Interleaving.{times, Queueing, System, at}

-- Whether a thread at a point has a reference, is counted as a waiter, answers for cv_mutex, and may
-- be on the queue.
abbrev pub refs_at : Pc → ℕ
refs_at outside = 0
refs_at relocking = 0
refs_at p = 1

abbrev pub waits_at : Pc → ℕ
waits_at counted = 1
waits_at asleep = 1
waits_at awake = 1
waits_at p = 0

abbrev pub mutex_at : Pc → ℕ
mutex_at agreed = 1
mutex_at queued = 1
mutex_at counted = 1
mutex_at asleep = 1
mutex_at awake = 1
mutex_at last_out = 1
mutex_at p = 0

abbrev pub queue_at : Pc → ℕ
queue_at queued = 1
queue_at counted = 1
queue_at asleep = 1
queue_at awake = 1
queue_at last_out = 1
queue_at cleared = 1
queue_at leaving = 1
queue_at p = 0

abbrev pub on_queue : ℕ → Thread → ℕ
on_queue i t = if t.id == i then queue_at t.pc else 0

-- The variable fits `r` references and `n` waiters of threads, `m` threads that answer for cv_mutex,
-- and at most `q i` places of thread `i` on the queue.
pub record Fits (cv : Cv) (r n m : ℕ) (q : ℕ → ℕ) : Type 0 where
  pub refs : cv.cv_refs ≡ r + (if cv.destroyed then 0 else 1)
  pub waiters : cv.cv_waiters ≡ n
  pub mutex : (cv.cv_mutex ≡ none) ⊎ (0 < m)
  pub queue : (i : ℕ) → times i cv.cv_event ≤ q i

module _ (w : WaitQueue) (law : Queueing w) (r n m : ℕ) (q : ℕ → ℕ) (few : r + 2 < 2 ^ 32)
    (n_few : n + 1 < 2 ^ 32) (mutex_waits : n ≤ m) where
  -- The others' numbers stay, one thread moves on.
  abbrev pub With : Thread → Cv → Type 0
  With t cv =
      Fits cv (refs_at t.pc + r) (waits_at t.pc + n) (mutex_at t.pc + m) (λ i. on_queue i t + q i)

  pub advance-With :
      (i mp : ℕ) (p : Pc) (cv : Cv)
      → With (record { id = i; mp = mp; pc = p }) cv
      → With
          (at
            (advance w (record { id = i; mp = mp; pc = p }) cv).0
            (record { id = i; mp = mp; pc = p }))
          (advance w (record { id = i; mp = mp; pc = p }) cv).1
  unfolding advance
  advance-With i mp outside cv f = f
  advance-With i mp noted cv f = record {
    refs = f.refs;
    waiters = f.waiters;
    mutex = f.mutex;
    queue = λ j. f.queue j;
  }
  advance-With i mp (read_mutex true) cv f = record {
    refs = f.refs;
    waiters = f.waiters;
    mutex = inr (omega arith);
    queue = f.queue;
  }
  advance-With i mp (read_mutex false) cv f = record {
    refs = f.refs;
    waiters = f.waiters;
    mutex = inr (omega arith);
    queue = f.queue;
  }
  advance-With i mp agreed cv f = record {
    refs = f.refs;
    waiters = f.waiters;
    mutex = inr (omega arith);
    queue = λ j. ground (arith, law.prepare_adds i cv.cv_event j, f.queue j);
  }
  advance-With i mp queued cv f = record {
    refs = f.refs;
    waiters = omega (arith, f.waiters);
    mutex = inr (omega arith);
    queue = f.queue;
  }
  advance-With i mp counted cv f = f
  advance-With i mp asleep cv f = f
  advance-With i mp awake cv f =
      let v = record cv { cv_waiters = atomic_dec cv.cv_waiters } in
      if_elim (λ (p : Pc). With (record { id = i; mp = mp; pc = p }) v)
        (atomic_dec cv.cv_waiters == 0) last_out leaving
        (λ h. record {
          refs = f.refs;
          waiters = ground (arith, f.waiters);
          mutex = inr (omega arith);
          queue = f.queue;
        })
        (λ h. record {
          refs = f.refs;
          waiters = ground (arith, f.waiters);
          mutex = inr (ground (arith, f.waiters));
          queue = f.queue;
        })
  advance-With i mp last_out cv f = record {
    refs = f.refs;
    waiters = f.waiters;
    mutex = inl refl;
    queue = f.queue;
  }
  advance-With i mp cleared cv f = record {
    refs = f.refs;
    waiters = f.waiters;
    mutex = f.mutex;
    queue = f.queue;
  }
  advance-With i mp leaving cv f = record {
    refs = f.refs;
    waiters = f.waiters;
    mutex = f.mutex;
    queue = λ j. ground (arith, law.finish_takes i cv.cv_event j, f.queue j);
  }
  advance-With i mp unqueued cv f = record {
    refs = ground (arith, f.refs);
    waiters = f.waiters;
    mutex = f.mutex;
    queue = f.queue;
  }
  advance-With i mp relocking cv f = f
  advance-With i mp (signaling all) cv f =
      if_elim (λ (p : Pc). With (record { id = i; mp = mp; pc = p }) cv) (ltb 0 cv.cv_waiters)
        (waking all) signaled
        (λ h. record { refs = f.refs; waiters = f.waiters; mutex = f.mutex; queue = f.queue })
        (λ h. record { refs = f.refs; waiters = f.waiters; mutex = f.mutex; queue = f.queue })
  advance-With i mp (waking true) cv f = record {
    refs = f.refs;
    waiters = f.waiters;
    mutex = f.mutex;
    queue = λ j. ground (arith, law.wake_all_adds_none cv.cv_event j, f.queue j);
  }
  advance-With i mp (waking false) cv f = record {
    refs = f.refs;
    waiters = f.waiters;
    mutex = f.mutex;
    queue = λ j. ground (arith, law.wake_adds_none cv.cv_event j, f.queue j);
  }
  advance-With i mp signaled cv f = record {
    refs = ground (arith, f.refs);
    waiters = f.waiters;
    mutex = f.mutex;
    queue = f.queue;
  }

abbrev pub refs_of : Thread → ℕ
refs_of t = refs_at t.pc

abbrev pub waits_of : Thread → ℕ
waits_of t = waits_at t.pc

abbrev pub mutex_of : Thread → ℕ
mutex_of t = mutex_at t.pc

-- The variable fits its threads. When __cv_destroy has returned, no thread has a reference.
pub record Inv (n : ℕ) (s : System) : Type 0 where
  pub few : length s.threads ≡ n
  pub fits :
      Fits s.cv
        (total refs_of s.threads)
        (total waits_of s.threads)
        (total mutex_of s.threads)
        (λ i. total (on_queue i) s.threads)
  pub none_left : s.returned ≡ true → (s.cv.destroyed ≡ true) × (total refs_of s.threads ≡ 0)

pub refs-le : (p : Pc) → refs_at p ≤ 1
refs-le outside = omega arith
refs-le p = omega arith

waits-le : (p : Pc) → waits_at p ≤ mutex_at p
waits-le outside = omega arith
waits-le p = omega arith

mutex-le : (p : Pc) → mutex_at p ≤ refs_at p
mutex-le outside = omega arith
mutex-le p = omega arith

pub refs-le-length : (ts : List Thread) → total refs_of ts ≤ length ts
refs-le-length [] = omega arith
refs-le-length (t ∷ ts) = omega (arith, refs-le t.pc, refs-le-length ts)

pub waits-le-mutex : (ts : List Thread) → total waits_of ts ≤ total mutex_of ts
waits-le-mutex [] = omega arith
waits-le-mutex (t ∷ ts) = omega (arith, waits-le t.pc, waits-le-mutex ts)

pub mutex-le-refs : (ts : List Thread) → total mutex_of ts ≤ total refs_of ts
mutex-le-refs [] = omega arith
mutex-le-refs (t ∷ ts) = omega (arith, mutex-le t.pc, mutex-le-refs ts)

pub length_middle :
    (before after : List Thread) (t u : Thread)
    → length (before ++ (t ∷ after)) ≡ length (before ++ (u ∷ after))
length_middle [] after t u = refl
length_middle (b ∷ before) after t u = ap suc (length_middle before after t u)
