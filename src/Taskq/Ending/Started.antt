-- ===== src/Taskq/Ending/Started.antt =====
-- The start of the threads of a queue, and what is left when one of them could not be made.
use spl.Prelude.{
  ℕ, zero, suc, ◌+◌, ◌≤◌, ◌<◌, ◌≡◌, refl, sym, ap, ◌∙◌, subst, Bool, true, false, Option, none,
  some, [], ◌∷◌, arith, length, length-append, if_elim, Bool-cases, inl, inr,
}
use spl.Ordered.{count}
use spl.Taskq.{Taskq, World}
use spl.Taskq.Find.{taskq_wait_check}
use spl.Taskq.Worker.{thread_enter}
use spl.Taskq.Invariant.{Inv, SameQueues, Inv-same}
use spl.Taskq.Ending.{Waits, taskq_destroy, start_threads, first_threads, start_queue}
use spl.Taskq.Ending.Ended.{Ended, Settled, taskq_destroy-Ended}

-- After the attempts to make `total` threads.
record Entering (made : ℕ → Bool) (base : Taskq) (total : ℕ) (r : (ℕ × Bool) × Taskq) : Type 0 where
  queues : SameQueues r.1 base
  free_list : r.1.free_list ≡ base.free_list
  nalloc : r.1.nalloc ≡ base.nalloc
  maxthreads : r.1.maxthreads ≡ base.maxthreads
  threads : r.1.nthreads ≡ r.0.0
  listed : length r.1.thread_list ≡ r.0.0
  few : r.0.0 ≤ total
  all : r.0.1 ≡ false → r.0.0 ≡ total
  missing : r.0.1 ≡ true → (tid : ℕ) × (made tid ≡ false)

entered :
    (made : ℕ → Bool) (base : Taskq) (total count : ℕ) (rc : Bool) (tid : ℕ) (tq : Taskq)
    → total < base.maxthreads
    → Entering made base total ((count, rc), tq)
    → Entering made base (total + 1) ((count + 1, rc), (thread_enter tq tid).1)
unfolding thread_enter
entered made base total count rc tid tq l e =
    let q = e.queues in
    record {
      queues = record {
        same_pend = ground (arith, q.same_pend);
        same_prio = ground (arith, q.same_prio);
        same_delay = ground (arith, q.same_delay);
        same_active = ground (arith, q.same_active);
        same_next = ground (arith, q.same_next);
        same_lowest = ground (arith, q.same_lowest);
      };
      free_list = ground (arith, e.free_list);
      nalloc = ground (arith, e.nalloc);
      maxthreads = ground (arith, e.maxthreads);
      threads = ground (arith, e.threads, e.few, e.maxthreads);
      listed = ground (
        arith,
        e.listed,
        e.threads,
        e.few,
        e.maxthreads,
        length-append tq.thread_list (tid ∷ []),
      );
      few = omega (arith, e.few);
      all = λ h. omega (arith, e.all h);
      missing = e.missing;
    }

start_threads-Entering :
    (made : ℕ → Bool) (base : Taskq) (n total count : ℕ) (rc : Bool) (tid : ℕ) (tq : Taskq)
    → total + n ≤ base.maxthreads
    → Entering made base total ((count, rc), tq)
    → Entering made base (total + n) (start_threads made n count rc tid tq)
unfolding start_threads
start_threads-Entering made base zero total count rc tid tq l e =
    subst (λ (k : ℕ). Entering made base k ((count, rc), tq))
      (let k : total ≡ total + 0 = omega arith in k) e
start_threads-Entering made base (suc n) total count rc tid tq l e =
    let shift : total + 1 + n ≡ total + suc n = omega arith in
    elim (Bool-cases (made tid)) [
      | inl h ↦
          rw (start_threads, h)
            (subst
              (λ (k : ℕ).
                Entering made base k
                  (start_threads made n (count + 1) rc (tid + 1) (thread_enter tq tid).1))
              shift
              (start_threads-Entering made base n (total + 1) (count + 1) rc (tid + 1)
                (thread_enter tq tid).1 (omega arith)
                (entered made base total count rc tid tq (omega arith) e)))
      | inr h ↦
          rw (start_threads, h)
            (subst (λ (k : ℕ). Entering made base k (start_threads made n count true (tid + 1) tq))
              shift
              (start_threads-Entering made base n (total + 1) count true (tid + 1) tq (omega arith)
                (record {
                  queues = e.queues;
                  free_list = e.free_list;
                  nalloc = e.nalloc;
                  maxthreads = e.maxthreads;
                  threads = e.threads;
                  listed = e.listed;
                  few = omega (arith, e.few);
                  all = λ k. absurd (let j = k in cc);
                  missing = λ k. (tid, h);
                })))
    ]

-- How taskq_create ends: with all threads on the list, or with nothing, when one could not be made.
pub data Started (made : ℕ → Bool) (n : ℕ) (base : Taskq) : Option Taskq × Taskq → Type 0 where
  started :
      (q : Taskq)
      → Inv q
      → q.nspawn ≡ 0
      → q.nthreads ≡ n
      → length q.thread_list ≡ n
      → q.free_list ≡ base.free_list
      → Started made n base (some q, q)
  ended : (tid : ℕ) (q : Taskq) → made tid ≡ false → Ended q → Started made n base (none, q)

-- Before the first thread.
no_threads-Entering :
    (made : ℕ → Bool) (tq : Taskq)
    → tq.thread_list ≡ []
    → tq.nthreads ≡ length tq.thread_list
    → Entering made tq 0 ((0, false), tq)
no_threads-Entering made tq none_yet e = record {
  queues = record {
    same_pend = refl;
    same_prio = refl;
    same_delay = refl;
    same_active = refl;
    same_next = refl;
    same_lowest = refl;
  };
  free_list = refl;
  nalloc = refl;
  maxthreads = refl;
  threads = e ∙ ap length none_yet;
  listed = ap length none_yet;
  few = omega arith;
  all = λ h. refl;
  missing = λ h. absurd (let j = h in cc);
}

-- The queue with its threads, and nspawn reset, has the invariant and is settled.
entering-Settled :
    (made : ℕ → Bool) (tq : Taskq) (n : ℕ) (active : Bool) (r : (ℕ × Bool) × Taskq)
    → Settled tq
    → Entering made tq n r
    → Settled (record r.1 { nspawn = 0; is_active = active })
unfolding taskq_wait_check
entering-Settled made tq n active r s e =
    let f = e.queues in
    record {
      inv =
          Inv-same
            (record {
              same_pend = f.same_pend;
              same_prio = f.same_prio;
              same_delay = f.same_delay;
              same_active = f.same_active;
              same_next = f.same_next;
              same_lowest = f.same_lowest;
            })
            s.inv;
      waited = rw (f.same_next, f.same_lowest) s.waited;
      nspawn = refl;
      nthreads = e.threads ∙ sym e.listed;
      nalloc = e.nalloc ∙ s.nalloc ∙ ap length (sym e.free_list);
    }

-- The end of taskq_create, for a queue without tasks and threads that meets the invariant, whose
-- entries are those in the pool, with room for the threads, while no one else uses it. Either all
-- threads have been made, are on the list and are counted, tq_nspawn is 0, the invariant holds and
-- the pool is as it was; or a thread could not be made, and then the result is NULL and the queue
-- has been destroyed, with nothing left on it.
pub start_queue-Started :
    (w : World) (d : Waits) (made : ℕ → Bool) (nthreads : ℕ) (tq : Taskq)
    → ((q : Taskq) → d.spawned (d.waited q) ≡ q)
    → Settled tq
    → tq.thread_list ≡ []
    → first_threads w nthreads tq ≤ tq.maxthreads
    → Started made (first_threads w nthreads tq) tq (start_queue w d made nthreads tq)
unfolding start_queue
start_queue-Started w d made nthreads tq calm s none_yet l =
    let n = first_threads w nthreads tq in
    let r = start_threads made n 0 false 0 tq in
    let q : Taskq = record r.1 { nspawn = 0 } in
    let e : Entering made tq (0 + n) r =
      start_threads-Entering made tq n 0 0 false 0 tq (omega arith)
        (no_threads-Entering made tq none_yet s.nthreads) in
    if_elim (Started made n tq) r.0.1 (none, taskq_destroy d q) (some q, q)
      (λ h.
        let (tid, m) = e.missing h in
        ended tid (taskq_destroy d q) m (
          taskq_destroy-Ended d q (
            subst Settled (sym (calm (record q { is_active = false })))
              (entering-Settled made tq (0 + n) false r s e))))
      (λ h.
        let c = e.all h in
        let k = entering-Settled made tq (0 + n) q.is_active r s e in
        started q k.inv refl (omega (arith, e.threads, c)) (omega (arith, e.listed, c)) e.free_list)
