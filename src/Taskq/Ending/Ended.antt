-- ===== src/Taskq/Ending/Ended.antt =====
-- The end of a queue: nothing of it is left, as the code asserts.
use spl.Prelude.{ℕ, ◌-◌, ◌≡◌, refl, ap, ◌∙◌, true, false, List, [], ◌∷◌, arith, length}
use spl.Ordered.{count}
use spl.Taskq.{Ent, ent_id, Thread, thread_id, Taskq}
use spl.Taskq.Alloc.{task_free}
use spl.Taskq.Find.{taskq_wait_check}
use spl.Taskq.Worker.{thread_exit, drop_thread}
use spl.Taskq.Waiting.{taskq_wait_check_iff}
use spl.Taskq.Invariant.{Inv, SameQueues, Inv-same}
use spl.Taskq.Ending.{Waits, stop_threads, free_pool, taskq_destroy}

-- The assertions at the end of taskq_destroy.
pub record Ended (tq : Taskq) : Type 0 where
  pub nthreads : tq.nthreads ≡ 0
  pub nalloc : tq.nalloc ≡ 0
  pub nspawn : tq.nspawn ≡ 0
  pub thread_list : tq.thread_list ≡ []
  pub active_list : tq.active_list ≡ []
  pub free_list : tq.free_list ≡ []
  pub pend_list : tq.pend_list ≡ []
  pub prio_list : tq.prio_list ≡ []
  pub delay_list : tq.delay_list ≡ []

-- A queue that the waits of taskq_destroy are over for: it meets the invariant, no task and no spawning
-- thread is left, its threads are those on the list and its entries those in the pool.
pub record Settled (tq : Taskq) : Type 0 where
  pub inv : Inv tq
  pub waited : taskq_wait_check tq ≡ true
  pub nspawn : tq.nspawn ≡ 0
  pub nthreads : tq.nthreads ≡ length tq.thread_list
  pub nalloc : tq.nalloc ≡ length tq.free_list

empty_ents : (ts : List Ent) → ((i : ℕ) → count ent_id i ts ≡ 0) → ts ≡ []
empty_ents [] h = refl
empty_ents (t ∷ ts) h = absurd (ground (arith, h t.id))

empty_threads : (ts : List Thread) → ((i : ℕ) → count thread_id i ts ≡ 0) → ts ≡ []
empty_threads [] h = refl
empty_threads (t ∷ ts) h = absurd (ground (arith, h t.id))

stop-Settled :
    (tids : List ℕ) (tq : Taskq)
    → tq.thread_list ≡ tids
    → Settled tq
    → Settled (stop_threads tids tq) × ((stop_threads tids tq).thread_list ≡ [])
unfolding stop_threads thread_exit drop_thread taskq_wait_check
stop-Settled [] tq e s = (s, e)
stop-Settled (tid ∷ tids) tq e s =
    let left : drop_thread tid tq.thread_list ≡ tids = ground (arith, e) in
    let n = ap length e in
    stop-Settled tids (thread_exit tq tid) left (record {
      inv =
          Inv-same
            (record {
              same_pend = refl;
              same_prio = refl;
              same_delay = refl;
              same_active = refl;
              same_next = refl;
              same_lowest = refl;
            })
            s.inv;
      waited = s.waited;
      nspawn = s.nspawn;
      nthreads = omega (arith, s.nthreads, n, ap length left);
      nalloc = s.nalloc;
    })

-- Freeing the pool touches the pool and the count of entries only.
record Freed (ts : List Ent) (tq q : Taskq) : Type 0 where
  queues : SameQueues q tq
  free_list : q.free_list ≡ []
  nalloc : q.nalloc ≡ tq.nalloc - length ts
  nthreads : q.nthreads ≡ tq.nthreads
  nspawn : q.nspawn ≡ tq.nspawn
  thread_list : q.thread_list ≡ tq.thread_list

free_pool-Freed : (ts : List Ent) (tq : Taskq) → tq.free_list ≡ ts → Freed ts tq (free_pool ts tq)
unfolding free_pool task_free
free_pool-Freed [] tq e = record {
  queues = record {
    same_pend = refl;
    same_prio = refl;
    same_delay = refl;
    same_active = refl;
    same_next = refl;
    same_lowest = refl;
  };
  free_list = e;
  nalloc = omega arith;
  nthreads = refl;
  nspawn = refl;
  thread_list = refl;
}
free_pool-Freed (t ∷ ts) tq e =
    let f = free_pool-Freed ts (task_free (record tq { free_list = ts })) refl in
    let q = f.queues in
    record {
      queues = record {
        same_pend = q.same_pend;
        same_prio = q.same_prio;
        same_delay = q.same_delay;
        same_active = q.same_active;
        same_next = q.same_next;
        same_lowest = q.same_lowest;
      };
      free_list = f.free_list;
      nalloc = omega (arith, f.nalloc);
      nthreads = f.nthreads;
      nspawn = f.nspawn;
      thread_list = f.thread_list;
    }

Settled-Ended : (tq : Taskq) → Settled tq → tq.thread_list ≡ [] → Ended (free_pool tq.free_list tq)
Settled-Ended tq s threads =
    let none_out = (taskq_wait_check_iff tq s.inv).0 s.waited in
    let f = free_pool-Freed tq.free_list tq refl in
    let q = f.queues in
    record {
      nthreads = f.nthreads ∙ s.nthreads ∙ ap length threads;
      nalloc = omega (arith, f.nalloc, s.nalloc);
      nspawn = f.nspawn ∙ s.nspawn;
      thread_list = f.thread_list ∙ threads;
      active_list = q.same_active ∙ empty_threads tq.active_list (λ i. omega (arith, none_out i));
      free_list = f.free_list;
      pend_list = q.same_pend ∙ empty_ents tq.pend_list (λ i. omega (arith, none_out i));
      prio_list = q.same_prio ∙ empty_ents tq.prio_list (λ i. omega (arith, none_out i));
      delay_list = q.same_delay ∙ empty_ents tq.delay_list (λ i. omega (arith, none_out i));
    }

-- taskq_destroy of a queue for which its waits leave the invariant, no task and no thread that is
-- being spawned, and where the threads counted are those on the list and the entries counted those
-- in the pool. The threads are stopped and the pool is freed, and the queue passes all assertions at
-- the end of taskq_destroy: the three counts are 0 and the six lists are empty.
pub taskq_destroy-Ended :
    (d : Waits) (tq : Taskq)
    → Settled (d.spawned (d.waited (record tq { is_active = false })))
    → Ended (taskq_destroy d tq)
unfolding taskq_destroy
taskq_destroy-Ended d tq s =
    let q = d.spawned (d.waited (record tq { is_active = false })) in
    let (r, e) = stop-Settled q.thread_list q refl s in
    Settled-Ended (stop_threads q.thread_list q) r e
