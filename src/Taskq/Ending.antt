-- ===== src/Taskq/Ending.antt =====
-- taskq_destroy, and the end of taskq_create, which starts the threads and destroys the queue again if one
-- of them could not be made.
pub mod Ended
pub mod Started
use spl.Prelude.{
  ℕ, zero, suc, ◌+◌, ◌-◌, Bool, true, false, ◌&&◌, Option, none, some, List, [], ◌∷◌, if◌then◌else◌,
}
use spl.Taskq.{Ent, Taskq, World}
use spl.Taskq.Alloc.{task_free}
use spl.Taskq.Worker.{thread_enter, thread_exit}

-- What other threads do to the queue in the waits of taskq_destroy: for dynamic_taskq and for the tasks,
-- and for threads that are being spawned.
pub record Waits : Type 0 where
  pub waited : Taskq → Taskq
  pub spawned : Taskq → Taskq

-- kthread_stop of the first thread on the list, until there is none. A thread without a task leaves its
-- loop.
unfoldable pub stop_threads : List ℕ → Taskq → Taskq
stop_threads [] tq = tq
stop_threads (tid ∷ tids) tq = stop_threads tids (thread_exit tq tid)

unfoldable pub free_pool : List Ent → Taskq → Taskq
free_pool [] tq = tq
free_pool (t ∷ ts) tq = free_pool ts (task_free (record tq { free_list = ts }))

-- The queue that the assertions of taskq_destroy see.
unfoldable pub taskq_destroy : Waits → Taskq → Taskq
unfolding stop_threads free_pool
taskq_destroy d tq =
    let q = d.spawned (d.waited (record tq { is_active = false })) in
    let r = stop_threads q.thread_list q in free_pool r.free_list r

-- taskq_thread_create for each thread, the first of which has the number `tid`: how many have been made,
-- and `rc`. All that have been made enter the queue before the wait for them is over.
unfoldable pub start_threads :
    (made : ℕ → Bool) (n count : ℕ) (rc : Bool) (tid : ℕ) → Taskq → (ℕ × Bool) × Taskq
start_threads made zero count rc tid tq = ((count, rc), tq)
start_threads made (suc n) count rc tid tq = elim (made tid) [
  | true ↦ start_threads made n (count + 1) rc (tid + 1) (thread_enter tq tid).1
  | false ↦ start_threads made n count true (tid + 1) tq
]

unfoldable pub first_threads : World → ℕ → Taskq → ℕ
first_threads w nthreads tq = if tq.dynamic && w.thread_dynamic then 1 else nthreads

-- taskq_create from its threads on: the queue or NULL, and the queue as it is left.
unfoldable pub start_queue :
    World → Waits → (made : ℕ → Bool) (nthreads : ℕ) → Taskq → Option Taskq × Taskq
unfolding start_threads first_threads taskq_destroy
start_queue w d made nthreads tq =
    let ((count, rc), p) = start_threads made (first_threads w nthreads tq) 0 false 0 tq in
    let q = record p { nspawn = 0 } in if rc then (none, taskq_destroy d q) else (some q, q)
