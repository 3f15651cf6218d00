-- ===== src/Taskq/Threads.antt =====
-- How many threads a dynamic queue has and spawns.
use spl.Prelude.{
  ℕ, ◌+◌, ◌≤◌, ◌<◌, ◌≡◌, ◌≢◌, Bool, true, false, [], ◌∷◌, if◌then◌else◌, arith, length,
  length-append,
}
use spl.Taskq.{Taskq, World}
use spl.Taskq.Spawn.{taskq_thread_spawn, taskq_thread_spawn_task, taskq_thread_should_stop}
use spl.Taskq.Find.{taskq_next_ent}
use spl.Taskq.Worker.{thread_enter, thread_exit}

-- `born` counts the threads that have been made and have not entered yet. Each thread that is
-- counted as spawning is a request on `dynamic_taskq` or has been made.
pub record Counted (tq : Taskq) (born : ℕ) : Type 0 where
  pub spawning : tq.nspawn ≡ tq.requests + born
  pub listed : tq.nthreads ≡ length tq.thread_list
  pub bounded : tq.nthreads + tq.nspawn ≤ tq.maxthreads
  pub is_dynamic : tq.dynamic ≡ true

-- For a dynamic queue, taskq_thread_spawn keeps the count of its threads, if `dynamic_taskq` takes
-- the request: each thread that is counted as spawning is a request or has been made and has not
-- entered, and the threads with those that are spawning are at most `maxthreads`.
pub taskq_thread_spawn-Counted :
    (w : World) (tq : Taskq) (born : ℕ)
    → w.accepted ≡ true
    → Counted tq born
    → Counted (taskq_thread_spawn w tq).1 born
unfolding taskq_thread_spawn
taskq_thread_spawn-Counted w tq born a c = ground arith

-- Serving a request keeps the count of a dynamic queue's threads: a thread that is made is one more
-- that has not entered, and one that could not be made is no longer counted as spawning.
pub spawn_task-Counted :
    (tq : Taskq) (born : ℕ) (made : Bool)
    → 0 < tq.requests
    → Counted tq born
    → Counted (taskq_thread_spawn_task made tq) (if made then born + 1 else born)
unfolding taskq_thread_spawn_task
spawn_task-Counted tq born true r c = ground arith
spawn_task-Counted tq born false r c = ground arith

-- A thread that was spawned for a dynamic queue and has not entered finds room: it enters and is
-- counted as a thread, and the count of the queue's threads is kept.
pub thread_enter-Counted :
    (tq : Taskq) (born tid : ℕ)
    → Counted tq (born + 1)
    → ((thread_enter tq tid).0 ≡ true) × Counted (thread_enter tq tid).1 born
unfolding thread_enter
thread_enter-Counted tq born tid c = ground (arith, length-append tq.thread_list (tid ∷ []))

-- When `dynamic_taskq` turns the request of taskq_thread_spawn down, on an active dynamic queue with
-- a right count and room for a thread, more threads are counted as spawning than there are requests
-- and threads that have not entered.
pub spawn_turned_down :
    (w : World) (tq : Taskq) (born : ℕ)
    → w.accepted ≡ false
    → Counted tq born
    → tq.is_active ≡ true
    → tq.nthreads + tq.nspawn < tq.maxthreads
    → let q = (taskq_thread_spawn w tq).1 in q.requests + born < q.nspawn
unfolding taskq_thread_spawn
spawn_turned_down w tq born a c act room = ground arith

-- A thread of a dynamic queue with a right count stops only when no thread is spawning, no task runs
-- and none is on the priority or pending list, and the list of threads is not empty after it has
-- left.
pub should_stop_safe :
    (w : World) (tq : Taskq) (born tid : ℕ)
    → Counted tq born
    → taskq_thread_should_stop w tq tid ≡ true
    → (tq.nspawn ≡ 0)
      × (tq.nactive ≡ 0)
      × (tq.prio_list ≡ [])
      × (tq.pend_list ≡ [])
      × ((thread_exit tq tid).thread_list ≢ [])
unfolding taskq_thread_should_stop thread_exit taskq_next_ent
should_stop_safe w tq born tid c h = ground arith
