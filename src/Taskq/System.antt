-- ===== src/Taskq/System.antt =====
-- A task queue under any interleaving of dispatches, expiries, worker threads and cancels.
use spl.Prelude.{ℕ, ◌+◌, ◌^◌, ◌<◌, ◌≡◌, Bool, true, false, some, ◌↔◌, arith}
use spl.Ordered.{count}
use spl.Taskq.{Ent, ent_id, Thread, thread_id, Taskq, DispatchFlags, World}
use spl.Taskq.Find.{taskq_wait_check, task_expire_impl}
use spl.Taskq.Dispatch.{taskq_dispatch, taskq_dispatch_delay, taskq_dispatch_ent}
use spl.Taskq.Cancel.{taskq_cancel_id}
use spl.Taskq.Spawn.{taskq_thread_spawn_task}
use spl.Taskq.Worker.{thread_enter, thread_take, thread_finish, thread_exit}
use spl.Taskq.Create.{create_queue}
use spl.Taskq.Create.Pool.{create_queue-Inv}
use spl.Taskq.Invariant.{Inv, outstanding, SameQueues, Inv-same}
use spl.Taskq.Invariant.Live.{Keeps}
use spl.Taskq.Invariant.Dispatched.{
  taskq_dispatch-Dispatched, taskq_dispatch_delay-Dispatched, taskq_dispatch_ent-EntDispatched,
}
use spl.Taskq.Invariant.Tasks.{task_expire_impl-Inv, thread_take-Inv, thread_finish-Inv}
use spl.Taskq.Canceling.{taskq_cancel_id-Inv}
use spl.Taskq.Waiting.{taskq_wait_check_iff}

-- One call. A timer runs out for an entry of the delay list; a function returns to a thread of the
-- active list. No more than 2^64 - 2 ids are given out. Other threads' calls while a dispatch or a
-- cancel has dropped the lock are the `World`'s.
pub data Step (tq : Taskq) : Taskq → Type 0 where
  dispatch :
      (w : World) (func arg : ℕ) (fl : DispatchFlags)
      → Keeps w
      → tq.next_id + 1 < 2 ^ 64
      → fl.noqueue ≡ false
      → Step tq (taskq_dispatch w tq func arg fl).1
  dispatch_delay :
      (w : World) (func arg : ℕ) (fl : DispatchFlags) (expire_time : ℕ)
      → Keeps w
      → tq.next_id + 1 < 2 ^ 64
      → Step tq (taskq_dispatch_delay w tq func arg fl expire_time).1
  dispatch_ent :
      (w : World) (func arg : ℕ) (fl : DispatchFlags) (t : Ent)
      → Keeps w
      → tq.next_id + 1 < 2 ^ 64
      → Step tq (taskq_dispatch_ent w tq func arg fl t).1
  expire :
      (w : World) (t : Ent)
      → 0 < count ent_id t.id tq.delay_list
      → Step tq (task_expire_impl w tq t)
  take : (tid : ℕ) {tqt : Thread} {q : Taskq} → thread_take tq tid ≡ some (tqt, q) → Step tq q
  finish :
      (w : World) (tqt : Thread) (seq_tasks : ℕ)
      → 0 < count thread_id tqt.id tq.active_list
      → Step tq (thread_finish w tq tqt seq_tasks).1
  cancel :
      (w : World) (i : ℕ)
      → ((q : Taskq) → Inv q → Inv (w.deleting q))
      → ((q : Taskq) → Inv q → Inv (w.waiting i q))
      → Step tq (taskq_cancel_id w tq i).1
  enter : (tid : ℕ) → Step tq (thread_enter tq tid).1
  exit : (tid : ℕ) → Step tq (thread_exit tq tid)
  spawn_task : (made : Bool) → Step tq (taskq_thread_spawn_task made tq)

pub data Reach (start : Taskq) : Taskq → Type 0 where
  created : Reach start start
  later : {tq q : Taskq} → Reach start tq → Step tq q → Reach start q

thread_enter-SameQueues : (tq : Taskq) (tid : ℕ) → SameQueues (thread_enter tq tid).1 tq
unfolding thread_enter
thread_enter-SameQueues tq tid = ground arith

spawn_task-SameQueues : (tq : Taskq) (made : Bool) → SameQueues (taskq_thread_spawn_task made tq) tq
unfolding taskq_thread_spawn_task
spawn_task-SameQueues tq made = ground arith

thread_exit-SameQueues : (tq : Taskq) (tid : ℕ) → SameQueues (thread_exit tq tid) tq
unfolding thread_exit
thread_exit-SameQueues tq tid = ground arith

-- Every call of `Step` keeps the queue's invariant: the pending, priority, delay and active lists
-- are in id order, an id is on them once at most, only ids below the next one are, and the lowest id
-- is the least outstanding one, or the next id if there is none. A dispatch is without TQ_NOQUEUE,
-- and what other threads do while a call has dropped the lock or waits keeps the invariant.
pub Step-Inv : {tq q : Taskq} → Step tq q → Inv tq → Inv q
Step-Inv {tq} (dispatch w func arg fl k b n) v =
    (taskq_dispatch-Dispatched w fl k tq func arg n (record { inv = v; id_left = b })).0
Step-Inv {tq} (dispatch_delay w func arg fl e k b) v =
    (taskq_dispatch_delay-Dispatched w fl k tq func arg e (record { inv = v; id_left = b })).0
Step-Inv {tq} (dispatch_ent w func arg fl t k b) v =
    (taskq_dispatch_ent-EntDispatched w fl k tq func arg t (record { inv = v; id_left = b })).0
Step-Inv {tq} (expire w t h) v = task_expire_impl-Inv w tq t v h
Step-Inv {tq} (take tid e) v = thread_take-Inv tq tid v e
Step-Inv {tq} (finish w tqt s h) v = thread_finish-Inv w tq tqt s v h
Step-Inv {tq} (cancel w i k g) v = taskq_cancel_id-Inv w tq i k g v
Step-Inv {tq} (enter tid) v = Inv-same (thread_enter-SameQueues tq tid) v
Step-Inv {tq} (exit tid) v = Inv-same (thread_exit-SameQueues tq tid) v
Step-Inv {tq} (spawn_task c) v = Inv-same (spawn_task-SameQueues tq c) v

Reach-Inv : {s tq : Taskq} → Inv s → Reach s tq → Inv tq
Reach-Inv v created = v
Reach-Inv v (later r st) = Step-Inv st (Reach-Inv v r)

-- Take a queue that taskq_create made, with or without its pool filled, and any sequence of calls on
-- it: dispatches without TQ_NOQUEUE, delayed dispatches, dispatches of a caller's own entry, timers
-- that run out, threads that enter, take a task, finish one or stop, spawn requests and cancels,
-- with fewer than 2^64 - 1 ids given out, where what other threads do while a call has dropped the
-- lock or waits keeps the invariant. In the state that is reached, the check of taskq_wait holds
-- exactly when no id is outstanding.
pub Reach-wait_iff :
    (w : World) (online : ℕ) (pct : Bool) (nthreads minalloc maxalloc : ℕ) (dynamic prepop : Bool)
    {start tq : Taskq}
    → Keeps w
    → create_queue w online pct nthreads minalloc maxalloc dynamic prepop ≡ some start
    → Reach start tq
    → (taskq_wait_check tq ≡ true) ↔ ((i : ℕ) → outstanding tq i ≡ 0)
Reach-wait_iff w online pct nthreads minalloc maxalloc dynamic prepop {start} {tq} keeps e r =
    taskq_wait_check_iff tq (
      Reach-Inv (create_queue-Inv w online pct nthreads minalloc maxalloc dynamic prepop keeps e) r)
