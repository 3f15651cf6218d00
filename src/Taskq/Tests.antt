-- ===== src/Taskq/Tests.antt =====
-- The theorems on task queues at small queues.
mod Threads
mod Endings
use spl.Prelude.{
  ℕ, ◌+◌, ◌≤◌, ◌<◌, ◌≡◌, refl, ◌≢◌, ◌↔◌, true, false, none, some, [], ◌∷◌, length, arith,
}
use spl.Ordered.{count}
use spl.Taskq.{Ent, ent_id, Taskq, DispatchFlags, World}
use spl.Taskq.Alloc.{task_km_flags, alloc_new, alloc_full, alloc_free, alloc_retry, task_alloc}
use spl.Taskq.Find.{
  taskq_lowest_id, taskq_find, taskq_next_ent, head_of, taskq_wait_check,
  taskq_wait_outstanding_check, taskq_wait_id_check, outstanding_target,
}
use spl.Taskq.Spawn.{
  taskq_thread_spawn, taskq_thread_spawn_task, taskq_thread_should_stop, is_first, is_none,
}
use spl.Taskq.Dispatch.{
  spawn_if_full, noqueue_room, fill_ent, dispatch_queue, dispatch_alloc, dispatch_body,
  taskq_dispatch, taskq_dispatch_delay, taskq_dispatch_ent,
}
use spl.Taskq.Cancel.{taskq_cancel_id}
use spl.Taskq.Worker.{thread_enter, thread_exit}
use spl.Taskq.Ledger.{Least, Ledger-keep}
use spl.Taskq.Invariant.{Inv, outstanding}
use spl.Taskq.Invariant.Live.{IsLive, Keeps}
use spl.Taskq.Invariant.Dispatched.{
  Dispatched, taskq_dispatch-Dispatched, taskq_dispatch_delay-Dispatched, EntDispatched,
  taskq_dispatch_ent-EntDispatched,
}
use spl.Taskq.Invariant.Lowest.{taskq_lowest_id-Least, Located, taskq_find-Located}
use spl.Taskq.Waiting.{
  taskq_wait_check_iff, taskq_wait_outstanding_check_iff, outstanding_target-zero,
  taskq_wait_id_check_iff,
}
use spl.Taskq.Canceling.{Canceled, Waiting, taskq_cancel_id-Canceled}
use spl.Taskq.Sleeping.{taskq_dispatch-succeeds}
use spl.Taskq.Noqueue.{noqueue_hides}
use spl.Taskq.Create.{scale_threads, new_taskq, prepopulate, create_queue}
use spl.Taskq.Create.Pool.{new_taskq-Inv, prepopulate-pool, create_queue-Inv}
use spl.Taskq.System.{Step, Step-Inv, Reach, Reach-wait_iff}
use spl.Taskq.Threads.{
  Counted, taskq_thread_spawn-Counted, spawn_task-Counted, thread_enter-Counted, spawn_turned_down,
  should_stop_safe,
}

-- Memory is there, and no other thread interferes.
abbrev pub quiet : World
quiet = record {
  jiffies = 1000;
  kmem_alloc = λ f. true;
  polled = λ k q. q;
  allocating = λ q. q;
  deleting = λ q. q;
  waiting = λ i q. q;
  accepted = true;
  sequential = 4;
  thread_dynamic = true;
}

abbrev plain : DispatchFlags
plain = record {
  nosleep = false;
  pushpage = false;
  noqueue = false;
  noalloc = false;
  fresh = false;
  front = false;
}

quiet-Keeps : Keeps quiet
quiet-Keeps = record { polled = λ k q v. v; allocating = λ q v. v }

-- A created queue, and the same with one and two tasks.
abbrev empty : Taskq
empty = new_taskq 4 2 8 true

empty-IsLive : IsLive empty
unfolding new_taskq
empty-IsLive = record { inv = new_taskq-Inv 4 2 8 true; id_left = omega arith }

abbrev one : Taskq
one = (taskq_dispatch quiet empty 70 1 plain).1

one-Inv : Inv one
one-Inv = (taskq_dispatch-Dispatched quiet plain quiet-Keeps empty 70 1 refl empty-IsLive).0

one_next : one.next_id ≡ 2
unfolding taskq_dispatch dispatch_body dispatch_alloc dispatch_queue noqueue_room spawn_if_full
    taskq_thread_spawn task_alloc alloc_retry alloc_full alloc_free alloc_new new_taskq fill_ent
one_next = refl

one-IsLive : IsLive one
one-IsLive = record { inv = one-Inv; id_left = omega (arith, one_next) }

taskq_wait_outstanding_check_iff_example :
    (taskq_wait_outstanding_check one 1 ≡ true) ↔ ((j : ℕ) → j ≤ 1 → outstanding one j ≡ 0)
taskq_wait_outstanding_check_iff_example =
    taskq_wait_outstanding_check_iff one 1 one-Inv (omega (arith, one_next))

-- When the wait for a task is over, all tasks are done.
abbrev done_wait : World
done_wait = record quiet { waiting = λ i q. empty }

done_wait-Waiting : Waiting done_wait 1
unfolding new_taskq
done_wait-Waiting = record {
  deleting = λ q v. v;
  gone = λ q j l h. h;
  waiting = λ q v. empty-IsLive.inv;
  over = λ q. (taskq_wait_id_check_iff empty 1 empty-IsLive.inv).1 refl;
}

taskq_cancel_id-Canceled_example :
    Inv (taskq_cancel_id done_wait one 1).1 × Canceled one 1 (taskq_cancel_id done_wait one 1)
taskq_cancel_id-Canceled_example =
    taskq_cancel_id-Canceled done_wait 1 done_wait-Waiting one one-Inv

taskq_dispatch-Dispatched_example : Dispatched (taskq_dispatch quiet one 71 2 plain)
taskq_dispatch-Dispatched_example =
    taskq_dispatch-Dispatched quiet plain quiet-Keeps one 71 2 refl one-IsLive

abbrev own : Ent
own = record {
  id = 0;
  func = none;
  arg = 0;
  prealloc = false;
  cancel = false;
  birth = 0;
  expires = 0;
  armed = false;
}

taskq_dispatch-succeeds_example : (taskq_dispatch quiet empty 71 2 plain).0 ≢ 0
unfolding new_taskq
taskq_dispatch-succeeds_example =
    taskq_dispatch-succeeds quiet plain refl refl refl empty 71 2 quiet-Keeps empty-IsLive refl refl

-- A queue with a free entry, an idle thread and a task on the priority list.
abbrev front : Taskq
front = record one { free_list = own ∷ []; nthreads = 2; pend_list = []; prio_list = one.pend_list }

one_lists :
    (one.nactive ≡ 0)
    × (one.is_active ≡ true)
    × (count ent_id 1 one.pend_list ≡ 1)
    × (one.prio_list ≡ [])
    × (one.delay_list ≡ [])
    × (one.active_list ≡ [])
unfolding taskq_dispatch dispatch_body dispatch_alloc dispatch_queue noqueue_room spawn_if_full
    taskq_thread_spawn task_alloc alloc_retry alloc_full alloc_free alloc_new new_taskq fill_ent
one_lists = (refl, refl, refl, refl, refl, refl)

front-Inv : Inv front
unfolding taskq_dispatch dispatch_body dispatch_alloc dispatch_queue noqueue_room spawn_if_full
    taskq_thread_spawn task_alloc alloc_retry alloc_full alloc_free alloc_new new_taskq fill_ent
front-Inv = record {
  pend = tt;
  prio = one-Inv.pend;
  delay = one-Inv.delay;
  active = one-Inv.active;
  ledger =
      Ledger-keep (outstanding one) (outstanding front) one.next_id one.lowest_id (λ i. omega arith)
        one-Inv.ledger;
}

abbrev no_queue : DispatchFlags
no_queue = record plain { noqueue = true }

noqueue_hides_example :
    let q = (taskq_dispatch quiet front 71 2 no_queue).1 in
    (taskq_wait_id_check q 1 ≡ true) × (0 < outstanding q 1)
noqueue_hides_example =
    let (a, b, c, _, _, _) = one_lists in
    noqueue_hides quiet front 71 2 no_queue own [] 1 front-Inv b (omega (arith, a)) refl refl refl
      (omega (arith, c))

made_empty : create_queue quiet 4 false 4 2 8 true false ≡ some empty
unfolding create_queue scale_threads new_taskq
made_empty = refl

one-Step : Step empty one
unfolding new_taskq
one-Step = Step.dispatch quiet 70 1 plain quiet-Keeps (omega arith) refl

Step-Inv_example : Inv one
Step-Inv_example = Step-Inv one-Step empty-IsLive.inv

Reach-wait_iff_example : (taskq_wait_check one ≡ true) ↔ ((i : ℕ) → outstanding one i ≡ 0)
Reach-wait_iff_example =
    Reach-wait_iff quiet 4 false 4 2 8 true false quiet-Keeps made_empty
      (Reach.later Reach.created one-Step)
