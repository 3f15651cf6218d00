-- ===== src/Taskq/Tests/Endings.antt =====
-- Queues that end, at samples.
use spl.Prelude.{◌≡◌, ◌≤◌, refl, true, false, ltb, arith, [], ◌∷◌}
use spl.Taskq.{Taskq}
use spl.Taskq.Find.{taskq_wait_check}
use spl.Taskq.Create.{new_taskq}
use spl.Taskq.Create.Pool.{new_taskq-Inv}
use spl.Taskq.Ending.{Waits, taskq_destroy, first_threads, start_queue, start_threads}
use spl.Taskq.Ending.Ended.{Settled, Ended, taskq_destroy-Ended}
use spl.Taskq.Ending.Started.{Started, start_queue-Started}
use spl.Taskq.Worker.{thread_enter}
use spl.Taskq.Tests.{quiet}

abbrev calm : Waits
calm = record { waited = λ q. q; spawned = λ q. q }

abbrev fixed : Taskq
fixed = new_taskq 4 2 8 false

fixed-Settled : Settled fixed
unfolding new_taskq taskq_wait_check
fixed-Settled = record {
  inv = new_taskq-Inv 4 2 8 false;
  waited = refl;
  nspawn = refl;
  nthreads = refl;
  nalloc = refl;
}

no_threads : fixed.thread_list ≡ []
unfolding new_taskq
no_threads = refl

few_threads : first_threads quiet 4 fixed ≤ fixed.maxthreads
unfolding new_taskq first_threads
few_threads = omega arith

-- The fourth thread cannot be made.
start_queue-Started_example :
    Started
      (λ tid. ltb tid 3)
      (first_threads quiet 4 fixed)
      fixed
      (start_queue quiet calm (λ tid. ltb tid 3) 4 fixed)
start_queue-Started_example =
    start_queue-Started quiet calm (λ tid. ltb tid 3) 4 fixed (λ q. refl) fixed-Settled no_threads
      few_threads

-- A queue of two threads.
abbrev two_threads : Taskq
two_threads = record fixed { nthreads = 2; thread_list = 5 ∷ 9 ∷ []; is_active = false }

two_threads-Settled : Settled two_threads
unfolding new_taskq taskq_wait_check
two_threads-Settled = record {
  inv = record { pend = tt; prio = tt; delay = tt; active = tt; ledger = fixed-Settled.inv.ledger };
  waited = refl;
  nspawn = refl;
  nthreads = refl;
  nalloc = refl;
}

taskq_destroy-Ended_example : Ended (taskq_destroy calm two_threads)
taskq_destroy-Ended_example = taskq_destroy-Ended calm two_threads two_threads-Settled

three_made : (start_threads (λ tid. ltb tid 3) 4 0 false 0 fixed).0 ≡ (3, true)
unfolding start_threads thread_enter new_taskq
three_made = refl
