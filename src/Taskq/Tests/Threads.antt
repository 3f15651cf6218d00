-- ===== src/Taskq/Tests/Threads.antt =====
-- The theorems on the threads of a dynamic queue.
use spl.Prelude.{refl, true, false, [], ◌∷◌, arith}
use spl.Taskq.{Taskq, World}
use spl.Taskq.Threads.{Counted}
use spl.Taskq.Tests.{quiet}

-- A dynamic queue with two threads, of four at most.
abbrev pair : Taskq
pair = record {
  thread_list = 11 ∷ 12 ∷ [];
  active_list = [];
  nactive = 0;
  nthreads = 2;
  nspawn = 0;
  maxthreads = 4;
  minalloc = 2;
  maxalloc = 8;
  nalloc = 0;
  is_active = true;
  dynamic = true;
  next_id = 1;
  lowest_id = 1;
  free_list = [];
  pend_list = [];
  prio_list = [];
  delay_list = [];
  requests = 0;
}

pair-Counted : Counted pair 0
pair-Counted = record { spawning = refl; listed = refl; bounded = omega arith; is_dynamic = refl }

-- One request is on its way, and another has become a thread that has not entered.
abbrev growing : Taskq
growing = record pair { nspawn = 2; requests = 1 }

growing-Counted : Counted growing 1
growing-Counted = record {
  spawning = refl;
  listed = refl;
  bounded = omega arith;
  is_dynamic = refl;
}

abbrev full_queue : World
full_queue = record quiet { accepted = false }
