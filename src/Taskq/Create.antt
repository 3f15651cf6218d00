-- ===== src/Taskq/Create.antt =====
-- taskq_create up to the start of its threads, and the pool of entries that it prepares.
pub mod Pool
use spl.Prelude.{
  ℕ, zero, suc, ◌+◌, ◌*◌, ◌/◌, ◌≤◌, ◌<◌, ◌≡◌, refl, Bool, true, false, ◌&&◌, Option, none, some,
  List, [], ◌∷◌, ◌++◌, if◌then◌else◌, ltb, leb, arith, length, length-append, min, max, Bool-cases,
  Option-cases, if_elim, subst, ◌^◌, ◌-◌, ◌≢◌,
}
use spl.Taskq.{Ent, Taskq, DispatchFlags, World, initial_id}
use spl.Taskq.Alloc.{
  task_alloc, task_done, task_km_flags, alloc_retry, alloc_full, alloc_free, alloc_new, init_ent,
}

-- TASKQ_THREADS_CPU_PCT takes `nthreads` as a percentage of the online CPUs, at least one.
unfoldable pub scale_threads : ℕ → Bool → ℕ → ℕ
scale_threads online pct nthreads =
    if pct then max ((online * min nthreads 100) / 100) 1 else nthreads

-- The record as it is filled in before any entry or thread is made.
unfoldable pub new_taskq : ℕ → ℕ → ℕ → Bool → Taskq
new_taskq nthreads minalloc maxalloc dynamic = record {
  thread_list = [];
  active_list = [];
  nactive = 0;
  nthreads = 0;
  nspawn = 0;
  maxthreads = nthreads;
  minalloc = minalloc;
  maxalloc = maxalloc;
  nalloc = 0;
  is_active = true;
  dynamic = dynamic;
  next_id = initial_id;
  lowest_id = initial_id;
  free_list = [];
  pend_list = [];
  prio_list = [];
  delay_list = [];
  requests = 0;
}

-- TQ_PUSHPAGE | TQ_NEW
abbrev pub prepopulate_flags : DispatchFlags
prepopulate_flags = record {
  nosleep = false;
  pushpage = true;
  noqueue = false;
  noalloc = false;
  fresh = true;
  front = false;
}

-- for (i = 0; i < minalloc; i++) task_done(tq, task_alloc(...)); `none` is a fault, at a NULL entry.
unfoldable pub prepopulate : World → ℕ → Taskq → Option Taskq
prepopulate w zero tq = some tq
prepopulate w (suc k) tq =
    let (t, q) = task_alloc w tq prepopulate_flags in
    elim t [ none ↦ none | some e ↦ prepopulate w k (task_done q e) ]

unfoldable pub create_queue : World → ℕ → Bool → ℕ → ℕ → ℕ → Bool → Bool → Option Taskq
unfolding scale_threads new_taskq prepopulate
create_queue w online pct nthreads minalloc maxalloc dynamic prepop =
    let tq = new_taskq (scale_threads online pct nthreads) minalloc maxalloc dynamic in
    if prepop then prepopulate w minalloc tq else some tq
