-- ===== src/Taskq.antt =====
-- The task queues of module/spl/spl-taskq.c: `taskq_t`, `taskq_ent_t` and `taskq_thread_t` of
-- include/spl/sys/taskq.h as records, the kernel lists as lists from head to tail. What a function
-- does under `tq_lock` is a function of the queue; where it drops the lock, what the other threads
-- do meanwhile is a function of the `World`. The children hold the operations and their proofs.
pub mod Alloc
pub mod Find
pub mod Spawn
pub mod Dispatch
pub mod Cancel
pub mod Worker
pub mod Ledger
pub mod Invariant
pub mod Waiting
pub mod Canceling
pub mod Sleeping
pub mod Noqueue
pub mod Create
pub mod Ending
pub mod Kick
pub mod System
pub mod Threads
mod Tests
use spl.Prelude.{ℕ, ◌+◌, ◌%◌, ◌^◌, Bool, Option, List}

-- `taskq_ent_t`. `func` is `none` for NULL; `armed` is timer_pending().
pub record Ent : Type 0 where
  pub id : ℕ
  pub func : Option ℕ
  pub arg : ℕ
  pub prealloc : Bool  -- TQENT_FLAG_PREALLOC
  pub cancel : Bool  -- TQENT_FLAG_CANCEL
  pub birth : ℕ
  pub expires : ℕ
  pub armed : Bool

abbrev pub ent_id : Ent → ℕ
ent_id t = t.id

-- `taskq_thread_t`; `tid` stands for its address.
pub record Thread : Type 0 where
  pub tid : ℕ
  pub id : ℕ
  pub task : Option Ent
  pub prealloc : Bool  -- the PREALLOC bit of `tqt_flags`

abbrev pub thread_id : Thread → ℕ
thread_id t = t.id

-- `taskq_t`. The counters are C ints, which stay far from their limits; each decrement is made at a
-- positive counter (`Invariant`, `Threads`). `requests` counts the calls of taskq_thread_spawn_task
-- for this queue that are queued on `dynamic_taskq`, which is another queue.
pub record Taskq : Type 0 where
  pub thread_list : List ℕ
  pub active_list : List Thread
  pub nactive : ℕ
  pub nthreads : ℕ
  pub nspawn : ℕ
  pub maxthreads : ℕ
  pub minalloc : ℕ
  pub maxalloc : ℕ
  pub nalloc : ℕ
  pub is_active : Bool  -- TASKQ_ACTIVE
  pub dynamic : Bool  -- TASKQ_DYNAMIC
  pub next_id : ℕ
  pub lowest_id : ℕ
  pub free_list : List Ent
  pub pend_list : List Ent
  pub prio_list : List Ent
  pub delay_list : List Ent
  pub requests : ℕ

-- The flags of taskq_dispatch, a Boolean for each bit.
pub record DispatchFlags : Type 0 where
  pub nosleep : Bool  -- TQ_NOSLEEP
  pub pushpage : Bool  -- TQ_PUSHPAGE
  pub noqueue : Bool  -- TQ_NOQUEUE
  pub noalloc : Bool  -- TQ_NOALLOC
  pub fresh : Bool  -- TQ_NEW
  pub front : Bool  -- TQ_FRONT

pub data KmFlags : Type 0 where
  km_nosleep km_pushpage km_sleep : KmFlags

-- What the code meets outside the queue: the clock, the allocator, what other threads do to the
-- queue while the lock is dropped, whether `dynamic_taskq` takes a request, and two tunables.
pub record World : Type 0 where
  pub jiffies : ℕ
  pub kmem_alloc : KmFlags → Bool  -- whether memory is got
  pub polled : ℕ → Taskq → Taskq  -- during the sleep with so many retries left
  pub allocating : Taskq → Taskq  -- during kmem_alloc
  pub deleting : Taskq → Taskq  -- during del_timer_sync
  pub waiting : ℕ → Taskq → Taskq  -- during taskq_wait_id of an id
  pub accepted : Bool  -- the dispatch to `dynamic_taskq` returns an id
  pub sequential : ℕ  -- spl_taskq_thread_sequential
  pub thread_dynamic : Bool  -- spl_taskq_thread_dynamic

abbrev pub invalid_id : ℕ
invalid_id = 0

abbrev pub initial_id : ℕ
initial_id = 1

-- `tq_next_id++` on an unsigned long of 64 bits
abbrev pub succ_id : ℕ → ℕ
succ_id i = (i + 1) % 2 ^ 64
