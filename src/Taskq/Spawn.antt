-- ===== src/Taskq/Spawn.antt =====
-- taskq_thread_spawn, taskq_thread_spawn_task and taskq_thread_should_stop.
use spl.Prelude.{
  ℕ, ◌+◌, ◌-◌, Bool, true, false, ◌&&◌, not, Option, none, some, List, [], ◌∷◌, ◌==◌, ltb,
  if◌then◌else◌,
}
use spl.Taskq.{Taskq, World}
use spl.Taskq.Find.{taskq_next_ent}

-- The spawning count that is returned, and the queue. The dispatch to `dynamic_taskq` may fail, and
-- its result is not looked at.
unfoldable pub taskq_thread_spawn : World → Taskq → ℕ × Taskq
taskq_thread_spawn w tq =
    if not tq.dynamic
    then (0, tq)
    else if ltb (tq.nthreads + tq.nspawn) tq.maxthreads && tq.is_active
    then (
      tq.nspawn + 1,
      record tq {
        nspawn = tq.nspawn + 1;
        requests = if w.accepted then tq.requests + 1 else tq.requests;
      },
    )
    else (0, tq)

-- A request is served on `dynamic_taskq`; `created` is the result of taskq_thread_create.
unfoldable pub taskq_thread_spawn_task : Bool → Taskq → Taskq
taskq_thread_spawn_task created tq =
    let served = record tq { requests = tq.requests - 1 } in
    if created then served else record served { nspawn = served.nspawn - 1 }

unfoldable pub is_none {ℓ} : {A : Type ℓ} → Option A → Bool
is_none none = true
is_none (some a) = false

-- list_first_entry of the threads is this thread
unfoldable pub is_first : List ℕ → ℕ → Bool
is_first [] tid = false
is_first (t ∷ ts) tid = t == tid

unfoldable pub taskq_thread_should_stop : World → Taskq → ℕ → Bool
unfolding is_none is_first
taskq_thread_should_stop w tq tid =
    if not tq.dynamic
    then false
    else if is_first tq.thread_list tid
    then false
    else tq.nspawn == 0
      && (tq.nactive == 0
          && (ltb 1 tq.nthreads && (is_none (taskq_next_ent tq) && w.thread_dynamic)))
