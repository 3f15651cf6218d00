-- ===== src/Taskq/Dispatch.antt =====
-- taskq_dispatch, taskq_dispatch_delay and taskq_dispatch_ent.
use spl.Prelude.{
  ℕ, Bool, true, false, ◌&&◌, ◌||◌, not, none, some, [], ◌∷◌, ◌++◌, ◌==◌, if◌then◌else◌,
}
use spl.Taskq.{Ent, Taskq, DispatchFlags, World, invalid_id, succ_id}
use spl.Taskq.Alloc.{task_alloc}
use spl.Taskq.Spawn.{taskq_thread_spawn}

-- Label `out` spawns a thread where all are at work.
unfoldable pub spawn_if_full : World → Taskq → Taskq
spawn_if_full w tq = if tq.nactive == tq.nthreads then (taskq_thread_spawn w tq).1 else tq

-- TQ_NOQUEUE wants an idle thread, or for a dynamic queue one that can be spawned: whether the task
-- may be queued.
unfoldable pub noqueue_room : World → Taskq → DispatchFlags → Bool × Taskq
noqueue_room w tq fl =
    if fl.noqueue && tq.nactive == tq.nthreads
    then (if not tq.dynamic
        then (false, tq)
        else (let (n, tq') = taskq_thread_spawn w tq in (not (n == 0), tq')))
    else (true, tq)

-- What an entry gets when it is queued to run at once.
unfoldable pub fill_ent : World → Taskq → ℕ → ℕ → Ent → Ent
fill_ent w tq func arg t = record t {
  id = tq.next_id;
  func = some func;
  arg = arg;
  expires = 0;
  birth = w.jiffies;
}

-- The queueing of an entry, under its lock.
unfoldable pub dispatch_queue : World → Taskq → ℕ → ℕ → DispatchFlags → Ent → Taskq
unfolding fill_ent
dispatch_queue w tq func arg fl t =
    let t' = fill_ent w tq func arg t in
    let q = record tq { next_id = succ_id tq.next_id } in
    if fl.noqueue
    then record q { prio_list = t' ∷ tq.prio_list }
    else if fl.front
    then record q { prio_list = tq.prio_list ++ t' ∷ [] }
    else record q { pend_list = tq.pend_list ++ t' ∷ [] }

-- From task_alloc on: the id that is returned, and the queue at label `out`.
unfoldable pub dispatch_alloc : World → Taskq → ℕ → ℕ → DispatchFlags → ℕ × Taskq
unfolding dispatch_queue
dispatch_alloc w tq func arg fl =
    let (t, q) = task_alloc w tq fl in
    elim t [ none ↦ (invalid_id, q) | some e ↦ (q.next_id, dispatch_queue w q func arg fl e) ]

unfoldable pub dispatch_body : World → Taskq → ℕ → ℕ → DispatchFlags → ℕ × Taskq
unfolding noqueue_room
dispatch_body w tq func arg fl =
    if not tq.is_active
    then (invalid_id, tq)
    else let (room, q) = noqueue_room w tq fl in
      if room then dispatch_alloc w q func arg fl else (invalid_id, q)

unfoldable pub taskq_dispatch : World → Taskq → ℕ → ℕ → DispatchFlags → ℕ × Taskq
unfolding spawn_if_full
taskq_dispatch w tq func arg fl =
    let (rc, q) = dispatch_body w tq func arg fl in
    (rc, if fl.noqueue then q else spawn_if_full w q)

unfoldable pub delay_queue : Taskq → ℕ → ℕ → ℕ → Ent → Taskq
delay_queue tq func arg expire_time t = record tq {
  delay_list = tq.delay_list ++ delayed ∷ [];
  next_id = succ_id tq.next_id;
}
  where
    delayed : Ent
    delayed = record t {
      id = tq.next_id;
      func = some func;
      arg = arg;
      expires = expire_time;
      armed = true;
    }

unfoldable pub delay_body : World → Taskq → ℕ → ℕ → DispatchFlags → ℕ → ℕ × Taskq
unfolding delay_queue
delay_body w tq func arg fl expire_time =
    if not tq.is_active
    then (invalid_id, tq)
    else let (t, q) = task_alloc w tq fl in
      elim t [ none ↦ (invalid_id, q) | some e ↦ (q.next_id, delay_queue q func arg expire_time e) ]

unfoldable pub taskq_dispatch_delay : World → Taskq → ℕ → ℕ → DispatchFlags → ℕ → ℕ × Taskq
unfolding delay_body spawn_if_full
taskq_dispatch_delay w tq func arg fl expire_time =
    let (rc, q) = delay_body w tq func arg fl expire_time in (rc, spawn_if_full w q)

-- A caller's own entry: marked, filled in and queued.
unfoldable pub ent_queue : World → Taskq → ℕ → ℕ → Bool → Ent → Ent × Taskq
ent_queue w tq func arg front t = (
  t',
  if front
      then record tq { prio_list = tq.prio_list ++ t' ∷ []; next_id = succ_id tq.next_id }
      else record tq { pend_list = tq.pend_list ++ t' ∷ []; next_id = succ_id tq.next_id },
)
  where
    t' : Ent
    t' = record t {
      prealloc = true;
      id = tq.next_id;
      func = some func;
      arg = arg;
      birth = w.jiffies;
    }

-- The entry and the queue afterwards. An inactive queue marks the entry invalid; a TQ_NOQUEUE call
-- that finds no room leaves it as it was, and skips the spawning at `out`.
unfoldable pub taskq_dispatch_ent : World → Taskq → ℕ → ℕ → DispatchFlags → Ent → Ent × Taskq
unfolding noqueue_room ent_queue spawn_if_full
taskq_dispatch_ent w tq func arg fl t =
    if not tq.is_active
    then (record t { id = invalid_id }, spawn_if_full w tq)
    else let (room, q) = noqueue_room w tq fl in
      let front = fl.front || (fl.noqueue && tq.nactive == tq.nthreads) in
      let (t', r) = ent_queue w q func arg front t in
      if room then (t', spawn_if_full w r) else (t, q)
