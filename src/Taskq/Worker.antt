-- ===== src/Taskq/Worker.antt =====
-- taskq_thread, cut where the lock is dropped: a thread's entry, its taking of a task, what it does
-- when the task's function has returned, and its exit.
use spl.Prelude.{
  ℕ, ◌+◌, ◌-◌, Bool, true, false, Option, none, some, List, [], ◌∷◌, ◌++◌, ◌==◌, ltb, leb,
  if◌then◌else◌,
}
use spl.Ordered.{remove}
use spl.Taskq.{Ent, Thread, thread_id, Taskq, World}
use spl.Taskq.Alloc.{task_done}
use spl.Taskq.Find.{Place, taskq_next_ent, unlink, taskq_insert_in_order}
use spl.Taskq.Spawn.{taskq_thread_spawn}
use spl.Taskq.Cancel.{update_lowest}

-- A new thread counts itself in, or leaves at once if there are enough. During taskq_create the
-- decrement brings the C int below zero; taskq_create sets it to zero afterwards, and nothing
-- reads it before.
unfoldable pub thread_enter : Taskq → ℕ → Bool × Taskq
thread_enter tq tid =
    let q = if tq.dynamic then record tq { nspawn = tq.nspawn - 1 } else tq in
    if leb q.maxthreads q.nthreads
    then (false, q)
    else (true, record q { nthreads = q.nthreads + 1; thread_list = q.thread_list ++ tid ∷ [] })

-- The copy on the stack that stands for a preallocated entry: two fields are filled in.
unfoldable pub dup_task : Ent → Ent
dup_task t = record {
  id = 0;
  func = t.func;
  arg = t.arg;
  prealloc = false;
  cancel = false;
  birth = 0;
  expires = 0;
  armed = false;
}

-- The thread with the task that it runs.
unfoldable pub running : ℕ → Ent → Thread
unfolding dup_task
running tid t = record {
  tid = tid;
  id = t.id;
  task = some (if t.prealloc then dup_task t else t);
  prealloc = t.prealloc;
}

-- The task goes from its list to the thread, which is put on the active list.
unfoldable pub start_task : Taskq → ℕ → Place → Ent → Taskq
unfolding running
start_task tq tid p t =
    let q = taskq_insert_in_order (unlink p t.id tq) (running tid t) in
    record q { nactive = q.nactive + 1 }

-- The next task, if there is one.
unfoldable pub thread_take : Taskq → ℕ → Option (Thread × Taskq)
unfolding start_task
thread_take tq tid = elim (taskq_next_ent tq) [
  | none ↦ none
  | some (p, t) ↦ some (running tid t, start_task tq tid p t)
]

-- The entry of a task that was not preallocated goes back to the queue.
unfoldable pub return_ent : Taskq → Thread → Taskq
return_ent tq tqt = elim tqt.task [
  | none ↦ tq
  | some t ↦ if tqt.prealloc then tq else task_done tq t
]

-- The thread leaves the active list (its node is the one with its task's id), the entry goes back,
-- and the lowest id follows.
unfoldable pub finish_task : Taskq → Thread → Taskq
unfolding return_ent update_lowest
finish_task tq tqt = update_lowest tqt.id (return_ent off tqt)
  where
    off : Taskq
    off = record tq {
      nactive = tq.nactive - 1;
      active_list = remove thread_id tqt.id tq.active_list;
    }

-- After the task's function: the number of tasks in sequence, and the queue.
unfoldable pub thread_finish : World → Taskq → Thread → ℕ → ℕ × Taskq
unfolding finish_task
thread_finish w tq tqt seq_tasks =
    let q = finish_task tq tqt in
    if ltb w.sequential (seq_tasks + 1)
    then (let (n, r) = taskq_thread_spawn w q in (if n == 0 then seq_tasks + 1 else 0, r))
    else (seq_tasks + 1, q)

unfoldable pub drop_thread : ℕ → List ℕ → List ℕ
drop_thread tid [] = []
drop_thread tid (t ∷ ts) = if t == tid then ts else t ∷ drop_thread tid ts

unfoldable pub thread_exit : Taskq → ℕ → Taskq
unfolding drop_thread
thread_exit tq tid = record tq {
  nthreads = tq.nthreads - 1;
  thread_list = drop_thread tid tq.thread_list;
}
