-- ===== src/Taskq/Cancel.antt =====
-- taskq_cancel_id.
use spl.Prelude.{ℕ, true, false, ◌==◌, if◌then◌else◌}
use spl.Taskq.{Ent, Taskq, World}
use spl.Taskq.Alloc.{task_done}
use spl.Taskq.Find.{Place, queued, busy, missing, taskq_find, unlink, taskq_lowest_id}

-- 0, EBUSY (after a wait for the task) and ENOENT
pub data CancelRc : Type 0 where
  canceled was_busy not_found : CancelRc

-- When the lowest outstanding id goes, it is computed anew.
unfoldable pub update_lowest : ℕ → Taskq → Taskq
update_lowest i tq = if tq.lowest_id == i then record tq { lowest_id = taskq_lowest_id tq } else tq

-- The canceled entry off its list; a preallocated one is left to its owner.
unfoldable pub cancel_queued : World → Taskq → Place → Ent → Taskq
unfolding update_lowest
cancel_queued w tq p t =
    let q = update_lowest t.id (unlink p t.id tq) in
    let r = if t.armed then w.deleting q else q in
    if t.prealloc then r else task_done r (record t { cancel = true; armed = false })

-- For a task that a thread is running, taskq_wait_id waits until the task is done.
unfoldable pub taskq_cancel_id : World → Taskq → ℕ → CancelRc × Taskq
unfolding cancel_queued
taskq_cancel_id w tq i = elim (taskq_find tq i) [
  | queued p t ↦ (canceled, cancel_queued w tq p t)
  | busy ↦ (was_busy, w.waiting i tq)
  | missing ↦ (not_found, tq)
]
