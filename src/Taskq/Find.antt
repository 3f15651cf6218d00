-- ===== src/Taskq/Find.antt =====
-- taskq_lowest_id, taskq_insert_in_order, taskq_find, taskq_next_ent, task_expire_impl and the
-- checks that the waiting functions poll.
use spl.Prelude.{
  ℕ, ◌+◌, ◌-◌, ◌%◌, ◌^◌, Bool, true, false, Option, none, some, List, [], ◌∷◌, ◌==◌, ltb,
  if◌then◌else◌,
}
use spl.Ordered.{insert_in_order, find_list, remove, head_min}
use spl.Taskq.{Ent, ent_id, Thread, thread_id, Taskq, World}

unfoldable pub taskq_lowest_id : Taskq → ℕ
taskq_lowest_id tq = head_min thread_id tq.active_list (
    head_min ent_id tq.delay_list
      (head_min ent_id tq.prio_list (head_min ent_id tq.pend_list tq.next_id)))

unfoldable pub taskq_insert_in_order : Taskq → Thread → Taskq
taskq_insert_in_order tq tqt = record tq {
  active_list = insert_in_order thread_id tqt tq.active_list;
}

-- The list that holds an entry.
pub data Place : Type 0 where
  on_delay on_prio on_pend : Place

-- What taskq_find returns: an entry with the list it stands on, -EBUSY, or NULL.
pub data Found : Type 0 where
  queued : Place → Ent → Found
  busy : Found
  missing : Found

unfoldable pub find_active : List Thread → ℕ → Found
find_active [] i = missing
find_active (t ∷ ts) i = if t.id == i then busy else find_active ts i

unfoldable pub queued_or : Place → Option Ent → Found → Found
queued_or p (some t) rest = queued p t
queued_or p none rest = rest

unfoldable pub taskq_find : Taskq → ℕ → Found
unfolding queued_or
taskq_find tq i = queued_or on_delay (find_list ent_id i tq.delay_list) (
    queued_or on_prio (find_list ent_id i tq.prio_list)
      (queued_or on_pend (find_list ent_id i tq.pend_list) (find_active tq.active_list i)))

-- list_del of the entry from the list that it stands on
unfoldable pub unlink : Place → ℕ → Taskq → Taskq
unlink on_delay i tq = record tq { delay_list = remove ent_id i tq.delay_list }
unlink on_prio i tq = record tq { prio_list = remove ent_id i tq.prio_list }
unlink on_pend i tq = record tq { pend_list = remove ent_id i tq.pend_list }

unfoldable pub head_of : Place → List Ent → Option (Place × Ent) → Option (Place × Ent)
head_of p [] rest = rest
head_of p (t ∷ ts) rest = some (p, t)

-- The priority list goes first.
unfoldable pub taskq_next_ent : Taskq → Option (Place × Ent)
unfolding head_of
taskq_next_ent tq = head_of on_prio tq.prio_list (head_of on_pend tq.pend_list none)

-- The timer of the delayed entry `t` has run out: `t` moves to the priority list, in id order.
unfoldable pub task_expire_impl : World → Taskq → Ent → Taskq
unfolding unlink
task_expire_impl w tq t =
    if t.cancel
    then tq
    else let t' = record t { birth = w.jiffies; armed = false } in
      let tq' = unlink on_delay t.id tq in
      record tq' { prio_list = insert_in_order ent_id t' tq'.prio_list }

unfoldable pub taskq_wait_id_check : Taskq → ℕ → Bool
taskq_wait_id_check tq i = elim (taskq_find tq i) [ missing ↦ true | _ ↦ false ]

unfoldable pub taskq_wait_outstanding_check : Taskq → ℕ → Bool
taskq_wait_outstanding_check tq i = ltb i tq.lowest_id

-- The id that taskq_wait_outstanding waits for: zero stands for the last one dispatched.
unfoldable pub outstanding_target : Taskq → ℕ → ℕ
outstanding_target tq i = if i == 0 then (tq.next_id + 2 ^ 64 - 1) % 2 ^ 64 else i

unfoldable pub taskq_wait_check : Taskq → Bool
taskq_wait_check tq = tq.lowest_id == tq.next_id
