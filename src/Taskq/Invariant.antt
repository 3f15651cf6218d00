-- ===== src/Taskq/Invariant.antt =====
-- The invariant of a task queue: each list is in id order, and the ids make up a ledger.
pub mod Lowest
pub mod Moves
pub mod Tasks
pub mod Live
pub mod Dispatched
use spl.Prelude.{ℕ, ◌+◌, ◌≤◌, ◌<◌, ◌≡◌}
use spl.Ordered.{count, Above}
use spl.Taskq.{Ent, ent_id, Thread, thread_id, Taskq}
use spl.Taskq.Ledger.{Ledger}

-- How often an id is queued or active: 1 for an outstanding task, and 0 for any other id.
abbrev pub outstanding : Taskq → ℕ → ℕ
outstanding tq i =
    count ent_id i tq.pend_list
    + count ent_id i tq.prio_list
    + count ent_id i tq.delay_list
    + count thread_id i tq.active_list

pub record Inv (tq : Taskq) : Type 0 where
  pub pend : Above ent_id 0 tq.pend_list
  pub prio : Above ent_id 0 tq.prio_list
  pub delay : Above ent_id 0 tq.delay_list
  pub active : Above thread_id 0 tq.active_list
  pub ledger : Ledger (outstanding tq) tq.next_id tq.lowest_id

-- The fields that the invariant reads are the same.
pub record SameQueues (tq' tq : Taskq) : Type 0 where
  pub same_pend : tq'.pend_list ≡ tq.pend_list
  pub same_prio : tq'.prio_list ≡ tq.prio_list
  pub same_delay : tq'.delay_list ≡ tq.delay_list
  pub same_active : tq'.active_list ≡ tq.active_list
  pub same_next : tq'.next_id ≡ tq.next_id
  pub same_lowest : tq'.lowest_id ≡ tq.lowest_id

pub Inv-same : {tq' tq : Taskq} → SameQueues tq' tq → Inv tq → Inv tq'
Inv-same s v = record {
  pend = rw s.same_pend v.pend;
  prio = rw s.same_prio v.prio;
  delay = rw s.same_delay v.delay;
  active = rw s.same_active v.active;
  ledger =
      rw (s.same_pend, s.same_prio, s.same_delay, s.same_active, s.same_next, s.same_lowest)
        v.ledger;
}
