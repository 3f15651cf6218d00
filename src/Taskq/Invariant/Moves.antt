-- ===== src/Taskq/Invariant/Moves.antt =====
-- The queue's elementary steps under the invariant.
use spl.Prelude.{
  ℕ, ◌+◌, ◌^◌, ◌<◌, ◌≡◌, inl, inr, List, [], ◌∷◌, ◌++◌, ◌==◌, if◌then◌else◌, arith, Bool-cases,
}
use spl.Ordered.{count, Above}
use spl.Ordered.Laws.{Above-snoc, count-append, count-remove, remove-Above}
use spl.Taskq.{Ent, ent_id, thread_id, Taskq, World, succ_id}
use spl.Taskq.Alloc.{task_done}
use spl.Taskq.Find.{Place, on_delay, on_prio, on_pend, unlink, taskq_lowest_id}
use spl.Taskq.Cancel.{update_lowest}
use spl.Taskq.Spawn.{taskq_thread_spawn}
use spl.Taskq.Ledger.{Ledger, Ledger-add, Ledger-drop}
use spl.Taskq.Invariant.{Inv, outstanding, SameQueues, Inv-same}
use spl.Taskq.Invariant.Lowest.{taskq_lowest_id-Least}

pub task_done-SameQueues : (tq : Taskq) (t : Ent) → SameQueues (task_done tq t) tq
unfolding task_done
task_done-SameQueues tq t = ground arith

pub taskq_thread_spawn-SameQueues :
    (w : World) (tq : Taskq) → SameQueues (taskq_thread_spawn w tq).1 tq
unfolding taskq_thread_spawn
taskq_thread_spawn-SameQueues w tq = ground arith

pub task_done-Inv : (tq : Taskq) (t : Ent) → Inv tq → Inv (task_done tq t)
task_done-Inv tq t = Inv-same (task_done-SameQueues tq t)

pub taskq_thread_spawn-Inv : (w : World) (tq : Taskq) → Inv tq → Inv (taskq_thread_spawn w tq).1
taskq_thread_spawn-Inv w tq = Inv-same (taskq_thread_spawn-SameQueues w tq)

abbrev pub list_at : Place → Taskq → List Ent
list_at on_delay tq = tq.delay_list
list_at on_prio tq = tq.prio_list
list_at on_pend tq = tq.pend_list

-- A task with the next id goes to the tail of the pending list.
pub pend-Inv :
    (tq : Taskq) (t : Ent)
    → Inv tq
    → t.id ≡ tq.next_id
    → tq.next_id + 1 < 2 ^ 64
    → Inv (record tq { pend_list = tq.pend_list ++ t ∷ []; next_id = succ_id tq.next_id })
pend-Inv tq t v e b = record {
  pend =
      Above-snoc ent_id 0 t tq.pend_list v.pend (omega (arith, v.ledger.next_pos))
        (λ i h. omega (arith, v.ledger.under i (omega arith)));
  prio = v.prio;
  delay = v.delay;
  active = v.active;
  ledger =
      Ledger-add _ _ tq.next_id _ tq.lowest_id
        (λ i. ground (arith, count-append ent_id i tq.pend_list (t ∷ []))) (omega arith) v.ledger;
}

-- The same for the priority list and the delay list.
pub prio-Inv :
    (tq : Taskq) (t : Ent)
    → Inv tq
    → t.id ≡ tq.next_id
    → tq.next_id + 1 < 2 ^ 64
    → Inv (record tq { prio_list = tq.prio_list ++ t ∷ []; next_id = succ_id tq.next_id })
prio-Inv tq t v e b = record {
  pend = v.pend;
  prio =
      Above-snoc ent_id 0 t tq.prio_list v.prio (omega (arith, v.ledger.next_pos))
        (λ i h. omega (arith, v.ledger.under i (omega arith)));
  delay = v.delay;
  active = v.active;
  ledger =
      Ledger-add _ _ tq.next_id _ tq.lowest_id
        (λ i. ground (arith, count-append ent_id i tq.prio_list (t ∷ []))) (omega arith) v.ledger;
}

pub delay-Inv :
    (tq : Taskq) (t : Ent)
    → Inv tq
    → t.id ≡ tq.next_id
    → tq.next_id + 1 < 2 ^ 64
    → Inv (record tq { delay_list = tq.delay_list ++ t ∷ []; next_id = succ_id tq.next_id })
delay-Inv tq t v e b = record {
  pend = v.pend;
  prio = v.prio;
  delay =
      Above-snoc ent_id 0 t tq.delay_list v.delay (omega (arith, v.ledger.next_pos))
        (λ i h. omega (arith, v.ledger.under i (omega arith)));
  active = v.active;
  ledger =
      Ledger-add _ _ tq.next_id _ tq.lowest_id
        (λ i. ground (arith, count-append ent_id i tq.delay_list (t ∷ []))) (omega arith) v.ledger;
}

-- The id of an entry that taskq_find returned is unlinked from its list, and the lowest id follows.
pub unlink-count :
    (tq : Taskq) (p : Place) (i j : ℕ)
    → 0 < count ent_id j (list_at p tq)
    → outstanding tq i ≡ (if j == i then 1 else 0) + outstanding (unlink p j tq) i
unfolding unlink
unlink-count tq on_delay i j h = omega (arith, count-remove ent_id i j tq.delay_list h)
unlink-count tq on_prio i j h = omega (arith, count-remove ent_id i j tq.prio_list h)
unlink-count tq on_pend i j h = omega (arith, count-remove ent_id i j tq.pend_list h)

-- The four lists in order, whatever the ids.
pub record InOrder (tq : Taskq) : Type 0 where
  pub pend : Above ent_id 0 tq.pend_list
  pub prio : Above ent_id 0 tq.prio_list
  pub delay : Above ent_id 0 tq.delay_list
  pub active : Above thread_id 0 tq.active_list

pub unlink-InOrder : (tq : Taskq) (p : Place) (j : ℕ) → Inv tq → InOrder (unlink p j tq)
unfolding unlink
unlink-InOrder tq on_delay j v = record {
  pend = v.pend;
  prio = v.prio;
  delay = remove-Above ent_id 0 j tq.delay_list v.delay;
  active = v.active;
}
unlink-InOrder tq on_prio j v = record {
  pend = v.pend;
  prio = remove-Above ent_id 0 j tq.prio_list v.prio;
  delay = v.delay;
  active = v.active;
}
unlink-InOrder tq on_pend j v = record {
  pend = remove-Above ent_id 0 j tq.pend_list v.pend;
  prio = v.prio;
  delay = v.delay;
  active = v.active;
}

pub drop-Inv :
    (tq q : Taskq) (j : ℕ)
    → Inv tq
    → InOrder q
    → q.next_id ≡ tq.next_id
    → q.lowest_id ≡ tq.lowest_id
    → ((i : ℕ) → outstanding tq i ≡ (if j == i then 1 else 0) + outstanding q i)
    → Inv (update_lowest j q)
unfolding update_lowest
drop-Inv tq q j v o n l e =
    let old : Ledger (outstanding tq) q.next_id q.lowest_id = rw (n, l) v.ledger in
    let least =
      taskq_lowest_id-Least q o.pend o.prio o.delay o.active
        (λ i h. omega (arith, e i, old.under i h)) in
    let new =
      Ledger-drop (outstanding tq) (outstanding q) q.next_id q.lowest_id j (taskq_lowest_id q) e
        least old in
    elim (Bool-cases (q.lowest_id == j)) [
      | inl h ↦ rw h (record {
        pend = o.pend;
        prio = o.prio;
        delay = o.delay;
        active = o.active;
        ledger = rw h at new;
      })
      | inr h ↦ rw h (record {
        pend = o.pend;
        prio = o.prio;
        delay = o.delay;
        active = o.active;
        ledger = rw h at new;
      })
    ]
