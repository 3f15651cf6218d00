-- ===== src/Taskq/Invariant/Tasks.antt =====
-- A task's way through the queue under the invariant: expiry, taking, finishing, canceling.
use spl.Prelude.{
  ℕ, zero, suc, ◌+◌, ◌-◌, ◌≤◌, ◌<◌, ◌≡◌, refl, ◌⊎◌, inl, inr, false, List, [], ◌∷◌, none, some,
  arith, if_elim, subst, Option-cases, ltb,
}
use spl.Ordered.{count, remove}
use spl.Ordered.Laws.{count-remove, remove-Above, count-insert_in_order, Above-insert_in_order}
use spl.Taskq.{Ent, ent_id, Thread, thread_id, Taskq, World}
use spl.Taskq.Find.{
  Place, on_delay, on_prio, on_pend, unlink, task_expire_impl, taskq_next_ent,
  taskq_insert_in_order,
}
use spl.Taskq.Cancel.{cancel_queued}
use spl.Taskq.Worker.{running, start_task, thread_take, finish_task, thread_finish, return_ent}
use spl.Taskq.Ledger.{Ledger-keep}
use spl.Taskq.Invariant.{Inv, outstanding, SameQueues}
use spl.Taskq.Invariant.Moves.{
  list_at, unlink-count, unlink-InOrder, drop-Inv, task_done-Inv, taskq_thread_spawn-Inv,
  task_done-SameQueues,
}

-- An id that occurs is above zero.
id_pos : (tq : Taskq) (i : ℕ) → Inv tq → 0 < outstanding tq i → 0 < i
id_pos tq zero v h = absurd (omega (arith, v.ledger.no_zero))
id_pos tq (suc i) v h = omega arith

-- The timer of an entry on the delay list.
pub task_expire_impl-Inv :
    (w : World) (tq : Taskq) (t : Ent)
    → Inv tq
    → 0 < count ent_id t.id tq.delay_list
    → Inv (task_expire_impl w tq t)
unfolding task_expire_impl unlink
task_expire_impl-Inv w tq t v h =
    if_elim Inv t.cancel _ _ (λ c. v)
      λ c. record {
        pend = v.pend;
        prio =
            Above-insert_in_order ent_id 0 moved tq.prio_list v.prio
              (id_pos tq t.id v (omega arith)) (omega (arith, v.ledger.once t.id));
        delay = remove-Above ent_id 0 t.id tq.delay_list v.delay;
        active = v.active;
        ledger =
            Ledger-keep _ _ _ _
              (λ i. omega (
                arith,
                count-insert_in_order ent_id moved tq.prio_list i,
                count-remove ent_id i t.id tq.delay_list h,
              ))
              v.ledger;
      }
  where
    moved : Ent
    moved = record t { birth = w.jiffies; armed = false }

pub unlink-keeps :
    (tq : Taskq) (p : Place) (j : ℕ)
    → let q = unlink p j tq in
      (q.active_list ≡ tq.active_list)
      × (q.next_id ≡ tq.next_id)
      × (q.lowest_id ≡ tq.lowest_id)
      × (q.nactive ≡ tq.nactive)
      × (q.nthreads ≡ tq.nthreads)
      × (q.nalloc ≡ tq.nalloc)
unfolding unlink
unlink-keeps tq on_delay j = (refl, refl, refl, refl, refl, refl)
unlink-keeps tq on_prio j = (refl, refl, refl, refl, refl, refl)
unlink-keeps tq on_pend j = (refl, refl, refl, refl, refl, refl)

pub count-list_at :
    (tq : Taskq) (p : Place) (i : ℕ)
    → count ent_id i (list_at p tq) + count thread_id i tq.active_list ≤ outstanding tq i
count-list_at tq on_delay i = omega arith
count-list_at tq on_prio i = omega arith
count-list_at tq on_pend i = omega arith

next_ent-cases :
    (tq : Taskq)
    → ((taskq_next_ent tq ≡ none) × (tq.prio_list ≡ []) × (tq.pend_list ≡ []))
      ⊎ ((p : Place) × (t : Ent) × (taskq_next_ent tq ≡ some (p, t))
          × (0 < count ent_id t.id (list_at p tq)))
unfolding taskq_next_ent
next_ent-cases tq = go tq.prio_list refl tq.pend_list refl
  where
    go :
        (xs : List Ent)
        → tq.prio_list ≡ xs
        → (ys : List Ent) → tq.pend_list ≡ ys
        → ((taskq_next_ent tq ≡ none) × (tq.prio_list ≡ []) × (tq.pend_list ≡ []))
          ⊎ ((p : Place) × (t : Ent) × (taskq_next_ent tq ≡ some (p, t))
              × (0 < count ent_id t.id (list_at p tq)))
    go [] e [] f = inl (ground arith, e, f)
    go [] e (t ∷ ts) f = inr (on_pend, t, ground arith, ground arith)
    go (t ∷ ts) e ys f = inr (on_prio, t, ground arith, ground arith)

start_task-Inv :
    (tq : Taskq) (tid : ℕ) (p : Place) (t : Ent)
    → Inv tq
    → 0 < count ent_id t.id (list_at p tq)
    → Inv (start_task tq tid p t)
unfolding taskq_insert_in_order start_task
start_task-Inv tq tid p t v h =
    let o = unlink-InOrder tq p t.id v in
    let (ka, kn, kl, _, _, _) = unlink-keeps tq p t.id in
    let c = count-list_at tq p t.id in
    record {
      pend = o.pend;
      prio = o.prio;
      delay = o.delay;
      active =
          Above-insert_in_order thread_id 0 (running tid t) _ o.active
            (id_pos tq t.id v (omega arith)) (rw ka (omega (arith, v.ledger.once t.id)));
      ledger =
          rw (kn, kl)
            (Ledger-keep _ _ _ _
              (λ i. omega (
                arith,
                count-insert_in_order thread_id (running tid t) (unlink p t.id tq).active_list i,
                unlink-count tq p i t.id h,
              ))
              v.ledger);
    }

-- A thread that takes a task.
pub thread_take-Inv :
    (tq : Taskq) (tid : ℕ) {tqt : Thread} {q : Taskq}
    → Inv tq
    → thread_take tq tid ≡ some (tqt, q)
    → Inv q
unfolding thread_take
thread_take-Inv tq tid {tqt} {q} v e = elim (next_ent-cases tq) [
  | inl (n, _, _) ↦ absurd (ground arith)
  | inr (p, t, n, h) ↦
      let started : start_task tq tid p t ≡ q = ground arith in
      subst Inv started (start_task-Inv tq tid p t v h)
]

return_ent-SameQueues : (tq : Taskq) (tqt : Thread) → SameQueues (return_ent tq tqt) tq
unfolding return_ent
return_ent-SameQueues tq tqt = elim (Option-cases tqt.task) [
  | inl e ↦ ground arith
  | inr (t, e) ↦ ground (arith, task_done-SameQueues tq t)
]

finish_task-Inv :
    (tq : Taskq) (tqt : Thread)
    → Inv tq
    → 0 < count thread_id tqt.id tq.active_list
    → Inv (finish_task tq tqt)
unfolding finish_task
finish_task-Inv tq tqt v h =
    let off = record tq {
      nactive = tq.nactive - 1;
      active_list = remove thread_id tqt.id tq.active_list;
    } in
    let s = return_ent-SameQueues off tqt in
    drop-Inv tq (return_ent off tqt) tqt.id v
      (record {
        pend = rw s.same_pend v.pend;
        prio = rw s.same_prio v.prio;
        delay = rw s.same_delay v.delay;
        active = rw s.same_active (remove-Above thread_id 0 tqt.id tq.active_list v.active);
      })
      s.same_next s.same_lowest
      (λ i.
        rw (s.same_pend, s.same_prio, s.same_delay, s.same_active)
          (omega (arith, count-remove thread_id i tqt.id tq.active_list h)))

-- A thread whose task's function has returned.
pub thread_finish-Inv :
    (w : World) (tq : Taskq) (tqt : Thread) (seq_tasks : ℕ)
    → Inv tq
    → 0 < count thread_id tqt.id tq.active_list
    → Inv (thread_finish w tq tqt seq_tasks).1
unfolding thread_finish
thread_finish-Inv w tq tqt seq_tasks v h =
    let q = finish_task tq tqt in
    if_elim (λ (r : ℕ × Taskq). Inv r.1) (ltb w.sequential (seq_tasks + 1)) _ _
      (λ _. taskq_thread_spawn-Inv w q (finish_task-Inv tq tqt v h))
      (λ _. finish_task-Inv tq tqt v h)

-- A canceled task.
pub cancel_queued-Inv :
    (w : World) (tq : Taskq) (p : Place) (t : Ent)
    → ((q : Taskq) → Inv q → Inv (w.deleting q))
    → Inv tq
    → 0 < count ent_id t.id (list_at p tq)
    → Inv (cancel_queued w tq p t)
unfolding cancel_queued
cancel_queued-Inv w tq p t keep v h =
    let (ka, kn, kl, _, _, _) = unlink-keeps tq p t.id in
    let q =
      drop-Inv tq (unlink p t.id tq) t.id v (unlink-InOrder tq p t.id v) kn kl
        (λ i. unlink-count tq p i t.id h) in
    let r = if_elim Inv t.armed _ _ (λ _. keep _ q) (λ _. q) in
    if_elim Inv t.prealloc _ _ (λ _. r) (λ _. task_done-Inv _ _ r)
