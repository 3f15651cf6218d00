-- ===== src/Taskq/Canceling.antt =====
-- What taskq_cancel_id tells of the task, and what it does to the queue.
use spl.Prelude.{ℕ, ◌<◌, ◌≡◌, refl, true, false, ◌==◌, if◌then◌else◌, arith, if_elim, subst, sym}
use spl.Ordered.{count}
use spl.Taskq.{Ent, ent_id, thread_id, Taskq, World}
use spl.Taskq.Find.{
  Place, on_delay, on_prio, on_pend, Found, queued, busy, missing, taskq_find, unlink,
}
use spl.Taskq.Cancel.{
  CancelRc, canceled, was_busy, not_found, update_lowest, cancel_queued, taskq_cancel_id,
}
use spl.Taskq.Find.{taskq_wait_id_check}
use spl.Taskq.Waiting.{taskq_wait_id_check_iff}
use spl.Taskq.Invariant.{Inv, outstanding}
use spl.Taskq.Invariant.Lowest.{
  Located, at_delay, at_prio, at_pend, at_work, nowhere, taskq_find-Located,
}
use spl.Taskq.Invariant.Moves.{list_at, unlink-count, task_done-SameQueues}
use spl.Taskq.Invariant.Tasks.{cancel_queued-Inv, count-list_at, unlink-keeps}

-- What each return code says of the id `i`, and what the call has done.
abbrev pub Canceled : Taskq → ℕ → CancelRc × Taskq → Type 0
Canceled tq i (canceled, q) = (outstanding tq i ≡ 1) × (outstanding q i ≡ 0)
Canceled tq i (was_busy, q) = (0 < count thread_id i tq.active_list) × (outstanding q i ≡ 0)
Canceled tq i (not_found, q) = (outstanding tq i ≡ 0) × (q ≡ tq)

-- The id of an entry that is listed is below the next one, also when the entry is off.
given_out :
    (tq : Taskq) (p : Place) (t : Ent)
    → Inv tq
    → 0 < count ent_id t.id (list_at p tq)
    → t.id < (update_lowest t.id (unlink p t.id tq)).next_id
unfolding update_lowest
given_out tq p t v h =
    let i = t.id in
    let (ka, kn, kl, _, _, _) = unlink-keeps tq p i in
    if_elim (λ (q : Taskq). i < q.next_id) ((unlink p i tq).lowest_id == i) _ _
      (λ _. ground (arith, kn, v.ledger.under i, count-list_at tq p i))
      (λ _. ground (arith, kn, v.ledger.under i, count-list_at tq p i))

update_lowest-outstanding :
    (j : ℕ) (tq : Taskq) (i : ℕ) → outstanding (update_lowest j tq) i ≡ outstanding tq i
unfolding update_lowest
update_lowest-outstanding j tq i =
    if_elim (λ q. outstanding q i ≡ outstanding tq i) (tq.lowest_id == j) _ _ (λ _. refl)
      (λ _. refl)

-- The invariant is kept, if what other threads do in the two waits keeps it.
pub taskq_cancel_id-Inv :
    (w : World) (tq : Taskq) (i : ℕ)
    → ((q : Taskq) → Inv q → Inv (w.deleting q))
    → ((q : Taskq) → Inv q → Inv (w.waiting i q))
    → Inv tq
    → Inv (taskq_cancel_id w tq i).1
unfolding taskq_cancel_id
taskq_cancel_id-Inv w tq i keep wait v = go (taskq_find tq i) (taskq_find-Located tq i v)
  where
    queued_at :
        (p : Place) (t : Ent)
        → t.id ≡ i
        → 0 < count ent_id i (list_at p tq)
        → Inv (cancel_queued w tq p t)
    queued_at p t k c =
        cancel_queued-Inv w tq p t keep v (subst (λ j. 0 < count ent_id j (list_at p tq)) (sym k) c)

    left : Found → CancelRc × Taskq
    left f = elim f [
      | queued p t ↦ (canceled, cancel_queued w tq p t)
      | busy ↦ (was_busy, w.waiting i tq)
      | missing ↦ (not_found, tq)
    ]

    go : (f : Found) → Located tq i f → Inv (left f).1
    go _ (at_delay t k e c) = queued_at on_delay t k c
    go _ (at_prio t k e c) = queued_at on_prio t k c
    go _ (at_pend t k e c) = queued_at on_pend t k c
    go _ (at_work c) = wait tq v
    go _ (nowhere c) = v

-- What the waits of a cancel of the id `i` do: they keep the invariant; no id that has been given out
-- becomes outstanding again while the timer is deleted; and wait_event returns when its condition
-- holds.
pub record Waiting (w : World) (i : ℕ) : Type 0 where
  pub deleting : (q : Taskq) → Inv q → Inv (w.deleting q)
  pub gone :
      (q : Taskq) (j : ℕ) → j < q.next_id → outstanding q j ≡ 0 → outstanding (w.deleting q) j ≡ 0
  pub waiting : (q : Taskq) → Inv q → Inv (w.waiting i q)
  pub over : (q : Taskq) → taskq_wait_id_check (w.waiting i q) i ≡ true

module _ (w : World) (j : ℕ) (wait : Waiting w j) where
  cancel_queued-outstanding :
      (tq : Taskq) (p : Place) (t : Ent)
      → Inv tq
      → 0 < count ent_id t.id (list_at p tq)
      → outstanding (cancel_queued w tq p t) t.id ≡ 0
  unfolding cancel_queued
  cancel_queued-outstanding tq p t v h =
      let i = t.id in
      let off : outstanding (update_lowest i (unlink p i tq)) i ≡ 0 = ground (
        arith,
        update_lowest-outstanding i (unlink p i tq) i,
        unlink-count tq p i i h,
        v.ledger.once i,
      ) in
      let given : i < (update_lowest i (unlink p i tq)).next_id = given_out tq p t v h in
      let r =
        if_elim (λ q. outstanding q i ≡ 0) t.armed _ _ (λ _. wait.gone _ i given off) (λ _. off) in
      let u : Taskq =
        if t.armed
        then w.deleting (update_lowest i (unlink p i tq))
        else update_lowest i (unlink p i tq) in
      if_elim (λ q. outstanding q i ≡ 0) t.prealloc _ _ (λ _. r)
        λ _.
          let s = task_done-SameQueues u (record t { cancel = true; armed = false }) in
          rw (s.same_pend, s.same_prio, s.same_delay, s.same_active) r

  cancel_queued-Canceled :
      (tq : Taskq) (i : ℕ) (p : Place) (t : Ent)
      → Inv tq
      → t.id ≡ i
      → 0 < count ent_id i (list_at p tq)
      → Inv (cancel_queued w tq p t) × Canceled tq i (canceled, cancel_queued w tq p t)
  cancel_queued-Canceled tq i p t v k c =
      let h : 0 < count ent_id t.id (list_at p tq) =
        subst (λ j. 0 < count ent_id j (list_at p tq)) (sym k) c in
      (
        cancel_queued-Inv w tq p t wait.deleting v h,
        (
          omega (arith, count-list_at tq p i, v.ledger.once i),
          subst (λ j. outstanding (cancel_queued w tq p t) j ≡ 0) k
              (cancel_queued-outstanding tq p t v h),
        ),
      )

  -- taskq_cancel_id on a queue that meets the invariant, where what other threads do during the
  -- waits for the timer and for a running task keeps it, no id that has been given out becomes
  -- outstanding again during the wait for the timer, and the wait for the task returns when the
  -- check of taskq_wait_id holds. The invariant holds afterwards. The code 0 says that the task was
  -- outstanding and no longer is; EBUSY that a thread was running it, and that the call has waited
  -- until it is not outstanding any more; ENOENT that it was not outstanding and nothing has
  -- changed.
  pub taskq_cancel_id-Canceled :
      (tq : Taskq) → Inv tq → let r = taskq_cancel_id w tq j in Inv r.1 × Canceled tq j r
  unfolding taskq_cancel_id
  taskq_cancel_id-Canceled tq v = go (taskq_find tq j) (taskq_find-Located tq j v)
    where
      result : Found → CancelRc × Taskq
      result f = elim f [
        | queued p t ↦ (canceled, cancel_queued w tq p t)
        | busy ↦ (was_busy, w.waiting j tq)
        | missing ↦ (not_found, tq)
      ]

      go : (f : Found) → Located tq j f → Inv (result f).1 × Canceled tq j (result f)
      go _ (at_delay t k e c) = cancel_queued-Canceled tq j on_delay t v k c
      go _ (at_prio t k e c) = cancel_queued-Canceled tq j on_prio t v k c
      go _ (at_pend t k e c) = cancel_queued-Canceled tq j on_pend t v k c
      go _ (at_work c) =
          let inv = wait.waiting tq v in
          (inv, (c, (taskq_wait_id_check_iff (w.waiting j tq) j inv).0 (wait.over tq)))
      go _ (nowhere c) = (v, (c, refl))
