-- ===== src/Taskq/Waiting.antt =====
-- What the waiting functions of module/spl/spl-taskq.c wait for.
use spl.Prelude.{ℕ, ◌+◌, ◌-◌, ◌%◌, ◌^◌, ◌≤◌, ◌<◌, ◌≡◌, refl, ◌↔◌, true, false, arith}
use spl.Taskq.{Taskq}
use spl.Taskq.Find.{
  Found, missing, taskq_find, taskq_wait_check, taskq_wait_outstanding_check, taskq_wait_id_check,
  outstanding_target,
}
use spl.Taskq.Invariant.{Inv, outstanding}
use spl.Taskq.Invariant.Lowest.{
  Located, at_delay, at_prio, at_pend, at_work, nowhere, taskq_find-Located,
}

-- On a queue that meets the invariant, the check that taskq_wait polls holds exactly when no id is
-- outstanding.
pub taskq_wait_check_iff :
    (tq : Taskq) → Inv tq → (taskq_wait_check tq ≡ true) ↔ ((i : ℕ) → outstanding tq i ≡ 0)
unfolding taskq_wait_check
taskq_wait_check_iff tq v = (
  λ h i. ground (arith, v.ledger.least.le i, v.ledger.under i),
  λ h. ground (arith, v.ledger.least.hit, h tq.lowest_id),
)

-- On a queue that meets the invariant, and for an id that has been given out, the check that
-- taskq_wait_outstanding polls holds exactly when no id up to this one is outstanding.
pub taskq_wait_outstanding_check_iff :
    (tq : Taskq) (i : ℕ)
    → Inv tq
    → i < tq.next_id
    → (taskq_wait_outstanding_check tq i ≡ true) ↔ ((j : ℕ) → j ≤ i → outstanding tq j ≡ 0)
unfolding taskq_wait_outstanding_check
taskq_wait_outstanding_check_iff tq i v k = (
  λ h j l. ground (arith, v.ledger.least.le j),
  λ h. ground (arith, v.ledger.least.hit, h tq.lowest_id),
)

-- On a queue that meets the invariant, whose next id fits 64 bits, taskq_wait_outstanding with id 0
-- waits for an id whose check holds exactly when no id at all is outstanding.
pub outstanding_target-zero :
    (tq : Taskq)
    → Inv tq
    → tq.next_id < 2 ^ 64
    → (taskq_wait_outstanding_check tq (outstanding_target tq 0) ≡ true)
      ↔ ((j : ℕ) → outstanding tq j ≡ 0)
unfolding outstanding_target
outstanding_target-zero tq v k =
    let e : (tq.next_id + 2 ^ 64 - 1) % 2 ^ 64 ≡ tq.next_id - 1 =
      omega (arith, v.ledger.next_pos) in
    let i =
      taskq_wait_outstanding_check_iff tq (tq.next_id - 1) v (omega (arith, v.ledger.next_pos)) in
    rw e (λ h j. ground (arith, i.0 h j, v.ledger.under j), λ h. i.1 (λ j l. h j))

-- On a queue that meets the invariant, the check that taskq_wait_id polls holds exactly when the id
-- is not outstanding.
pub taskq_wait_id_check_iff :
    (tq : Taskq) (i : ℕ) → Inv tq → (taskq_wait_id_check tq i ≡ true) ↔ (outstanding tq i ≡ 0)
unfolding taskq_wait_id_check
taskq_wait_id_check_iff tq i v = go (taskq_find tq i) (taskq_find-Located tq i v)
  where
    go :
        (f : Found)
        → Located tq i f
        → ((elim f [ missing ↦ true | _ ↦ false ]) ≡ true) ↔ (outstanding tq i ≡ 0)
    go _ (at_delay t k e c) = (λ h. cc, λ h. absurd (omega arith))
    go _ (at_prio t k e c) = (λ h. cc, λ h. absurd (omega arith))
    go _ (at_pend t k e c) = (λ h. cc, λ h. absurd (omega arith))
    go _ (at_work c) = (λ h. cc, λ h. absurd (omega arith))
    go _ (nowhere c) = (λ h. c, λ h. refl)
