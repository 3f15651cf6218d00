-- ===== src/Taskq/Invariant/Lowest.antt =====
-- taskq_lowest_id and taskq_find under the invariant.
use spl.Prelude.{ℕ, ◌+◌, ◌≤◌, ◌<◌, ◌≡◌, refl, ◌⊎◌, inl, inr, List, [], ◌∷◌, some, arith}
use spl.Ordered.{count, Above, head_min, find_list}
use spl.Ordered.Laws.{find_list_cases, count_low}
use spl.Taskq.{Ent, ent_id, Thread, thread_id, Taskq}
use spl.Taskq.Find.{
  on_delay, on_prio, on_pend, Found, queued, busy, missing, taskq_lowest_id, taskq_find,
  find_active, queued_or,
}
use spl.Taskq.Ledger.{Least}
use spl.Taskq.Invariant.{Inv, outstanding}

-- A further ordered list lowers the least id to the key of its head, if that is lower.
Least-head {ℓ} :
    {A : Type ℓ} (key : A → ℕ) (total : ℕ → ℕ) (n m k : ℕ) (ws : List A)
    → Above key k ws
    → ((i : ℕ) → n ≤ i → count key i ws ≡ 0)
    → Least total n m
    → Least (λ i. total i + count key i ws) n (head_min key ws m)
Least-head key total n m k [] a u v = record {
  le = λ i h. v.le i (omega arith);
  le_next = v.le_next;
  hit = λ h. omega (arith, v.hit h);
}
Least-head key total n m k (w ∷ ws) a u v = record {
  le = λ i h. ground (arith, v.le i, count_low key (key w) i ws a.1);
  le_next = ground (arith, v.le_next);
  hit = λ h. ground (arith, v.hit);
}

-- Where the four lists are in id order and hold no id from the next one on, taskq_lowest_id is the
-- least outstanding id, or the next id if there is none.
pub taskq_lowest_id-Least :
    (tq : Taskq)
    → Above ent_id 0 tq.pend_list
    → Above ent_id 0 tq.prio_list
    → Above ent_id 0 tq.delay_list
    → Above thread_id 0 tq.active_list
    → ((i : ℕ) → tq.next_id ≤ i → outstanding tq i ≡ 0)
    → Least (outstanding tq) tq.next_id (taskq_lowest_id tq)
unfolding taskq_lowest_id
taskq_lowest_id-Least tq a b c d u =
    let n = tq.next_id in
    let none_yet : Least (λ i. 0) n n = record {
      le = λ i h. absurd (omega arith);
      le_next = omega arith;
      hit = λ h. absurd (h refl);
    } in
    let p = Least-head ent_id _ n n 0 tq.pend_list a (λ i h. omega (arith, u i h)) none_yet in
    let q = Least-head ent_id _ n _ 0 tq.prio_list b (λ i h. omega (arith, u i h)) p in
    let r = Least-head ent_id _ n _ 0 tq.delay_list c (λ i h. omega (arith, u i h)) q in
    let s = Least-head thread_id _ n _ 0 tq.active_list d (λ i h. omega (arith, u i h)) r in
    record {
      le = λ i h. s.le i (omega arith);
      le_next = s.le_next;
      hit = λ h. omega (arith, s.hit h);
    }

pub find_active-cases :
    (i : ℕ) (ts : List Thread)
    → ((find_active ts i ≡ missing) × (count thread_id i ts ≡ 0))
      ⊎ ((find_active ts i ≡ busy) × (0 < count thread_id i ts))
unfolding find_active
find_active-cases i [] = inl (refl, refl)
find_active-cases i (t ∷ ts) = ground (arith, find_active-cases i ts)

-- What the search yields says exactly where the id is: on which list, with a thread, or nowhere.
pub data Located (tq : Taskq) (i : ℕ) : Found → Type 0 where
  at_delay :
      (t : Ent)
      → t.id ≡ i
      → find_list ent_id i tq.delay_list ≡ some t
      → 0 < count ent_id i tq.delay_list
      → Located tq i (queued on_delay t)
  at_prio :
      (t : Ent)
      → t.id ≡ i
      → find_list ent_id i tq.prio_list ≡ some t
      → 0 < count ent_id i tq.prio_list
      → Located tq i (queued on_prio t)
  at_pend :
      (t : Ent)
      → t.id ≡ i
      → find_list ent_id i tq.pend_list ≡ some t
      → 0 < count ent_id i tq.pend_list
      → Located tq i (queued on_pend t)
  at_work : 0 < count thread_id i tq.active_list → Located tq i busy
  nowhere : outstanding tq i ≡ 0 → Located tq i missing

-- On a queue that meets the invariant, taskq_find yields the entry with the id and the list that it
-- stands on, or says that a thread is running the task, or finds nothing, and then the id is not
-- outstanding.
pub taskq_find-Located : (tq : Taskq) (i : ℕ) → Inv tq → Located tq i (taskq_find tq i)
unfolding taskq_find
taskq_find-Located tq i v = elim (find_list_cases ent_id 0 i tq.delay_list v.delay) [
  | inr (t, e, k, c) ↦ rw (e, queued_or) (at_delay t k e (omega arith))
  | inl (e, c) ↦
      rw (e, queued_or)
        (elim (find_list_cases ent_id 0 i tq.prio_list v.prio) [
          | inr (t, e', k, c') ↦ rw (e', queued_or) (at_prio t k e' (omega arith))
          | inl (e', c') ↦
              rw (e', queued_or)
                (elim (find_list_cases ent_id 0 i tq.pend_list v.pend) [
                  | inr (t, f, k, d) ↦ rw (f, queued_or) (at_pend t k f (omega arith))
                  | inl (f, d) ↦
                      rw (f, queued_or)
                        (elim (find_active-cases i tq.active_list) [
                          | inl (g, h) ↦ rw g (nowhere (omega arith))
                          | inr (g, h) ↦ rw g (at_work h)
                        ])
                ])
        ])
]
