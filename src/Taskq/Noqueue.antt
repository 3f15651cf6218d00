-- ===== src/Taskq/Noqueue.antt =====
-- taskq_dispatch with TQ_NOQUEUE, which puts a task before those of the priority list.
use spl.Prelude.{ℕ, ◌<◌, ◌≡◌, refl, ◌≢◌, Bool, true, false, Option, some, List, ◌∷◌, arith}
use spl.Ordered.{count, find_list}
use spl.Ordered.Laws.{find_list_cases}
use spl.Taskq.{Ent, ent_id, Taskq, DispatchFlags, World}
use spl.Taskq.Find.{taskq_find, taskq_wait_id_check}
use spl.Taskq.Dispatch.{dispatch_queue, dispatch_alloc, dispatch_body, taskq_dispatch, noqueue_room}
use spl.Taskq.Alloc.{alloc_free, alloc_retry, task_alloc}
use spl.Taskq.Invariant.{Inv, outstanding, Inv-same}
use spl.Taskq.Invariant.Lowest.{find_active-cases}

alloc_free-head :
    (e : Ent) (es ts : List Ent) (tq : Taskq) (fresh : Bool) (full : Option Ent × Taskq)
    → ts ≡ e ∷ es
    → fresh ≡ false
    → alloc_free ts tq fresh full ≡ (some e, record tq { free_list = es })
unfolding alloc_free
alloc_free-head e es ts tq fresh full h f = rw (h, f)

task_alloc_free :
    (w : World) (tq : Taskq) (fl : DispatchFlags) (e : Ent) (es : List Ent)
    → tq.free_list ≡ e ∷ es
    → fl.fresh ≡ false
    → task_alloc w tq fl ≡ (some e, record tq { free_list = es })
unfolding task_alloc alloc_retry
task_alloc_free w tq fl e es h f = alloc_free-head e es tq.free_list tq fl.fresh _ h f

-- What a task on the priority list looks like after an entry has gone before it.
hidden :
    (w : World) (tq : Taskq) (func arg : ℕ) (fl : DispatchFlags) (e : Ent) (i : ℕ)
    → Inv tq
    → fl.noqueue ≡ true
    → 0 < count ent_id i tq.prio_list
    → let q = dispatch_queue w tq func arg fl e in
      (taskq_wait_id_check q i ≡ true) × (0 < outstanding q i)
unfolding dispatch_queue taskq_wait_id_check taskq_find find_list
hidden w tq func arg fl e i v n h = ground (
  arith,
  find_list_cases ent_id 0 i tq.delay_list v.delay,
  find_list_cases ent_id 0 i tq.pend_list v.pend,
  find_active-cases i tq.active_list,
  v.ledger.once i,
  v.ledger.under i,
)

-- On an active queue that meets the invariant, with an idle thread and a free entry, a dispatch with
-- TQ_NOQUEUE and without TQ_NEW hides every task of the priority list: the check of taskq_wait_id
-- holds for it, although it is still outstanding.
pub noqueue_hides :
    (w : World) (tq : Taskq) (func arg : ℕ) (fl : DispatchFlags) (e : Ent) (es : List Ent) (i : ℕ)
    → Inv tq
    → tq.is_active ≡ true
    → tq.nactive ≢ tq.nthreads
    → tq.free_list ≡ e ∷ es
    → fl.noqueue ≡ true
    → fl.fresh ≡ false
    → 0 < count ent_id i tq.prio_list
    → let q = (taskq_dispatch w tq func arg fl).1 in
      (taskq_wait_id_check q i ≡ true) × (0 < outstanding q i)
unfolding taskq_dispatch dispatch_body dispatch_alloc noqueue_room
noqueue_hides w tq func arg fl e es i v a idle free n f h =
    let got = task_alloc_free w tq fl e es free f in
    let q = dispatch_queue w (record tq { free_list = es }) func arg fl e in
    let step : (taskq_dispatch w tq func arg fl).1 ≡ q = ground (arith, got) in
    rw step (
      hidden w (record tq { free_list = es }) func arg fl e i
        (Inv-same
          (record {
            same_pend = refl;
            same_prio = refl;
            same_delay = refl;
            same_active = refl;
            same_next = refl;
            same_lowest = refl;
          })
          v)
        n h)
