-- ===== src/Taskq/Sleeping.antt =====
-- What a dispatch that may sleep gets from task_alloc.
use spl.Prelude.{
  ℕ, zero, suc, ◌≡◌, refl, ◌≢◌, true, false, Option, some, List, [], ◌∷◌, leb, arith, if_elim,
}
use spl.Taskq.{Ent, Taskq, DispatchFlags, World}
use spl.Taskq.Alloc.{task_km_flags, alloc_new, alloc_full, alloc_free, alloc_retry, task_alloc}
use spl.Taskq.Dispatch.{dispatch_alloc, dispatch_body, taskq_dispatch, noqueue_room}
use spl.Taskq.Invariant.Live.{IsLive, Keeps, task_alloc-IsLive}

abbrev Got : Option Ent × Taskq → Type 0
Got r = (t : Ent) × (r.0 ≡ some t)

module _ (w : World) (fl : DispatchFlags) (may_sleep : fl.nosleep ≡ false)
    (may_alloc : fl.noalloc ≡ false) (memory : w.kmem_alloc (task_km_flags fl) ≡ true) where
  alloc_new-Got : (tq : Taskq) → Got (alloc_new w tq fl)
  unfolding alloc_new
  alloc_new-Got tq = if_elim Got (w.kmem_alloc (task_km_flags fl)) _ _ (λ _. (_, refl)) (λ h. cc)

  alloc_full-Got :
      (tq : Taskq) (again : Option Ent × Taskq) → Got again → Got (alloc_full w tq fl again)
  unfolding alloc_full
  alloc_full-Got tq again r =
      if_elim Got fl.noalloc _ _ (λ h. cc)
        λ _.
          if_elim Got (leb tq.maxalloc tq.nalloc) _ _
            (λ _. if_elim Got fl.nosleep _ _ (λ h. cc) (λ _. r)) (λ _. alloc_new-Got tq)

  alloc_free-Got :
      (ts : List Ent) (tq : Taskq) (full : Option Ent × Taskq)
      → Got full
      → Got (alloc_free ts tq fl.fresh full)
  unfolding alloc_free
  alloc_free-Got [] tq full r = r
  alloc_free-Got (t ∷ ts) tq full r = if_elim Got fl.fresh _ _ (λ _. r) (λ _. (t, refl))

  alloc_retry-Got : (k : ℕ) (tq : Taskq) → Got (alloc_retry w tq fl k)
  unfolding alloc_retry
  alloc_retry-Got zero tq = alloc_free-Got tq.free_list tq _ (alloc_full-Got tq _ (alloc_new-Got _))
  alloc_retry-Got (suc k) tq =
      alloc_free-Got tq.free_list tq _ (alloc_full-Got tq _ (alloc_retry-Got k _))

  task_alloc-Got : (tq : Taskq) → Got (task_alloc w tq fl)
  unfolding task_alloc
  task_alloc-Got = alloc_retry-Got 100

  -- taskq_dispatch without TQ_NOSLEEP, TQ_NOALLOC and TQ_NOQUEUE, on an active queue that meets the
  -- invariant and has an id left, returns an id other than 0, however full the pool is and whatever
  -- other threads do that keeps the invariant, if memory is got with the flags that it asks for.
  pub taskq_dispatch-succeeds :
      (tq : Taskq) (func arg : ℕ)
      → Keeps w
      → IsLive tq
      → tq.is_active ≡ true
      → fl.noqueue ≡ false
      → (taskq_dispatch w tq func arg fl).0 ≢ 0
  unfolding taskq_dispatch dispatch_body dispatch_alloc noqueue_room
  taskq_dispatch-succeeds tq func arg keeps v a n =
      let (t, e) = task_alloc-Got tq in
      let live = task_alloc-IsLive w fl keeps tq v in
      λ z. ground (arith, e, live.inv.ledger.next_pos)
