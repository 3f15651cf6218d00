-- ===== src/Taskq/Invariant/Live.antt =====
-- A queue with an id left, and what a dispatch's search for an entry does to it.
use spl.Prelude.{ℕ, zero, suc, ◌+◌, ◌^◌, ◌<◌, refl, List, [], ◌∷◌, Option, arith, leb, if_elim}
use spl.Taskq.{Ent, Taskq, DispatchFlags, World}
use spl.Taskq.Alloc.{alloc_new, alloc_full, alloc_free, alloc_retry, task_alloc, task_km_flags}
use spl.Taskq.Invariant.{Inv, SameQueues, Inv-same}

-- The invariant, with an id left to give out.
pub record IsLive (tq : Taskq) : Type 0 where
  pub inv : Inv tq
  pub id_left : tq.next_id + 1 < 2 ^ 64

-- What other threads do while a dispatch has dropped the lock.
pub record Keeps (w : World) : Type 0 where
  pub polled : (k : ℕ) (q : Taskq) → IsLive q → IsLive (w.polled k q)
  pub allocating : (q : Taskq) → IsLive q → IsLive (w.allocating q)

pub IsLive-same : {q tq : Taskq} → SameQueues q tq → IsLive tq → IsLive q
IsLive-same s v = record { inv = Inv-same s v.inv; id_left = omega (arith, s.same_next) }

-- A property of the queue that only the lists and ids decide.
abbrev After : Option Ent × Taskq → Type 0
After r = IsLive r.1

module _ (w : World) (fl : DispatchFlags) (keeps : Keeps w) where
  alloc_new-IsLive : (tq : Taskq) → IsLive tq → After (alloc_new w tq fl)
  unfolding alloc_new
  alloc_new-IsLive tq v =
      let q = keeps.allocating tq v in
      if_elim After (w.kmem_alloc (task_km_flags fl)) _ _
        (λ _.
          IsLive-same
            (record {
              same_pend = refl;
              same_prio = refl;
              same_delay = refl;
              same_active = refl;
              same_next = refl;
              same_lowest = refl;
            })
            q)
        (λ _. q)

  alloc_full-IsLive :
      (tq : Taskq) (again : Option Ent × Taskq)
      → IsLive tq
      → After again
      → After (alloc_full w tq fl again)
  unfolding alloc_full
  alloc_full-IsLive tq again v r =
      if_elim After fl.noalloc _ _ (λ _. v)
        λ _.
          if_elim After (leb tq.maxalloc tq.nalloc) _ _
            (λ _. if_elim After fl.nosleep _ _ (λ _. v) (λ _. r)) (λ _. alloc_new-IsLive tq v)

  alloc_free-IsLive :
      (ts : List Ent) (tq : Taskq) (full : Option Ent × Taskq)
      → IsLive tq
      → After full
      → After (alloc_free ts tq fl.fresh full)
  unfolding alloc_free
  alloc_free-IsLive [] tq full v r = r
  alloc_free-IsLive (t ∷ ts) tq full v r =
      if_elim After fl.fresh _ _ (λ _. r)
        λ _.
          IsLive-same
            (record {
              same_pend = refl;
              same_prio = refl;
              same_delay = refl;
              same_active = refl;
              same_next = refl;
              same_lowest = refl;
            })
            v

  alloc_retry-IsLive : (k : ℕ) (tq : Taskq) → IsLive tq → After (alloc_retry w tq fl k)
  unfolding alloc_retry
  alloc_retry-IsLive zero tq v =
      alloc_free-IsLive tq.free_list tq _ v
        (alloc_full-IsLive tq _ v (alloc_new-IsLive _ (keeps.polled 0 tq v)))
  alloc_retry-IsLive (suc k) tq v =
      alloc_free-IsLive tq.free_list tq _ v
        (alloc_full-IsLive tq _ v (alloc_retry-IsLive k _ (keeps.polled (suc k) tq v)))

  pub task_alloc-IsLive : (tq : Taskq) → IsLive tq → After (task_alloc w tq fl)
  unfolding task_alloc
  task_alloc-IsLive = alloc_retry-IsLive 100
