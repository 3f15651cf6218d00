-- ===== src/Taskq/Create/Pool.antt =====
-- The created queue under the invariant, and the entries of its pool.
use spl.Prelude.{
  ℕ, zero, suc, ◌+◌, ◌≤◌, ◌<◌, ◌≡◌, refl, Bool, true, false, Option, none, some, List, [], ◌∷◌, leb,
  arith, length, length-append, if_elim, subst,
}
use spl.Taskq.{Ent, Taskq, World}
use spl.Taskq.Invariant.{Inv}
use spl.Taskq.Invariant.Live.{IsLive, Keeps, task_alloc-IsLive}
use spl.Taskq.Invariant.Moves.{task_done-Inv, task_done-SameQueues}
use spl.Taskq.Alloc.{
  task_alloc, task_done, task_km_flags, alloc_retry, alloc_full, alloc_free, alloc_new, init_ent,
}
use spl.Taskq.Create.{scale_threads, new_taskq, prepopulate_flags, prepopulate, create_queue}

-- A new entry that the pool has room for.
task_alloc_new :
    (w : World) (tq : Taskq)
    → w.kmem_alloc (task_km_flags prepopulate_flags) ≡ true
    → ((q : Taskq) → w.allocating q ≡ q)
    → tq.nalloc < tq.maxalloc
    → task_alloc w tq prepopulate_flags ≡ (some init_ent, record tq { nalloc = tq.nalloc + 1 })
unfolding task_alloc alloc_retry alloc_full alloc_new alloc_free
task_alloc_new w tq m s h = go tq.free_list
  where
    full :
        (x : Option Ent × Taskq)
        → alloc_full w tq prepopulate_flags x
          ≡ (some init_ent, record tq { nalloc = tq.nalloc + 1 })
    full x = ground (arith, s tq)

    go :
        (ts : List Ent)
        → alloc_free ts tq true (
            alloc_full w tq prepopulate_flags
              (alloc_retry w (w.polled 100 tq) prepopulate_flags 99))
          ≡ (some init_ent, record tq { nalloc = tq.nalloc + 1 })
    go [] = full _
    go (t ∷ ts) = full _

-- Within the lower limit of the pool an entry goes to the free list.
task_done-kept :
    (tq : Taskq)
    → tq.nalloc + 1 ≤ tq.minalloc
    → let q = task_done (record tq { nalloc = tq.nalloc + 1 }) init_ent in
      (q.nalloc ≡ tq.nalloc + 1)
      × (q.minalloc ≡ tq.minalloc)
      × (q.maxalloc ≡ tq.maxalloc)
      × (length q.free_list ≡ length tq.free_list + 1)
unfolding task_done
task_done-kept tq h =
    if_elim Kept (leb (tq.nalloc + 1) tq.minalloc) _ _
      (λ _. (refl, refl, refl, length-append tq.free_list (_ ∷ []))) (λ e. absurd (ground arith))
  where
    Kept : Taskq → Type 0
    Kept q =
        (q.nalloc ≡ tq.nalloc + 1)
        × (q.minalloc ≡ tq.minalloc)
        × (q.maxalloc ≡ tq.maxalloc)
        × (length q.free_list ≡ length tq.free_list + 1)

-- Filling the pool with as many new entries as are missing to `minalloc`, which is at most
-- `maxalloc`, when memory is got, nothing happens during the allocation and all entries so far are
-- free, leaves exactly `minalloc` entries, all of them on the free list.
pub prepopulate-pool :
    (w : World) (k : ℕ) (tq : Taskq)
    → w.kmem_alloc (task_km_flags prepopulate_flags) ≡ true
    → ((q : Taskq) → w.allocating q ≡ q)
    → tq.minalloc ≤ tq.maxalloc
    → tq.nalloc + k ≡ tq.minalloc
    → length tq.free_list ≡ tq.nalloc
    → (q : Taskq) × (prepopulate w k tq ≡ some q)
      × (q.nalloc ≡ tq.minalloc)
      × (length q.free_list ≡ tq.minalloc)
unfolding prepopulate
prepopulate-pool w zero tq m s le e f = (tq, refl, omega arith, omega arith)
prepopulate-pool w (suc k) tq m s le e f =
    let got = task_alloc_new w tq m s (omega arith) in
    let next = task_done (record tq { nalloc = tq.nalloc + 1 }) init_ent in
    let kept = task_done-kept tq (omega arith) in
    let (q, r, n, l) =
      prepopulate-pool w k next m s (omega (arith, kept)) (omega (arith, kept))
        (omega (arith, kept)) in
    (q, ground (arith, got, r), omega (arith, kept), omega (arith, kept))

pub new_taskq-Inv :
    (nthreads minalloc maxalloc : ℕ) (dynamic : Bool)
    → Inv (new_taskq nthreads minalloc maxalloc dynamic)
unfolding new_taskq
new_taskq-Inv nthreads minalloc maxalloc dynamic = record {
  pend = tt;
  prio = tt;
  delay = tt;
  active = tt;
  ledger = record {
    once = λ i. omega arith;
    under = λ i h. refl;
    no_zero = refl;
    next_pos = omega arith;
    least = record {
      le = λ i h. absurd (omega arith);
      le_next = omega arith;
      hit = λ h. absurd (h refl);
    };
  };
}

new_taskq-IsLive :
    (nthreads minalloc maxalloc : ℕ) (dynamic : Bool)
    → IsLive (new_taskq nthreads minalloc maxalloc dynamic)
unfolding new_taskq
new_taskq-IsLive nthreads minalloc maxalloc dynamic = record {
  inv = new_taskq-Inv nthreads minalloc maxalloc dynamic;
  id_left = omega arith;
}

task_done-IsLive : (tq : Taskq) (t : Ent) → IsLive tq → IsLive (task_done tq t)
task_done-IsLive tq t v = record {
  inv = task_done-Inv tq t v.inv;
  id_left = omega (arith, v.id_left, (task_done-SameQueues tq t).same_next);
}

-- The creation leaves a queue that meets the invariant.
prepopulate-IsLive :
    (w : World) (k : ℕ) (tq : Taskq) {q : Taskq}
    → Keeps w
    → IsLive tq
    → prepopulate w k tq ≡ some q
    → IsLive q
unfolding prepopulate
prepopulate-IsLive w zero tq {q} keeps v e = let same : tq ≡ q = cc in subst IsLive same v
prepopulate-IsLive w (suc k) tq {q} keeps v e =
    go (task_alloc w tq prepopulate_flags).0
      (λ t. prepopulate-IsLive w k (task_done r t) keeps (task_done-IsLive r t live)) e
  where
    r : Taskq
    r = (task_alloc w tq prepopulate_flags).1

    live : IsLive r
    live = task_alloc-IsLive w prepopulate_flags keeps tq v

    go :
        (t : Option Ent)
        → ((t : Ent) → prepopulate w k (task_done r t) ≡ some q → IsLive q)
        → (elim t [ none ↦ none | some e ↦ prepopulate w k (task_done r e) ]) ≡ some q
        → IsLive q
    go none rest h = cc
    go (some t) rest h = rest t h

-- The queue that taskq_create has made before it starts the threads meets the invariant, if what
-- others do during the allocations keeps it.
pub create_queue-Inv :
    (w : World) (online : ℕ) (pct : Bool) (nthreads minalloc maxalloc : ℕ) (dynamic prepop : Bool)
    {q : Taskq}
    → Keeps w
    → create_queue w online pct nthreads minalloc maxalloc dynamic prepop ≡ some q
    → Inv q
unfolding create_queue
create_queue-Inv w online pct nthreads minalloc maxalloc dynamic true {q} keeps e =
    (prepopulate-IsLive w minalloc _ keeps (new_taskq-IsLive _ minalloc maxalloc dynamic) e).inv
create_queue-Inv w online pct nthreads minalloc maxalloc dynamic false {q} keeps e =
    let same : new_taskq (scale_threads online pct nthreads) minalloc maxalloc dynamic ≡ q = cc in
    subst Inv same (new_taskq-IsLive _ minalloc maxalloc dynamic).inv
