-- ===== src/Taskq/Alloc.antt =====
-- task_km_flags, task_alloc, task_free, task_done and taskq_init_ent.
use spl.Prelude.{
  ℕ, zero, suc, ◌+◌, ◌-◌, Bool, false, Option, none, some, List, [], ◌∷◌, ◌++◌, leb, if◌then◌else◌,
}
use spl.Taskq.{
  Ent, Taskq, DispatchFlags, KmFlags, km_nosleep, km_pushpage, km_sleep, World, invalid_id,
}

unfoldable pub task_km_flags : DispatchFlags → KmFlags
task_km_flags fl = if fl.nosleep then km_nosleep else if fl.pushpage then km_pushpage else km_sleep

unfoldable pub init_ent : Ent
init_ent = record {
  id = 0;
  func = none;
  arg = 0;
  prealloc = false;
  cancel = false;
  birth = 0;
  expires = 0;
  armed = false;
}

-- The end of task_alloc: memory for a new entry, with the lock dropped around kmem_alloc.
unfoldable pub alloc_new : World → Taskq → DispatchFlags → Option Ent × Taskq
unfolding task_km_flags
alloc_new w tq fl =
    let tq' = w.allocating tq in
    if w.kmem_alloc (task_km_flags fl)
    then (some init_ent, record tq' { nalloc = tq'.nalloc + 1 })
    else (none, tq')

-- With an empty free list, or one that TQ_NEW passes over. `again` is what follows the sleep.
unfoldable pub alloc_full : World → Taskq → DispatchFlags → Option Ent × Taskq → Option Ent × Taskq
unfolding alloc_new
alloc_full w tq fl again =
    if fl.noalloc
    then (none, tq)
    else if leb tq.maxalloc tq.nalloc
    then (if fl.nosleep then (none, tq) else again)
    else alloc_new w tq fl

-- The head of the free list, or else `full`.
unfoldable pub alloc_free : List Ent → Taskq → Bool → Option Ent × Taskq → Option Ent × Taskq
alloc_free [] tq fresh full = full
alloc_free (t ∷ ts) tq fresh full = if fresh then full else (some t, record tq { free_list = ts })

-- The loop at `retry`, `k` being 100 - count: the lock is dropped and retaken around each sleep.
unfoldable pub alloc_retry : World → Taskq → DispatchFlags → ℕ → Option Ent × Taskq
unfolding alloc_full alloc_free
alloc_retry w tq fl zero =
    alloc_free tq.free_list tq fl.fresh (alloc_full w tq fl (alloc_new w (w.polled 0 tq) fl))
alloc_retry w tq fl (suc k) =
    let again = alloc_retry w (w.polled (suc k) tq) fl k in
    alloc_free tq.free_list tq fl.fresh (alloc_full w tq fl again)

unfoldable pub task_alloc : World → Taskq → DispatchFlags → Option Ent × Taskq
unfolding alloc_retry
task_alloc w tq fl = alloc_retry w tq fl 100

unfoldable pub task_free : Taskq → Taskq
task_free tq = record tq { nalloc = tq.nalloc - 1 }

-- The entry is off every list. It is kept for later use, or freed if there are too many.
unfoldable pub task_done : Taskq → Ent → Taskq
unfolding task_free
task_done tq t =
    if leb tq.nalloc tq.minalloc
    then record tq { free_list = tq.free_list ++ cleared ∷ [] }
    else task_free tq
  where
    cleared : Ent
    cleared = record t { id = invalid_id; func = none; arg = 0; prealloc = false; cancel = false }
