-- ===== src/Slab/Async.antt =====
-- spl_cache_grow and spl_cache_grow_work: a slab is added by the caller or by a task, with one task at a
-- time, and an emergency object is the way out when that task seems to be stuck.
pub mod Forward
use spl.Prelude.{
  ℕ, ◌+◌, ◌-◌, ◌%◌, ◌^◌, Bool, true, false, Option, none, some, List, [], ◌∷◌, ◌==◌, ◌&&◌, not,
  if◌then◌else◌,
}
use spl.Slab.{Slab, Cache, Tree, add64}
use spl.Slab.Grow.{Layout, __spl_cache_grow}
use spl.Slab.Emergency.{Emergency, spl_emergency_alloc}

abbrev pub eagain : ℕ
eagain = 11

abbrev pub enomem : ℕ
enomem = 12

-- The cache with skc_ref, the number of references that others than the tasks have, and the number of
-- tasks spl_cache_grow_work that have been dispatched and have not ended.
pub record Growth : Type 0 where
  pub cache : Cache
  pub ref : ℕ
  pub callers : ℕ
  pub works : ℕ

abbrev pub set_growing : Bool → Cache → Cache
set_growing b skc = record skc { flags = record skc.flags { growing = b } }

abbrev pub set_deadlocked : Cache → Cache
set_deadlocked skc = record skc {
  flags = record skc.flags { deadlocked = true };
  obj_deadlock = add64 skc.obj_deadlock 1;
}

-- The kernel's atomic counter.
abbrev pub atomic_inc : ℕ → ℕ
atomic_inc n = (n + 1) % 2 ^ 32

abbrev pub atomic_dec : ℕ → ℕ
atomic_dec n = (n + 2 ^ 32 - 1) % 2 ^ 32

-- The task, for what kv_alloc gives it. The addresses that it gives back on a failure are freed.
unfoldable pub spl_cache_grow_work :
    (jiffies : ℕ) (kv_alloc : ℕ → ℕ → Option ℕ) → Layout → Growth → Growth
spl_cache_grow_work j kv_alloc l s = record {
  cache = set_growing false (__spl_cache_grow j kv_alloc l s.cache).1.0;
  ref = atomic_dec s.ref;
  callers = s.callers;
  works = s.works - 1;
}

-- What a call meets: the code of the wait for the reaping and what others do in it; the memory for a
-- slab that is got without sleeping; whether there is memory for the request; the memory for an
-- emergency object and what others do before it is tracked; and what others do while the call waits
-- for the task, with the ticks that remain.
pub record Meets : Type 0 where
  pub wait_on_bit : ℕ
  pub reaped : Growth → Growth
  pub kv_nosleep : ℕ → ℕ → Option ℕ
  pub kmalloc : Bool
  pub ske_kmalloc : Bool
  pub pages : ℕ
  pub unlocked : Growth → Growth
  pub waited : Growth → Growth
  pub remaining : ℕ

-- The code, without its sign, the emergency object and what is left.
pub record Answer : Type 0 where
  pub rc : ℕ
  pub obj : Option ℕ
  pub state : Growth

-- The wait for the task has ended.
unfoldable pub timed_out : (remaining : ℕ) → Growth → Growth
timed_out remaining s =
    if (remaining == 0) && s.cache.flags.growing
    then record s { cache = set_deadlocked s.cache }
    else s

module _ (rb_insert_color : Tree → Tree) (rb_erase : ℕ → Tree → Tree) (m : Meets) where
  -- The lock is dropped if there is no slab with room.
  unfoldable pub after_unlock : Growth → Growth
  after_unlock s = elim s.cache.partial_list [ [] ↦ m.unlocked s | sks ∷ ss ↦ s ]

  unfoldable pub emergency_answer : Growth → Answer
  unfolding after_unlock
  emergency_answer s =
      let u = after_unlock s in
      let e =
        spl_emergency_alloc rb_insert_color rb_erase m.ske_kmalloc m.pages (λ c. u.cache) s.cache in
      record { rc = e.code; obj = e.obj; state = record u { cache = e.cache } }

  -- An emergency object, or the wait.
  unfoldable pub grow_or_wait : Growth → Answer
  unfolding timed_out emergency_answer
  grow_or_wait s =
      if s.cache.flags.deadlocked
      then emergency_answer s
      else record { rc = enomem; obj = none; state = timed_out m.remaining (m.waited s) }

  -- The request, unless there is one.
  unfoldable pub dispatch_work : Growth → Answer
  unfolding grow_or_wait
  dispatch_work s =
      let t : Growth = record {
        cache = set_growing true s.cache;
        ref = atomic_inc s.ref;
        callers = s.callers;
        works = s.works + 1;
      } in
      if s.cache.flags.growing
      then grow_or_wait s
      else if m.kmalloc
      then grow_or_wait t
      else record { rc = enomem; obj = none; state = s }

  -- A cache that is not backed by the Linux slab.
  unfoldable pub spl_cache_grow : (jiffies : ℕ) → Layout → Growth → Answer
  unfolding dispatch_work
  spl_cache_grow j l s =
      let (grown, (c, freed)) = __spl_cache_grow j m.kv_nosleep l s.cache in
      if s.cache.flags.reaping
      then record {
        rc = if m.wait_on_bit == 0 then eagain else m.wait_on_bit;
        obj = none;
        state = m.reaped s;
      }
      else if s.cache.flags.vmem
      then dispatch_work s
      else if grown
      then record { rc = 0; obj = none; state = record s { cache = c } }
      else dispatch_work (record s { cache = c })
