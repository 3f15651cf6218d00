-- ===== src/Slab/Async/Forward.antt =====
-- What spl_cache_grow and its task keep, and what a call comes to.
use spl.Prelude.{
  ℕ, ◌+◌, ◌%◌, ◌^◌, ◌<◌, ◌≡◌, ◌≢◌, refl, sym, subst, true, Option, none, some, List, [], ◌∷◌, ◌++◌,
  length, length-append, arith, ◌==◌, ◌&&◌, not, if◌then◌else◌, if_elim,
}
use spl.Slab.{Slab, Cache, Tree}
use spl.Slab.Grow.{Layout, spl_slab_alloc, grow_with, add_slab, __spl_cache_grow}
use spl.Slab.Grow.Added.{Fresh, __spl_cache_grow-Grew}
use spl.Slab.Emergency.{Emergency, spl_emergency_alloc, track, inserted, eexist, enomem, einval}
use spl.Slab.Invariant.{Inv}
use spl.Slab.System.{Grew-Inv}
use spl.Slab.Async.{
  Growth, set_growing, set_deadlocked, atomic_inc, spl_cache_grow_work, Meets, Answer, timed_out,
  emergency_answer, grow_or_wait, dispatch_work, spl_cache_grow, eagain,
}

-- The cache meets its invariant, with the objects that are the caller's and any that others have taken;
-- KMC_BIT_GROWING is set just while a task is out, of which there is one at most; and each task and
-- each of the callers has a reference to the cache.
pub record Ready (mine : List ℕ) (s : Growth) : Type 0 where
  pub others : List ℕ
  pub inv : Inv s.cache (mine ++ others)
  pub one_work : s.works ≡ (if s.cache.flags.growing then 1 else 0)
  pub refs : s.ref ≡ (s.callers + s.works) % 2 ^ 32

-- The fields that count are those of a cache that meets the invariant.
flags-Inv : (c d : Cache) (out : List ℕ) → d ≡ record c { flags = d.flags } → Inv c out → Inv d out
flags-Inv c d out e i =
    subst (λ (x : Cache). Inv x out) (sym e)
      (record {
        counts = record {
          slabs = i.counts.slabs;
          used = i.counts.used;
          objects = i.counts.objects;
          all_objects = i.counts.all_objects;
          once = i.counts.once;
          apart = i.counts.apart;
          refs = i.counts.refs;
        };
        partial_ok = i.partial_ok;
        complete_ok = i.complete_ok;
        empties_last = i.empties_last;
      })

deadlocked-Inv : (c : Cache) (out : List ℕ) → Inv c out → Inv (set_deadlocked c) out
deadlocked-Inv c out i = record {
  counts = record {
    slabs = i.counts.slabs;
    used = i.counts.used;
    objects = i.counts.objects;
    all_objects = i.counts.all_objects;
    once = i.counts.once;
    apart = i.counts.apart;
    refs = i.counts.refs;
  };
  partial_ok = i.partial_ok;
  complete_ok = i.complete_ok;
  empties_last = i.empties_last;
}

-- Growing leaves the mark of a task.
grow_growing :
    (c : Cache) (r : Option Slab × List ℕ) → (grow_with c r).1.0.flags.growing ≡ c.flags.growing
unfolding grow_with add_slab
grow_growing c (none, freed) = refl
grow_growing c (some s, freed) = refl

grow_room :
    (c : Cache) (r : Option Slab × List ℕ)
    → (grow_with c r).0 ≡ true
    → 0 < length (grow_with c r).1.0.partial_list
unfolding grow_with add_slab
grow_room c (none, freed) e = absurd (let h = e in cc)
grow_room c (some s, freed) e = omega (arith, length-append c.partial_list (s ∷ []))

cache_grow_growing :
    (j : ℕ) (kv : ℕ → ℕ → Option ℕ) (l : Layout) (c : Cache)
    → (__spl_cache_grow j kv l c).1.0.flags.growing ≡ c.flags.growing
unfolding __spl_cache_grow
cache_grow_growing j kv l c = grow_growing c (spl_slab_alloc j kv l c.flags.offslab)

cache_grow_room :
    (j : ℕ) (kv : ℕ → ℕ → Option ℕ) (l : Layout) (c : Cache)
    → (__spl_cache_grow j kv l c).0 ≡ true
    → 0 < length (__spl_cache_grow j kv l c).1.0.partial_list
unfolding __spl_cache_grow
cache_grow_room j kv l c e = grow_room c (spl_slab_alloc j kv l c.flags.offslab) e

-- The memory for slabs is fresh.
abbrev pub FreshSlabs : (ℕ → ℕ → Option ℕ) → ℕ → Layout → Cache → List ℕ → Type 0
FreshSlabs kv j l c out =
    (s : Slab) → (spl_slab_alloc j kv l c.flags.offslab).0 ≡ some s → Fresh c out s

module _ (mine : List ℕ) (j : ℕ) (l : Layout) (p : 0 < l.slab_objs) (w : l.slab_objs < 2 ^ 32) where
  grown-Inv :
      (kv : ℕ → ℕ → Option ℕ) (c : Cache) (out : List ℕ)
      → FreshSlabs kv j l c out
      → Inv c out
      → Inv (__spl_cache_grow j kv l c).1.0 out
  grown-Inv kv c out f i = Grew-Inv c out _ _ (__spl_cache_grow-Grew j kv l c out p w f i) i

  -- The task leaves a cache without a task, and gives its reference back, when it was out.
  pub spl_cache_grow_work-Ready :
      (kv : ℕ → ℕ → Option ℕ) (s : Growth) (r : Ready mine s)
      → FreshSlabs kv j l s.cache (mine ++ r.others)
      → s.cache.flags.growing ≡ true
      → Ready mine (spl_cache_grow_work j kv l s)
  unfolding spl_cache_grow_work
  spl_cache_grow_work-Ready kv s r f g = record {
    others = r.others;
    inv = flags-Inv _ _ (mine ++ r.others) refl (grown-Inv kv s.cache (mine ++ r.others) f r.inv);
    one_work = ground (arith, r.one_work, g);
    refs = ground (arith, r.refs, r.one_work, g);
  }

-- How a call of spl_cache_grow ends: with a slab that has room, with an emergency object, or with a
-- code that is not 0, after which the caller looks at the slabs again or gives up.
pub data Grown (mine : List ℕ) (pages : ℕ) : Answer → Type 0 where
  added :
      (s : Growth)
      → Ready mine s
      → 0 < length s.cache.partial_list
      → Grown mine pages (record { rc = 0; obj = none; state = s })
  emergency_object :
      (s : Growth)
      → Ready mine s
      → Grown mine pages (record { rc = 0; obj = some pages; state = s })
  not_now :
      (rc : ℕ) (s : Growth)
      → rc ≢ 0
      → Ready mine s
      → Grown mine pages (record { rc = rc; obj = none; state = s })

-- The cache of another state with the same mark.
same-Ready :
    (mine : List ℕ) (s : Growth) (c : Cache) (r : Ready mine s)
    → Inv c (mine ++ r.others)
    → c.flags.growing ≡ s.cache.flags.growing
    → Ready mine (record s { cache = c })
same-Ready mine s c r i e = record {
  others = r.others;
  inv = i;
  one_work = ground (arith, r.one_work, e);
  refs = r.refs;
}

-- The code and object of an emergency allocation, in the state that it leaves.
abbrev ended_with : Growth → Emergency → Answer
ended_with u e = record { rc = e.code; obj = e.obj; state = record u { cache = e.cache } }

module _ (mine : List ℕ) (pages : ℕ) (f : Tree → Tree) (g : ℕ → Tree → Tree) where
  inserted-Grown :
      (u : Growth) (t : Option Tree)
      → Ready mine u
      → Grown mine pages (ended_with u (inserted f g pages u.cache t))
  unfolding inserted
  inserted-Grown u none r = not_now einval u (λ e. absurd (omega arith)) r
  inserted-Grown u (some t) r = emergency_object _ (
      same-Ready mine u _ r
        (record {
          counts = record {
            slabs = r.inv.counts.slabs;
            used = r.inv.counts.used;
            objects = r.inv.counts.objects;
            all_objects = omega (arith, r.inv.counts.all_objects);
            once = r.inv.counts.once;
            apart = r.inv.counts.apart;
            refs = r.inv.counts.refs;
          };
          partial_ok = r.inv.partial_ok;
          complete_ok = r.inv.complete_ok;
          empties_last = r.inv.empties_last;
        })
        refl)

module _ (mine : List ℕ) (j : ℕ) (l : Layout) (p : 0 < l.slab_objs) (w : l.slab_objs < 2 ^ 32)
    (f : Tree → Tree) (g : ℕ → Tree → Tree) (m : Meets)
    (reaped : (s : Growth) → Ready mine s → Ready mine (m.reaped s))
    (unlocked : (s : Growth) → Ready mine s → Ready mine (m.unlocked s))
    (waited : (s : Growth) → Ready mine s → Ready mine (m.waited s)) where
  abbrev Good : Answer → Type 0
  Good = Grown mine m.pages

  emergency-Grown : (s : Growth) → Ready mine s → Good (emergency_answer f g m s)
  unfolding emergency_answer spl_emergency_alloc track
  emergency-Grown s r = by_list s.cache.partial_list
    where
      by_list :
          (xs : List Slab)
          → Good (
              let u : Growth = elim xs [ [] ↦ m.unlocked s | sks ∷ ss ↦ s ] in
              ended_with u (elim xs [
                | x ∷ ss ↦ record { code = eexist; obj = none; cache = s.cache; freed = [] }
                | [] ↦
                    if m.ske_kmalloc && not (m.pages == 0)
                    then track f g m.pages u.cache
                    else record { code = enomem; obj = none; cache = u.cache; freed = [] }
              ]))
      by_list (x ∷ xs) = not_now eexist s (λ e. absurd (omega arith)) r
      by_list [] =
          let u = m.unlocked s in
          if_elim (λ (e : Emergency). Good (ended_with u e)) (m.ske_kmalloc && not (m.pages == 0))
            (track f g m.pages u.cache)
            (record { code = enomem; obj = none; cache = u.cache; freed = [] })
            (λ h. inserted-Grown mine m.pages f g u _ (unlocked s r))
            (λ h. not_now enomem u (λ e. absurd (omega arith)) (unlocked s r))

  grow_or_wait-Grown : (s : Growth) → Ready mine s → Good (grow_or_wait f g m s)
  unfolding grow_or_wait timed_out
  grow_or_wait-Grown s r =
      let v = m.waited s in
      let q = waited s r in
      if_elim Good s.cache.flags.deadlocked (emergency_answer f g m s)
        (record { rc = enomem; obj = none; state = timed_out m.remaining v })
        (λ h. emergency-Grown s r)
        (λ h.
          not_now enomem _ (λ e. absurd (omega arith))
            (if_elim (Ready mine) ((m.remaining == 0) && v.cache.flags.growing)
              (record v { cache = set_deadlocked v.cache }) v
              (λ k. same-Ready mine v _ q (deadlocked-Inv v.cache (mine ++ q.others) q.inv) refl)
              (λ k. q)))

  dispatch_work-Grown : (s : Growth) → Ready mine s → Good (dispatch_work f g m s)
  unfolding dispatch_work
  dispatch_work-Grown s r =
      let t : Growth = record {
        cache = set_growing true s.cache;
        ref = atomic_inc s.ref;
        callers = s.callers;
        works = s.works + 1;
      } in
      let none_yet : Answer = record { rc = enomem; obj = none; state = s } in
      if_elim Good s.cache.flags.growing (grow_or_wait f g m s)
        (if m.kmalloc then grow_or_wait f g m t else none_yet) (λ h. grow_or_wait-Grown s r)
        (λ h.
          if_elim Good m.kmalloc (grow_or_wait f g m t) none_yet
            (λ k. grow_or_wait-Grown t (record {
              others = r.others;
              inv = flags-Inv s.cache (set_growing true s.cache) (mine ++ r.others) refl r.inv;
              one_work = ground (arith, r.one_work, h);
              refs = omega (arith, r.refs);
            }))
            (λ k. not_now enomem s (λ e. absurd (omega arith)) r))

  -- spl_cache_grow, for slabs of at least one object and fewer than 2^32, on a cache that meets its
  -- invariant with the objects that the caller has and any objects that others have. What others do
  -- in each wait keeps this, where they may take and give back objects and references of their own,
  -- and it keeps the protocol of the task; the memory for a slab is fresh. The call ends with a slab
  -- that has room, an emergency object, or a code that is not 0. In each case the invariant holds
  -- with the caller's objects and those that others then have, at most one task is out,
  -- KMC_BIT_GROWING is set just while it is, and skc_ref is the number of references of others and
  -- of the task, modulo 2^32.
  pub spl_cache_grow-Grown :
      (s : Growth) (r : Ready mine s)
      → FreshSlabs m.kv_nosleep j l s.cache (mine ++ r.others)
      → Good (spl_cache_grow f g m j l s)
  unfolding spl_cache_grow
  spl_cache_grow-Grown s r fresh =
      let a = __spl_cache_grow j m.kv_nosleep l s.cache in
      let c = a.1.0 in
      let rc = if m.wait_on_bit == 0 then eagain else m.wait_on_bit in
      let q : Ready mine (record s { cache = c }) =
        same-Ready mine s c r
          (grown-Inv mine j l p w m.kv_nosleep s.cache (mine ++ r.others) fresh r.inv)
          (cache_grow_growing j m.kv_nosleep l s.cache) in
      let by_task : Answer = dispatch_work f g m (record s { cache = c }) in
      let own : Answer = record { rc = 0; obj = none; state = record s { cache = c } } in
      if_elim Good s.cache.flags.reaping (record { rc = rc; obj = none; state = m.reaped s })
        (if s.cache.flags.vmem then dispatch_work f g m s else if a.0 then own else by_task)
        (λ h. not_now rc (m.reaped s) (λ e. absurd (ground arith)) (reaped s r))
        (λ h.
          if_elim Good s.cache.flags.vmem (dispatch_work f g m s) (if a.0 then own else by_task)
            (λ v. dispatch_work-Grown s r)
            (λ v.
              if_elim Good a.0 own by_task
                (λ k. added _ q (cache_grow_room j m.kv_nosleep l s.cache k))
                (λ k. dispatch_work-Grown (record s { cache = c }) q)))
