-- ===== src/Slab/Reap/Reaped.antt =====
-- The loop of spl_kmem_cache_reap_now ends, and what the call leaves.
use spl.Prelude.{
  All, ℕ, zero, suc, ◌+◌, ◌≤◌, ◌<◌, ◌≡◌, refl, ap, ◌∙◌, Bool, true, false, Option, none, some, List,
  [], ◌++◌, length, drop, min, arith, Bool-cases, inl, inr, if_elim,
}
use spl.Slab.{Magazine, Cache}
use spl.Slab.Release.{spl_slab_reclaim}
use spl.Slab.Percpu.{__spl_cache_flush}
use spl.Slab.Percpu.Exchange.{Holds, __spl_cache_flush-Flushed}
use spl.Slab.Invariant.{Inv}
use spl.Slab.Invariant.Reclaim.{Used, spl_slab_reclaim-Reclaimed}
use spl.Slab.Life.{drop-length}
use spl.Slab.Reap.{
  Local, do_reclaim, reclaim_loop, set_reaping, reap_slabs, reap_rest, reap_loop,
  spl_kmem_cache_reap_now, uint64_max,
}

-- What a predicate that the callback keeps becomes of the loop.
pub data Ends {ℓ} (P : Local → Type ℓ) : Option Local → Type ℓ where
  ends : (s : Local) → P s → Ends P (some s)

-- The count of objects falls from pass to pass.
pub reclaim_loop-Ends {ℓ} :
    (P : Local → Type ℓ) (reclaim : Local → Local)
    → ((s : Local) → P s → P (reclaim s))
    → (fuel objects : ℕ) (s : Local) → objects < fuel
    → P s
    → Ends P (reclaim_loop fuel reclaim objects s)
unfolding reclaim_loop do_reclaim
reclaim_loop-Ends P reclaim keeps zero objects s h p = absurd (omega arith)
reclaim_loop-Ends P reclaim keeps (suc fuel) objects s h p =
    elim (Bool-cases (do_reclaim objects s.cache)) [
      | inl d ↦
          let fewer : s.cache.obj_alloc < objects = ground arith in
          rw d (
            reclaim_loop-Ends P reclaim keeps fuel s.cache.obj_alloc (reclaim s) (omega arith)
              (keeps s p))
      | inr d ↦ rw d (ends s p)
    ]

-- So does it in the first pass, where it is below 2^64.
pub first_pass {ℓ} :
    (P : Local → Type ℓ) (reclaim : Local → Local)
    → ((s : Local) → P s → P (reclaim s))
    → (fuel : ℕ) (s : Local) → s.cache.obj_alloc + 1 < fuel
    → P s
    → Ends P (reclaim_loop fuel reclaim uint64_max s)
unfolding reclaim_loop
first_pass P reclaim keeps zero s h p = absurd (omega arith)
first_pass P reclaim keeps (suc fuel) s h p = elim (Bool-cases (do_reclaim uint64_max s.cache)) [
  | inl d ↦ rw d (
      reclaim_loop-Ends P reclaim keeps fuel s.cache.obj_alloc (reclaim s) (omega arith)
        (keeps s p))
  | inr d ↦ rw d (ends s p)
]

-- The objects of the magazine and some that others have are the taken ones.
pub record Kept (s : Local) : Type 0 where
  pub others : List ℕ
  pub holds : Holds s.cache s.mag others

-- What reaping leaves: the invariant, no empty slab, and no mark that the cache is being reaped.
pub record Reaped (s : Local) : Type 0 where
  pub kept : Kept s
  pub none_empty : All Used s.cache.partial_list
  pub counted : s.cache.slab_total ≡ s.cache.slab_alloc
  pub unmarked : s.cache.flags.reaping ≡ false

-- The mark is not part of the invariant.
marked-Inv : (b : Bool) (c : Cache) (out : List ℕ) → Inv c out → Inv (set_reaping b c) out
marked-Inv b c out i = record {
  counts = record {
    slabs = i.counts.slabs;
    used = i.counts.used;
    objects = i.counts.objects;
    all_objects = i.counts.all_objects;
    once = i.counts.once;
    apart = i.counts.apart;
    refs = i.counts.refs;
  };
  partial_ok = i.partial_ok;
  complete_ok = i.complete_ok;
  empties_last = i.empties_last;
}

-- A magazine after a flush of all its objects.
emptied :
    (m : Magazine) (objs : List ℕ)
    → objs ≡ drop (min (length m.skm_objs) (length m.skm_objs)) m.skm_objs
    → objs ≡ []
emptied m objs e =
    e
    ∙ ap (λ (k : ℕ). drop k m.skm_objs)
        (let n = length m.skm_objs in let q : min n n ≡ n = omega arith in q)
    ∙ drop-length m.skm_objs

after_reclaim :
    (c : Cache) (m : Magazine) (others : List ℕ)
    → Inv c (m.skm_objs ++ others)
    → length m.skm_objs ≤ m.skm_size
    → Reaped (record { cache = set_reaping false (spl_slab_reclaim c).0; mag = m })
after_reclaim c m others i bound =
    let r = spl_slab_reclaim-Reclaimed c (m.skm_objs ++ others) i in
    record {
      kept = record {
        others = others;
        holds = record {
          inv = marked-Inv false (spl_slab_reclaim c).0 (m.skm_objs ++ others) r.inv;
          bound = bound;
        };
      };
      none_empty = r.none_empty;
      counted = r.counted;
      unmarked = refl;
    }

reap_slabs-Reaped :
    (j : ℕ) (expire_mem : Bool) (s : Local) → Kept s → Reaped (reap_slabs j expire_mem s).0
unfolding reap_slabs
reap_slabs-Reaped j false s k = after_reclaim s.cache s.mag k.others k.holds.inv k.holds.bound
reap_slabs-Reaped j true s k =
    let n = length s.mag.skm_objs in
    let f = __spl_cache_flush-Flushed j s.cache s.mag n k.others k.holds.inv in
    let (c, m) = __spl_cache_flush j s.cache s.mag n in
    after_reclaim c m k.others f.inv (omega (arith, ap length (emptied s.mag m.skm_objs f.newest)))

-- How spl_kmem_cache_reap_now ends.
pub data Answer : Option (Local × List ℕ) → Type 0 where
  answer : (s : Local) (freed : List ℕ) → Reaped s → Answer (some (s, freed))

rest-Answer :
    (j : ℕ) (expire_mem : Bool) (o : Option Local) → Ends Kept o → Answer (reap_rest j expire_mem o)
rest-Answer j expire_mem _ (ends s k) = answer _ _ (reap_slabs-Reaped j expire_mem s k)

loop-Ends :
    (fuel : ℕ) (reclaim : Option (Local → Local)) (s : Local)
    → ((f : Local → Local) → reclaim ≡ some f → (t : Local) → Kept t → Kept (f t))
    → s.cache.obj_alloc + 1 < fuel
    → Kept s
    → Ends Kept (reap_loop fuel reclaim s)
loop-Ends fuel none s keeps few k = ends s k
loop-Ends fuel (some f) s keeps few k = first_pass Kept f (keeps f refl) fuel s few k

-- spl_kmem_cache_reap_now, on a cache that is not backed by the Linux slab, that meets the invariant
-- and is not being reaped, where the magazine is not overfull and the reclaim function, if there is
-- one, keeps both. Whatever else that function does, two passes more than there are objects in use
-- are enough for the loop around it. Afterwards the invariant holds, the magazine is not overfull,
-- no empty slab is left, as many slabs are counted as are counted in use, and the cache is not
-- marked as being reaped.
pub spl_kmem_cache_reap_now-Reaped :
    (fuel j : ℕ) (expire_mem : Bool) (reclaim : Option (Local → Local)) (s : Local)
    → ((f : Local → Local) → reclaim ≡ some f → (t : Local) → Kept t → Kept (f t))
    → s.cache.obj_alloc + 1 < fuel
    → s.cache.flags.reaping ≡ false
    → Kept s
    → Answer (spl_kmem_cache_reap_now fuel j false expire_mem reclaim s)
unfolding spl_kmem_cache_reap_now
spl_kmem_cache_reap_now-Reaped fuel j expire_mem reclaim s keeps few idle k =
    let m = record s { cache = set_reaping true s.cache } in
    let h : Kept m = record {
      others = k.others;
      holds = record {
        inv = marked-Inv true s.cache (s.mag.skm_objs ++ k.others) k.holds.inv;
        bound = k.holds.bound;
      };
    } in
    if_elim Answer s.cache.flags.reaping (some (s, []))
      (reap_rest j expire_mem (reap_loop fuel reclaim m)) (λ b. absurd (let n = idle in cc))
      (λ b. rest-Answer j expire_mem _ (loop-Ends fuel reclaim m keeps few h))
