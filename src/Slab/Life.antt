-- ===== src/Slab/Life.antt =====
-- The magazines of all CPUs, from spl_magazine_create to spl_magazine_destroy, and the end of a cache in
-- spl_kmem_cache_destroy.
use spl.Prelude.{
  All, ℕ, zero, suc, ◌+◌, ◌%◌, ◌^◌, ◌<◌, ◌≡◌, refl, sym, ap, ◌∙◌, subst, Bool, true, false, Option,
  none, some, List, [], ◌∷◌, ◌++◌, length, drop, min, arith, if◌then◌else◌, ltb, total,
}
use mathlib.Core.List.{append_assoc, append-nil}
use spl.Slab.{Slab, Magazine, Cache}
use spl.Slab.Release.{Work, spl_cache_shrink, walk_one, reclaim_walk, spl_slab_reclaim}
use spl.Slab.Percpu.{flush_objs, __spl_cache_flush}
use spl.Slab.Percpu.Exchange.{__spl_cache_flush-Flushed}
use spl.Slab.Invariant.{one, refs_at, Full, Inv}
use spl.Slab.Invariant.Reclaim.{Reclaimed, spl_slab_reclaim-Reclaimed}

-- spl_magazine_alloc for a CPU; `kmalloc` says whether the memory is got.
unfoldable pub spl_magazine_alloc : (kmalloc : Bool) (jiffies size refill : ℕ) → Option Magazine
spl_magazine_alloc false jiffies size refill = none
spl_magazine_alloc true jiffies size refill =
    some (record { skm_size = size; skm_refill = refill; skm_age = jiffies; skm_objs = [] })

-- The loop of spl_magazine_create over the CPUs from `cpu` on, `made` of which have a magazine: all of
-- them, or how many are freed when one is missing.
pub data Made : Type 0 where
  made : List Magazine → Made
  failed : (freed : ℕ) → Made

unfoldable pub make_from :
    (kmalloc : ℕ → Bool) (jiffies size refill : ℕ) → List Magazine → (cpu cpus : ℕ) → Made
unfolding spl_magazine_alloc
make_from kmalloc j size refill ms cpu zero = made ms
make_from kmalloc j size refill ms cpu (suc cpus) =
    elim (spl_magazine_alloc (kmalloc cpu) j size refill) [
      | none ↦ failed (length ms)
      | some skm ↦ make_from kmalloc j size refill (ms ++ (skm ∷ [])) (cpu + 1) cpus
    ]

-- The sizes are skc_mag_size and skc_mag_refill, for a cache without KMC_NOMAGAZINE.
unfoldable pub spl_magazine_create : (kmalloc : ℕ → Bool) (jiffies size refill cpus : ℕ) → Made
unfolding make_from
spl_magazine_create kmalloc j size refill cpus = make_from kmalloc j size refill [] 0 cpus

-- Each magazine is flushed whole before it is freed. A cache with KMC_NOMAGAZINE has none.
unfoldable pub spl_magazine_destroy : (jiffies : ℕ) → Cache → List Magazine → Cache
spl_magazine_destroy j skc [] = skc
spl_magazine_destroy j skc (skm ∷ ms) =
    spl_magazine_destroy j (__spl_cache_flush j skc skm (length skm.skm_objs)).0 ms

-- What spl_kmem_cache_destroy does once no caller is left, for a cache that is not backed by the
-- Linux slab: the cache that the assertions see, and the addresses that are given to kv_free.
unfoldable pub destroy_slabs : (jiffies : ℕ) → Cache → List Magazine → Cache × List ℕ
unfolding spl_magazine_destroy
destroy_slabs j skc ms = spl_slab_reclaim (spl_magazine_destroy j skc ms)

-- The objects of all magazines.
abbrev pub magazine_objs : List Magazine → List ℕ
magazine_objs [] = []
magazine_objs (m ∷ ms) = m.skm_objs ++ magazine_objs ms

pub drop-length : (xs : List ℕ) → drop (length xs) xs ≡ []
drop-length [] = refl
drop-length (x ∷ xs) = drop-length xs

pub spl_magazine_destroy-Inv :
    (j : ℕ) (c : Cache) (ms : List Magazine) (others : List ℕ)
    → Inv c (magazine_objs ms ++ others)
    → Inv (spl_magazine_destroy j c ms) others
unfolding spl_magazine_destroy
spl_magazine_destroy-Inv j c [] others i = i
spl_magazine_destroy-Inv j c (m ∷ ms) others i =
    let n = length m.skm_objs in
    let f =
      __spl_cache_flush-Flushed j c m n (magazine_objs ms ++ others)
        (subst (Inv c) (append_assoc m.skm_objs (magazine_objs ms) others) i) in
    let all : min n n ≡ n = omega arith in
    let none_left : (__spl_cache_flush j c m n).1.skm_objs ≡ [] =
      f.newest ∙ ap (λ (k : ℕ). drop k m.skm_objs) all ∙ drop-length m.skm_objs in
    spl_magazine_destroy-Inv j (__spl_cache_flush j c m n).0 ms others (
      subst
        (λ (os : List ℕ). Inv (__spl_cache_flush j c m n).0 (os ++ (magazine_objs ms ++ others)))
        none_left f.inv)

-- A cache without objects that anyone has, after a reclaim.
pub record Emptied (c : Cache) : Type 0 where
  pub slab_alloc : c.slab_alloc ≡ 0
  pub obj_alloc : c.obj_alloc ≡ 0
  pub slab_total : c.slab_total ≡ 0
  pub obj_total : c.obj_total ≡ c.obj_emergency % 2 ^ 64
  pub complete_list : c.complete_list ≡ []
  pub partial_list : c.partial_list ≡ []

no_refs :
    (ss : List Slab)
    → ((a : ℕ) → total (refs_at a) ss ≡ 0)
    → All (λ (s : Slab). 0 < s.sks_ref) ss
    → ss ≡ []
no_refs [] h u = refl
no_refs (s ∷ ss) h (p, u) = absurd (ground (arith, h s.sks_addr, p))

no-Full :
    (sko : ℕ → ℕ) (ss : List Slab)
    → ((a : ℕ) → total (refs_at a) ss ≡ 0)
    → All (Full sko) ss
    → ss ≡ []
no-Full sko [] h u = refl
no-Full sko (s ∷ ss) h ((f, e), u) = absurd (ground (arith, h s.sks_addr, e, f.some_objs))

pub Reclaimed-Emptied : {c : Cache} {r : Cache × List ℕ} → Reclaimed c [] r → Emptied r.0
Reclaimed-Emptied {c} {r} h =
    let d = r.0 in
    let k = h.inv.counts in
    let p : d.partial_list ≡ [] =
      no_refs d.partial_list (λ a. omega (arith, k.refs a)) h.none_empty in
    let q : d.complete_list ≡ [] =
      no-Full d.sko_slab d.complete_list (λ a. omega (arith, k.refs a)) h.inv.complete_ok in
    let slabs = k.slabs in
    let objs = k.objects in
    let all = k.all_objects in
    let n : d.slab_total ≡ 0 = omega (arith, ap (total one) p, ap (total one) q, slabs) in
    record {
      slab_alloc = sym h.counted ∙ n;
      obj_alloc = omega (arith, ap (total Slab.sks_ref) p, ap (total Slab.sks_ref) q, objs);
      slab_total = n;
      obj_total = omega (arith, ap (total Slab.sks_objs) p, ap (total Slab.sks_objs) q, all);
      complete_list = q;
      partial_list = p;
    }

shrink_emergency : (j o : ℕ) (c : Cache) → (spl_cache_shrink j o c).obj_emergency ≡ c.obj_emergency
unfolding spl_cache_shrink
shrink_emergency j o c = ground arith

flush_emergency :
    (j n : ℕ) (objs : List ℕ) (c : Cache)
    → (flush_objs j n objs c).0.obj_emergency ≡ c.obj_emergency
unfolding flush_objs
flush_emergency j zero objs c = refl
flush_emergency j (suc n) [] c = refl
flush_emergency j (suc n) (o ∷ os) c =
    flush_emergency j n os (spl_cache_shrink j o c) ∙ shrink_emergency j o c

destroy_emergency :
    (j : ℕ) (c : Cache) (ms : List Magazine)
    → (spl_magazine_destroy j c ms).obj_emergency ≡ c.obj_emergency
unfolding spl_magazine_destroy __spl_cache_flush
destroy_emergency j c [] = refl
destroy_emergency j c (m ∷ ms) =
    let n = length m.skm_objs in
    destroy_emergency j (__spl_cache_flush j c m n).0 ms
    ∙ flush_emergency j (if ltb n n then n else n) m.skm_objs c

walk_one_emergency :
    (s : Slab) (r : List Slab × (Cache × Work))
    → (walk_one s r).1.0.obj_emergency ≡ r.1.0.obj_emergency
unfolding walk_one
walk_one_emergency s ([], (c, w)) = ground arith
walk_one_emergency s (t ∷ ts, st) = refl

walk_emergency :
    (ss : List Slab) (c : Cache) (w : Work)
    → (reclaim_walk ss (c, w)).1.0.obj_emergency ≡ c.obj_emergency
unfolding reclaim_walk
walk_emergency [] c w = refl
walk_emergency (s ∷ ss) c w = walk_one_emergency s (reclaim_walk ss (c, w)) ∙ walk_emergency ss c w

reclaim_emergency : (c : Cache) → (spl_slab_reclaim c).0.obj_emergency ≡ c.obj_emergency
unfolding spl_slab_reclaim
reclaim_emergency c = walk_emergency c.partial_list c _

-- The end of a cache leaves the count of its emergency objects.
pub destroy_slabs_emergency :
    (j : ℕ) (c : Cache) (ms : List Magazine)
    → (destroy_slabs j c ms).0.obj_emergency ≡ c.obj_emergency
unfolding destroy_slabs
destroy_slabs_emergency j c ms =
    reclaim_emergency (spl_magazine_destroy j c ms) ∙ destroy_emergency j c ms

-- The end of a cache that meets the invariant, where every object that has been taken is in the
-- magazine of some CPU and no emergency object is left: spl_magazine_destroy and spl_slab_reclaim
-- leave a cache that passes every assertion of spl_kmem_cache_destroy. The counts of slabs and
-- objects are all 0 and no slab is on a list.
pub destroy_slabs-Emptied :
    (j : ℕ) (c : Cache) (ms : List Magazine)
    → Inv c (magazine_objs ms)
    → c.obj_emergency ≡ 0
    → Emptied (destroy_slabs j c ms).0 × ((destroy_slabs j c ms).0.obj_total ≡ 0)
unfolding destroy_slabs
destroy_slabs-Emptied j c ms i z =
    let d = spl_magazine_destroy j c ms in
    let k : Inv d [] =
      spl_magazine_destroy-Inv j c ms [] (subst (Inv c) (sym (append-nil (magazine_objs ms))) i) in
    let e = Reclaimed-Emptied (spl_slab_reclaim-Reclaimed d [] k) in
    let em : (spl_slab_reclaim d).0.obj_emergency ≡ 0 = destroy_slabs_emergency j c ms ∙ z in
    (e, omega (arith, e.obj_total, em))
