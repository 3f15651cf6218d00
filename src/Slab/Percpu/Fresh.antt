-- ===== src/Slab/Percpu/Fresh.antt =====
-- What spl_kmem_cache_alloc hands out.
use spl.Prelude.{
  All, ℕ, ◌-◌, ◌≤◌, ◌≡◌, refl, sym, ap, ◌∙◌, subst, Bool, true, false, some, none, List, [], ◌∷◌,
  ◌++◌, length, length-append, ◌==◌, arith, if_elim, Option-cases, ◌⊎◌, inl, inr, min,
}
use spl.Slab.{Magazine, Cache}
use spl.Slab.Objects.{Grown, Refill, refill_loop, spl_cache_refill, take_slabs}
use spl.Slab.Lists.{append_one, count_middle, count_swap}
use spl.Slab.Percpu.{last, Pass, Alloc, after_refill, spl_kmem_cache_alloc}
use spl.Slab.Invariant.{times, free_at, sums, Inv, Inv-out}
use spl.Slab.Invariant.Refill.{take_slabs-Refilled}

last_cases :
    (xs : List ℕ)
    → ((last xs ≡ none) × (xs ≡ []))
      ⊎ ((ys : List ℕ) × (y : ℕ) × (last xs ≡ some (ys, y)) × (xs ≡ ys ++ (y ∷ [])))
unfolding last
last_cases [] = inl (refl, refl)
last_cases (x ∷ xs) = elim (last_cases xs) [
  | inl (e, f) ↦ inr ([], x, rw e refl, ap (λ (zs : List ℕ). x ∷ zs) f)
  | inr (ys, y, e, f) ↦ inr (x ∷ ys, y, rw e refl, ap (λ (zs : List ℕ). x ∷ zs) f)
]

-- The cache and the objects of the magazine, with some objects that others have.
abbrev Kept : (size : ℕ) → Cache → List ℕ → Type 0
Kept size c os = (others : List ℕ) × Inv c (os ++ others) × (length os ≤ size)

-- While the lock is dropped in spl_cache_grow, others keep the invariant and do not overfill the magazine.
unfoldable pub KeepsGrow : (size : ℕ) → (Cache → List ℕ → Grown) → Type 0
KeepsGrow size grow =
    (c : Cache) (os : List ℕ) → Kept size c os → Kept size (grow c os).cache (grow c os).objs

RefillKept : (size : ℕ) → Refill → Type 0
RefillKept size (Refill.emergency o c os) = Kept size c os
RefillKept size (Refill.refilled c os) = Kept size c os
RefillKept size (Refill.growing r c os) = Kept size c os

-- What the slabs give fits the magazine.
take-Kept :
    (j size r : ℕ) (c : Cache) (objs : List ℕ)
    → r ≤ size - length objs
    → Kept size c objs
    → Kept size (take_slabs j r c c.partial_list objs).1 (take_slabs j r c c.partial_list objs).2
take-Kept j size r c objs l (others, i, b) =
    let t = take_slabs-Refilled j r c c.partial_list (objs ++ others) objs i in
    let os = (take_slabs j r c c.partial_list objs).2 in
    let fits : length os ≤ size =
      omega (arith, ap length t.stored, length-append objs t.new, t.wanted, l, b) in
    (
      others,
      subst (λ (xs : List ℕ). Inv (take_slabs j r c c.partial_list objs).1 (xs ++ others))
          (sym t.stored) (Inv-out _ _ _ (λ key a. count_swap key a objs t.new others) t.inv),
      fits,
    )

refill_loop-Kept :
    (j size r : ℕ) (c : Cache) (objs : List ℕ) (grows : List (Cache → List ℕ → Grown))
    → All (KeepsGrow size) grows
    → r ≤ size - length objs
    → Kept size c objs
    → RefillKept size (refill_loop j size r c objs grows)
unfolding refill_loop RefillKept KeepsGrow
refill_loop-Kept j size r c objs [] h l k =
    let t = take_slabs j r c c.partial_list objs in
    let now = take-Kept j size r c objs l k in
    if_elim (RefillKept size) (t.0 == 0) _ _ (λ b. now) (λ b. now)
refill_loop-Kept j size r c objs (grow ∷ grows) (p, h) l k =
    let t = take_slabs j r c c.partial_list objs in
    let now = take-Kept j size r c objs l k in
    let g = grow t.1 t.2 in
    let later = p t.1 t.2 now in
    let again =
      refill_loop-Kept j size (min t.0 (size - length g.objs)) g.cache g.objs grows h (omega arith)
        later in
    if_elim (RefillKept size) (t.0 == 0) _ _ (λ b. now)
      (λ b.
        if_elim (RefillKept size) (g.rc == 0) _ _
          (λ d. elim (Option-cases g.obj) [
            | inr (o, e) ↦ rw e later
            | inl e ↦ rw e (if_elim (RefillKept size) g.same_cpu _ _ (λ _. again) (λ _. later))
          ])
          (λ d. later))

unfoldable pub KeepsPass : (size : ℕ) → Pass → Type 0
KeepsPass size pass =
    All (KeepsGrow size) pass.grows
    × ((c : Cache) (m : Magazine)
        → m.skm_size ≡ size
        → Kept size c m.skm_objs
        → ((pass.restart c m).1.skm_size ≡ size)
          × Kept size (pass.restart c m).0 (pass.restart c m).1.skm_objs)

-- The outcome of an allocation: the invariant holds; an object of a magazine is then the caller's, no one
-- else has it and it is not free in a slab.
unfoldable pub AllocKept : (size : ℕ) → Alloc → Type 0
AllocKept size (Alloc.object o c m) =
    (others : List ℕ) × Inv c (m.skm_objs ++ (o ∷ others))
    × (length m.skm_objs ≤ size)
    × (times o (m.skm_objs ++ others) ≡ 0)
    × (sums c.partial_list c.complete_list (free_at o) ≡ 0)
AllocKept size (Alloc.emergency_object o c m) = Kept size c m.skm_objs
AllocKept size (Alloc.null c m) = Kept size c m.skm_objs
AllocKept size (Alloc.pending c m) = Kept size c m.skm_objs

pending-Kept :
    (size : ℕ) (c : Cache) (m : Magazine)
    → Kept size c m.skm_objs
    → AllocKept size (Alloc.pending c m)
unfolding AllocKept
pending-Kept size c m k = k

-- The last object of the magazine.
popped :
    (j size : ℕ) (c : Cache) (m : Magazine) (os : List ℕ) (o : ℕ)
    → m.skm_objs ≡ os ++ (o ∷ [])
    → Kept size c m.skm_objs
    → AllocKept size (Alloc.object o c (record m { skm_objs = os; skm_age = j }))
unfolding AllocKept
popped j size c m os o e (others, i, b) =
    let held : Inv c (os ++ (o ∷ others)) =
      subst (Inv c) (ap (λ (xs : List ℕ). xs ++ others) e ∙ append_one os o others) i in
    let apart = held.counts.apart o in
    let once = count_middle (λ (x : ℕ). x) o o os others in
    (
      others,
      held,
      omega (arith, b, ap length e, length-append os (o ∷ [])),
      ground (arith, apart, once),
      ground (arith, apart, once),
    )

after_refill-Kept :
    (size : ℕ) (nosleep : Bool) (m : Magazine) (restart : Cache → Magazine → Alloc) (r : Refill)
    → m.skm_size ≡ size
    → ((c : Cache) (n : Magazine)
        → n.skm_size ≡ size
        → Kept size c n.skm_objs
        → AllocKept size (restart c n))
    → RefillKept size r
    → AllocKept size (after_refill nosleep m restart r)
unfolding after_refill AllocKept RefillKept
after_refill-Kept size nosleep m restart (Refill.emergency o c os) e f k = k
after_refill-Kept size nosleep m restart (Refill.growing r c os) e f k = k
after_refill-Kept size true m restart (Refill.refilled c os) e f k = k
after_refill-Kept size false m restart (Refill.refilled c os) e f k =
    f c (record m { skm_objs = os }) e k

refill-Kept :
    (j size : ℕ) (c : Cache) (m : Magazine) (grows : List (Cache → List ℕ → Grown))
    → m.skm_size ≡ size
    → All (KeepsGrow size) grows
    → Kept size c m.skm_objs
    → RefillKept size (spl_cache_refill j c m grows)
unfolding spl_cache_refill
refill-Kept j size c m grows e h k =
    subst
      (λ (n : ℕ).
        RefillKept size
          (refill_loop j n (min m.skm_refill (n - length m.skm_objs)) c m.skm_objs grows))
      (sym e)
      (refill_loop-Kept j size (min m.skm_refill (size - length m.skm_objs)) c m.skm_objs grows h
        (omega arith) k)

-- spl_kmem_cache_alloc on a cache that meets the invariant, with a magazine of the given size that
-- is not overfull, where what happens in the calls of spl_cache_grow and at each restart keeps this.
-- Afterwards the invariant holds and the magazine is not overfull. An object that comes from the
-- magazine is then taken, is not in the magazine or among the objects that others have, and is not
-- free in any slab.
pub spl_kmem_cache_alloc-Kept :
    (j size : ℕ) (nosleep : Bool) (c : Cache) (m : Magazine) (passes : List Pass)
    → m.skm_size ≡ size
    → All (KeepsPass size) passes
    → Kept size c m.skm_objs
    → AllocKept size (spl_kmem_cache_alloc j nosleep c m passes)
unfolding spl_kmem_cache_alloc KeepsPass
spl_kmem_cache_alloc-Kept j size nosleep c m [] e h k = elim (last_cases m.skm_objs) [
  | inl (x, y) ↦ rw (spl_kmem_cache_alloc, x) (pending-Kept size c m k)
  | inr (os, o, x, y) ↦ rw (spl_kmem_cache_alloc, x) (popped j size c m os o y k)
]
spl_kmem_cache_alloc-Kept j size nosleep c m (pass ∷ passes) e ((g, r), h) k =
    let again = λ (d : Cache) (n : Magazine) (q : n.skm_size ≡ size) (z : Kept size d n.skm_objs).
      let (s, w) = r d n q z in
      spl_kmem_cache_alloc-Kept j size nosleep (pass.restart d n).0 (pass.restart d n).1 passes s h
        w in
    elim (last_cases m.skm_objs) [
      | inl (x, y) ↦
          rw (spl_kmem_cache_alloc, x)
            (after_refill-Kept size nosleep m _ (spl_cache_refill j c m pass.grows) e again
              (refill-Kept j size c m pass.grows e g k))
      | inr (os, o, x, y) ↦ rw (spl_kmem_cache_alloc, x) (popped j size c m os o y k)
    ]
