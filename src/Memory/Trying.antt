-- ===== src/Memory/Trying.antt =====
-- When spl_kmem_alloc_impl answers, and what.
use spl.Prelude.{
  ℕ, zero, suc, ◌+◌, ◌≤◌, ◌<◌, ◌≡◌, refl, sym, ap, ◌∙◌, Bool, true, false, not, ◌&&◌, ◌||◌, Option,
  none, some, ltb, if◌then◌else◌, if_elim, arith,
}
use spl.Memory.{Kernel, Request, is_some, alloc_loop, spl_kmem_alloc_impl}

-- Memory is got.
pub data Got : Option (Option ℕ) → Type 0 where
  got : (p : ℕ) → Got (some (some p))

some_Got : (o : Option ℕ) → is_some o ≡ true → Got (some o)
some_Got none e = absurd (let h = e in cc)
some_Got (some p) e = got p

still_allowed :
    (large u vmem : Bool)
    → ((large || u) && not vmem) ≡ false
    → ((large || (vmem || u)) && not vmem) ≡ false
still_allowed false false false e = refl
still_allowed false false true e = refl
still_allowed large true false e = ground arith
still_allowed true u false e = e
still_allowed large u true e = ground arith

answered :
    (b : Bool) (v w : Option ℕ) {p q : ℕ}
    → v ≡ some p
    → w ≡ some q
    → is_some (if b then v else w) ≡ true
answered true v w e f = ap is_some e
answered false v w e f = ap is_some f

-- A pass that the fuel allows in which both allocators give memory.
loop-Got :
    (fuel : ℕ) (k : Kernel) (r : Request) (u : Bool) (pass n p q : ℕ)
    → ((r.large || u) && not r.vmem) ≡ false
    → r.nosleep ≡ false
    → k.__vmalloc n ≡ some p
    → k.kmalloc_node n ≡ some q
    → pass ≤ n
    → n < pass + fuel
    → Got (alloc_loop fuel k r u pass)
unfolding alloc_loop
loop-Got zero k r u pass n p q ok sleep ev ek h l = absurd (omega arith)
loop-Got (suc fuel) k r u pass n p q ok sleep ev ek h l =
    let b = r.large || u in
    let ptr = if b then k.__vmalloc pass else k.kmalloc_node pass in
    let again = alloc_loop fuel k r (r.vmem || u) (pass + 1) in
    let hit : pass ≡ n → is_some ptr ≡ true = λ e.
      answered b (k.__vmalloc pass) (k.kmalloc_node pass) (ap k.__vmalloc e ∙ ev)
        (ap k.kmalloc_node e ∙ ek) in
    if_elim Got (b && not r.vmem) (some none) (if is_some ptr || r.nosleep then some ptr else again)
      (λ refused. absurd (let e = sym refused ∙ ok in cc))
      (λ allowed.
        if_elim Got (is_some ptr || r.nosleep) (some ptr) again
          (λ done. some_Got ptr (slept (is_some ptr) r.nosleep sleep done))
          (λ missed.
            loop-Got fuel k r (r.vmem || u) (pass + 1) n p q (still_allowed r.large u r.vmem ok)
              sleep ev ek (later pass n h (λ e. missed_none (is_some ptr) r.nosleep missed (hit e)))
              (omega arith)))
  where
    slept : (a b : Bool) → b ≡ false → (a || b) ≡ true → a ≡ true
    slept true b e f = refl
    slept false b e f = absurd (let h = sym e ∙ f in cc)

    missed_none : (a b : Bool) → (a || b) ≡ false → a ≡ true → ⊥
    missed_none true b e f = cc
    missed_none false b e f = cc

    later : (m n : ℕ) → m ≤ n → (m ≡ n → ⊥) → m + 1 ≤ n
    later m n h k = ground (arith, k)

-- What spl_kmem_alloc_impl comes to, for a caller that may sleep and a size up to spl_kmem_alloc_max
-- or KM_VMEM. When both allocators of the kernel give memory in some pass, as many passes and one
-- more are enough, and the answer is memory.
pub spl_kmem_alloc_impl-Got :
    (k : Kernel) (fuel alloc_max size n p q : ℕ) (vmem : Bool)
    → (ltb alloc_max size && not vmem) ≡ false
    → k.__vmalloc n ≡ some p
    → k.kmalloc_node n ≡ some q
    → n < fuel
    → Got (spl_kmem_alloc_impl fuel k alloc_max size vmem false)
unfolding spl_kmem_alloc_impl
spl_kmem_alloc_impl-Got k fuel alloc_max size n p q vmem ok ev ek l =
    loop-Got fuel k (record { vmem = vmem; nosleep = false; large = ltb alloc_max size }) false 0 n
      p q (small (ltb alloc_max size) vmem ok) refl ev ek (omega arith) (omega arith)
  where
    small : (a b : Bool) → (a && not b) ≡ false → ((a || false) && not b) ≡ false
    small true b e = e
    small false b e = refl
