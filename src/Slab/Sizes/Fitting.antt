-- ===== src/Slab/Sizes/Fitting.antt =====
-- The objects of a slab and the magazines.
use native.Mathlib.Nat.{div-mul-le_self, mod-eq_of_lt}
use mathlib.Core.Option.{some-injective, none-ne-some}
use spl.Prelude.{
  ℕ, ◌+◌, ◌-◌, ◌*◌, ◌/◌, ◌%◌, ◌^◌, ◌≤◌, ◌<◌, ◌≡◌, refl, sym, ◌∙◌, false, none, some, leb, ◌==◌,
  if◌then◌else◌, arith, if_elim, Bool-cases, inl, inr, subst,
}
use spl.Slab.Sizes.{
  Machine, Shape, spl_sks_size, spl_obj_size, target, objs_and_size, spl_slab_size,
  spl_magazine_size, magazine_sizes, sub32,
}

-- The number of objects fits the size.
objs_fit :
    (o k t m : ℕ)
    → k ≤ t
    → k ≤ m
    → t < 2 ^ 32
    → m < 2 ^ 32
    → k + (objs_and_size o k t m).0 * o ≤ (objs_and_size o k t m).1
unfolding objs_and_size
objs_fit o k t m a b c d =
    let e : sub32 t k ≡ t - k = omega (arith, a, c) in
    let f : sub32 m k ≡ m - k = omega (arith, b, d) in
    let x = div-mul-le_self (t - k) o in
    let y = div-mul-le_self (m - k) o in
    if_elim (λ (r : ℕ × ℕ). k + r.0 * o ≤ r.1) (leb t m) _ _ (λ h. rw e (omega (arith, x, a)))
      (λ h. rw f (
        let w : ((m - k) / o * o + k) % 2 ^ 32 ≡ (m - k) / o * o + k =
          mod-eq_of_lt (omega (arith, y, b, d)) in
        omega (arith, w)))

target_bounds :
    (m : Machine) (skc : Shape) → ((target m skc).0 < 2 ^ 32) × ((target m skc).1 < 2 ^ 32)
unfolding target
target_bounds m skc =
    if_elim (λ (r : ℕ × ℕ). (r.0 < 2 ^ 32) × (r.1 < 2 ^ 32)) skc.kmem _ _
      (λ b. (omega arith, omega arith)) (λ b. (omega arith, omega arith))

-- Where spl_slab_size succeeds for objects on the slab, and the slab's header fits the target size
-- and the maximum, there is at least one object, and the header and all objects fit the size.
pub spl_slab_size-fits :
    (m : Machine) (skc : Shape) (objs size : ℕ)
    → skc.offslab ≡ false
    → spl_sks_size m skc ≤ (target m skc).0
    → spl_sks_size m skc ≤ (target m skc).1
    → spl_slab_size m skc ≡ some (objs, size)
    → (0 < objs) × (spl_sks_size m skc + objs * spl_obj_size m skc ≤ size)
unfolding spl_slab_size
spl_slab_size-fits m skc objs size off a b e =
    let (t, x) = target m skc in
    let (p, q) = target_bounds m skc in
    let r = objs_and_size (spl_obj_size m skc) (spl_sks_size m skc) t x in
    let fit : spl_sks_size m skc + r.0 * spl_obj_size m skc ≤ r.1 =
      objs_fit (spl_obj_size m skc) (spl_sks_size m skc) t x a b p q in
    let here : (if r.0 == 0 then none else some r) ≡ some (objs, size) = sym (rw off refl) ∙ e in
    elim (Bool-cases (r.0 == 0)) [
      | inl z ↦ absurd (none-ne-some (objs, size) (sym (rw z refl) ∙ here))
      | inr z ↦
          let same : r ≡ (objs, size) = some-injective r (objs, size) (sym (rw z refl) ∙ here) in
          subst (λ (s : ℕ × ℕ). (0 < s.0) × (spl_sks_size m skc + s.0 * spl_obj_size m skc ≤ s.1))
            same (ground (arith, z), fit)
    ]

spl_magazine_size-bounds :
    (m : Machine) (skc : Shape) → (2 ≤ spl_magazine_size m skc) × (spl_magazine_size m skc ≤ 256)
unfolding spl_magazine_size
spl_magazine_size-bounds m skc = ground arith

-- For all tunables and sizes, a magazine has from 2 to 256 objects, and its refill count is from 1
-- to its size.
pub magazine_sizes-bounds :
    (m : Machine) (skc : Shape)
    → (2 ≤ (magazine_sizes m skc).0)
      × ((magazine_sizes m skc).0 ≤ 256)
      × (1 ≤ (magazine_sizes m skc).1)
      × ((magazine_sizes m skc).1 ≤ (magazine_sizes m skc).0)
unfolding magazine_sizes
magazine_sizes-bounds m skc =
    let (a, b) = spl_magazine_size-bounds m skc in (a, b, omega (arith, a), omega (arith, a))
