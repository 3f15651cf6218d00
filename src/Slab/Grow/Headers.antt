-- ===== src/Slab/Grow/Headers.antt =====
-- The headers of objects when a slab is added.
use spl.Prelude.{All, ℕ, ◌≤◌, ◌<◌, ◌≡◌, refl, ◌∙◌, true, false, List, [], ◌∷◌, if◌then◌else◌, arith}
use spl.Ordered.{count}
use spl.Slab.{Slab}
use spl.Slab.Lists.{total}
use spl.Slab.Grow.{member}
use spl.Slab.Invariant.{times, free_at, Fits, Room, Full}

pub member-times : (o : ℕ) (xs : List ℕ) → times o xs ≡ 0 → member o xs ≡ false
unfolding member
member-times o [] h = refl
member-times o (x ∷ xs) h = ground (arith, h, member-times o xs)

pub times-member : (o : ℕ) (xs : List ℕ) → 0 < times o xs → member o xs ≡ true
unfolding member
times-member o [] h = absurd (omega (arith, h))
times-member o (x ∷ xs) h = ground (arith, h, times-member o xs)

-- Objects that have the same header before and after.
pub homes_keep :
    (f g : ℕ → ℕ) (a : ℕ) (xs : List ℕ)
    → ((o : ℕ) → 0 < times o xs → g o ≡ f o)
    → All (λ (o : ℕ). f o ≡ a) xs
    → All (λ (o : ℕ). g o ≡ a) xs
homes_keep f g a [] k h = tt
homes_keep f g a (x ∷ xs) k (e, h) =
    (k x (ground arith) ∙ e, homes_keep f g a xs (λ o p. k o (omega (arith, p))) h)

pub count_keep :
    (f g : ℕ → ℕ) (a : ℕ) (xs : List ℕ)
    → ((o : ℕ) → 0 < times o xs → g o ≡ f o)
    → count g a xs ≡ count f a xs
count_keep f g a [] k = refl
count_keep f g a (x ∷ xs) k =
    let e : g x ≡ f x = k x (ground arith) in
    ground (arith, e, count_keep f g a xs (λ o p. k o (omega (arith, p))))

pub Fits-keep :
    (f g : ℕ → ℕ) (s : Slab) → ((o : ℕ) → 0 < free_at o s → g o ≡ f o) → Fits f s → Fits g s
Fits-keep f g s k h = record {
  split = h.split;
  some_objs = h.some_objs;
  word = h.word;
  homes = homes_keep f g s.sks_addr s.sks_free_list k h.homes;
}

pub Room-keep :
    (f g : ℕ → ℕ) (ss : List Slab)
    → ((o : ℕ) → 0 < total (free_at o) ss → g o ≡ f o)
    → All (Room f) ss
    → All (Room g) ss
Room-keep f g [] k h = tt
Room-keep f g (s ∷ ss) k ((h, l), t) = (
  (Fits-keep f g s (λ o p. k o (omega (arith, p))) h, l),
  Room-keep f g ss (λ o p. k o (omega (arith, p))) t,
)

pub Full-keep :
    (f g : ℕ → ℕ) (ss : List Slab)
    → ((o : ℕ) → 0 < total (free_at o) ss → g o ≡ f o)
    → All (Full f) ss
    → All (Full g) ss
Full-keep f g [] k h = tt
Full-keep f g (s ∷ ss) k ((h, l), t) = (
  (Fits-keep f g s (λ o p. k o (omega (arith, p))) h, l),
  Full-keep f g ss (λ o p. k o (omega (arith, p))) t,
)

pub own_homes :
    (f : ℕ → ℕ) (a : ℕ) (all xs : List ℕ)
    → ((o : ℕ) → times o xs ≤ times o all)
    → All (λ (o : ℕ). (if member o all then a else f o) ≡ a) xs
own_homes f a all [] k = tt
own_homes f a all (x ∷ xs) k =
    let here : 0 < times x all = ground (arith, k x) in
    (rw (times-member x all here) refl, own_homes f a all xs (λ o. omega (arith, k o)))
