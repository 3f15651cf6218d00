-- ===== src/Slab/Tests/Trees.antt =====
-- A tree without balancing, with a removal, and the emergency objects of a cache in it.
use spl.Prelude.{
  ℕ, true, false, ◌+◌, ◌≤◌, ◌<◌, ◌≡◌, refl, ◌⊎◌, none, [], ◌∷◌, ltb, ◌==◌, if◌then◌else◌, arith,
  if_elim,
}
use spl.Slab.{Tree, Cache}
use spl.Slab.System.{new_cache}
use spl.Slab.Emergency.{track, einval}
use spl.Slab.Emergency.Tracked.{
  occurs, Between, occurs_low, occurs_high, Balances, Erases, Tracked, track-Tracked,
}

abbrev unchanged : Tree → Tree
unchanged t = t

unchanged-Balances : Balances unchanged
unfolding Balances
unchanged-Balances t lo hi b = (b, λ x. refl)

abbrev join : Tree → Tree → Tree
join Tree.leaf t = t
join (Tree.node l x r) t = Tree.node l x (join r t)

abbrev erase : ℕ → Tree → Tree
erase a Tree.leaf = Tree.leaf
erase a (Tree.node l x r) =
    if ltb a x
    then Tree.node (erase a l) x r
    else if ltb x a
    then Tree.node l x (erase a r)
    else join l r

widen : (lo m hi : ℕ) (t : Tree) → lo ≤ m → Between m hi t → Between lo hi t
widen lo m hi Tree.leaf h b = tt
widen lo m hi (Tree.node l x r) h (p, q, u, v) = (omega (arith, h, p), q, widen lo m x l h u, v)

join-Between :
    (lo m hi : ℕ) (l r : Tree)
    → lo < m
    → m < hi
    → Between lo m l
    → Between m hi r
    → Between lo hi (join l r)
join-Between lo m hi Tree.leaf r p q u v = widen lo m hi r (omega (arith, p)) v
join-Between lo m hi (Tree.node l x t) r p q (a, b, c, d) v =
    (a, omega (arith, b, q), c, join-Between x m hi t r b q d v)

occurs-join : (a : ℕ) (l r : Tree) → occurs a (join l r) ≡ occurs a l + occurs a r
occurs-join a Tree.leaf r = omega arith
occurs-join a (Tree.node l x t) r = omega (arith, occurs-join a t r)

erase-Between : (a : ℕ) (t : Tree) (lo hi : ℕ) → Between lo hi t → Between lo hi (erase a t)
erase-Between a Tree.leaf lo hi b = b
erase-Between a (Tree.node l x r) lo hi (p, q, u, v) =
    if_elim (Between lo hi) (ltb a x) _ _ (λ _. (p, q, erase-Between a l lo x u, v))
      (λ _.
        if_elim (Between lo hi) (ltb x a) _ _ (λ _. (p, q, u, erase-Between a r x hi v))
          (λ _. join-Between lo x hi l r p q u v))

occurs-erase :
    (a : ℕ) (t : Tree) (lo hi b : ℕ)
    → Between lo hi t
    → occurs b (erase a t) ≡ (if a == b then 0 else occurs b t)
occurs-erase a Tree.leaf lo hi b h = ground arith
occurs-erase a (Tree.node l x r) lo hi b (p, q, u, v) =
    let low : b ≤ x → occurs b r ≡ 0 = λ h. occurs_low x hi b r v h in
    let high : x ≤ b → occurs b l ≡ 0 = λ h. occurs_high lo x b l u h in
    if_elim (λ (t : Tree). occurs b t ≡ (if a == b then 0 else occurs b (Tree.node l x r)))
      (ltb a x) _ _ (λ c. ground (arith, c, low, occurs-erase a l lo x b u))
      (λ c.
        if_elim (λ (t : Tree). occurs b t ≡ (if a == b then 0 else occurs b (Tree.node l x r)))
          (ltb x a) _ _ (λ d. ground (arith, d, high, occurs-erase a r x hi b v))
          (λ d. ground (arith, c, d, low, high, occurs-join b l r)))

erase-Erases : Erases erase
unfolding Erases
erase-Erases a t lo hi b = (erase-Between a t lo hi b, λ c. occurs-erase a t lo hi c b)

abbrev bare : Cache
bare = new_cache (record {
  kmem = false;
  vmem = true;
  offslab = false;
  deadlocked = true;
  growing = true;
  reaping = false;
})

track-Tracked_example :
    ((occurs 4096 bare.emergency_tree ≡ 1)
      × (track unchanged erase 4096 bare
          ≡ record { code = einval; obj = none; cache = bare; freed = 4096 ∷ [] }))
    ⊎ Tracked unchanged erase 8192 4096 bare (track unchanged erase 4096 bare)
unfolding new_cache
track-Tracked_example =
    track-Tracked unchanged erase unchanged-Balances erase-Erases 8192 4096 bare (omega arith)
      (omega arith) (omega arith) (omega arith) tt
