-- ===== src/Slab/Emergency/Tracked.antt =====
-- Which emergency objects a cache tracks.
use spl.Prelude.{
  ℕ, ◌+◌, ◌^◌, ◌≤◌, ◌<◌, ◌≡◌, refl, ap, ◌∙◌, ◌⊎◌, inl, inr, Option, none, some, [], ◌∷◌, ltb, ◌==◌,
  if◌then◌else◌, arith, if_elim,
}
use spl.Slab.{Tree, Cache, sub64}
use spl.Slab.Emergency.{
  spl_emergency_search, link_node, Emergency, spl_emergency_insert, inserted, track,
  spl_emergency_free, einval,
}

-- How often an address is in a tree.
abbrev pub occurs : ℕ → Tree → ℕ
occurs a Tree.leaf = 0
occurs a (Tree.node l x r) = occurs a l + (if x == a then 1 else 0) + occurs a r

-- A search tree of addresses between two bounds.
abbrev pub Between : ℕ → ℕ → Tree → Type 0
Between lo hi Tree.leaf = Unit {0}
Between lo hi (Tree.node l x r) = (lo < x) × (x < hi) × Between lo x l × Between x hi r

pub occurs_low : (lo hi a : ℕ) (t : Tree) → Between lo hi t → a ≤ lo → occurs a t ≡ 0
occurs_low lo hi a Tree.leaf b h = refl
occurs_low lo hi a (Tree.node l x r) (p, q, m, n) h =
    ground (arith, occurs_low lo x a l m h, occurs_low x hi a r n (omega (arith, h, p)), p, h)

pub occurs_high : (lo hi a : ℕ) (t : Tree) → Between lo hi t → hi ≤ a → occurs a t ≡ 0
occurs_high lo hi a Tree.leaf b h = refl
occurs_high lo hi a (Tree.node l x r) (p, q, m, n) h =
    ground (arith, occurs_high lo x a l m (omega (arith, h, q)), occurs_high x hi a r n h, q, h)

-- The search in a search tree finds an address exactly if it is there, and it is there once at most.
pub search-occurs :
    (lo hi a : ℕ) (t : Tree)
    → Between lo hi t
    → ((spl_emergency_search t a ≡ none) × (occurs a t ≡ 0))
      ⊎ ((spl_emergency_search t a ≡ some a) × (occurs a t ≡ 1))
unfolding spl_emergency_search
search-occurs lo hi a Tree.leaf b = inl (refl, refl)
search-occurs lo hi a (Tree.node l x r) (p, q, m, n) = ground (
  arith,
  search-occurs lo x a l m,
  search-occurs x hi a r n,
  λ (h : a ≤ x). occurs_low x hi a r n h,
  λ (h : x ≤ a). occurs_high lo x a l m h,
)

-- The new node.
record Linked (lo hi a : ℕ) (t t' : Tree) : Type 0 where
  pub ordered : Between lo hi t'
  pub counts : (b : ℕ) → occurs b t' ≡ occurs b t + (if a == b then 1 else 0)

-- The address is there already, or the tree has one node more.
data Link (lo hi a : ℕ) (t : Tree) : Option Tree → Type 0 where
  present : occurs a t ≡ 1 → Link lo hi a t none
  linked : (t' : Tree) → occurs a t ≡ 0 → Linked lo hi a t t' → Link lo hi a t (some t')

left-Link :
    (lo hi a x : ℕ) (l r : Tree) (o : Option Tree)
    → a < x
    → Between lo hi (Tree.node l x r)
    → Link lo x a l o
    → Link lo hi a (Tree.node l x r) (elim o [ none ↦ none | some l' ↦ some (Tree.node l' x r) ])
left-Link lo hi a x l r _ h (u, v, m, n) (present e) =
    present (ground (arith, e, h, occurs_low x hi a r n (omega (arith, h))))
left-Link lo hi a x l r _ h (u, v, m, n) (linked t e k) =
    linked (Tree.node t x r) (ground (arith, e, h, occurs_low x hi a r n (omega (arith, h))))
      (record { ordered = (u, v, k.ordered, n); counts = λ b. omega (arith, k.counts b) })

right-Link :
    (lo hi a x : ℕ) (l r : Tree) (o : Option Tree)
    → x < a
    → Between lo hi (Tree.node l x r)
    → Link x hi a r o
    → Link lo hi a (Tree.node l x r) (elim o [ none ↦ none | some r' ↦ some (Tree.node l x r') ])
right-Link lo hi a x l r _ h (u, v, m, n) (present e) =
    present (ground (arith, e, h, occurs_high lo x a l m (omega (arith, h))))
right-Link lo hi a x l r _ h (u, v, m, n) (linked t e k) =
    linked (Tree.node l x t) (ground (arith, e, h, occurs_high lo x a l m (omega (arith, h))))
      (record { ordered = (u, v, m, k.ordered); counts = λ b. omega (arith, k.counts b) })

link_node-Link :
    (lo hi a : ℕ) (t : Tree) → lo < a → a < hi → Between lo hi t → Link lo hi a t (link_node t a)
unfolding link_node
link_node-Link lo hi a Tree.leaf p q b =
    linked (Tree.node Tree.leaf a Tree.leaf) refl
      (record { ordered = (p, q, tt, tt); counts = λ c. omega arith })
link_node-Link lo hi a (Tree.node l x r) p q (u, v, m, n) =
    if_elim (Link lo hi a (Tree.node l x r)) (ltb a x) _ _
      (λ h.
        left-Link lo hi a x l r _ (ground (arith, h)) (u, v, m, n)
          (link_node-Link lo x a l p (ground (arith, h)) m))
      (λ h.
        if_elim (Link lo hi a (Tree.node l x r)) (ltb x a) _ _
          (λ k.
            right-Link lo hi a x l r _ (ground (arith, k)) (u, v, m, n)
              (link_node-Link x hi a r (ground (arith, k)) q n))
          (λ k. present (
            ground (
              arith,
              h,
              k,
              occurs_high lo x a l m (ground (arith, h, k)),
              occurs_low x hi a r n (ground (arith, h, k)),
            ))))

-- What is documented of the kernel's operations: rb_insert_color keeps the nodes and their order,
-- rb_erase takes the node away.
unfoldable pub Balances : (Tree → Tree) → Type 0
Balances f =
    (t : Tree) (lo hi : ℕ)
    → Between lo hi t
    → Between lo hi (f t) × ((b : ℕ) → occurs b (f t) ≡ occurs b t)

unfoldable pub Erases : (ℕ → Tree → Tree) → Type 0
Erases f =
    (a : ℕ) (t : Tree) (lo hi : ℕ)
    → Between lo hi t
    → Between lo hi (f a t) × ((b : ℕ) → occurs b (f a t) ≡ (if a == b then 0 else occurs b t))

-- How emergency objects are tracked: those of `c`, by the calls of `f` and `g`.
pub record Tracked (f : Tree → Tree) (g : ℕ → Tree → Tree) (hi a : ℕ) (c : Cache) (e : Emergency)
    : Type 0 where
  pub code : e.code ≡ 0
  pub obj : e.obj ≡ some a
  pub ordered : Between 0 hi e.cache.emergency_tree
  pub new :
      (b : ℕ)
      → occurs b e.cache.emergency_tree ≡ occurs b c.emergency_tree + (if a == b then 1 else 0)
  pub freed : (spl_emergency_free f g a e.cache).code ≡ 0
  pub given_back : (spl_emergency_free f g a e.cache).freed ≡ a ∷ []
  pub gone :
      (b : ℕ)
      → occurs b (spl_emergency_free f g a e.cache).cache.emergency_tree ≡ occurs b c.emergency_tree
  pub total : (spl_emergency_free f g a e.cache).cache.obj_total ≡ c.obj_total
  pub count : (spl_emergency_free f g a e.cache).cache.obj_emergency ≡ c.obj_emergency

module _ (f : Tree → Tree) (g : ℕ → Tree → Tree) (balances : Balances f) (erases : Erases g) where
  free_found :
      (a : ℕ) (c : Cache)
      → spl_emergency_search c.emergency_tree a ≡ some a
      → spl_emergency_free f g a c ≡ record {
        code = 0;
        obj = none;
        cache = record c {
          emergency_tree = g a c.emergency_tree;
          obj_emergency = sub64 c.obj_emergency 1;
          obj_total = sub64 c.obj_total 1;
        };
        freed = a ∷ [];
      }
  unfolding spl_emergency_free
  free_found a c e = rw (spl_emergency_free, e) refl

  inserted-Tracked :
      (hi a : ℕ) (c : Cache) (o : Option Tree)
      → c.obj_total < 2 ^ 64
      → c.obj_emergency < 2 ^ 64
      → Between 0 hi c.emergency_tree
      → Link 0 hi a c.emergency_tree o
      → ((occurs a c.emergency_tree ≡ 1)
          × (inserted f g a c (elim o [ none ↦ none | some t ↦ some (f t) ])
              ≡ record { code = einval; obj = none; cache = c; freed = a ∷ [] }))
        ⊎ Tracked f g hi a c (inserted f g a c (elim o [ none ↦ none | some t ↦ some (f t) ]))
  unfolding inserted Balances Erases
  inserted-Tracked hi a c _ p q b (present e) = inl (e, refl)
  inserted-Tracked hi a c _ p q b (linked t z k) =
      let (ordered, same) = balances t 0 hi k.ordered in
      let new : (x : ℕ) → occurs x (f t) ≡ occurs x c.emergency_tree + (if a == x then 1 else 0) =
        λ x. same x ∙ k.counts x in
      let one : occurs a (f t) ≡ 1 = ground (arith, new a, z) in
      let found : spl_emergency_search (f t) a ≡ some a =
        elim (search-occurs 0 hi a (f t) ordered) [
          | inl (_, n) ↦ absurd (omega (arith, n, one))
          | inr (s, _) ↦ s
        ] in
      let d = (inserted f g a c (some (f t))).cache in
      let e = free_found a d found in
      let (_, erased) = erases a (f t) 0 hi ordered in
      inr (record {
        code = refl;
        obj = refl;
        ordered = ordered;
        new = new;
        freed = ap Emergency.code e;
        given_back = ap Emergency.freed e;
        gone = λ x.
            ap (λ (y : Emergency). occurs x y.cache.emergency_tree) e
            ∙ ground (arith, erased x, new x, z);
        total = ap (λ (y : Emergency). y.cache.obj_total) e ∙ omega (arith, p);
        count = ap (λ (y : Emergency). y.cache.obj_emergency) e ∙ omega (arith, q);
      })

  -- Suppose that rb_insert_color keeps the nodes of a search tree and their order and that rb_erase
  -- takes the node with the address away. Take an address from 1 to below a bound and a cache whose
  -- tree is a search tree of addresses below it, with counters of 64 bits. Either the address is
  -- tracked already, and then it is given back with EINVAL and the cache is as it was; or it is
  -- returned and tracked beside the others, and spl_emergency_free of it then succeeds, gives it
  -- back and leaves the counts and the tracked addresses as they were before.
  pub track-Tracked :
      (hi a : ℕ) (c : Cache)
      → 0 < a
      → a < hi
      → c.obj_total < 2 ^ 64
      → c.obj_emergency < 2 ^ 64
      → Between 0 hi c.emergency_tree
      → ((occurs a c.emergency_tree ≡ 1)
          × (track f g a c ≡ record { code = einval; obj = none; cache = c; freed = a ∷ [] }))
        ⊎ Tracked f g hi a c (track f g a c)
  unfolding track spl_emergency_insert
  track-Tracked hi a c l h p q b =
      inserted-Tracked hi a c (link_node c.emergency_tree a) p q b
        (link_node-Link 0 hi a c.emergency_tree l h b)
