-- ===== src/Slab/Grow/Added.antt =====
-- Growing a cache.
use spl.Prelude.{
  All-append, ℕ, zero, suc, ◌+◌, ◌^◌, ◌≤◌, ◌<◌, ◌≡◌, refl, sym, ◌∙◌, Bool, true, false, Option,
  some, none, List, [], ◌∷◌, ◌++◌, length, if◌then◌else◌, arith, Option-cases, inl, inr,
}
use spl.Ordered.{count}
use spl.Ordered.Laws.{count-append}
use spl.Slab.{Slab, Cache}
use spl.Slab.Lists.{total-append}
use spl.Slab.Grow.{
  Layout, slab_objects, kv_objects, slab_from, spl_slab_alloc, grow_with, member, add_slab,
  __spl_cache_grow,
}
use spl.Slab.Invariant.{times, one, in_use, at, refs_at, free_at, Room, sums, Inv}
use spl.Slab.Invariant.Put.{snoc-EmptiesLast}
use spl.Slab.Grow.Headers.{member-times, count_keep, Room-keep, Full-keep, own_homes}

-- The memory of a new slab is not known to the cache, and no object of it stands twice.
pub record Fresh (c : Cache) (out : List ℕ) (s : Slab) : Type 0 where
  pub new_slab : sums c.partial_list c.complete_list (at s.sks_addr) ≡ 0
  pub new_objs :
      (o : ℕ) → sums c.partial_list c.complete_list (free_at o) + times o out + free_at o s ≤ 1

add_slab-Inv :
    (c : Cache) (out : List ℕ) (s : Slab)
    → s.sks_ref ≡ 0
    → length s.sks_free_list ≡ s.sks_objs
    → 0 < s.sks_objs
    → s.sks_objs < 2 ^ 32
    → Fresh c out s
    → Inv c out
    → Inv (add_slab s c) out
unfolding add_slab
add_slab-Inv c out s z e p w f i =
    let k = i.counts in
    let sko = λ (o : ℕ). if member o s.sks_free_list then s.sks_addr else c.sko_slab o in
    let ps = c.partial_list ++ (s ∷ []) in
    let more : (m : Slab → ℕ)
        → sums ps c.complete_list m ≡ sums c.partial_list c.complete_list m + m s =
      λ m. omega (arith, total-append m c.partial_list (s ∷ [])) in
    let apart : (o : ℕ) → times o s.sks_free_list ≡ 0 → sko o ≡ c.sko_slab o =
      λ o h. rw (member-times o s.sks_free_list h) refl in
    record {
      counts = record {
        slabs = omega (arith, k.slabs, more one);
        used = ground (arith, k.used, more in_use, z);
        objects = omega (arith, k.objects, more Slab.sks_ref, z);
        all_objects = omega (arith, k.all_objects, more Slab.sks_objs);
        once = λ a. ground (arith, k.once a, more (at a), f.new_slab);
        apart = λ o. omega (arith, f.new_objs o, more (free_at o));
        refs = λ a.
            let same : count sko a out ≡ count c.sko_slab a out =
              count_keep c.sko_slab sko a out (λ o h. apart o (omega (arith, f.new_objs o, h))) in
            ground (arith, k.refs a, more (refs_at a), z, same);
      };
      partial_ok =
          All-append (Room sko) c.partial_list (s ∷ [])
            (Room-keep c.sko_slab sko c.partial_list
              (λ o h. apart o (omega (arith, f.new_objs o, h))) i.partial_ok)
            (
              (
                record {
                  split = omega (arith, z, e);
                  some_objs = p;
                  word = w;
                  homes =
                      own_homes c.sko_slab s.sks_addr s.sks_free_list s.sks_free_list
                        (λ o. omega arith);
                },
                omega (arith, z, p),
              ),
              tt,
            );
      complete_ok =
          Full-keep c.sko_slab sko c.complete_list (λ o h. apart o (omega (arith, f.new_objs o, h)))
            i.complete_ok;
      empties_last = snoc-EmptiesLast c.partial_list s z i.empties_last;
    }

length-slab_objects : (l : Layout) (base i n : ℕ) → length (slab_objects l base i n) ≡ n
unfolding slab_objects
length-slab_objects l base i zero = refl
length-slab_objects l base i (suc n) = omega (arith, length-slab_objects l base (i + 1) n)

length-kv_objects :
    (kv : ℕ → ℕ → Option ℕ) (l : Layout) (i n : ℕ)
    → (kv_objects kv l i n).1 ≡ false
    → length (kv_objects kv l i n).0 ≡ n
unfolding kv_objects
length-kv_objects kv l i zero h = refl
length-kv_objects kv l i (suc n) h = elim (Option-cases (kv (i + 1) l.offslab_size)) [
  | inl e ↦ let x : true ≡ false = sym (rw (kv_objects, e) refl) ∙ h in ground (arith, x)
  | inr (o, e) ↦
      let same : (kv_objects kv l (i + 1) n).1 ≡ false = rw (kv_objects, e) refl ∙ h in
      rw (kv_objects, e) (omega (arith, length-kv_objects kv l (i + 1) n same))
]

-- The memory that the allocations of a slab give, up to the one that fails.
unfoldable pub got : (kv_alloc : ℕ → ℕ → Option ℕ) → Layout → (offslab : Bool) → List ℕ
got kv l off = elim (kv 0 l.slab_size) [
  | none ↦ []
  | some base ↦ base ∷ (if off then (kv_objects kv l 0 l.slab_objs).0 else [])
]

-- A slab without references and with all its objects free, or what was got is given back.
pub data Made (memory : List ℕ) (l : Layout) : Option Slab × List ℕ → Type 0 where
  failed :
      (freed : List ℕ) → ((a : ℕ) → times a freed ≡ times a memory) → Made memory l (none, freed)
  made :
      (s : Slab)
      → s.sks_ref ≡ 0
      → length s.sks_free_list ≡ s.sks_objs
      → s.sks_objs ≡ l.slab_objs
      → Made memory l (some s, [])

slab_from-Made :
    (j : ℕ) (l : Layout) (base : ℕ) (o : List ℕ × Bool)
    → (o.1 ≡ false → length o.0 ≡ l.slab_objs)
    → Made (base ∷ o.0) l (slab_from j l base o)
unfolding slab_from
slab_from-Made j l base (objs, true) h =
    failed _ (λ a. omega (arith, count-append (λ (x : ℕ). x) a objs (base ∷ [])))
slab_from-Made j l base (objs, false) h = made _ refl (h refl) refl

on_slab-Made :
    (j : ℕ) (l : Layout) (base : ℕ) (objs memory : List ℕ)
    → length objs ≡ l.slab_objs
    → Made memory l (slab_from j l base (objs, false))
unfolding slab_from
on_slab-Made j l base objs memory h = made _ refl h refl

spl_slab_alloc-Made :
    (j : ℕ) (kv : ℕ → ℕ → Option ℕ) (l : Layout) (off : Bool)
    → Made (got kv l off) l (spl_slab_alloc j kv l off)
unfolding spl_slab_alloc got
spl_slab_alloc-Made j kv l off = elim (Option-cases (kv 0 l.slab_size)) [
  | inl e ↦ rw (spl_slab_alloc, got, e) (failed [] (λ a. refl))
  | inr (base, e) ↦ rw (spl_slab_alloc, got, e) (from base off)
]
  where
    from :
        (base : ℕ) (off : Bool)
        → Made (base ∷ (if off then (kv_objects kv l 0 l.slab_objs).0 else [])) l (
            slab_from j l base (
              if off
              then kv_objects kv l 0 l.slab_objs
              else (slab_objects l base 0 l.slab_objs, false)))
    from base true =
        slab_from-Made j l base (kv_objects kv l 0 l.slab_objs)
          (length-kv_objects kv l 0 l.slab_objs)
    from base false =
        on_slab-Made j l base (slab_objects l base 0 l.slab_objs) (base ∷ [])
          (length-slab_objects l base 0 l.slab_objs)

-- What growing does: a slab more and the invariant, or nothing but that what was got is given back.
pub data Grew (c : Cache) (out memory : List ℕ) : Bool × (Cache × List ℕ) → Type 0 where
  grown : (d : Cache) → Inv d out → Grew c out memory (true, (d, []))
  kept :
      (freed : List ℕ)
      → ((a : ℕ) → times a freed ≡ times a memory)
      → Grew c out memory (false, (c, freed))

grow_with-Grew :
    (c : Cache) (out memory : List ℕ) (l : Layout) (r : Option Slab × List ℕ)
    → 0 < l.slab_objs
    → l.slab_objs < 2 ^ 32
    → ((s : Slab) → r.0 ≡ some s → Fresh c out s)
    → Inv c out
    → Made memory l r
    → Grew c out memory (grow_with c r)
unfolding grow_with
grow_with-Grew c out memory l _ p w f i (failed freed h) = kept freed h
grow_with-Grew c out memory l _ p w f i (made s z e n) =
    grown (add_slab s c)
      (add_slab-Inv c out s z e (omega (arith, p, n)) (omega (arith, w, n)) (f s refl) i)

-- __spl_cache_grow on a cache that meets the invariant, for slabs of at least one object and fewer
-- than 2^32, where the memory of a slab that is made is not in use. Either it succeeds, the
-- invariant holds and nothing is given back, or it fails, the cache is as it was and just the memory
-- that the allocations gave is given back.
pub __spl_cache_grow-Grew :
    (j : ℕ) (kv : ℕ → ℕ → Option ℕ) (l : Layout) (c : Cache) (out : List ℕ)
    → 0 < l.slab_objs
    → l.slab_objs < 2 ^ 32
    → ((s : Slab) → (spl_slab_alloc j kv l c.flags.offslab).0 ≡ some s → Fresh c out s)
    → Inv c out
    → Grew c out (got kv l c.flags.offslab) (__spl_cache_grow j kv l c)
unfolding __spl_cache_grow
__spl_cache_grow-Grew j kv l c out p w f i =
    grow_with-Grew c out (got kv l c.flags.offslab) l (spl_slab_alloc j kv l c.flags.offslab) p w f
      i (spl_slab_alloc-Made j kv l c.flags.offslab)
