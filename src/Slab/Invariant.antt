-- ===== src/Slab/Invariant.antt =====
-- The invariant of a slab cache, with the list of the objects that have been taken from slabs: those
-- in magazines and those that callers hold.
pub mod Take
pub mod Refill
pub mod Put
pub mod Shrink
pub mod Reclaim
use spl.Prelude.{
  All, ℕ, ◌+◌, ◌%◌, ◌^◌, ◌≤◌, ◌<◌, ◌≡◌, refl, Bool, List, [], ◌∷◌, ◌==◌, if◌then◌else◌, length,
  arith,
}
use spl.Ordered.{count}
use spl.Slab.{Slab, Cache}
use spl.Slab.Lists.{total}

abbrev pub times : ℕ → List ℕ → ℕ
times o xs = count (λ (x : ℕ). x) o xs

abbrev pub one : Slab → ℕ
one s = 1

abbrev pub in_use : Slab → ℕ
in_use s = if s.sks_ref == 0 then 0 else 1

abbrev pub at : ℕ → Slab → ℕ
at a s = if s.sks_addr == a then 1 else 0

abbrev pub refs_at : ℕ → Slab → ℕ
refs_at a s = if s.sks_addr == a then s.sks_ref else 0

abbrev pub free_at : ℕ → Slab → ℕ
free_at o s = times o s.sks_free_list

-- The counters beside the sums over all slabs of the cache; no slab is listed twice; an object is free
-- once or taken once, at most; and a slab has as many references as objects of it are taken.
pub record Counts (c : Cache) (sum : (Slab → ℕ) → ℕ) (out : List ℕ) : Type 0 where
  pub slabs : c.slab_total ≡ sum one % 2 ^ 64
  pub used : c.slab_alloc ≡ sum in_use % 2 ^ 64
  pub objects : c.obj_alloc ≡ sum Slab.sks_ref % 2 ^ 64
  pub all_objects : c.obj_total ≡ (sum Slab.sks_objs + c.obj_emergency) % 2 ^ 64
  pub once : (a : ℕ) → sum (at a) ≤ 1
  pub apart : (o : ℕ) → sum (free_at o) + times o out ≤ 1
  pub refs : (a : ℕ) → sum (refs_at a) ≡ count c.sko_slab a out

-- The objects of a slab are taken or free, and the free ones have the slab in their headers.
pub record Fits (sko_slab : ℕ → ℕ) (s : Slab) : Type 0 where
  pub split : s.sks_ref + length s.sks_free_list ≡ s.sks_objs
  pub some_objs : 0 < s.sks_objs
  pub word : s.sks_objs < 2 ^ 32
  pub homes : All (λ (o : ℕ). sko_slab o ≡ s.sks_addr) s.sks_free_list

abbrev pub Room : (ℕ → ℕ) → Slab → Type 0
Room sko_slab s = Fits sko_slab s × (s.sks_ref < s.sks_objs)

abbrev pub Full : (ℕ → ℕ) → Slab → Type 0
Full sko_slab s = Fits sko_slab s × (s.sks_ref ≡ s.sks_objs)

-- Empty slabs are at the end of the list.
abbrev pub EmptiesLast : List Slab → Type 0
EmptiesLast [] = Unit {0}
EmptiesLast (s ∷ ss) = (s.sks_ref ≡ 0 → All (λ (t : Slab). t.sks_ref ≡ 0) ss) × EmptiesLast ss

abbrev pub sums : List Slab → List Slab → (Slab → ℕ) → ℕ
sums ps cs g = total g ps + total g cs

pub record Inv (c : Cache) (out : List ℕ) : Type 0 where
  pub counts : Counts c (sums c.partial_list c.complete_list) out
  pub partial_ok : All (Room c.sko_slab) c.partial_list
  pub complete_ok : All (Full c.sko_slab) c.complete_list
  pub empties_last : EmptiesLast c.partial_list

-- The counts are those of the sums and of the taken objects, in whatever order.
pub Counts-sums :
    (c : Cache) (f g : (Slab → ℕ) → ℕ) (out out' : List ℕ)
    → ((m : Slab → ℕ) → f m ≡ g m)
    → ((key : ℕ → ℕ) (a : ℕ) → count key a out ≡ count key a out')
    → Counts c f out
    → Counts c g out'
Counts-sums c f g out out' e d k = record {
  slabs = omega (arith, k.slabs, e one);
  used = omega (arith, k.used, e in_use);
  objects = omega (arith, k.objects, e Slab.sks_ref);
  all_objects = omega (arith, k.all_objects, e Slab.sks_objs);
  once = λ a. omega (arith, k.once a, e (at a));
  apart = λ o. omega (arith, k.apart o, e (free_at o), d (λ (x : ℕ). x) o);
  refs = λ a. omega (arith, k.refs a, e (refs_at a), d c.sko_slab a);
}

pub Counts-lists :
    (c : Cache) (ps cs : List Slab) (f : (Slab → ℕ) → ℕ) (out : List ℕ)
    → Counts c f out
    → Counts (record c { partial_list = ps; complete_list = cs }) f out
Counts-lists c ps cs f out k = record {
  slabs = k.slabs;
  used = k.used;
  objects = k.objects;
  all_objects = k.all_objects;
  once = k.once;
  apart = k.apart;
  refs = k.refs;
}

-- The order of the taken objects does not matter.
pub Inv-out :
    (c : Cache) (out out' : List ℕ)
    → ((key : ℕ → ℕ) (a : ℕ) → count key a out ≡ count key a out')
    → Inv c out
    → Inv c out'
Inv-out c out out' d i = record {
  counts =
      Counts-sums c (sums c.partial_list c.complete_list) (sums c.partial_list c.complete_list) out
        out' (λ m. refl) d i.counts;
  partial_ok = i.partial_ok;
  complete_ok = i.complete_ok;
  empties_last = i.empties_last;
}
