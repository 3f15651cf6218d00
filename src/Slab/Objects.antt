-- ===== src/Slab/Objects.antt =====
-- spl_cache_obj, spl_cache_refill and spl_cache_shrink: objects leave their slab and come back to it.
use spl.Prelude.{
  ℕ, zero, suc, ◌+◌, ◌-◌, ◌%◌, ◌^◌, min, length, Bool, Option, none, some, List, [], ◌∷◌, ◌++◌, ltb,
  ◌==◌, if◌then◌else◌,
}
use spl.Slab.{Slab, Magazine, Cache, add64}

-- The object that is first on the free list, with the slab and the cache that are left. An empty
-- free list has no entry to take.
unfoldable pub spl_cache_obj : (jiffies : ℕ) → Cache → Slab → Option (ℕ × Slab × Cache)
spl_cache_obj jiffies skc sks = elim sks.sks_free_list [
  | [] ↦ none
  | sko ∷ rest ↦
      let s = record sks {
        sks_free_list = rest;
        sks_age = jiffies;
        sks_ref = (sks.sks_ref + 1) % 2 ^ 32;
      } in
      let obj_alloc = add64 skc.obj_alloc 1 in
      let slab_alloc = if s.sks_ref == 1 then add64 skc.slab_alloc 1 else skc.slab_alloc in
      some (
        sko,
        s,
        record skc {
          obj_alloc = obj_alloc;
          obj_max = if ltb skc.obj_max obj_alloc then obj_alloc else skc.obj_max;
          slab_alloc = slab_alloc;
          slab_max = if ltb skc.slab_max slab_alloc then slab_alloc else skc.slab_max;
        },
      )
]

-- What the inner loop of spl_cache_refill leaves: how many objects are still wanted, the slab, the
-- cache and the objects of the magazine.
pub record Taken : Type 0 where
  pub wanted : ℕ
  pub slab : Slab
  pub cache : Cache
  pub objs : List ℕ

unfoldable pub take_objs : (jiffies refill : ℕ) → Cache → Slab → List ℕ → Taken
unfolding spl_cache_obj
take_objs j zero skc sks objs = record { wanted = 0; slab = sks; cache = skc; objs = objs }
take_objs j (suc r) skc sks objs =
    if ltb sks.sks_ref sks.sks_objs
    then elim (spl_cache_obj j skc sks) [
      | none ↦ record { wanted = suc r; slab = sks; cache = skc; objs = objs }
      | some (o, s, c) ↦ take_objs j r c s (objs ++ (o ∷ []))
    ]
    else record { wanted = suc r; slab = sks; cache = skc; objs = objs }

-- The loop of spl_cache_refill between two drops of the lock: it takes from the first slab with
-- room and moves a full one to the complete list. It stops without slabs or when nothing is wanted.
unfoldable pub take_slabs :
    (jiffies refill : ℕ) → Cache → (partial : List Slab) → List ℕ → ℕ × Cache × List ℕ
unfolding take_objs
take_slabs j zero skc ps objs = (0, record skc { partial_list = ps }, objs)
take_slabs j (suc r) skc [] objs = (suc r, record skc { partial_list = [] }, objs)
take_slabs j (suc r) skc (sks ∷ ps) objs =
    let t = take_objs j (suc r) skc sks objs in
    let full = record t.cache { complete_list = t.slab ∷ t.cache.complete_list } in
    let rest = take_slabs j t.wanted full ps t.objs in
    if t.slab.sks_ref == t.slab.sks_objs
    then rest
    else (t.wanted, record t.cache { partial_list = t.slab ∷ ps }, t.objs)

-- What a call of spl_cache_grow leaves, with interrupts enabled meanwhile: its code, an emergency
-- object, the cache, the objects of the magazine, and whether the thread is still on its CPU.
pub record Grown : Type 0 where
  pub rc : ℕ
  pub obj : Option ℕ
  pub cache : Cache
  pub objs : List ℕ
  pub same_cpu : Bool

-- How spl_cache_refill ends: with an emergency object, or NULL, or it still waits for a call of
-- spl_cache_grow.
pub data Refill : Type 0 where
  emergency : ℕ → Cache → List ℕ → Refill
  refilled : Cache → List ℕ → Refill
  growing : ℕ → Cache → List ℕ → Refill

unfoldable pub refill_loop :
    (jiffies size refill : ℕ) → Cache → List ℕ → List (Cache → List ℕ → Grown) → Refill
unfolding take_slabs
refill_loop j size r skc objs [] =
    let (w, c, os) = take_slabs j r skc skc.partial_list objs in
    if w == 0 then refilled c os else growing w c os
refill_loop j size r skc objs (spl_cache_grow ∷ grows) =
    let (w, c, os) = take_slabs j r skc skc.partial_list objs in
    let g = spl_cache_grow c os in
    let retry = refill_loop j size (min w (size - length g.objs)) g.cache g.objs grows in
    if w == 0
    then refilled c os
    else if g.rc == 0
    then elim g.obj [
      | some o ↦ emergency o g.cache g.objs
      | none ↦ if g.same_cpu then retry else refilled g.cache g.objs
    ]
    else refilled g.cache g.objs

unfoldable pub spl_cache_refill :
    (jiffies : ℕ) → Cache → Magazine → List (Cache → List ℕ → Grown) → Refill
unfolding refill_loop
spl_cache_refill j skc skm grows =
    refill_loop j skm.skm_size (min skm.skm_refill (skm.skm_size - length skm.skm_objs)) skc
      skm.skm_objs grows
