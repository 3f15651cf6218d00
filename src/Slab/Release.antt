-- ===== src/Slab/Release.antt =====
-- spl_cache_shrink gives an object back to its slab, spl_slab_reclaim gives empty slabs back to the
-- system, and __spl_cache_grow adds a slab.
use spl.Prelude.{
  ℕ, ◌+◌, ◌-◌, ◌%◌, ◌^◌, Option, none, some, List, [], ◌∷◌, ◌++◌, map, ltb, ◌==◌, if◌then◌else◌,
}
use spl.Ordered.{remove}
use spl.Slab.{Slab, Cache, sub64}

unfoldable pub find_slab : ℕ → List Slab → Option Slab
find_slab a [] = none
find_slab a (s ∷ ss) = if s.sks_addr == a then some s else find_slab a ss

-- The slab with this address, wherever it stands.
unfoldable pub sks_of : ℕ → Cache → Option Slab
unfolding find_slab
sks_of a skc = elim (find_slab a skc.complete_list) [
  | some s ↦ some s
  | none ↦ find_slab a skc.partial_list
]

-- The slab is written where it stands.
unfoldable pub write_slab : Slab → List Slab → List Slab
write_slab s [] = []
write_slab s (t ∷ ts) = if t.sks_addr == s.sks_addr then s ∷ ts else t ∷ write_slab s ts

-- list_del of a slab, from the list that it stands on
unfoldable pub list_del : Slab → Cache → Cache
list_del s skc = record skc {
  complete_list = remove Slab.sks_addr s.sks_addr skc.complete_list;
  partial_list = remove Slab.sks_addr s.sks_addr skc.partial_list;
}

-- spl_cache_shrink, from where it has the slab `sks` of the object.
unfoldable pub shrink_slab : (jiffies obj : ℕ) → Slab → Cache → Cache
unfolding write_slab list_del
shrink_slab jiffies obj sks skc =
    let s = record sks {
      sks_free_list = obj ∷ sks.sks_free_list;
      sks_age = jiffies;
      sks_ref = (sks.sks_ref + 2 ^ 32 - 1) % 2 ^ 32;
    } in
    let c = record skc {
      obj_alloc = sub64 skc.obj_alloc 1;
      complete_list = write_slab s skc.complete_list;
      partial_list = write_slab s skc.partial_list;
    } in
    let d = list_del s c in
    let c1 =
      if s.sks_ref == (s.sks_objs + 2 ^ 32 - 1) % 2 ^ 32
      then record d { partial_list = s ∷ d.partial_list }
      else c in
    let d1 = list_del s c1 in
    if s.sks_ref == 0
    then record d1 {
      partial_list = d1.partial_list ++ (s ∷ []);
      slab_alloc = sub64 d1.slab_alloc 1;
    }
    else c1

-- An object whose header names no slab of the cache is not the cache's: nothing is done here.
unfoldable pub spl_cache_shrink : (jiffies : ℕ) → ℕ → Cache → Cache
unfolding sks_of shrink_slab
spl_cache_shrink jiffies obj skc = elim (sks_of (skc.sko_slab obj) skc) [
  | none ↦ skc
  | some sks ↦ shrink_slab jiffies obj sks skc
]

-- The private lists of spl_slab_reclaim.
pub record Work : Type 0 where
  pub sks_list : List Slab
  pub sko_list : List ℕ

-- The slab is taken off the partial list by the caller's walk.
unfoldable pub spl_slab_free : Slab → Cache × Work → Cache × Work
spl_slab_free sks (skc, w) = (
  record skc { obj_total = sub64 skc.obj_total sks.sks_objs; slab_total = sub64 skc.slab_total 1 },
  record { sks_list = sks ∷ w.sks_list; sko_list = sks.sks_free_list ++ w.sko_list },
)

-- The walk goes from the tail, up to the first slab in use: what stays behind `s`, and the state. The
-- walk has ended before `s` if something stays.
unfoldable pub walk_one : Slab → List Slab × (Cache × Work) → List Slab × (Cache × Work)
unfolding spl_slab_free
walk_one s ([], st) = if ltb 0 s.sks_ref then (s ∷ [], st) else ([], spl_slab_free s st)
walk_one s (t ∷ ts, st) = (s ∷ t ∷ ts, st)

unfoldable pub reclaim_walk : List Slab → Cache × Work → List Slab × (Cache × Work)
unfolding walk_one
reclaim_walk [] st = ([], st)
reclaim_walk (s ∷ ss) st = walk_one s (reclaim_walk ss st)

-- With the addresses that are given to kv_free, in this order.
unfoldable pub spl_slab_reclaim : Cache → Cache × List ℕ
unfolding reclaim_walk
spl_slab_reclaim skc =
    let (kept, (c, w)) =
      reclaim_walk skc.partial_list (skc, record { sks_list = []; sko_list = [] }) in
    let objs = if skc.flags.offslab then w.sko_list else [] in
    (record c { partial_list = kept }, objs ++ map Slab.sks_addr w.sks_list)
