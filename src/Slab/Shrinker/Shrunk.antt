-- ===== src/Slab/Shrinker/Shrunk.antt =====
-- What the shrinker answers and leaves.
use spl.Prelude.{
  All, ℕ, suc, ◌+◌, ◌%◌, ◌^◌, ◌<◌, ◌≡◌, refl, sym, ap, ◌∙◌, subst, Bool, true, false, Option, none,
  some, List, [], ◌∷◌, length, total, arith, ◌==◌, ◌&&◌, not, if_elim, ==_iff,
}
use spl.Slab.Reap.{Local, spl_kmem_cache_reap_now}
use spl.Slab.Reap.Reaped.{Kept, Reaped, Answer, answer, spl_kmem_cache_reap_now-Reaped}
use spl.Slab.Shrinker.{
  Entry, Reply, objects, obj_alloc, reaped_entry, reap_entry, counted, keep, scan, query,
  not_negative, scanned_reply, __spl_kmem_cache_generic_shrinker,
}

-- A cache with slabs of its own that meets the invariant and is not being reaped, and whose reclaim
-- function keeps the invariant.
pub record Reapable (fuel : ℕ) (e : Entry) : Type 0 where
  pub own_slabs : e.kmc_slab ≡ false
  pub keeps : (f : Local → Local) → e.reclaim ≡ some f → (t : Local) → Kept t → Kept (f t)
  pub few : obj_alloc e + 1 < fuel
  pub idle : e.local.cache.flags.reaping ≡ false
  pub kept : Kept e.local

abbrev pub IsReaped : Entry → Type 0
IsReaped e = Reaped e.local

-- A cache of the list after its turn.
data One : Option Entry → Type 0 where
  one : (e : Entry) → Reaped e.local → One (some e)

answer-One : (e : Entry) (r : Option (Local × List ℕ)) → Answer r → One (reaped_entry e r)
answer-One e _ (answer s freed h) = one (record e { local = s }) h

reap_entry-One :
    (fuel j : ℕ) (expire_mem : Bool) (e : Entry)
    → Reapable fuel e
    → One (reap_entry fuel j expire_mem e)
unfolding reap_entry
reap_entry-One fuel j expire_mem e r =
    answer-One e (spl_kmem_cache_reap_now fuel j e.kmc_slab expire_mem e.reclaim e.local) (
      rw r.own_slabs (
        spl_kmem_cache_reap_now-Reaped fuel j expire_mem e.reclaim e.local r.keeps r.few r.idle
          r.kept))

-- All caches after a scan.
data Scanned (n : ℕ) : Option (ℕ × List Entry) → Type 0 where
  scanned :
      (alloc : ℕ) (es : List Entry) → length es ≡ n → All IsReaped es → Scanned n (some (alloc, es))

keep-Scanned :
    (e : Entry) (n : ℕ) (r : Option (ℕ × List Entry))
    → Reaped e.local
    → Scanned n r
    → Scanned (suc n) (keep e r)
keep-Scanned e n _ h (scanned alloc es l hs) = scanned alloc (e ∷ es) (ap suc l) (h, hs)

next-Scanned :
    (r : Option Entry) (n : ℕ) (rest : Entry → Option (ℕ × List Entry))
    → One r
    → ((e : Entry) → Scanned n (rest e))
    → Scanned (suc n) (elim r [ none ↦ none | some e ↦ keep e (rest e) ])
next-Scanned _ n rest (one e h) hs = keep-Scanned e n (rest e) h (hs e)

scan-Scanned :
    (fuel j : ℕ) (expire_mem split : Bool) (alloc : ℕ) (es : List Entry)
    → All (Reapable fuel) es
    → Scanned (length es) (scan fuel j expire_mem split alloc es)
unfolding scan
scan-Scanned fuel j expire_mem split alloc [] h = scanned alloc [] refl tt
scan-Scanned fuel j expire_mem split alloc (e ∷ es) (r, h) =
    next-Scanned (reap_entry fuel j expire_mem e) (length es)
      (λ e'. scan fuel j expire_mem split (counted split e e' alloc) es)
      (reap_entry-One fuel j expire_mem e r)
      (λ e'. scan-Scanned fuel j expire_mem split (counted split e e' alloc) es h)

query-total :
    (alloc : ℕ) (es : List Entry)
    → alloc + total obj_alloc es < 2 ^ 32
    → query alloc es ≡ alloc + total obj_alloc es
unfolding query
query-total alloc [] h = omega arith
query-total alloc (e ∷ es) h =
    let s : (alloc + obj_alloc e) % 2 ^ 32 ≡ alloc + obj_alloc e = omega arith in
    ap (λ (n : ℕ). query n es) s
    ∙ query-total (alloc + obj_alloc e) es (omega arith)
    ∙ (let e : alloc + obj_alloc e + total obj_alloc es
            ≡ alloc + (obj_alloc e + total obj_alloc es) =
          omega arith in
        e)

-- How the shrinker ends: a query tells the objects in use of all caches and changes nothing, and
-- a request to free objects reaps every cache.
pub data Shrunk (nr_to_scan : ℕ) (es : List Entry) : Option (Reply × List Entry) → Type 0 where
  queried : nr_to_scan ≡ 0 → Shrunk nr_to_scan es (some (objects (total obj_alloc es), es))
  reaped :
      (r : Reply) (es' : List Entry)
      → (nr_to_scan == 0) ≡ false
      → length es' ≡ length es
      → All IsReaped es'
      → Shrunk nr_to_scan es (some (r, es'))

Scanned-Shrunk :
    (nr : ℕ) (once : Bool) (es : List Entry) (r : Option (ℕ × List Entry))
    → (nr == 0) ≡ false
    → Scanned (length es) r
    → Shrunk nr es (scanned_reply once r)
Scanned-Shrunk nr once es _ h (scanned alloc es' l hs) = reaped _ es' h l hs

-- The generic shrinker outside a transaction, for caches that have slabs of their own, meet the
-- invariant, are not being reaped and have reclaim functions that keep the invariant, with fewer
-- than 2^31 objects in use in all, and with fuel for each cache of two passes more than it has
-- objects in use. A query answers with the number of objects in use of all caches, as the code
-- counts them, and changes nothing. A request to free objects ends, and leaves every cache with the
-- invariant, without an empty slab and not marked as being reaped.
pub __spl_kmem_cache_generic_shrinker-Shrunk :
    (fuel j : ℕ) (expire_mem split once : Bool) (nr_to_scan : ℕ) (es : List Entry)
    → All (Reapable fuel) es
    → total obj_alloc es < 2 ^ 31
    → Shrunk nr_to_scan es
        (__spl_kmem_cache_generic_shrinker fuel j expire_mem split once false nr_to_scan es)
unfolding __spl_kmem_cache_generic_shrinker
__spl_kmem_cache_generic_shrinker-Shrunk fuel j expire_mem split once nr es h small =
    let sum : query 0 es ≡ total obj_alloc es = query-total 0 es (omega arith) ∙ omega arith in
    let told : not_negative (query 0 es) ≡ total obj_alloc es = ground (arith, sum) in
    if_elim (Shrunk nr es) (not (nr == 0) && false) _ _ (λ k. absurd (never (nr == 0) k))
      (λ k.
        if_elim (Shrunk nr es) (nr == 0) _ _
          (λ zero_nr.
            subst (λ (n : ℕ). Shrunk nr es (some (objects n, es))) (sym told)
              (queried ((==_iff nr 0).0 zero_nr)))
          (λ some_nr.
            Scanned-Shrunk nr once es _ some_nr (scan-Scanned fuel j expire_mem split 0 es h)))
  where
    never : (b : Bool) → (not b && false) ≡ true → ⊥
    never true e = cc
    never false e = cc
