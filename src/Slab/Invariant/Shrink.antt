-- ===== src/Slab/Invariant/Shrink.antt =====
-- spl_cache_shrink and the invariant.
use spl.Prelude.{
  All-append, ℕ, ◌+◌, ◌-◌, ◌%◌, ◌^◌, ◌<◌, ◌≡◌, refl, sym, ap, ◌∙◌, true, false, some, none, List,
  [], ◌∷◌, ◌++◌, ◌==◌, arith, Bool-cases, Option-cases, ==_iff, inl, inr,
}
use spl.Ordered.{count, remove}
use spl.Slab.{Slab, Cache, sub64}
use spl.Slab.Release.{find_slab, write_slab, sks_of, list_del, shrink_slab, spl_cache_shrink}
use spl.Slab.Lists.{
  total, total-append, find_total, find_none, write_total, write_none, remove_write, write-All,
  remove-All, find-All,
}
use spl.Slab.Invariant.{one, at, refs_at, Room, Full, Inv}
use spl.Slab.Invariant.Put.{
  put_slab, put-Inv, put-Fits, absent_at, none-absent, snoc-EmptiesLast, remove-EmptiesLast,
  write-EmptiesLast, remove_head,
}

-- The slab was full: it moves to the head of the partial list, or to its end if it is empty now.
shrink_full :
    (j o : ℕ) (c : Cache) (out : List ℕ) (s : Slab)
    → Inv c (o ∷ out)
    → c.sko_slab o ≡ s.sks_addr
    → find_slab s.sks_addr c.complete_list ≡ some s
    → Inv (shrink_slab j o s c) out
unfolding shrink_slab list_del
shrink_full j o c out s i home found =
    let a = s.sks_addr in
    let (f, full) = find-All a s (Full c.sko_slab) c.complete_list found i.complete_ok in
    let p : 0 < s.sks_ref = omega (arith, full, f.some_objs) in
    let s' = put_slab j o s in
    let here : at a s ≡ 1 = ground arith in
    let cs = remove Slab.sks_addr a c.complete_list in
    let take : (m : Slab → ℕ) → total m cs + m s ≡ total m c.complete_list =
      λ m. (find_total m a s c.complete_list found).1 in
    let (gone, gone_id, _) = absent_at a cs (omega (arith, i.counts.once a, take (at a), here)) in
    let (other, other_id, _) =
      absent_at a c.partial_list (omega (arith, i.counts.once a, take (at a), here)) in
    let w : write_slab s' c.partial_list ≡ c.partial_list =
      write_none a s s' refl c.partial_list other in
    let v : remove Slab.sks_addr a (write_slab s' c.complete_list) ≡ cs =
      remove_write a s s' refl c.complete_list in
    let t : (s'.sks_ref == (s.sks_objs + 2 ^ 32 - 1) % 2 ^ 32) ≡ true = rw full (ground arith) in
    let ok = remove-All a (Full c.sko_slab) c.complete_list i.complete_ok in
    let room : Room c.sko_slab s' =
      (put-Fits j o c.sko_slab s home f p, omega (arith, p, full, f.word)) in
    elim (Bool-cases (s'.sks_ref == 0)) [
      | inl z ↦
          let zero_ref : s'.sks_ref ≡ 0 = (==_iff s'.sks_ref 0).0 z in
          rw (w, v, t, z, gone_id, other_id, remove_head s' c.partial_list)
            (put-Inv j o (sub64 c.slab_alloc 1) c s (c.partial_list ++ (s' ∷ [])) cs out i home f p
              (λ m. omega (arith, take m, total-append m c.partial_list (s' ∷ []))) (rw z refl)
              (All-append (Room c.sko_slab) c.partial_list (s' ∷ []) i.partial_ok (room, tt)) ok
              (snoc-EmptiesLast c.partial_list s' zero_ref i.empties_last))
      | inr z ↦
          let some_ref : 0 < s'.sks_ref = ground (arith, z) in
          rw (w, v, t, z, other_id)
            (put-Inv j o c.slab_alloc c s (s' ∷ c.partial_list) cs out i home f p
              (λ m. omega (arith, take m)) (rw z refl) (room, i.partial_ok) ok
              ((λ y. absurd (omega (arith, y, some_ref))), i.empties_last))
    ]

-- The slab was partly free: it stays where it is, or moves to the end if it is empty now.
shrink_partial :
    (j o : ℕ) (c : Cache) (out : List ℕ) (s : Slab)
    → Inv c (o ∷ out)
    → c.sko_slab o ≡ s.sks_addr
    → find_slab s.sks_addr c.complete_list ≡ none
    → find_slab s.sks_addr c.partial_list ≡ some s
    → 0 < s.sks_ref
    → Inv (shrink_slab j o s c) out
unfolding shrink_slab list_del
shrink_partial j o c out s i home absent found p =
    let a = s.sks_addr in
    let (f, room) = find-All a s (Room c.sko_slab) c.partial_list found i.partial_ok in
    let s' = put_slab j o s in
    let (other_id, _) = find_none a c.complete_list absent in
    let w : write_slab s' c.complete_list ≡ c.complete_list =
      write_none a s s' refl c.complete_list absent in
    let v : remove Slab.sks_addr a (write_slab s' c.partial_list)
        ≡ remove Slab.sks_addr a c.partial_list =
      remove_write a s s' refl c.partial_list in
    let t : (s'.sks_ref == (s.sks_objs + 2 ^ 32 - 1) % 2 ^ 32) ≡ false =
      ground (arith, p, room, f.word) in
    let room' : Room c.sko_slab s' =
      (put-Fits j o c.sko_slab s home f p, omega (arith, p, room, f.word)) in
    elim (Bool-cases (s'.sks_ref == 0)) [
      | inl z ↦
          let zero_ref : s'.sks_ref ≡ 0 = (==_iff s'.sks_ref 0).0 z in
          let ps = remove Slab.sks_addr a c.partial_list in
          rw (w, t, z, v, other_id)
            (put-Inv j o (sub64 c.slab_alloc 1) c s (ps ++ (s' ∷ [])) c.complete_list out i home f p
              (λ m.
                omega
                  (arith, (find_total m a s c.partial_list found).1, total-append m ps (s' ∷ [])))
              (rw z refl)
              (All-append (Room c.sko_slab) ps (s' ∷ [])
                (remove-All a (Room c.sko_slab) c.partial_list i.partial_ok) (room', tt))
              i.complete_ok
              (snoc-EmptiesLast ps s' zero_ref
                (remove-EmptiesLast a c.partial_list i.empties_last)))
      | inr z ↦
          let some_ref : 0 < s'.sks_ref = ground (arith, z) in
          rw (w, t, z)
            (put-Inv j o c.slab_alloc c s (write_slab s' c.partial_list) c.complete_list out i home
              f p (λ m. omega (arith, write_total a s s' refl m c.partial_list found)) (rw z refl)
              (write-All a s s' refl (Room c.sko_slab) c.partial_list room' i.partial_ok)
              i.complete_ok
              (write-EmptiesLast s s' refl p some_ref c.partial_list found i.empties_last))
    ]

sks_of_complete :
    (a : ℕ) (c : Cache) (s : Slab) → find_slab a c.complete_list ≡ some s → sks_of a c ≡ some s
unfolding sks_of
sks_of_complete a c s e = rw (sks_of, e) refl

sks_of_partial :
    (a : ℕ) (c : Cache)
    → find_slab a c.complete_list ≡ none
    → sks_of a c ≡ find_slab a c.partial_list
unfolding sks_of
sks_of_partial a c e = rw (sks_of, e) refl

shrink_found :
    (j o : ℕ) (c : Cache) (s : Slab)
    → sks_of (c.sko_slab o) c ≡ some s
    → spl_cache_shrink j o c ≡ shrink_slab j o s c
unfolding spl_cache_shrink
shrink_found j o c s e = rw (spl_cache_shrink, e) refl

-- An object that has been taken has its slab in the cache, in use.
in_use_partial :
    (o : ℕ) (c : Cache) (out : List ℕ)
    → Inv c (o ∷ out)
    → find_slab (c.sko_slab o) c.complete_list ≡ none
    → (s : Slab) × (find_slab (c.sko_slab o) c.partial_list ≡ some s) × (0 < s.sks_ref)
in_use_partial o c out i e =
    let a = c.sko_slab o in
    let k = i.counts in
    let taken : 0 < count c.sko_slab a (o ∷ out) = ground arith in
    let (_, _, none_c) = absent_at a c.complete_list (none-absent a c.complete_list e) in
    elim (Option-cases (find_slab a c.partial_list)) [
      | inl e2 ↦
          let (_, _, none_p) = absent_at a c.partial_list (none-absent a c.partial_list e2) in
          absurd (omega (arith, k.refs a, taken, none_c, none_p))
      | inr (s, e2) ↦
          let (same, t) = find_total (refs_at a) a s c.partial_list e2 in
          let (_, n) = find_total (at a) a s c.partial_list e2 in
          let here : at a s ≡ 1 = ground (arith, same) in
          let (_, _, z) =
            absent_at a (remove Slab.sks_addr a c.partial_list)
              (omega (arith, k.once a, n, here)) in
          (s, e2, ground (arith, k.refs a, taken, none_c, t, z, same))
    ]

-- Giving an object that has been taken back to its slab keeps the invariant, and the object is no
-- longer among the taken ones.
pub spl_cache_shrink-Inv :
    (j o : ℕ) (c : Cache) (out : List ℕ) → Inv c (o ∷ out) → Inv (spl_cache_shrink j o c) out
spl_cache_shrink-Inv j o c out i =
    let a = c.sko_slab o in
    elim (Option-cases (find_slab a c.complete_list)) [
      | inr (s, e) ↦
          let same = (find_total one a s c.complete_list e).0 in
          rw (shrink_found j o c s (sks_of_complete a c s e)) (
            shrink_full j o c out s i (sym same)
              (ap (λ (x : ℕ). find_slab x c.complete_list) same ∙ e))
      | inl e ↦
          let (s, e2, p) = in_use_partial o c out i e in
          let same = (find_total one a s c.partial_list e2).0 in
          rw (shrink_found j o c s (sks_of_partial a c e ∙ e2)) (
            shrink_partial j o c out s i (sym same)
              (ap (λ (x : ℕ). find_slab x c.complete_list) same ∙ e)
              (ap (λ (x : ℕ). find_slab x c.partial_list) same ∙ e2) p)
    ]
