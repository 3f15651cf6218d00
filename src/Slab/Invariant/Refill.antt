-- ===== src/Slab/Invariant/Refill.antt =====
-- A refill from the slabs of the partial list.
use spl.Prelude.{
  All, ℕ, zero, suc, ◌+◌, ◌<◌, ◌≡◌, refl, sym, ap, ◌∙◌, subst, List, [], ◌∷◌, ◌++◌, ◌==◌, length,
  length-append, arith, ==_iff, ◌⊎◌, inl, inr, if_elim,
}
use spl.Slab.{Slab, Cache}
use spl.Slab.Objects.{take_objs, take_slabs}
use spl.Slab.Lists.{append_nil, append_assoc, count_swap, total}
use spl.Slab.Invariant.{
  Fits, Room, Full, EmptiesLast, sums, Inv, Counts-sums, Counts-lists, Inv-out,
}
use spl.Slab.Invariant.Take.{take_objs-TookAll}

-- What the loop leaves that goes through the partial list.
pub record Refilled (r : ℕ) (out objs : List ℕ) (res : ℕ × Cache × List ℕ) : Type 0 where
  pub new : List ℕ
  pub stored : res.2 ≡ objs ++ new
  pub wanted : res.0 + length new ≡ r
  pub ended : (res.0 ≡ 0) ⊎ (res.1.partial_list ≡ [])
  pub inv : Inv res.1 (new ++ out)

-- Nothing more is taken.
rest_of :
    (r : ℕ) (c : Cache) (ps : List Slab) (out objs : List ℕ)
    → (r ≡ 0) ⊎ (ps ≡ [])
    → Inv (record c { partial_list = ps }) out
    → Refilled r out objs (r, record c { partial_list = ps }, objs)
rest_of r c ps out objs e i = record {
  new = [];
  stored = sym (append_nil objs);
  wanted = omega arith;
  ended = e;
  inv = i;
}

-- More objects in the head slab.
head_EmptiesLast :
    (s t : Slab) (ps : List Slab) → 0 < t.sks_ref → EmptiesLast (s ∷ ps) → EmptiesLast (t ∷ ps)
head_EmptiesLast s t ps h e = (λ z. absurd (omega (arith, h, z)), e.1)

pub take_slabs-Refilled :
    (j r : ℕ) (c : Cache) (ps : List Slab) (out objs : List ℕ)
    → Inv (record c { partial_list = ps }) out
    → Refilled r out objs (take_slabs j r c ps objs)
unfolding take_slabs
take_slabs-Refilled j zero c ps out objs i = rest_of 0 c ps out objs (inl refl) i
take_slabs-Refilled j (suc r) c [] out objs i = rest_of (suc r) c [] out objs (inr refl) i
take_slabs-Refilled j (suc r) c (s ∷ ps) out objs i =
    let t =
      take_objs-TookAll j (suc r) c s objs i.partial_ok.0.0 (omega (arith, i.partial_ok.0.1)) in
    let took = take_objs j (suc r) c s objs in
    let c0 = record c { partial_list = s ∷ ps } in
    let start =
      Counts-sums c0 (sums (s ∷ ps) c.complete_list) (λ m. m s + sums ps c.complete_list m) out out
        (λ m. omega arith) (λ key a. refl) i.counts in
    let k =
      t.counted (sums ps c.complete_list) out
        (Counts-lists c0 c.partial_list c.complete_list _ out start) in
    if_elim (Refilled (suc r) out objs) (took.slab.sks_ref == took.slab.sks_objs) _ _
      (λ full.
        let z =
          take_slabs-Refilled j took.wanted
            (record took.cache { complete_list = took.slab ∷ took.cache.complete_list }) ps
            (t.new ++ out) took.objs
            (record {
              counts = Counts-lists took.cache ps (took.slab ∷ took.cache.complete_list) _ _ (
                  Counts-sums took.cache _ (sums ps (took.slab ∷ took.cache.complete_list)) _
                    (t.new ++ out) (λ m. omega (arith, ap (total m) t.same_complete))
                    (λ key a. refl) k);
              partial_ok = subst (λ (h : ℕ → ℕ). All (Room h) ps) (sym t.same_sko) i.partial_ok.1;
              complete_ok = (
                (
                  subst (λ (h : ℕ → ℕ). Fits h took.slab) (sym t.same_sko) t.fits,
                  (==_iff took.slab.sks_ref took.slab.sks_objs).0 full,
                ),
                subst (λ (h : ℕ → ℕ). All (Full h) took.cache.complete_list) (sym t.same_sko)
                    (subst (All (Full c.sko_slab)) (sym t.same_complete) i.complete_ok),
              );
              empties_last = i.empties_last.1;
            }) in
        record {
          new = t.new ++ z.new;
          stored =
              z.stored ∙ ap (λ (xs : List ℕ). xs ++ z.new) t.stored ∙ append_assoc objs t.new z.new;
          wanted = omega (arith, z.wanted, t.wanted, length-append t.new z.new);
          ended = z.ended;
          inv = Inv-out _ _ _ (λ key a. count_swap key a t.new z.new out) z.inv;
        })
      (λ room.
        let none_left : took.wanted ≡ 0 = elim t.ended [
          | inl e ↦ e
          | inr e ↦ ground (arith, e, room)
        ] in
        record {
          new = t.new;
          stored = t.stored;
          wanted = t.wanted;
          ended = inl none_left;
          inv = record {
            counts = Counts-lists took.cache (took.slab ∷ ps) took.cache.complete_list _ _ (
                Counts-sums took.cache _ (sums (took.slab ∷ ps) took.cache.complete_list) _
                  (t.new ++ out) (λ m. omega (arith, ap (total m) t.same_complete)) (λ key a. refl)
                  k);
            partial_ok = (
              (
                subst (λ (h : ℕ → ℕ). Fits h took.slab) (sym t.same_sko) t.fits,
                ground (arith, t.below, room),
              ),
              subst (λ (h : ℕ → ℕ). All (Room h) ps) (sym t.same_sko) i.partial_ok.1,
            );
            complete_ok =
                subst (λ (h : ℕ → ℕ). All (Full h) took.cache.complete_list) (sym t.same_sko)
                  (subst (All (Full c.sko_slab)) (sym t.same_complete) i.complete_ok);
            empties_last =
                head_EmptiesLast s took.slab ps (omega (arith, t.grew, t.wanted, none_left))
                  i.empties_last;
          };
        })
