-- ===== src/Slab/Reap/Aged.antt =====
-- What the aging of a cache leaves, on all CPUs.
use spl.Prelude.{
  All, ℕ, ◌+◌, ◌≡◌, sym, subst, Bool, true, false, List, [], ◌∷◌, ◌++◌, length, arith, if_elim,
  ◌||◌, ◌==◌,
}
use mathlib.Core.List.{append_assoc}
use spl.Ordered.Laws.{count-append}
use spl.Slab.{Magazine, Cache}
use spl.Slab.Percpu.{spl_magazine_age}
use spl.Slab.Percpu.Exchange.{__spl_cache_flush-Flushed}
use spl.Slab.Invariant.{Inv, Inv-out}
use spl.Slab.Invariant.Reclaim.{Used, spl_slab_reclaim-Reclaimed}
use spl.Slab.Life.{magazine_objs}
use spl.Slab.Reap.{age_all, age_cache}

module _ (time_before : ℕ → ℕ → Bool) (delay j : ℕ) where
  age-Inv :
      (trylock : Bool) (c : Cache) (m : Magazine) (others : List ℕ)
      → Inv c (m.skm_objs ++ others)
      → Inv
          (spl_magazine_age time_before delay j trylock c m).0
          ((spl_magazine_age time_before delay j trylock c m).1.skm_objs ++ others)
  unfolding spl_magazine_age
  age-Inv trylock c m others i =
      let Fine : Cache × Magazine → Type 0 = λ r. Inv r.0 (r.1.skm_objs ++ others) in
      if_elim Fine (length m.skm_objs == 0 || time_before j (m.skm_age + delay)) _ _ (λ h. i)
        (λ h.
          if_elim Fine trylock _ _
            (λ k. (__spl_cache_flush-Flushed j c m m.skm_refill others i).inv) (λ k. i))

  exchanged :
      (c : Cache) (xs ys others : List ℕ)
      → Inv c (xs ++ (ys ++ others))
      → Inv c (ys ++ (xs ++ others))
  exchanged c xs ys others i =
      Inv-out c _ _
        (λ key a. omega (
          arith,
          count-append key a xs (ys ++ others),
          count-append key a ys others,
          count-append key a ys (xs ++ others),
          count-append key a xs others,
        ))
        i

  -- All magazines, with what others have taken.
  pub age_all-Inv :
      (trylock : ℕ → Bool) (cpu : ℕ) (c : Cache) (ms : List Magazine) (others : List ℕ)
      → Inv c (magazine_objs ms ++ others)
      → Inv
          (age_all time_before delay j trylock cpu c ms).0
          (magazine_objs (age_all time_before delay j trylock cpu c ms).1 ++ others)
  unfolding age_all
  age_all-Inv trylock cpu c [] others i = i
  age_all-Inv trylock cpu c (m ∷ ms) others i =
      let (d, m') = spl_magazine_age time_before delay j (trylock cpu) c m in
      let rest = magazine_objs ms in
      let first =
        age-Inv (trylock cpu) c m (rest ++ others)
          (subst (Inv c) (append_assoc m.skm_objs rest others) i) in
      let (e, ns) = age_all time_before delay j trylock (cpu + 1) d ms in
      let all =
        age_all-Inv trylock (cpu + 1) d ms (m'.skm_objs ++ others)
          (exchanged d m'.skm_objs rest others first) in
      subst (Inv e) (sym (append_assoc m'.skm_objs (magazine_objs ns) others))
        (exchanged e (magazine_objs ns) m'.skm_objs others all)

  -- What the aging leaves: the invariant, with what others have taken, and no empty slab.
  pub record Aged (others : List ℕ) (r : (Cache × List Magazine) × List ℕ) : Type 0 where
    pub inv : Inv r.0.0 (magazine_objs r.0.1 ++ others)
    pub none_empty : All Used r.0.0.partial_list
    pub counted : r.0.0.slab_total ≡ r.0.0.slab_alloc

  -- The aging of a cache that meets the invariant, where the taken objects are those in the magazines and
  -- those that others have, keeps this and leaves no empty slab, on whichever CPUs the lock is contended.
  pub age_cache-Aged :
      (trylock : ℕ → Bool) (nomagazine : Bool) (c : Cache) (ms : List Magazine) (others : List ℕ)
      → Inv c (magazine_objs ms ++ others)
      → Aged others (age_cache time_before delay j trylock nomagazine c ms)
  unfolding age_cache
  age_cache-Aged trylock true c ms others i =
      let r = spl_slab_reclaim-Reclaimed c _ i in
      record { inv = r.inv; none_empty = r.none_empty; counted = r.counted }
  age_cache-Aged trylock false c ms others i =
      let r =
        spl_slab_reclaim-Reclaimed (age_all time_before delay j trylock 0 c ms).0 _
          (age_all-Inv trylock 0 c ms others i) in
      record { inv = r.inv; none_empty = r.none_empty; counted = r.counted }
