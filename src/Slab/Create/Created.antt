-- ===== src/Slab/Create/Created.antt =====
-- What spl_kmem_cache_create makes, on every exit, and that spl_kmem_cache_destroy takes it all away.
use spl.Prelude.{
  All, ℕ, zero, suc, ◌+◌, ◌-◌, ◌<◌, ◌≡◌, refl, sym, ap, ◌∙◌, subst, Bool, true, false, Option, none,
  some, List, [], ◌∷◌, ◌++◌, length, length-append, arith, ltb, leb, ◌==◌, ◌&&◌, ◌||◌,
  if◌then◌else◌, if_elim, Bool-cases, inl, inr,
}
use spl.Slab.{Flags, Magazine}
use spl.Slab.Sizes.{Machine, spl_obj_size, spl_slab_size, magazine_sizes}
use spl.Slab.Invariant.{Inv}
use spl.Slab.System.{new_cache, new_cache-Inv}
use spl.Slab.Life.{
  Made, made, failed, spl_magazine_alloc, make_from, spl_magazine_create, Emptied, destroy_slabs,
  destroy_slabs_emergency, destroy_slabs-Emptied, magazine_objs,
}
use spl.Slab.Create.{
  Args, Limits, Gets, Kmem, Kcache, shape_of, choose_type, listed, free_skc, with_magazines,
  create_slabs, create_linux, create_typed, spl_kmem_cache_create, unlist, spl_kmem_cache_destroy,
}

-- What magazines of all CPUs are: empty, of one size.
abbrev pub IsEmpty : ℕ → ℕ → Magazine → Type 0
IsEmpty size refill m = (m.skm_objs ≡ []) × (m.skm_size ≡ size) × (m.skm_refill ≡ refill)

-- How spl_magazine_create ends.
data Mags (kmalloc : ℕ → Bool) (size refill cpus : ℕ) : Made → Type 0 where
  all :
      (ms : List Magazine)
      → length ms ≡ cpus
      → All (IsEmpty size refill) ms
      → Mags kmalloc size refill cpus (made ms)
  missing : (cpu freed : ℕ) → kmalloc cpu ≡ false → Mags kmalloc size refill cpus (failed freed)

all_last :
    (size refill : ℕ) (ms : List Magazine) (m : Magazine)
    → All (IsEmpty size refill) ms
    → IsEmpty size refill m
    → All (IsEmpty size refill) (ms ++ (m ∷ []))
all_last size refill [] m h e = (e, tt)
all_last size refill (x ∷ ms) m (p, h) e = (p, all_last size refill ms m h e)

make_from-Mags :
    (kmalloc : ℕ → Bool) (j size refill : ℕ) (ms : List Magazine) (cpu n cpus : ℕ)
    → length ms + n ≡ cpus
    → All (IsEmpty size refill) ms
    → Mags kmalloc size refill cpus (make_from kmalloc j size refill ms cpu n)
unfolding make_from spl_magazine_alloc
make_from-Mags kmalloc j size refill ms cpu zero cpus e h = all ms (omega arith) h
make_from-Mags kmalloc j size refill ms cpu (suc n) cpus e h = elim (Bool-cases (kmalloc cpu)) [
  | inl got ↦
      let m : Magazine = record {
        skm_size = size;
        skm_refill = refill;
        skm_age = j;
        skm_objs = [];
      } in
      rw (make_from, got)
        (make_from-Mags kmalloc j size refill (ms ++ (m ∷ [])) (cpu + 1) n cpus
          (omega (arith, length-append ms (m ∷ [])))
          (all_last size refill ms m h (refl, refl, refl)))
  | inr none_got ↦ rw (make_from, none_got) (missing cpu (length ms) none_got)
]

empty-objs :
    (size refill : ℕ) (ms : List Magazine) → All (IsEmpty size refill) ms → magazine_objs ms ≡ []
empty-objs size refill [] h = refl
empty-objs size refill (m ∷ ms) ((e, p, q), h) =
    ap (λ (os : List ℕ). os ++ magazine_objs ms) e ∙ empty-objs size refill ms h

unlist-last :
    (addr : ℕ) (cs : List ℕ)
    → All (λ (c : ℕ). (c == addr) ≡ false) cs
    → unlist addr (cs ++ (addr ∷ [])) ≡ cs
unfolding unlist
unlist-last addr [] h = ground arith
unlist-last addr (c ∷ cs) (p, h) = rw p (ap (λ (ds : List ℕ). c ∷ ds) (unlist-last addr cs h))

-- Why there is no cache.
pub data Refusal (m : Machine) (l : Limits) (g : Gets) (a : Args) : Type 0 where
  no_skc : g.skc ≡ none → Refusal m l g a
  no_name : g.name ≡ false → Refusal m l g a
  no_slab : spl_slab_size m (shape_of a) ≡ none → Refusal m l g a
  no_magazine : (cpu : ℕ) → g.magazine cpu ≡ false → Refusal m l g a
  too_large : l.linux_max < a.size → Refusal m l g a
  no_linux_cache : g.linux_cache ≡ false → Refusal m l g a

-- The id of the aging task is canceled, the cache passes the assertions, and what there was before it was
-- made is left.
pub record Restored (taskqid : ℕ) (s : Kmem) (r : ℕ × Kcache × Kmem) : Type 0 where
  pub canceled : r.0 ≡ taskqid
  pub emptied : Emptied r.1.cache
  pub obj_total : r.1.cache.obj_total ≡ 0
  pub obj_emergency : r.1.cache.obj_emergency ≡ 0
  pub allocs : r.2.allocs ≡ s.allocs
  pub linux_caches : r.2.linux_caches ≡ s.linux_caches
  pub cache_list : r.2.cache_list ≡ s.cache_list

-- A cache that has been made.
pub record Cached (m : Machine) (l : Limits) (a : Args) (addr : ℕ) (s : Kmem) (kc : Kcache)
    (t : Kmem) : Type 0 where
  pub inv : Inv kc.cache []
  pub newest : t.cache_list ≡ s.cache_list ++ (addr ∷ [])
  pub typed : (kc.kmem ≡ a.kmem) × (kc.vmem ≡ a.vmem) × (kc.slab ≡ a.slab)
  pub own_slabs :
      (kc.kmem || kc.vmem) ≡ true
      → (spl_slab_size m (shape_of a) ≡ some (kc.slab_objs, kc.slab_size))
        × (length kc.mags ≡ l.cpus)
        × All (IsEmpty (magazine_sizes m (shape_of a)).0 (magazine_sizes m (shape_of a)).1) kc.mags
  pub destroyed :
      (j : ℕ)
      → All (λ (c : ℕ). (c == addr) ≡ false) s.cache_list
      → Restored kc.taskqid s (spl_kmem_cache_destroy j kc t)

pub data Created (m : Machine) (l : Limits) (g : Gets) (a : Args) (s : Kmem)
    : Option Kcache × Kmem → Type 0 where
  created :
      (addr : ℕ) (kc : Kcache) (t : Kmem)
      → g.skc ≡ some addr
      → Cached m l a addr s kc t
      → Created m l g a s (some kc, t)
  refused : (t : Kmem) → Refusal m l g a → t ≡ s → Created m l g a s (none, t)

module _ (m : Machine) (l : Limits) (g : Gets) (a : Args) (addr : ℕ) (s : Kmem)
    (here : g.skc ≡ some addr) where
  -- The memory for the cache and its name has been got.
  abbrev begun : Kmem
  begun = record s { allocs = s.allocs + 2 }

  freed-Created : Refusal m l g a → Created m l g a s (free_skc begun)
  freed-Created why = refused _ why (
      ap (λ (n : ℕ). record s { allocs = n })
        (let e : s.allocs + 2 - 2 ≡ s.allocs = omega arith in e))

  own-Emptied :
      (j : ℕ) (flags : Flags) (size refill : ℕ) (ms : List Magazine)
      → All (IsEmpty size refill) ms
      → let d = destroy_slabs j (new_cache flags) ms in Emptied d.0 × (d.0.obj_total ≡ 0)
  unfolding new_cache
  own-Emptied j flags size refill ms empty =
      destroy_slabs-Emptied j (new_cache flags) ms
        (subst (Inv (new_cache flags)) (sym (empty-objs size refill ms empty))
          (new_cache-Inv flags))
        refl

  own-Created :
      (objs size : ℕ) (ms : List Magazine)
      → (a.kmem || a.vmem) ≡ true
      → spl_slab_size m (shape_of a) ≡ some (objs, size)
      → length ms ≡ l.cpus
      → All (IsEmpty (magazine_sizes m (shape_of a)).0 (magazine_sizes m (shape_of a)).1) ms
      → Created m l g a s (
          listed l g a addr objs size ms (record begun { allocs = s.allocs + 2 + (1 + length ms) }))
  unfolding listed spl_kmem_cache_destroy new_cache
  own-Created objs size ms own sizes n empty = created addr _ _ here (record {
    inv = new_cache-Inv _;
    newest = refl;
    typed = (refl, refl, refl);
    own_slabs = λ h. (sizes, n, empty);
    destroyed = λ j fresh. rw own (record {
      canceled = refl;
      emptied = (own-Emptied j _ _ _ ms empty).0;
      obj_total = (own-Emptied j _ _ _ ms empty).1;
      obj_emergency = destroy_slabs_emergency j _ ms;
      allocs = omega arith;
      linux_caches = refl;
      cache_list = unlist-last addr s.cache_list fresh;
    });
  })

  magazines-Created :
      (objs size : ℕ) (r : Made)
      → (a.kmem || a.vmem) ≡ true
      → spl_slab_size m (shape_of a) ≡ some (objs, size)
      → Mags g.magazine (magazine_sizes m (shape_of a)).0 (magazine_sizes m (shape_of a)).1 l.cpus r
      → Created m l g a s (with_magazines l g a addr objs size r begun)
  unfolding with_magazines
  magazines-Created objs size (made ms) own sizes (all ms' n empty) =
      own-Created objs size ms own sizes n empty
  magazines-Created objs size (failed freed) own sizes (missing cpu freed' e) =
      refused _ (no_magazine cpu e) (
        ap (λ (n : ℕ). record s { allocs = n })
          (let e : s.allocs + 2 + (1 + freed) - (freed + 1) - 2 ≡ s.allocs = omega arith in e))

  slabs-Created :
      (r : Option (ℕ × ℕ))
      → (a.kmem || a.vmem) ≡ true
      → spl_slab_size m (shape_of a) ≡ r
      → Created m l g a s (create_slabs m l g a addr r begun)
  unfolding create_slabs spl_magazine_create
  slabs-Created none own sizes = freed-Created (no_slab sizes)
  slabs-Created (some (objs, size)) own sizes =
      let (k, r) = magazine_sizes m (shape_of a) in
      magazines-Created objs size _ own sizes
        (make_from-Mags g.magazine g.jiffies k r [] 0 l.cpus l.cpus (omega arith) tt)

  linux_listed-Created :
      (a.kmem || a.vmem) ≡ false
      → Created m l g a s
          (listed l g a addr 0 0 [] (record begun { linux_caches = s.linux_caches + 1 }))
  unfolding listed spl_kmem_cache_destroy new_cache
  linux_listed-Created other = created addr _ _ here (record {
    inv = new_cache-Inv _;
    newest = refl;
    typed = (refl, refl, refl);
    own_slabs = λ h. absurd (let e = sym h ∙ other in cc);
    destroyed = λ j fresh. rw other (record {
      canceled = refl;
      emptied = record {
        slab_alloc = refl;
        obj_alloc = refl;
        slab_total = refl;
        obj_total = refl;
        complete_list = refl;
        partial_list = refl;
      };
      obj_total = refl;
      obj_emergency = refl;
      allocs = omega arith;
      linux_caches = omega arith;
      cache_list = unlist-last addr s.cache_list fresh;
    });
  })

  linux-Created : (a.kmem || a.vmem) ≡ false → Created m l g a s (create_linux l g a addr begun)
  unfolding create_linux
  linux-Created other =
      if_elim (Created m l g a s) (ltb l.linux_max a.size) _ _
        (λ large. freed-Created (too_large (ground arith)))
        (λ small.
          if_elim (Created m l g a s) g.linux_cache _ _ (λ h. linux_listed-Created other)
            (λ h. freed-Created (no_linux_cache h)))

  typed-Created : Created m l g a s (create_typed m l g a addr begun)
  unfolding create_typed
  typed-Created =
      if_elim (Created m l g a s) (a.kmem || a.vmem) _ _
        (λ own. slabs-Created (spl_slab_size m (shape_of a)) own refl) linux-Created

-- The type of the slabs is chosen.
abbrev pub IsTyped : Args → Type 0
IsTyped a = (a.kmem || (a.vmem || a.slab)) ≡ true

choose_type-IsTyped : (m : Machine) (l : Limits) (a : Args) → IsTyped (choose_type m l a)
unfolding choose_type
choose_type-IsTyped m l a =
    if_elim IsTyped (a.kmem || (a.vmem || a.slab)) a _ (λ h. h)
      (λ h.
        if_elim IsTyped (ltb 0 l.slab_limit && leb a.size l.slab_limit) _ _
          (λ k. slab_last a.kmem a.vmem)
          (λ k.
            if_elim IsTyped (leb (spl_obj_size m (shape_of a)) l.kmem_limit) _ _ (λ e. refl)
              (λ e. vmem_middle a.kmem a.slab)))
  where
    slab_last : (x y : Bool) → (x || (y || true)) ≡ true
    slab_last true y = refl
    slab_last false true = refl
    slab_last false false = refl

    vmem_middle : (x y : Bool) → (x || (true || y)) ≡ true
    vmem_middle true y = refl
    vmem_middle false y = refl

begun-Created :
    (m : Machine) (l : Limits) (g : Gets) (b : Args) (s : Kmem) (skc : Option ℕ)
    → g.skc ≡ skc
    → Created m l g b s (elim skc [
      | none ↦ (none, s)
      | some addr ↦
          if g.name
          then create_typed m l g b addr (record s { allocs = s.allocs + 2 })
          else (none, record s { allocs = s.allocs + 1 - 1 })
    ])
begun-Created m l g b s none e = refused s (no_skc e) refl
begun-Created m l g b s (some addr) e =
    if_elim (Created m l g b s) g.name _ _ (λ h. typed-Created m l g b addr s e)
      (λ h. refused _ (no_name h) (
        ap (λ (n : ℕ). record s { allocs = n })
          (let e : s.allocs + 1 - 1 ≡ s.allocs = omega arith in e)))

-- spl_kmem_cache_create, for every size, flags and limits, gives the cache a type of slabs. Either
-- it makes a cache, which meets the invariant with no object taken, is the newest on
-- spl_kmem_cache_list, and, with slabs of its own, has the objects and the size of a slab that
-- spl_slab_size tells and an empty magazine of the right size for each CPU; and
-- spl_kmem_cache_destroy of it, at an address that no other cache on the list has, cancels its aging
-- task, brings the counts that it asserts to 0, obj_total and obj_emergency among them, and leaves
-- the memory, the caches of the Linux slab and the list as they were. Or there is one of six
-- reasons, and the call returns NULL with all of this as it was.
pub spl_kmem_cache_create-Created :
    (m : Machine) (l : Limits) (g : Gets) (a : Args) (s : Kmem)
    → IsTyped (choose_type m l a)
      × Created m l g (choose_type m l a) s (spl_kmem_cache_create m l g a s)
unfolding spl_kmem_cache_create
spl_kmem_cache_create-Created m l g a s =
    (choose_type-IsTyped m l a, begun-Created m l g (choose_type m l a) s g.skc refl)
