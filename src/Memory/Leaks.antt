-- ===== src/Memory/Leaks.antt =====
-- What the tracking knows: after any calls, just the allocations that have not been freed.
use spl.Prelude.{
  ℕ, ◌+◌, ◌-◌, ◌*◌, ◌%◌, ◌^◌, ◌≤◌, ◌≡◌, refl, sym, ap, ◌∙◌, subst, true, Option, none, some, List,
  [], ◌∷◌, ◌++◌, length, length-append, total, total-append, total_middle, ◌==◌, if◌then◌else◌,
  arith, Bool-cases, Option-cases, inl, inr, ==_iff,
}
use mathlib.Core.Option.{some-injective}
use spl.Memory.Tracking.{
  Debug, Track, put_bin, find_addr, del_addr, spl_kmem_free_debug, spl_kmem_init,
  spl_kmem_alloc_track, del_found, kmem_del_init, free_entry, spl_kmem_free_track,
}

-- A number of an entry, if it has the address.
abbrev pub of : ℕ → (Debug → ℕ) → Debug → ℕ
of a g d = if d.kd_addr == a then g d else 0

abbrev pub one : Debug → ℕ
one d = 1

-- The list is that of the allocations that are out, no address twice; the bins have the same entries,
-- each in the bin of its address; and the counts are theirs.
pub record Right (hash_ptr : ℕ → ℕ) (out : List Debug) (s : Track) : Type 0 where
  pub list : s.kmem_list ≡ out
  pub once : (a : ℕ) → total (of a one) out ≤ 1
  pub bins :
      (h a : ℕ) (g : Debug → ℕ)
      → total (of a g) (s.kmem_table h) ≡ (if hash_ptr a == h then total (of a g) out else 0)
  pub used : s.used ≡ total Debug.kd_size out % 2 ^ 64
  pub objs : s.objs ≡ 2 * length out

find_absent : (a : ℕ) (ds : List Debug) → find_addr a ds ≡ none → total (of a one) ds ≡ 0
unfolding find_addr
find_absent a [] e = refl
find_absent a (d ∷ ds) e = ground (arith, e, find_absent a ds)

del_total :
    (a : ℕ) (p : Debug) (g : Debug → ℕ) (ds : List Debug)
    → find_addr a ds ≡ some p
    → total g (del_addr a ds) + g p ≡ total g ds
unfolding find_addr del_addr
del_total a p g [] e = ground (arith, e)
del_total a p g (d ∷ ds) e = elim (Bool-cases (d.kd_addr == a)) [
  | inl h ↦
      let same : d ≡ p = some-injective d p (sym (rw h refl) ∙ e) in rw h (omega (arith, ap g same))
  | inr h ↦ rw h (omega (arith, del_total a p g ds (sym (rw h refl) ∙ e)))
]

find_eq : (a : ℕ) (p : Debug) (ds : List Debug) → find_addr a ds ≡ some p → p.kd_addr ≡ a
unfolding find_addr
find_eq a p [] e = ground (arith, e)
find_eq a p (d ∷ ds) e = elim (Bool-cases (d.kd_addr == a)) [
  | inl h ↦
      let same : d ≡ p = some-injective d p (sym (rw h refl) ∙ e) in
      ap Debug.kd_addr (sym same) ∙ (let k : d.kd_addr ≡ a = ground arith in k)
  | inr h ↦ find_eq a p ds (sym (rw h refl) ∙ e)
]

-- In a list without an address twice, the entry in the middle goes.
del_middle :
    (before : List Debug) (d : Debug) (after : List Debug)
    → total (of d.kd_addr one) (before ++ (d ∷ after)) ≤ 1
    → del_addr d.kd_addr (before ++ (d ∷ after)) ≡ before ++ after
unfolding del_addr
del_middle [] d after h = ground arith
del_middle (b ∷ before) d after h = elim (Bool-cases (b.kd_addr == d.kd_addr)) [
  | inl e ↦ absurd (ground (arith, total_middle (of d.kd_addr one) before d after))
  | inr e ↦ rw e (ap (λ (ds : List Debug). b ∷ ds) (del_middle before d after (ground arith)))
]

-- Without an entry at the address its numbers do not count.
none_at :
    (a : ℕ) (g : Debug → ℕ) (ds : List Debug) → total (of a one) ds ≡ 0 → total (of a g) ds ≡ 0
none_at a g [] e = refl
none_at a g (d ∷ ds) e = ground (arith, none_at a g ds)

-- The only entry at an address, by its place.
only_at :
    (a : ℕ) (g : Debug → ℕ) (rest : List Debug) (all : (Debug → ℕ) → ℕ) (d : Debug)
    → d.kd_addr ≡ a
    → ((f : Debug → ℕ) → all (of a f) ≡ of a f d + total (of a f) rest)
    → all (of a one) ≤ 1
    → all (of a g) ≡ g d
only_at a g rest all d e split h =
    let here : of a one d ≡ 1 = ground arith in
    let value : of a g d ≡ g d = ground arith in
    omega (arith, split g, split one, none_at a g rest (omega (arith, split one)))

module _ (hash_ptr : ℕ → ℕ) where
  init-Right : Right hash_ptr [] spl_kmem_init
  unfolding spl_kmem_init
  init-Right = record {
    list = refl;
    once = λ a. omega arith;
    bins = λ h a g. ground arith;
    used = refl;
    objs = refl;
  }

  -- An allocation at an address where none is, is the newest on the list.
  alloc-Right :
      (ptr size func line : ℕ) (s : Track) (out : List Debug)
      → total (of ptr one) out ≡ 0
      → Right hash_ptr out s
      → Right hash_ptr
          (out ++ (record { kd_addr = ptr; kd_size = size; kd_func = func; kd_line = line } ∷ []))
          (spl_kmem_alloc_track hash_ptr true true (some ptr) size func line s).1
  unfolding spl_kmem_alloc_track
  alloc-Right ptr size func line s out new r =
      let d : Debug = record { kd_addr = ptr; kd_size = size; kd_func = func; kd_line = line } in
      record {
        list = ap (λ (ds : List Debug). ds ++ (d ∷ [])) r.list;
        once = λ a. ground (arith, total-append (of a one) out (d ∷ []), r.once a, new);
        bins = λ h a g. ground (arith, total-append (of a g) out (d ∷ []), r.bins h a g);
        used = omega (arith, total-append Debug.kd_size out (d ∷ []), r.used);
        objs = omega (arith, length-append out (d ∷ []), r.objs);
      }

  -- What spl_kmem_free_track does with an allocation that is out.
  pub record Released (d : Debug) (rest : List Debug) (s : Track) : Type 0 where
    pub after : Track
    pub entry : Debug
    pub found : (kmem_del_init hash_ptr d.kd_addr s).0 ≡ some entry
    pub size : entry.kd_size ≡ d.kd_size
    pub returns : spl_kmem_free_track hash_ptr d.kd_addr d.kd_size s ≡ some after
    pub right : Right hash_ptr rest after

  module _ (before after : List Debug) (d : Debug) (s : Track)
      (r : Right hash_ptr (before ++ (d ∷ after)) s) where
    abbrev bin : List Debug
    bin = s.kmem_table (hash_ptr d.kd_addr)

    out_split : (g : Debug → ℕ) → total g (before ++ (d ∷ after)) ≡ g d + total g (before ++ after)
    out_split g = omega (arith, total_middle g before d after, total-append g before after)

    bin_total :
        (g : Debug → ℕ)
        → total (of d.kd_addr g) bin ≡ total (of d.kd_addr g) (before ++ (d ∷ after))
    bin_total g = ground (arith, r.bins (hash_ptr d.kd_addr) d.kd_addr g)

    -- The entry in the bin has the numbers of the one that is out.
    same_entry : (p : Debug) (g : Debug → ℕ) → find_addr d.kd_addr bin ≡ some p → g p ≡ g d
    same_entry p g e =
        let a = d.kd_addr in
        let once = r.once a in
        let by_bin : total (of a g) bin ≡ g p =
          only_at a g (del_addr a bin) (λ f. total f bin) p (find_eq a p bin e)
            (λ f. omega (arith, del_total a p (of a f) bin e)) (omega (arith, bin_total one)) in
        let by_out : total (of a g) (before ++ (d ∷ after)) ≡ g d =
          only_at a g (before ++ after) (λ f. total f (before ++ (d ∷ after))) d refl
            (λ f. out_split (of a f)) once in
        omega (arith, bin_total g)

    listed : (p : Debug) × (find_addr d.kd_addr bin ≡ some p)
    listed = elim (Option-cases (find_addr d.kd_addr bin)) [
      | inr found ↦ found
      | inl absent ↦
          let here : of d.kd_addr one d ≡ 1 = ground arith in
          absurd (
            omega (
              arith,
              find_absent d.kd_addr bin absent,
              bin_total one,
              out_split (of d.kd_addr one),
            ))
    ]

    bins_after :
        (p : Debug)
        → find_addr d.kd_addr bin ≡ some p
        → (h a : ℕ) (g : Debug → ℕ)
        → total (of a g) (put_bin (hash_ptr d.kd_addr) (del_addr d.kd_addr bin) s.kmem_table h)
          ≡ (if hash_ptr a == h then total (of a g) (before ++ after) else 0)
    unfolding put_bin
    bins_after p e h a g = elim (Bool-cases (h == hash_ptr d.kd_addr)) [
      | inl same ↦ rw same (
          ground (
            arith,
            same,
            del_total d.kd_addr p (of a g) bin e,
            same_entry p (of a g) e,
            r.bins (hash_ptr d.kd_addr) a g,
            out_split (of a g),
          ))
      | inr other ↦ rw other (elim (Bool-cases (d.kd_addr == a)) [
        | inl at ↦
            let i : hash_ptr d.kd_addr ≡ hash_ptr a = ap hash_ptr ((==_iff d.kd_addr a).0 at) in
            ground (arith, other, i, r.bins h a g)
        | inr off ↦
            let z : of a g d ≡ 0 = ground arith in
            ground (arith, r.bins h a g, out_split (of a g), z)
      ])
    ]

    free_Released : Released d (before ++ after) s
    unfolding spl_kmem_free_track kmem_del_init free_entry spl_kmem_free_debug
    free_Released =
        let (p, e) = listed in
        let a = d.kd_addr in
        let ha = hash_ptr a in
        let t : Track = record s {
          kmem_table = put_bin ha (del_addr a bin) s.kmem_table;
          kmem_list = del_addr a s.kmem_list;
        } in
        let found : kmem_del_init hash_ptr a s ≡ (some p, t) = ap (del_found hash_ptr a s) e in
        record {
          after = record t {
            objs = s.objs - 2;
            used = (s.used + 2 ^ 64 - d.kd_size % 2 ^ 64) % 2 ^ 64;
          };
          entry = p;
          found = ap (λ (x : Option Debug × Track). x.0) found;
          size = same_entry p Debug.kd_size e;
          returns = ap (free_entry hash_ptr d.kd_size) found;
          right = record {
            list = ap (del_addr a) r.list ∙ del_middle before d after (r.once a);
            once = λ b. omega (arith, r.once b, out_split (of b one));
            bins = bins_after p e;
            used = omega (arith, r.used, out_split Debug.kd_size);
            objs =
                omega (arith, r.objs, length-append before (d ∷ after), length-append before after);
          };
        }

-- The calls that succeed, with the allocations that are out, the oldest first. Memory that is got is not
-- out already.
pub data Reach (hash_ptr : ℕ → ℕ) : Track → List Debug → Type 0 where
  start : Reach hash_ptr spl_kmem_init []
  allocated :
      (ptr size func line : ℕ) {s : Track} {out : List Debug}
      → Reach hash_ptr s out
      → total (of ptr one) out ≡ 0
      → Reach hash_ptr
          (spl_kmem_alloc_track hash_ptr true true (some ptr) size func line s).1
          (out ++ (record { kd_addr = ptr; kd_size = size; kd_func = func; kd_line = line } ∷ []))
  freed :
      (before after : List Debug) (d : Debug) {s t : Track}
      → Reach hash_ptr s (before ++ (d ∷ after))
      → spl_kmem_free_track hash_ptr d.kd_addr d.kd_size s ≡ some t
      → Reach hash_ptr t (before ++ after)

-- After any successful allocations of memory that is not out, and frees of what is, with its size,
-- in any order and with any hash function: the list that spl_kmem_fini prints has just the
-- allocations that are out, the oldest first, each with its size, function and line; the bins hold
-- the same entries, each in the bin of its address; the bytes in use are the sum of their sizes,
-- modulo 2^64; and two objects of the tracking are allocated for each.
pub Reach-tracked :
    (hash_ptr : ℕ → ℕ) {s : Track} {out : List Debug} → Reach hash_ptr s out → Right hash_ptr out s
Reach-tracked hash_ptr start = init-Right hash_ptr
Reach-tracked hash_ptr (allocated ptr size func line {s} {out} h new) =
    alloc-Right hash_ptr ptr size func line s out new (Reach-tracked hash_ptr h)
Reach-tracked hash_ptr (freed before after d {s} {t} h e) =
    let f = free_Released hash_ptr before after d s (Reach-tracked hash_ptr h) in
    subst (Right hash_ptr (before ++ after)) (some-injective _ _ (sym f.returns ∙ e)) f.right

-- spl_kmem_free_track of an allocation that is out, after such calls, finds its entry, with the size that
-- the caller passes, as the code asserts, and does not read through NULL. The rest is out afterwards.
pub Reach-Released :
    (hash_ptr : ℕ → ℕ) (before after : List Debug) (d : Debug) (s : Track)
    → Reach hash_ptr s (before ++ (d ∷ after))
    → Released hash_ptr d (before ++ after) s
Reach-Released hash_ptr before after d s h =
    free_Released hash_ptr before after d s (Reach-tracked hash_ptr h)
