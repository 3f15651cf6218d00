-- ===== src/Slab/Create.antt =====
-- spl_kmem_cache_create and spl_kmem_cache_destroy as whole calls: what they allocate and free again, and
-- which type of slab a cache gets.
pub mod Created
use spl.Prelude.{
  ℕ, ◌+◌, ◌-◌, ◌%◌, ◌^◌, Bool, true, false, Option, none, some, List, [], ◌∷◌, ◌++◌, length, ltb,
  leb, ◌==◌, ◌&&◌, ◌||◌, not, if◌then◌else◌,
}
use spl.Slab.{Flags, Magazine, Cache}
use spl.Slab.Sizes.{Machine, Shape, spl_obj_size, spl_slab_size, magazine_sizes}
use spl.Slab.System.{new_cache}
use spl.Slab.Life.{Made, made, failed, spl_magazine_create, destroy_slabs}

-- The size, the alignment or 0, and the flags KMC_KMEM, KMC_VMEM, KMC_SLAB and KMC_OFFSLAB.
pub record Args : Type 0 where
  pub size : ℕ
  pub align : ℕ
  pub kmem : Bool
  pub vmem : Bool
  pub slab : Bool
  pub offslab : Bool

-- spl_kmem_cache_slab_limit and spl_kmem_cache_kmem_limit, the largest object of the Linux slab, whether
-- spl_kmem_cache_expire has KMC_EXPIRE_AGE, and the number of CPUs.
pub record Limits : Type 0 where
  pub slab_limit : ℕ
  pub kmem_limit : ℕ
  pub linux_max : ℕ
  pub expire_age : Bool
  pub cpus : ℕ

-- What the call gets: memory for the cache, its name and the magazine of a CPU, a cache of the Linux
-- slab, and the id of the task that ages the cache. The code does not test what it gets for the array
-- of the magazines.
pub record Gets : Type 0 where
  pub skc : Option ℕ
  pub name : Bool
  pub magazine : ℕ → Bool
  pub linux_cache : Bool
  pub taskqid : ℕ
  pub jiffies : ℕ

-- How many pieces of memory the module has for caches, how many caches of the Linux slab, and
-- spl_kmem_cache_list.
pub record Kmem : Type 0 where
  pub allocs : ℕ
  pub linux_caches : ℕ
  pub cache_list : List ℕ

-- A cache with its address, its type, the objects and the size of a slab, its magazines and the id of the
-- aging task.
pub record Kcache : Type 0 where
  pub addr : ℕ
  pub kmem : Bool
  pub vmem : Bool
  pub slab : Bool
  pub cache : Cache
  pub slab_objs : ℕ
  pub slab_size : ℕ
  pub mags : List Magazine
  pub taskqid : ℕ

-- SPL_KMEM_CACHE_ALIGN.
abbrev pub cache_align : ℕ
cache_align = 8

-- An alignment that passes the checks of the call.
abbrev pub shape_of : Args → Shape
shape_of a = record {
  obj_size = a.size % 2 ^ 32;
  obj_align = if a.align == 0 then cache_align else a.align;
  kmem = a.kmem;
  offslab = a.offslab;
}

-- The type by the size of an object, if the caller asks for none.
unfoldable pub choose_type : Machine → Limits → Args → Args
choose_type m l a =
    if a.kmem || (a.vmem || a.slab)
    then a
    else if ltb 0 l.slab_limit && leb a.size l.slab_limit
    then record a { slab = true }
    else if leb (spl_obj_size m (shape_of a)) l.kmem_limit
    then record a { kmem = true }
    else record a { vmem = true }

-- The cache is put on the list.
unfoldable pub listed :
    Limits → Gets → Args → (addr objs size : ℕ) → List Magazine → Kmem → Option Kcache × Kmem
listed l g a addr objs size ms s = (
  some (record {
    addr = addr;
    kmem = a.kmem;
    vmem = a.vmem;
    slab = a.slab;
    cache = new_cache (record {
      kmem = a.kmem;
      vmem = a.vmem;
      offslab = a.offslab;
      deadlocked = false;
      growing = false;
      reaping = false;
    });
    slab_objs = objs;
    slab_size = size;
    mags = ms;
    taskqid = if l.expire_age then g.taskqid else 0;
  }),
  record s { cache_list = s.cache_list ++ (addr ∷ []) },
)

-- The exit `out`.
abbrev pub free_skc : Kmem → Option Kcache × Kmem
free_skc s = (none, record s { allocs = s.allocs - 2 })

unfoldable pub with_magazines :
    Limits → Gets → Args → (addr objs size : ℕ) → Made → Kmem → Option Kcache × Kmem
unfolding listed
with_magazines l g a addr objs size (made ms) s =
    listed l g a addr objs size ms (record s { allocs = s.allocs + (1 + length ms) })
with_magazines l g a addr objs size (failed freed) s =
    free_skc (record s { allocs = s.allocs + (1 + freed) - (freed + 1) })

-- A cache with slabs of its own.
unfoldable pub create_slabs :
    Machine → Limits → Gets → Args → (addr : ℕ) → Option (ℕ × ℕ) → Kmem → Option Kcache × Kmem
unfolding with_magazines
create_slabs m l g a addr none s = free_skc s
create_slabs m l g a addr (some (objs, size)) s =
    let (mag_size, mag_refill) = magazine_sizes m (shape_of a) in
    with_magazines l g a addr objs size
      (spl_magazine_create g.magazine g.jiffies mag_size mag_refill l.cpus) s

-- A cache that is backed by the Linux slab.
unfoldable pub create_linux : Limits → Gets → Args → (addr : ℕ) → Kmem → Option Kcache × Kmem
unfolding listed
create_linux l g a addr s =
    if ltb l.linux_max a.size
    then free_skc s
    else if g.linux_cache
    then listed l g a addr 0 0 [] (record s { linux_caches = s.linux_caches + 1 })
    else free_skc s

unfoldable pub create_typed :
    Machine → Limits → Gets → Args → (addr : ℕ) → Kmem → Option Kcache × Kmem
unfolding create_slabs create_linux
create_typed m l g a addr s =
    if a.kmem || a.vmem
    then create_slabs m l g a addr (spl_slab_size m (shape_of a)) s
    else create_linux l g a addr s

unfoldable pub spl_kmem_cache_create : Machine → Limits → Gets → Args → Kmem → Option Kcache × Kmem
unfolding choose_type create_typed
spl_kmem_cache_create m l g a s = elim g.skc [
  | none ↦ (none, s)
  | some addr ↦
      if g.name
      then create_typed m l g (choose_type m l a) addr (record s { allocs = s.allocs + 2 })
      else (none, record s { allocs = s.allocs + 1 - 1 })
]

-- list_del_init.
unfoldable pub unlist : ℕ → List ℕ → List ℕ
unlist addr [] = []
unlist addr (c ∷ cs) = if c == addr then cs else c ∷ unlist addr cs

-- The id that is canceled, the cache that the assertions see, and what is left, for a cache that no
-- caller uses any more: the wait for skc_ref is over.
unfoldable pub spl_kmem_cache_destroy : (jiffies : ℕ) → Kcache → Kmem → ℕ × Kcache × Kmem
unfolding destroy_slabs unlist
spl_kmem_cache_destroy j skc s =
    let cs = unlist skc.addr s.cache_list in
    if skc.kmem || skc.vmem
    then (
      skc.taskqid,
      record skc { cache = (destroy_slabs j skc.cache skc.mags).0 },
      record s { cache_list = cs; allocs = s.allocs - (length skc.mags + 1) - 2 },
    )
    else (
      skc.taskqid,
      skc,
      record s { cache_list = cs; linux_caches = s.linux_caches - 1; allocs = s.allocs - 2 },
    )
