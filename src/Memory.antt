-- ===== src/Memory.antt =====
-- Memory allocation, module/spl/spl-kmem.c: here spl_kmem_alloc_impl, which tries the kernel's
-- allocators until one of them gives memory. What they give is a parameter, one answer for each pass.
-- The log of large sizes is not modelled.
pub mod Trying
pub mod Tracking
pub mod Leaks
mod Tests
use spl.Prelude.{
  ℕ, zero, suc, ◌+◌, Bool, true, false, not, ◌&&◌, ◌||◌, Option, none, some, ltb, if◌then◌else◌,
}

-- The answers of kmalloc_node and __vmalloc in the pass with a number.
pub record Kernel : Type 0 where
  pub kmalloc_node : ℕ → Option ℕ
  pub __vmalloc : ℕ → Option ℕ

-- The flags KM_VMEM and KM_NOSLEEP, and whether the size is above spl_kmem_alloc_max.
pub record Request : Type 0 where
  pub vmem : Bool
  pub nosleep : Bool
  pub large : Bool

abbrev pub is_some : Option ℕ → Bool
is_some none = false
is_some (some p) = true

-- The loop, with fuel for its passes; the outer `none` is that it has not ended yet, the inner one
-- NULL.
unfoldable pub alloc_loop :
    ℕ → Kernel → Request → (use_vmem : Bool) → (pass : ℕ) → Option (Option ℕ)
alloc_loop zero k r use_vmem pass = none
alloc_loop (suc fuel) k r use_vmem pass =
    let by_vmalloc = r.large || use_vmem in
    let ptr = if by_vmalloc then k.__vmalloc pass else k.kmalloc_node pass in
    let again = alloc_loop fuel k r (r.vmem || use_vmem) (pass + 1) in
    if by_vmalloc && not r.vmem
    then some none
    else if is_some ptr || r.nosleep
    then some ptr
    else again

unfoldable pub spl_kmem_alloc_impl :
    (fuel : ℕ) → Kernel → (alloc_max size : ℕ) (vmem nosleep : Bool) → Option (Option ℕ)
unfolding alloc_loop
spl_kmem_alloc_impl fuel k alloc_max size vmem nosleep =
    alloc_loop fuel k (record { vmem = vmem; nosleep = nosleep; large = ltb alloc_max size }) false
      0

-- spl_kmem_free_impl: whether vfree or kfree gets the memory. `is_vmalloc_addr` is the kernel's.
pub data Freed : Type 0 where
  vfree : ℕ → Freed
  kfree : ℕ → Freed

unfoldable pub spl_kmem_free_impl : (is_vmalloc_addr : ℕ → Bool) → ℕ → Freed
spl_kmem_free_impl is_vmalloc_addr buf = if is_vmalloc_addr buf then vfree buf else kfree buf
