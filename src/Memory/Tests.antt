-- ===== src/Memory/Tests.antt =====
-- Tests of memory allocation, and the theorems at concrete inputs.
use spl.Prelude.{
  ℕ, ◌%◌, ◌≡◌, refl, true, false, Option, none, some, [], ◌∷◌, ltb, if◌then◌else◌, arith,
}
use spl.Memory.{Kernel, spl_kmem_alloc_impl, spl_kmem_free_impl, Freed}
use spl.Memory.Trying.{Got, spl_kmem_alloc_impl-Got}
use spl.Memory.Tracking.{Debug, Track, spl_kmem_init, spl_kmem_alloc_track, spl_kmem_free_track}
use spl.Memory.Leaks.{Reach, Reach-tracked, Right}

-- From the third pass on there is memory.
abbrev short_of : Kernel
short_of = record {
  kmalloc_node = λ pass. if ltb pass 2 then none else some 4096;
  __vmalloc = λ pass. if ltb pass 2 then none else some 8192;
}

-- A virtual allocation changes to __vmalloc after the first pass, and another one does not.
virtual : spl_kmem_alloc_impl 5 short_of 1000 600 true false ≡ some (some 8192)
unfolding spl_kmem_alloc_impl
virtual = refl

physical : spl_kmem_alloc_impl 5 short_of 1000 600 false false ≡ some (some 4096)
unfolding spl_kmem_alloc_impl
physical = refl

too_large : spl_kmem_alloc_impl 5 short_of 1000 6000 false false ≡ some none
unfolding spl_kmem_alloc_impl
too_large = refl

may_not_sleep : spl_kmem_alloc_impl 5 short_of 1000 600 true true ≡ some none
unfolding spl_kmem_alloc_impl
may_not_sleep = refl

freed_by : spl_kmem_free_impl (λ p. ltb 5000 p) 8192 ≡ Freed.vfree 8192
unfolding spl_kmem_free_impl
freed_by = refl

spl_kmem_alloc_impl-Got_example : Got (spl_kmem_alloc_impl 3 short_of 1000 600 true false)
spl_kmem_alloc_impl-Got_example =
    spl_kmem_alloc_impl-Got short_of 3 1000 600 2 8192 4096 true refl refl refl (omega arith)

abbrev hash : ℕ → ℕ
hash p = p % 2

abbrev entry : ℕ → ℕ → Debug
entry addr size = record { kd_addr = addr; kd_size = size; kd_func = 1; kd_line = 10 }

abbrev after_free : Option Track → Track
after_free none = spl_kmem_init
after_free (some s) = s

-- Two allocations in one bin, of which the first is freed.
abbrev one : Track
one = (spl_kmem_alloc_track hash true true (some 100) 30 1 10 spl_kmem_init).1

abbrev two : Track
two = (spl_kmem_alloc_track hash true true (some 200) 50 1 10 one).1

abbrev one_left : Track
one_left = after_free (spl_kmem_free_track hash 100 30 two)

reach_left : Reach hash one_left (entry 200 50 ∷ [])
unfolding spl_kmem_free_track spl_kmem_alloc_track spl_kmem_init
reach_left =
    Reach.freed [] (entry 200 50 ∷ []) (entry 100 30)
      (Reach.allocated 200 50 1 10 (Reach.allocated 100 30 1 10 Reach.start refl) refl) refl

leaked : one_left.kmem_list ≡ entry 200 50 ∷ []
unfolding spl_kmem_free_track spl_kmem_alloc_track spl_kmem_init
leaked = refl

Reach-tracked_example : Right hash (entry 200 50 ∷ []) one_left
Reach-tracked_example = Reach-tracked hash reach_left
