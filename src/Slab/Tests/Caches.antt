-- ===== src/Slab/Tests/Caches.antt =====
-- Caches that are made and destroyed, at sample sizes.
use spl.Prelude.{◌≡◌, refl, true, false, some, none, [], ◌∷◌, ◌==◌}
use spl.Slab.Create.{Args, Limits, Gets, Kmem, choose_type, spl_kmem_cache_create}
use spl.Slab.Create.Created.{IsTyped, Created, spl_kmem_cache_create-Created}
use spl.Slab.Sizes.{p2roundup, spl_obj_size, spl_slab_size}
use spl.Slab.Life.{spl_magazine_create}
use spl.Slab.Tests.{pages}

abbrev node : Args
node = record { size = 128; align = 0; kmem = false; vmem = false; slab = false; offslab = false }

abbrev limits : Limits
limits = record {
  slab_limit = 0;
  kmem_limit = 2048;
  linux_max = 4194304;
  expire_age = true;
  cpus = 2;
}

abbrev gets : Gets
gets = record {
  skc = some 64;
  name = true;
  magazine = λ cpu. true;
  linux_cache = true;
  taskqid = 7;
  jiffies = 5;
}

-- The magazine of the second CPU is not got.
abbrev gets_one : Gets
gets_one = record gets { magazine = λ cpu. cpu == 0 }

abbrev before : Kmem
before = record { allocs = 10; linux_caches = 0; cache_list = 32 ∷ [] }

spl_kmem_cache_create-Created_example :
    IsTyped (choose_type pages limits node)
    × Created pages limits gets
        (choose_type pages limits node)
        before
        (spl_kmem_cache_create pages limits gets node before)
spl_kmem_cache_create-Created_example = spl_kmem_cache_create-Created pages limits gets node before

-- The name, the cache, the array and two magazines.
created_node :
    (spl_kmem_cache_create pages limits gets node before).1
    ≡ record { allocs = 15; linux_caches = 0; cache_list = 32 ∷ 64 ∷ [] }
unfolding spl_kmem_cache_create spl_obj_size p2roundup spl_slab_size spl_magazine_create
created_node = refl

refused_node : spl_kmem_cache_create pages limits gets_one node before ≡ (none, before)
unfolding spl_kmem_cache_create spl_obj_size p2roundup spl_slab_size spl_magazine_create
refused_node = refl

large_node : (choose_type pages limits (record node { size = 8192 })).vmem ≡ true
unfolding choose_type spl_obj_size p2roundup
large_node = refl
