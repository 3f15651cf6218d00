-- ===== src/Lib.antt =====
-- The Solaris Porting Layer (SPL) as functions on its data: the task queues, the XDR memory
-- streams, the thread specific data, the number parsers, the 64-bit division, the pseudo random
-- numbers, the slab caches, the memory allocation, the condition variables and the files of
-- module/spl.
--
-- The parts and their files:
-- * Prelude, with Prelude/Tests, Prelude/Lists and Prelude/Powers: numbers, Boolean tests, C's
--   conditional, lists and arithmetic that all parts share. Ordered and Ordered/Laws: kernel lists
--   kept in the order of a key.
-- * Taskq (module/spl/spl-taskq.c, include/spl/sys/taskq.h): `Taskq`, `Ent` and `Thread` are
--   taskq_t, taskq_ent_t and taskq_thread_t. Taskq/Alloc has task_alloc, task_free and task_done;
--   Taskq/Find has taskq_find, taskq_lowest_id, task_expire_impl and the conditions that the
--   waiting functions poll; Taskq/Dispatch the three dispatch functions; Taskq/Cancel
--   taskq_cancel_id; Taskq/Worker taskq_thread, cut where it drops the lock; Taskq/Spawn the
--   dynamic threads; Taskq/Create taskq_create up to the start of its threads; Taskq/Ending the
--   start of the threads and taskq_destroy; Taskq/Kick the tunable spl_taskq_kick. Taskq/Ledger is
--   the abstract view of a queue, Taskq/Invariant and its children tie the lists to it, and
--   Taskq/System has every interleaving of the calls as a relation. A function under tq_lock is
--   one step; where a function drops the lock or waits, what other threads do is a function in the
--   record `World`, as are the clock and the allocator.
-- * Xdr (module/spl/spl-xdr.c, include/spl/rpc/xdr.h): `Xdr` is XDR with memory as a function from
--   addresses to bytes. Xdr/Memory has memcpy and memset, Xdr/Fixed the items of fixed size,
--   Xdr/Opaque bytes with padding, Xdr/Arrays arrays and strings. The interface `Codec` says what
--   an element procedure has to satisfy; Xdr/Fixed/Proofs gives it for the items, Xdr/Laws uses it
--   for arrays.
-- * Tsd (module/spl/spl-tsd.c, include/spl/sys/tsd.h): `Table` and `Entry` are tsd_hash_table_t
--   and tsd_hash_entry_t. Tsd/Entries has the tsd_hash functions, Tsd/Calls the exported ones;
--   Tsd/Search, Tsd/Values, Tsd/Keys, Tsd/Removal and Tsd/Leaving are about searches, values and
--   keys after a call, Tsd/Distinct about names in a bin. The kernel's hash_long and PID_MAX_LIMIT
--   are in the record `Kernel`.
-- * Strings (module/spl/spl-generic.c): ddi_strtoul and ddi_strtoull, which are one macro, at a
--   type of 64 bits; Strings/Parsing says what digits are and is about a number of them.
-- * Division (module/spl/spl-generic.c): __udivdi3 and the functions around it, on bit patterns of
--   64 bits. Division/Normalize is about nlz64, Division/Unsigned and Division/Signed compare the
--   functions with the division of natural numbers and of integers. The kernel's do_div is a
--   parameter.
-- * Random (module/spl/spl-generic.c): spl_rand_next, spl_rand_jump and random_get_pseudo_bytes on
--   the state of one CPU. Random/Xor is about exclusive or and Random/Filled about the loop.
-- * Slab (module/spl/spl-kmem-cache.c, include/spl/sys/kmem_cache.h): `Cache`, `Slab` and
--   `Magazine` are spl_kmem_cache_t, spl_kmem_slab_t and spl_kmem_magazine_t. A slab stands on the
--   list of its cache as a record with its address, and sko_slab of the object headers is a
--   function. Slab/Sizes has the sizes, Slab/Objects spl_cache_obj and spl_cache_refill,
--   Slab/Release spl_cache_shrink, spl_slab_free and spl_slab_reclaim, Slab/Grow spl_slab_alloc
--   and __spl_cache_grow, Slab/Percpu the magazines with spl_kmem_cache_alloc and the freeing of
--   an object, Slab/Emergency the emergency objects and spl_kmem_cache_free. Slab/Invariant says
--   how counters, lists and taken objects belong together, by sums over all slabs (Slab/Lists),
--   and Slab/System has the sequences of operations under skc_lock. Slab/Async has spl_cache_grow
--   and the task that it dispatches, Slab/Reap spl_kmem_cache_reap_now and spl_cache_age,
--   Slab/Life the magazines of all CPUs, made and destroyed, and the end of a cache, Slab/Create
--   spl_kmem_cache_create and spl_kmem_cache_destroy as whole calls, Slab/Shrinker the generic
--   shrinker, which reaps every cache. The kernel's page allocator, get_order, fls64,
--   rb_insert_color and rb_erase are parameters, and what spl_cache_grow leaves is an argument of
--   a refill.
-- * Memory (module/spl/spl-kmem.c): the loop of spl_kmem_alloc_impl, with what the kernel's
--   allocators answer in each pass as a parameter. Memory/Tracking has the table of allocations of
--   a build with DEBUG_KMEM_TRACKING, Memory/Leaks what it knows after any calls.
-- * Condvar (module/spl/spl-condvar.c, include/spl/sys/condvar.h): `Cv` is kcondvar_t, and
--   `advance` the next atomic operation of a thread at a point `Pc` in cv_wait, cv_signal or
--   cv_broadcast. The timed waits do the same operations. Condvar/Interleaving has all threads as
--   a step relation, Condvar/Counts and Condvar/Destroying are about the counts, Condvar/Clock has
--   the times of the timed waits.
-- * Files (module/spl/spl-vnode.c, include/spl/sys/vnode.h): `Files` is the list of descriptors
--   that vn_getf has handed out, with the number of references to each of the kernel's files; a
--   function that puts NULL or what is not held is a fault. Files/Vnodes has vn_open, vn_close,
--   vn_rdwr and vn_fsync, Files/Space vn_space and vn_seek, Files/Pwd vn_set_pwd, Files/Types the
--   types of files. Files/Invariant and its children are about the references, Files/System about
--   any sequence of calls.
-- The task queues use thread specific data to know their thread (taskq_member), which is not
-- modelled; the parts do not share state otherwise. The files called Tests hold the theorems at
-- small inputs.
--
-- Bounds: an unsigned long has 64 bits and an unsigned int 32, with `% 2 ^ 64` and `% 2 ^ 32`
-- where the code may go round. The counters of a task queue are C ints far from their limits. The
-- loop of task_alloc has at most 101 rounds and is recursion on the rounds left, as in the code;
-- the search for a free key has at most TSD_KEYS_MAX rounds, in the same way. A refill and an
-- allocation that wait go by the list of what each wait leaves, and end when it is used up. The
-- loop of random_get_pseudo_bytes has as many rounds as bytes at most. The loop around a reclaim
-- function takes fuel for its passes, of which two more than there are objects in use are enough,
-- as each pass but the last needs fewer objects than the one before; the loop of
-- spl_kmem_alloc_impl takes fuel for one pass more than the kernel has no memory in. No other
-- function takes fuel. The sizes of slabs are below 2^32, and the buffers of XDR streams do not reach
-- the end of the address space, so that products of sizes and sums of addresses do not go round. The
-- elements of an XDR array have a size that is not 0, by which the code divides.
--
-- Not modelled: of the task queues the number of a queue among those of its name and the insertion
-- into the list of all queues; of the slab caches constructors, destructors and the Linux slab; of
-- the files vn_getattr; locks, kstats, proc and the other files of module/spl, which share no state with
-- these parts or only call the kernel.
pub mod Prelude
pub mod Ordered
pub mod Taskq
pub mod Xdr
pub mod Files
pub mod Memory
pub mod Condvar
pub mod Tsd
pub mod Strings
pub mod Division
pub mod Slab
pub mod Random
