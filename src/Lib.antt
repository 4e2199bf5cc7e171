-- ===== src/Lib.antt =====
-- ACO-OS, a small kernel for RISC-V: its memory management, lists and locks.
--
-- Parts, from the bottom up.
--   Base         shared names: tests on numbers, lists of addresses, `int`s, error numbers (Errno, for
--                include/aco/errno.h), and Run, the outcome of code with ASSERTs: a value, a failed
--                ASSERT (`panic`), or a loop that has used up its fuel.
--   LinkedList   include/aco/list.h. A node is an address, the heap maps it to `prev` and `next`; each
--                function of the header is a function of the same name on heaps. IsRing relates a heap
--                to the list of nodes that a head has.
--   Pageframe    include/mm/page.h, include/mm/pageframe.h, and in Pageframe/Init
--                module/mm/pageframe/pgfm_module.c and pgfm_check.c. Layout holds the constants that
--                the port defines; a page frame is named by its index in PAGES.
--   Buddy        module/mm/buddy/buddy_allocator.c and include/mm/buddy.h, with buddy_module.c in
--                Buddy/Startup, bk_alloc and bk_free in Buddy/Interface, PGNUM2ORDER in Buddy/Order and
--                buddy_slfcheck in Buddy/Check. State holds the page frames and the pools; the list
--                of a pool is the list of the frames on it, in order, as IsRing allows. Buddy/Boot
--                runs pgfm_module_init and buddy_module_init one after the other.
--   Sync         kernel/cpu_critical.c, include/aco/spinlock.h and the two operations of
--                include/aco/atomic.h that it uses. The CPUs take steps in any order, an atomic
--                operation each.
--   Slab         module/mm/kmem_cache/slab.c up to slab_free, and SDBMHash of lib/math/math.c. IsSlab
--                (Slab/FreeList) relates a slab to the list of its free objects.
--   KmemCache    the caches of slabs of module/mm/kmem_cache/slab.c, over Buddy and Slab, and the
--                start in kmem_cache_init.c. IsCache (KmemCache/Invariant) ties the three lists, the
--                counts, the frames and the free objects of each slab together. MAX_ORDER is at
--                most 19 where caches are concerned, as the sizes of blocks are `int`s.
--   Avl          include/aco/avlmini.h, as an interface: the operations that the kernel calls, and what
--                it relies on. Avl/Lists is an instance of it.
--   Vma          module/mm/vm/vma_area_ops.c, include/mm/vm.h and vm_check of module/mm/vm/vm.c; the
--                mapping and unmapping of vm.c is in Vma/Map, over Hw, the interface of the page tables,
--                which Vma/Map/Sv39 fills with the tables of Sv39/Walk over Buddy; Sv39/Others says that
--                these leave the slabs alone, so Vma, KmemCache and Sv39 share one allocator.
--                IsVma (Vma/Order) says that the areas lie apart and in order, on the list and in the
--                tree alike; IsWorld (Vma/Map/Parts) that each is an object in use of the cache of areas.
--   Memblock     module/mm/allocators/memblock.c, on the heaps of LinkedList. IsPool (Memblock/Pool)
--                relates an allocator to the list of its free blocks; Memblock/Each has the
--                iteration with a callback.
--   Rwlock       include/aco/rwlock.h, the locks as steps of the CPUs, the inner spinlock as a flag.
--   Sv39         arch/riscv/include/asm/vm.h: page table entries and the page table register; and in
--                Sv39/Walk the tables of arch/riscv/mm/vm.c: mapping, unmapping and freeing, over the
--                interface Pages of an allocator of pages, which Sv39/Backing fills with Buddy. IsTree
--                (Sv39/Tree) says that the tables form a tree in pages that are in use; `lookup` is the
--                walk of the MMU.
--   Startup      include/aco/init.h and start_kernel of kernel/entry.c: the CPUs run the init functions of
--                the modules, which are a parameter, and wait for one another. Each atomic operation
--                and each init function is one step, the steps of the CPUs come in any order. In
--                Startup/Logged the init functions also keep a log of their calls.
--   Strings      lib/string/string.c; in Strings/Terminated the functions that run to a terminating 0.
--
-- Well-formedness. IsBuddy (Buddy/Invariant) says that the free lists hold exactly the free blocks of
-- their order, without repetition and with the right count, and that a block lies in memory and covers
-- only frames that are marked as inner. IsConfig asks that the managed region begins above the size of
-- the largest block and ends that far below 2^64, so that the addresses of neighbours do not wrap.
--
-- Fuel. The loop of bkp_free runs with CONFIG_BUDDYSYSTEM_MAX_ORDER rounds, and the order grows in each;
-- the search of bkp_alloc has a round for each order from the one asked for; its loop over the rest has
-- one for each bit. No result needs more, since the theorems say that the calls return. The iteration
-- over a linked list, and over a string to its 0, takes fuel as an argument; more than the length is
-- enough. A walk of page tables takes at most the 512 entries of a table and three levels, so it has
-- no fuel.
--
-- Integers. An int or an index that the source keeps without a test, as obj_num, INTR_NEST and the
-- indices of the strings, is a number without a bound in the model, and a theorem on it asks that it
-- stays below 2^31 in the source.
--
-- Not modelled: the locks inside the allocators (a call runs alone), the bytes of the blocks,
-- log output, and the code of other projects that is copied into the tree (the device tree
-- compiler, printf, log, the red-black and AVL trees). Interrupts between cpu_intr_get and
-- cpu_intr_off are not modelled. The tables that map the kernel at boot
-- (arch/riscv/mm/early_vm.c and kernel_map.c), the copies of sets of areas (vma_alloc, vma_dup)
-- and vm_module_init are not modelled.
pub mod Base
pub mod LinkedList
pub mod Pageframe
pub mod Buddy
pub mod Sync
pub mod Slab
pub mod KmemCache
pub mod Memblock
pub mod Rwlock
pub mod Sv39
pub mod Avl
pub mod Vma
pub mod Startup
pub mod Strings
