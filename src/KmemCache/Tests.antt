-- ===== src/KmemCache/Tests.antt =====
-- A cache with one slab of two objects of sixteen bytes, at frame 0 of two; the theorems at it.
use aco_os.Base.{◌+◌, ◌*◌, ◌^◌, ◌≡◌, inl, inr, refl, true, [], ◌∷◌, ◌==◌, if◌then◌else◌, arith}
use aco_os.Base.Errno.{efault, success}
use aco_os.Base.Int.{pos, negsuc}
use aco_os.Base.Run.{ok, panic, Returns}
use aco_os.Pageframe.{Layout, flag_head, flag_static, page_buddyallocator, slab_allocator}
use aco_os.Pageframe.{id2va}
use aco_os.Buddy.{State, Config}
use aco_os.Buddy.Neighbour.{IsConfig}
use aco_os.Buddy.Invariant.{IsBuddy}
use aco_os.Slab.{Slab, minus_one}
use aco_os.Slab.FreeList.{IsSlab, object}
use aco_os.KmemCache.{Cache, Memory, kmem_obj_free, kmem_cache_deinit}
use aco_os.KmemCache.Create.{accepts, kmem_obj_alloc, kmem_cache_init}
use aco_os.KmemCache.Invariant.{InPages, IsCache}
use aco_os.KmemCache.Alloc.{Given, kmem_obj_alloc-Given}
use aco_os.KmemCache.Objects.{
  InUse, Serves, TakesBack, kmem_obj_alloc-Serves, kmem_obj_free-TakesBack,
}
use aco_os.KmemCache.Put.{Returned, kmem_obj_free-Returned, kmem_obj_free_again}
use aco_os.KmemCache.Release.{Released}
use aco_os.KmemCache.Deinit.{kmem_cache_deinit-Released, kmem_cache_deinit-panic}
use aco_os.KmemCache.Startup.{Initialised, kmem_module_init, kmem_module_init-Initialised}
use aco_os.KmemCache.Init.{Created, kmem_cache_init-Created, kmem_cache_init_refused}

abbrev layout : Layout
layout = record { pa_start = 0; va_start = 2 ^ 32; size = 2 * 4096 }

abbrev pub config : Config
config = record { layout = layout; max_order = 1 }

pub config-IsConfig : IsConfig config
config-IsConfig = record {
  layout = record {
    order = omega arith;
    pa_aligned = refl;
    va_aligned = refl;
    size_aligned = refl;
    size_pos = omega arith;
    va_fits = omega arith;
    few_pages = omega arith;
  };
  below = omega arith;
  above = omega arith;
}

abbrev frames : State
frames = record {
  pages = λ i. record {
    pgtype = if i == 0 then slab_allocator else page_buddyallocator;
    buddy_flags = if i == 0 then flag_head else flag_static;
    buddy_order = 0;
    ref_count = pos 0;
    vma_flags = 0;
  };
  pools = λ i. record { rest_block_num = pos 0; block_size = 4096; list = [] };
}

frames-IsBuddy : IsBuddy config frames
frames-IsBuddy = record {
  listed = λ i q h mem. ground arith;
  listing = λ q h mem. ground arith;
  distinct = λ i h. tt;
  counted = λ i h. refl;
  clean = λ q h head. ground arith;
  fits = λ q h head. ground arith;
  inner = λ q j h head lo hi. absurd (omega arith);
}

-- Object 0 is in use, object 1 is free.
abbrev half : Slab
half = record {
  obj_all = 2;
  obj_free = 1;
  obj_size = 16;
  mem_free_head = 1;
  mem_free_tail = 1;
  mem_index_start = 2 ^ 32 + 40;
  mem_obj_start = 2 ^ 32 + 48;
  index = λ i. if i == 1 then 1 else minus_one;
}

half-IsSlab : IsSlab half (1 ∷ [])
half-IsSlab = record {
  queue = (refl, refl, refl);
  free = refl;
  inside = λ i m. ground arith;
  distinct = (refl, tt);
  used = λ i h m. ground arith;
  size_pos = omega arith;
  few = omega arith;
  fits = omega arith;
  start_pos = omega arith;
  ends = omega arith;
}

abbrev pub memory : Memory
memory = record { buddy = frames; slabs = λ _. half }

abbrev pub cache : Cache
cache = record {
  obj_num = pos 1;
  obj_size = 16;
  pg_order = 0;
  pg_orlimit = 2;
  pg_orhas = 1;
  color_offset = 5;
  free = [];
  full = [];
  partial = 0 ∷ [];
}

half-InPages : InPages config 0 0 half
unfolding id2va
half-InPages = record { some_object = omega arith; above = omega arith; below = omega arith }

pub cache-IsCache : IsCache config cache memory (λ _. 1 ∷ [])
cache-IsCache = record {
  buddy = frames-IsBuddy;
  holds = λ p l.
      let e : p ≡ 0 = ground arith in
      rw e (record {
        in_range = omega arith;
        kind = refl;
        in_use = refl;
        order = refl;
        slab = half-IsSlab;
        objects = refl;
        place = half-InPages;
      });
  all_free = λ p l. ground arith;
  some_free = λ p l. (omega arith, omega arith);
  none_free = λ p l. ground arith;
  distinct = (tt, (refl, tt), tt);
  counted = refl;
  slabs_counted = refl;
  limited = omega arith;
  size_pos = omega arith;
  size_small = omega arith;
  order_small = omega arith;
}

kmem_obj_alloc-Given_example :
    Returns
      (Given config cache memory (λ _. 1 ∷ []))
      (kmem_obj_alloc config (λ _. 0) 64 cache memory)
kmem_obj_alloc-Given_example =
    kmem_obj_alloc-Given (λ _. 0) 64 config-IsConfig (omega arith) (omega arith) cache-IsCache

kmem_obj_free-Returned_example :
    Returns
      (λ (k', m'). Returned config cache memory (λ _. 1 ∷ []) 0 0 k' m')
      (kmem_obj_free config 64 (object half 0) cache memory)
kmem_obj_free-Returned_example =
    kmem_obj_free-Returned config-IsConfig (omega arith) cache-IsCache 0 0 refl (omega arith) 64
      (omega arith) (omega arith) refl

kmem_obj_free_again_example : kmem_obj_free config 64 (object half 1) cache memory ≡ panic
kmem_obj_free_again_example =
    kmem_obj_free_again config-IsConfig (omega arith) cache-IsCache 0 1 refl (omega arith) 64
      (omega arith) refl

kmem_cache_deinit-panic_example : kmem_cache_deinit config 64 cache memory ≡ panic
kmem_cache_deinit-panic_example = kmem_cache_deinit-panic config cache memory 64 (omega arith) refl

-- All objects are free.
abbrev whole : Slab
whole = record half { obj_free = 2; mem_free_tail = 0; index = λ i. 0 }

whole-IsSlab : IsSlab whole (1 ∷ (0 ∷ []))
whole-IsSlab = record {
  queue = (refl, refl, (refl, refl));
  free = refl;
  inside = λ i m. ground arith;
  distinct = (refl, (refl, tt));
  used = λ i h m. ground arith;
  size_pos = omega arith;
  few = omega arith;
  fits = omega arith;
  start_pos = omega arith;
  ends = omega arith;
}

abbrev idle : Cache
idle = record cache { obj_num = pos 2; free = 0 ∷ []; partial = [] }

abbrev idle_memory : Memory
idle_memory = record { buddy = frames; slabs = λ _. whole }

idle-IsCache : IsCache config idle idle_memory (λ _. 1 ∷ (0 ∷ []))
unfolding id2va
idle-IsCache = record {
  buddy = frames-IsBuddy;
  holds = λ p l.
      let e : p ≡ 0 = ground arith in
      rw e (record {
        in_range = omega arith;
        kind = refl;
        in_use = refl;
        order = refl;
        slab = whole-IsSlab;
        objects = refl;
        place = record { some_object = omega arith; above = omega arith; below = omega arith };
      });
  all_free = λ p l. refl;
  some_free = λ p l. ground arith;
  none_free = λ p l. ground arith;
  distinct = ((refl, tt), tt, tt);
  counted = refl;
  slabs_counted = refl;
  limited = omega arith;
  size_pos = omega arith;
  size_small = omega arith;
  order_small = omega arith;
}

kmem_cache_deinit-Released_example :
    Returns
      (λ (k', m'). Released config 0 (0 ∷ []) frames m'.buddy × (k'.free ≡ []))
      (kmem_cache_deinit config 64 idle idle_memory)
kmem_cache_deinit-Released_example =
    kmem_cache_deinit-Released 64 config-IsConfig (omega arith) idle-IsCache refl refl

accepted : accepts config 64 (pos 48) (pos 0) (pos 3) (pos 3) ≡ true
unfolding accepts
accepted = refl

kmem_cache_init-Created_example :
    Returns
      (Created config frames 48 0 3 3)
      (kmem_cache_init config (λ _. 0) 64 (pos 48) (pos 0) (pos 3) (pos 3) cache memory)
kmem_cache_init-Created_example =
    kmem_cache_init-Created config-IsConfig (omega arith) (λ _. 0) 64 (pos 48) (pos 0) (pos 3)
      (pos 3) cache memory frames-IsBuddy (omega arith) accepted

kmem_cache_init_refused_example :
    kmem_cache_init config (λ _. 0) 64 (pos 48) (negsuc 0) (pos 3) (pos 3) cache memory
    ≡ ok (efault, cache, memory)
kmem_cache_init_refused_example =
    kmem_cache_init_refused config (λ _. 0) 64 (pos 48) (negsuc 0) (pos 3) (pos 3) cache memory
      (inr (inr (inr (inl refl))))

kmem_module_init-Initialised_example :
    Returns (Initialised config frames) (kmem_module_init config (λ _. 0) 64 0 cache memory)
    × (kmem_module_init config (λ _. 0) 64 1 cache memory ≡ ok (success, 1, cache, memory))
kmem_module_init-Initialised_example =
    kmem_module_init-Initialised (λ _. 0) 64 cache memory config-IsConfig (omega arith)
      (omega arith) (omega arith) frames-IsBuddy

kmem_obj_alloc-Serves_example :
    Returns
      (Serves config cache memory (λ _. 1 ∷ []))
      (kmem_obj_alloc config (λ _. 0) 64 cache memory)
kmem_obj_alloc-Serves_example =
    kmem_obj_alloc-Serves config-IsConfig (omega arith) cache-IsCache 64 (omega arith) (λ _. 0)

pub object_0-InUse : InUse cache memory (λ _. 1 ∷ []) (object half 0)
object_0-InUse = record { p = 0; i = 0; listed = refl; small = omega arith; used = refl; at = refl }

kmem_obj_free-TakesBack_example :
    Returns
      (TakesBack config cache memory (λ _. 1 ∷ []) (object half 0))
      (kmem_obj_free config 64 (object half 0) cache memory)
kmem_obj_free-TakesBack_example =
    kmem_obj_free-TakesBack config-IsConfig (omega arith) cache-IsCache 64 (omega arith)
      (object half 0) object_0-InUse
