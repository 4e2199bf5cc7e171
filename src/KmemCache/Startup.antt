-- ===== src/KmemCache/Startup.antt =====
-- module/mm/kmem_cache/kmem_cache_init.c: the cache that caches themselves come from.
use aco_os.Base.{ℕ, ◌+◌, ◌<◌, ◌≤◌, ◌≡◌, refl, Bool, true, false, ◌==◌, if◌then◌else◌, arith}
use aco_os.Base.Errno.{Errno, success}
use aco_os.Base.Int.{pos}
use aco_os.Base.Run.{Run, ok, ◌>>=◌, Returns, returns, Returns-bind}
use aco_os.Buddy.{State, Config}
use aco_os.Buddy.Neighbour.{IsConfig}
use aco_os.Buddy.Invariant.{IsBuddy}
use aco_os.KmemCache.{Cache, Memory, kmem_obj_free}
use aco_os.KmemCache.Create.{accepts, kmem_cache_init, kmem_obj_alloc}
use aco_os.KmemCache.Init.{Created, kmem_cache_init-Created}

-- Seven ints, padding to 8 bytes, three list heads.
abbrev pub kmem_cache_bytes : ℕ
kmem_cache_bytes = 80

abbrev pub is_success : Errno → Bool
is_success success = true
is_success _ = false

module _ (c : Config) (beyond : ℕ → ℕ) (slab_kmm_cache : ℕ) where
  pub kmem_cache_alloc : Cache → Memory → Run (ℕ × Cache × Memory)
  kmem_cache_alloc k m = kmem_obj_alloc c beyond slab_kmm_cache k m

  pub kmem_cache_free : ℕ → Cache → Memory → Run (Cache × Memory)
  kmem_cache_free kmm_cache k m = kmem_obj_free c slab_kmm_cache kmm_cache k m

  -- `done` is kmem_module_init_done, `k` is slab_kmm_cache.
  pub kmem_module_init : ℕ → Cache → Memory → Run (Errno × ℕ × Cache × Memory)
  kmem_module_init done k m =
      if done == 0
      then (do
        (ret, k', t) ←
            kmem_cache_init c beyond slab_kmm_cache (pos kmem_cache_bytes) (pos 0) (pos 3) (pos 3) k
              m
        ok (ret, if is_success ret then done + 1 else done, k', t))
      else ok (success, done, k, m)

-- The outcome of the first call.
abbrev pub Initialised : Config → State → Errno × ℕ × Cache × Memory → Type 0
Initialised c s (ret, done, k, m) =
    Created c s kmem_cache_bytes 0 3 3 (ret, k, m) × (done ≡ (if is_success ret then 1 else 0))

accepted :
    (slab_kmm_cache : ℕ) (c : Config)
    → 0 < slab_kmm_cache
    → 0 < c.max_order
    → accepts c slab_kmm_cache (pos kmem_cache_bytes) (pos 0) (pos 3) (pos 3) ≡ true
unfolding accepts
accepted slab_kmm_cache c some_cache some_order = ground arith

-- On well-formed frames and pools with MAX_ORDER from 1 to 19, the first kmem_module_init fails no
-- ASSERT. It makes the cache of caches with three slabs, all free, and counts itself done; or it gives -ENOMEM, loses no free memory
-- and stays undone. After a success a call changes nothing.
pub kmem_module_init-Initialised :
    {c : Config} (beyond : ℕ → ℕ) (slab_kmm_cache : ℕ) (k : Cache) (m : Memory)
    → IsConfig c
    → 0 < c.max_order
    → c.max_order ≤ 19
    → 0 < slab_kmm_cache
    → IsBuddy c m.buddy
    → Returns (Initialised c m.buddy) (kmem_module_init c beyond slab_kmm_cache 0 k m)
      × (kmem_module_init c beyond slab_kmm_cache 1 k m ≡ ok (success, 1, k, m))
unfolding kmem_module_init
kmem_module_init-Initialised {c} beyond slab_kmm_cache k m wf some_order few some_cache inv = (
  Returns-bind
      (kmem_cache_init-Created wf few beyond slab_kmm_cache (pos kmem_cache_bytes) (pos 0) (pos 3)
        (pos 3) k m inv (omega arith) (accepted slab_kmm_cache c some_cache some_order))
      λ (ret, k', t) made. returns (made, refl),
  refl,
)
