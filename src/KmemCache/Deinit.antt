-- ===== src/KmemCache/Deinit.antt =====
-- kmem_cache_deinit: the pages of the cache return to the allocator.
use aco_os.Base.{ℕ, ◌<◌, ◌≡◌, refl, true, false, ◌==◌, ◌&&◌, List, [], arith}
use aco_os.Base.Run.{panic, Returns, returns, Returns-bind}
use aco_os.Buddy.{Config}
use aco_os.Buddy.Neighbour.{IsConfig}
use aco_os.KmemCache.{Cache, Memory, kmem_cache_deinit, is_empty}
use aco_os.KmemCache.Invariant.{IsCache, lists}
use aco_os.KmemCache.Release.{Released, free_slabs-Released, Head}

pub free-Head :
    {c : Config} {k : Cache} {m : Memory} {free_of : ℕ → List ℕ} (p : ℕ)
    → IsCache c k m free_of
    → lists k p ≡ true
    → Head c k.pg_order m.buddy p
free-Head p h on = let was = h.holds p on in (was.in_range, was.in_use, was.order)

-- Where the layout and MAX_ORDER are well formed, on a well-formed cache with no object in use,
-- kmem_cache_deinit fails no ASSERT: the blocks of its slabs are free again, memory that was free
-- still is, other blocks in use stay, and the frames and pools are well formed.
pub kmem_cache_deinit-Released :
    {c : Config} {k : Cache} {m : Memory} {free_of : ℕ → List ℕ} (kmm_cache : ℕ)
    → IsConfig c
    → 0 < kmm_cache
    → IsCache c k m free_of
    → is_empty k.full ≡ true
    → is_empty k.partial ≡ true
    → Returns
        (λ (k', m'). Released c k.pg_order k.free m.buddy m'.buddy × (k'.free ≡ []))
        (kmem_cache_deinit c kmm_cache k m)
unfolding kmem_cache_deinit
kmem_cache_deinit-Released {c} {k} {m} kmm_cache wf some_cache h full partial =
    let valid : (kmm_cache == 0) ≡ false = ground arith in
    rw (valid, full, partial)
      (Returns-bind
        (free_slabs-Released wf k.pg_order k.free m h.buddy h.distinct.0
          (λ p mem. free-Head p h (ground arith)))
        λ t r. returns (r, refl))

-- kmem_cache_deinit of a cache that has a slab with an object in use fails an ASSERT.
pub kmem_cache_deinit-panic :
    (c : Config) (k : Cache) (m : Memory) (kmm_cache : ℕ)
    → 0 < kmm_cache
    → (is_empty k.full && is_empty k.partial) ≡ false
    → kmem_cache_deinit c kmm_cache k m ≡ panic
unfolding kmem_cache_deinit
kmem_cache_deinit-panic c k m kmm_cache some_cache used =
    let valid : (kmm_cache == 0) ≡ false = ground arith in rw (valid, used) refl
