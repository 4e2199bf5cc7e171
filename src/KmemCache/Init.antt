-- ===== src/KmemCache/Init.antt =====
-- kmem_cache_init: a cache with the slabs asked for, or no memory lost.
use aco_os.Base.{
  ℕ, ◌*◌, ◌^◌, ◌%◌, ◌<◌, ◌≤◌, ◌≡◌, ◌⊎◌, inl, inr, refl, true, List, [], arith, Bool-cases, ◌∙◌,
}
use aco_os.Base.Errno.{Errno, success, enomem, efault, eexist, einval, enobufs, eperm}
use aco_os.Base.Int.{ℤ, pos, pos_part, is_neg}
use aco_os.Base.Run.{ok, Returns, returns, Returns-bind, ◌>>=◌}
use aco_os.Pageframe.{page_size}
use aco_os.Buddy.{State, Config, order2byte}
use aco_os.Buddy.Neighbour.{IsConfig, pow_mono}
use aco_os.Buddy.Invariant.{IsBuddy, FreeAt}
use aco_os.KmemCache.{Cache, Memory, free_slabs}
use aco_os.KmemCache.Create.{accepts, kmem_cache_init}
use aco_os.KmemCache.Invariant.{IsCache}
use aco_os.KmemCache.Release.{free_slabs-Released}
use aco_os.KmemCache.Deinit.{free-Head}
use aco_os.KmemCache.AddSlabs.{Starting, add_slabs-Added}

-- With success the cache is well formed, has the slabs asked for, and all its objects are free. With
-- -ENOMEM it has no slab, and the memory that was free is free.
abbrev pub Created : Config → State → ℕ → ℕ → ℕ → ℕ → Errno × Cache × Memory → Type 0
Created c s size order limit slabs (success, k, m) =
    (free_of : ℕ → List ℕ) × IsCache c k m free_of
    × (k.pg_orhas ≡ slabs)
    × (k.obj_size ≡ size)
    × (k.pg_order ≡ order)
    × (k.pg_orlimit ≡ limit)
    × (k.partial ≡ [])
    × (k.full ≡ [])
Created c s size order limit slabs (enomem, k, m) =
    IsBuddy c m.buddy × (k.free ≡ []) × ((j : ℕ) → FreeAt c s j → FreeAt c m.buddy j)
Created c s size order limit slabs (efault, k, m) = ⊥
Created c s size order limit slabs (eexist, k, m) = ⊥
Created c s size order limit slabs (einval, k, m) = ⊥
Created c s size order limit slabs (enobufs, k, m) = ⊥
Created c s size order limit slabs (eperm, k, m) = ⊥

module _ {c : Config} (wf : IsConfig c) (few : c.max_order ≤ 19) where
  accepts_lem :
      (kmm_cache : ℕ) (obj_size pg_order pgor_limit init_pgor_alloc : ℤ)
      → accepts c kmm_cache obj_size pg_order pgor_limit init_pgor_alloc ≡ true
      → (0 < pos_part obj_size)
        × (pos_part obj_size < 2 ^ pos_part pg_order * page_size)
        × (pos_part init_pgor_alloc ≤ pos_part pgor_limit)
        × (pos_part pg_order < c.max_order)
  unfolding accepts
  accepts_lem kmm_cache obj_size pg_order pgor_limit init_pgor_alloc e =
      let bound : pos_part pg_order < c.max_order → 2 ^ pos_part pg_order ≤ 2 ^ 18 =
        λ small. pow_mono (pos_part pg_order) 18 (omega arith) in
      ground (arith, bound)

  -- The cache before the loop.
  abbrev empty : ℕ → ℕ → ℕ → ℕ → Cache
  empty kmm_cache size order limit = record {
    obj_num = pos 0;
    obj_size = size;
    pg_order = order;
    pg_orlimit = limit;
    pg_orhas = 0;
    color_offset = kmm_cache % 2 ^ 31;
    free = [];
    full = [];
    partial = [];
  }

  empty-Starting :
      (kmm_cache size order limit : ℕ) (m : Memory)
      → IsBuddy c m.buddy
      → 0 < size
      → size < 2 ^ order * page_size
      → order < c.max_order
      → Starting c m.buddy (empty kmm_cache size order limit) m
  empty-Starting kmm_cache size order limit m inv size_pos less small = record {
    free_of = λ _. [];
    cache = record {
      buddy = inv;
      holds = λ p l. ground arith;
      all_free = λ p l. ground arith;
      some_free = λ p l. ground arith;
      none_free = λ p l. ground arith;
      distinct = (tt, tt, tt);
      counted = refl;
      slabs_counted = refl;
      limited = omega arith;
      size_pos = size_pos;
      size_small = less;
      order_small = small;
    };
    unused = (refl, refl);
    conserved = λ j f. inl f;
  }

  -- The failure path.
  give_up :
      (s : State) (size order limit slabs : ℕ) (k : Cache) (m : Memory)
      → Starting c s k m
      → Returns
          (Created c s size order limit slabs)
          (free_slabs c k.free m >>= λ u. ok (enomem, record k { free = [] }, u))
  give_up s size order limit slabs k m a =
      Returns-bind
        (free_slabs-Released wf k.pg_order k.free m a.cache.buddy a.cache.distinct.0
          (λ p mem. free-Head p a.cache (ground arith)))
        λ u r. returns (
          r.buddy,
          refl,
          λ j f. elim (a.conserved j f) [
            | inl still ↦ r.free j still
            | inr (p, mem, lo, hi) ↦ r.home p j mem lo hi
          ],
        )

  -- kmem_cache_init with arguments that it accepts fails no ASSERT, on well-formed frames and pools
  -- with MAX_ORDER at most 19. It makes a well-formed cache with as many slabs as asked for, all of
  -- whose objects are free; or it gives -ENOMEM, and then all memory that was free is free again. The
  -- count of free objects is an int, so all slabs together have less than 2^31 bytes; an object has at
  -- least one.
  pub kmem_cache_init-Created :
      (beyond : ℕ → ℕ) (kmm_cache : ℕ) (obj_size pg_order pgor_limit init_pgor_alloc : ℤ)
      (k : Cache) (m : Memory)
      → IsBuddy c m.buddy
      → pos_part init_pgor_alloc * (2 ^ pos_part pg_order * page_size) < 2 ^ 31
      → accepts c kmm_cache obj_size pg_order pgor_limit init_pgor_alloc ≡ true
      → Returns
          (Created c m.buddy
            (pos_part obj_size)
            (pos_part pg_order)
            (pos_part pgor_limit)
            (pos_part init_pgor_alloc))
          (kmem_cache_init c beyond kmm_cache obj_size pg_order pgor_limit init_pgor_alloc k m)
  unfolding kmem_cache_init
  kmem_cache_init-Created beyond kmm_cache obj_size pg_order pgor_limit init_pgor_alloc k m inv int
        ok_args =
      let (size_pos, less, room, small) =
        accepts_lem kmm_cache obj_size pg_order pgor_limit init_pgor_alloc ok_args in
      let n = pos_part init_pgor_alloc in
      let size = pos_part obj_size in
      let order = pos_part pg_order in
      let limit = pos_part pgor_limit in
      let k₀ = empty kmm_cache size order limit in
      rw ok_args (
        Returns-bind
          (add_slabs-Added wf few beyond m.buddy n k₀ m (omega arith)
            (empty-Starting kmm_cache size order limit m inv size_pos less small))
          λ (done, k', t) (a, num, order', limit', size'). elim (Bool-cases done) [
            | inl e ↦ rw e (
                returns (
                  a.free_of,
                  a.cache,
                  num e ∙ omega arith,
                  size',
                  order',
                  limit',
                  a.unused.0,
                  a.unused.1,
                ))
            | inr e ↦ rw e (give_up m.buddy size order limit n k' t a)
          ])

-- kmem_cache_init refuses NULL, an object size that is not positive or not less than a block, an order
-- out of range, a limit that is not positive, and a number of slabs below 0 or above the limit: it
-- gives -EFAULT and changes nothing.
pub kmem_cache_init_refused :
    (c : Config) (beyond : ℕ → ℕ) (kmm_cache : ℕ) (obj_size pg_order pgor_limit init_pgor_alloc : ℤ)
    (k : Cache) (m : Memory)
    → (kmm_cache ≡ 0)
      ⊎ (pos_part obj_size ≡ 0)
      ⊎ (order2byte (pos_part pg_order) ≤ pos_part obj_size)
      ⊎ (is_neg pg_order ≡ true)
      ⊎ (c.max_order ≤ pos_part pg_order)
      ⊎ (pos_part pgor_limit ≡ 0)
      ⊎ (is_neg init_pgor_alloc ≡ true)
      ⊎ (pos_part pgor_limit < pos_part init_pgor_alloc)
    → kmem_cache_init c beyond kmm_cache obj_size pg_order pgor_limit init_pgor_alloc k m
      ≡ ok (efault, k, m)
unfolding kmem_cache_init accepts
kmem_cache_init_refused c beyond kmm_cache obj_size pg_order pgor_limit init_pgor_alloc k m bad =
    ground arith
