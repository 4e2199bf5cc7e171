-- ===== src/KmemCache/Create.antt =====
-- Slabs in new blocks: kmem_cache_init and kmem_obj_alloc of module/mm/kmem_cache/slab.c.
use aco_os.Base.{
  ℕ, zero, suc, ◌+◌, ◌%◌, ◌^◌, Bool, true, false, ◌&&◌, not, none, some, [], ◌∷◌, ◌++◌, ltb, leb,
  ◌==◌, if◌then◌else◌, update,
}
use aco_os.Base.Errno.{Errno, success, efault, enomem}
use aco_os.Base.Int.{ℤ, pos, is_zero, is_neg, pos_part, add}
use aco_os.Base.Run.{Run, ok, ◌>>=◌, ◌>>◌, assert}
use aco_os.Pageframe.{is_slab, eq_head, id2va}
use aco_os.Buddy.{Config, order2byte}
use aco_os.Slab.{init_slab_xip}
use aco_os.KmemCache.{
  Cache, Memory, offset_bytes, set_pgfm_aslab, set_pgfm_asbuddy, block_bytes, take_object,
  bkp_alloc_zero, free_block, free_slabs,
}

module _ (c : Config) where
  -- What kmem_cache_init tests first.
  unfoldable pub accepts : ℕ → ℤ → ℤ → ℤ → ℤ → Bool
  accepts kmm_cache obj_size pg_order pgor_limit init_pgor_alloc =
      not (kmm_cache == 0)
      && (ltb 0 (pos_part obj_size)
          && (not (is_neg pg_order)
              && (ltb (pos_part pg_order) c.max_order
                  && (ltb 0 (pos_part pgor_limit)
                      && (not (is_neg init_pgor_alloc)
                          && (leb (pos_part init_pgor_alloc) (pos_part pgor_limit)
                              && ltb (pos_part obj_size) (order2byte (pos_part pg_order))))))))

  module _ (beyond : ℕ → ℕ) where
    -- False for NULL.
    unfoldable pub init_slab : ℕ → ℕ → ℕ → Memory → Run (Bool × Memory)
    init_slab p obj_size offset m = do
      let f = m.buddy.pages p
      assert (is_slab f.pgtype && eq_head f.buddy_flags)
      made ←
          init_slab_xip (id2va c.layout p) (block_bytes f.buddy_order) obj_size
            (offset_bytes beyond offset) (m.slabs p).index
      ok (elim made [
        | none ↦ (false, m)
        | some s ↦ (true, record m { slabs = update m.slabs p s })
      ])

    -- A block becomes a slab on the list of free slabs, or goes back.
    unfoldable pub hang_slab : ℕ → Cache → Memory → Run (Bool × Cache × Memory)
    hang_slab p k m = do
      t ← set_pgfm_aslab p m
      (made, u) ← init_slab p k.obj_size k.color_offset t
      if made
          then (do
            assert ((u.slabs p).obj_all == (u.slabs p).obj_free)
            ok (
              true,
              record k {
                color_offset = (k.color_offset + 1) % 2 ^ 31;
                obj_num = add k.obj_num (u.slabs p).obj_free;
                pg_orhas = k.pg_orhas + 1;
                free = k.free ++ (p ∷ []);
              },
              u,
            ))
          else (do v ← set_pgfm_asbuddy p u; w ← free_block c p v; ok (false, k, w))

    unfoldable pub add_slab : Cache → Memory → Run (Bool × Cache × Memory)
    add_slab k m = do
      (page, t) ← bkp_alloc_zero c (pos k.pg_order) m
      elim page [ none ↦ ok (false, k, t) | some p ↦ hang_slab p k t ]

    -- The address of the object, 0 for NULL.
    unfoldable pub kmem_obj_alloc : ℕ → Cache → Memory → Run (ℕ × Cache × Memory)
    kmem_obj_alloc kmm_cache k m =
        if kmm_cache == 0
        then ok (0, k, m)
        else if is_zero k.obj_num
        then (if leb k.pg_orlimit k.pg_orhas then ok (0, k, m) else (do
          (done, k', t) ← add_slab k m
          if done then take_object k' t else ok (0, k', t)))
        else take_object k m

    unfoldable pub add_slabs : ℕ → Cache → Memory → Run (Bool × Cache × Memory)
    add_slabs zero k m = ok (true, k, m)
    add_slabs (suc rounds) k m = do
      (done, k', t) ← add_slab k m
      elim done [ true ↦ add_slabs rounds k' t | false ↦ ok (false, k', t) ]

    -- `k` is what lies at kmm_cache before.
    unfoldable pub kmem_cache_init :
        ℕ → ℤ → ℤ → ℤ → ℤ → Cache → Memory → Run (Errno × Cache × Memory)
    kmem_cache_init kmm_cache obj_size pg_order pgor_limit init_pgor_alloc k m =
        if accepts kmm_cache obj_size pg_order pgor_limit init_pgor_alloc
        then (do
          (done, k', t) ←
              add_slabs (pos_part init_pgor_alloc)
                (record {
                  obj_num = pos 0;
                  obj_size = pos_part obj_size;
                  pg_order = pos_part pg_order;
                  pg_orlimit = pos_part pgor_limit;
                  pg_orhas = 0;
                  color_offset = kmm_cache % 2 ^ 31;
                  free = [];
                  full = [];
                  partial = [];
                })
                m
          if done
              then ok (success, k', t)
              else (do u ← free_slabs c k'.free t; ok (enomem, record k' { free = [] }, u)))
        else ok (efault, k, m)
