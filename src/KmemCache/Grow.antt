-- ===== src/KmemCache/Grow.antt =====
-- add_slab: a cache gets one more slab, or gives the block back.
use aco_os.Base.{
  ℕ, ◌+◌, ◌*◌, ◌%◌, ◌^◌, ◌≤◌, ◌<◌, ◌≡◌, refl, true, false, ◌&&◌, ◌==◌, List, update, arith,
  Bool-cases, inl, inr, Option, none, some, ap,
}
use aco_os.Base.Run.{ok, Returns, returns, Returns-bind_bind}
use aco_os.Pageframe.{
  page_size, id2va, is_buddy, is_slab, eq_head, slab_allocator, page_buddyallocator,
}
use aco_os.Buddy.{State, Config}
use aco_os.Buddy.Neighbour.{IsConfig}
use aco_os.Buddy.Invariant.{IsBuddy}
use aco_os.Buddy.Free.{InUse, Freed, bkp_free-Freed}
use aco_os.Buddy.Alloc.{Allocated, Result, bkp_alloc-Result}
use aco_os.Slab.Init.{objects, range, length-range, fresh}
use aco_os.KmemCache.{
  Cache, Memory, cleared, set_pgtype, set_pgfm_aslab, set_pgfm_asbuddy, offset_bytes,
  bkp_alloc_zero, free_block,
}
use aco_os.KmemCache.Create.{init_slab, hang_slab, add_slab}
use aco_os.KmemCache.Invariant.{IsCache, IsCache-Memory}
use aco_os.KmemCache.Retype.{set_pgtype-IsBuddy}
use aco_os.KmemCache.Fresh.{init_slab_xip-block, fresh-InPages}
use aco_os.KmemCache.Filled.{
  Unchanged, Outcome, zeroed, retyped, fresh_block, block-fits, filled-Grown,
}

module _ {c : Config} (wf : IsConfig c) (few : c.max_order ≤ 19) {k : Cache} {m : Memory}
    {free_of : ℕ → List ℕ} (h : IsCache c k m free_of) (p : ℕ) (b : State)
    (done : Allocated c m.buddy k.pg_order p b) where
  -- The block gets its type back and returns to the allocator.
  failed : Memory
  failed = set_pgtype page_buddyallocator p (retyped m p b)

  failed-InUse : InUse c failed.buddy p k.pg_order
  unfolding failed
  failed-InUse =
      let block = done.block in
      record {
        in_range = block.in_range;
        kind = ground arith;
        in_use = ground (arith, block.in_use);
        order = ground (arith, block.order);
      }

  failed-IsBuddy : IsBuddy c failed.buddy
  unfolding failed
  failed-IsBuddy =
      let block = done.block in
      set_pgtype-IsBuddy c page_buddyallocator p (retyped m p b) (ground (arith, block.in_use))
        block.in_range
        (set_pgtype-IsBuddy c slab_allocator p (zeroed m p b) block.in_use block.in_range done.inv)

  Freed-Unchanged :
      (b' : State)
      → Freed c p k.pg_order failed.buddy b'
      → Unchanged c k m free_of k (record failed { buddy = b' })
  unfolding failed
  Freed-Unchanged b' freed = record {
    same = refl;
    cache =
        IsCache-Memory c k m (record failed { buddy = b' }) free_of h freed.inv
          λ q l.
            let old = h.holds q l in
            (
              ground (
                arith,
                (fresh_block h p b done),
                freed.keeps.held q,
                done.held q,
                old.in_use,
                old.in_range,
              ),
              ground (arith, (fresh_block h p b done)),
            );
    slabs = λ q l. ground (arith, (fresh_block h p b done));
    held = λ q small u.
        let kept : b.pages q ≡ m.buddy.pages q = done.held q small u in
        ground (arith, kept, u, done.was_free, freed.keeps.held q);
    conserved = λ j f. elim (done.conserved j f) [
      | inl still ↦ freed.free j still
      | inr (lo, hi) ↦ freed.home j lo hi
    ];
  }

  hang_slab-Outcome :
      (beyond : ℕ → ℕ)
      → k.pg_orhas < k.pg_orlimit
      → Returns (Outcome c k m free_of) (hang_slab c beyond p k (zeroed m p b))
  unfolding hang_slab set_pgfm_aslab init_slab set_pgfm_asbuddy free_block failed
  hang_slab-Outcome beyond room =
      let block = done.block in
      let buddy : (is_buddy (b.pages p).pgtype && eq_head (b.pages p).buddy_flags) ≡ true =
        ground (arith, block.kind, block.in_use) in
      let slab : (is_slab ((retyped m p b).buddy.pages p).pgtype
            && eq_head ((retyped m p b).buddy.pages p).buddy_flags)
          ≡ true =
        ground (arith, block.in_use) in
      let order : ((retyped m p b).buddy.pages p).buddy_order ≡ k.pg_order =
        ground (arith, block.order) in
      let made =
        init_slab_xip-block wf few k.pg_order p k.obj_size h.order_small (block-fits h p b done)
          h.size_pos h.size_small (offset_bytes beyond k.color_offset)
          ((retyped m p b).slabs p).index in
      let self : (p == p) ≡ true = ground arith in
      let bytes = 2 ^ k.pg_order * page_size in
      let offset = offset_bytes beyond k.color_offset in
      elim (Bool-cases (objects bytes k.obj_size == 0)) [
        | inl e ↦
            rw (buddy, slab, order, made, e, slab)
              (Returns-bind_bind _ _
                (bkp_free-Freed failed.buddy p k.pg_order wf failed-IsBuddy failed-InUse)
                λ b' freed. returns (Freed-Unchanged b' freed))
        | inr e ↦
            let (fresh_slab, place) =
              fresh-InPages wf few k.pg_order p k.obj_size h.order_small (block-fits h p b done)
                h.size_pos h.size_small offset cleared.index e in
            let equal : (objects bytes k.obj_size == objects bytes k.obj_size) ≡ true =
              ground arith in
            rw (buddy, slab, order, made, e, self, equal)
              (returns (
                filled-Grown h p b done
                  (fresh (id2va c.layout p) bytes k.obj_size offset cleared.index)
                  (range 0 (objects bytes k.obj_size)) fresh_slab
                  (length-range 0 (objects bytes k.obj_size)) refl place room
                  ((k.color_offset + 1) % 2 ^ 31)))
      ]

-- The memory after bkp_alloc_zero.
abbrev after_zero : Memory → Option ℕ → State → Memory
after_zero m page b = elim page [
  | none ↦ record m { buddy = b }
  | some p ↦ record { buddy = b; slabs = update m.slabs p cleared }
]

allocated-Outcome :
    {c : Config} (beyond : ℕ → ℕ) {k : Cache} {m : Memory} {free_of : ℕ → List ℕ}
    → IsConfig c
    → c.max_order ≤ 19
    → IsCache c k m free_of
    → k.pg_orhas < k.pg_orlimit
    → (page : Option ℕ) (b : State) → Result c m.buddy k.pg_order (page, b)
    → Returns (Outcome c k m free_of) (
        let t = after_zero m page b in
        elim page [ none ↦ ok (false, k, t) | some p ↦ hang_slab c beyond p k t ])
allocated-Outcome beyond {k} {m} {free_of} wf few h room none b (same, _) = returns (record {
  same = refl;
  cache =
      IsCache-Memory _ k m (record m { buddy = b }) free_of h (rw same h.buddy)
        (λ q l. (ap (λ (s : State). s.pages q) same, refl));
  slabs = λ q l. refl;
  held = λ q small u. ap (λ (s : State). s.pages q) same;
  conserved = λ j f. rw same f;
})
allocated-Outcome beyond wf few h room (some p) b done =
    hang_slab-Outcome wf few h p b done beyond room

-- A cache below its limit asks for one more block. It gets a slab whose objects are all free, or else
-- cache and free memory are as before.
pub add_slab-Outcome :
    {c : Config} (beyond : ℕ → ℕ) {k : Cache} {m : Memory} {free_of : ℕ → List ℕ}
    → IsConfig c
    → c.max_order ≤ 19
    → IsCache c k m free_of
    → k.pg_orhas < k.pg_orlimit
    → Returns (Outcome c k m free_of) (add_slab c beyond k m)
unfolding add_slab bkp_alloc_zero
add_slab-Outcome {c} beyond {k} {m} {free_of} wf few h room =
    Returns-bind_bind _ _ (bkp_alloc-Result m.buddy k.pg_order wf h.buddy h.order_small)
      λ (page, b) done. allocated-Outcome beyond wf few h room page b done
