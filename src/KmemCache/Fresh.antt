-- ===== src/KmemCache/Fresh.antt =====
-- init_slab_xip on a block that was cleared.
use aco_os.Base.{
  ℕ, ◌+◌, ◌*◌, ◌^◌, ◌≤◌, ◌<◌, ◌≡◌, true, false, ◌==◌, if◌then◌else◌, arith, none, some,
}
use aco_os.Base.Run.{ok}
use aco_os.Pageframe.{page_size, id2va, val_is_page_aligned}
use aco_os.Buddy.{Config}
use aco_os.Buddy.Neighbour.{IsConfig, count, pow-pos}
use aco_os.Slab.{init_slab_xip}
use aco_os.Slab.FreeList.{IsSlab}
use aco_os.Slab.Init.{
  objects, range, fresh, fresh-IsSlab, init_slab_xip-fresh, objects-fit, color-le, unused,
}
use aco_os.KmemCache.{block_bytes}
use aco_os.KmemCache.Invariant.{InPages}
use aco_os.KmemCache.Blocks.{block_bytes_lem, block-bounds}

-- The pages of a block are aligned, and below 2^64.
module _ {c : Config} (wf : IsConfig c) (few : c.max_order ≤ 19) (o p size : ℕ)
    (small : o < c.max_order) (fits : p + 2 ^ o ≤ count c) (pos_size : 0 < size)
    (less : size < 2 ^ o * page_size) where
  abbrev pub start : ℕ
  start = id2va c.layout p

  block-aligned : val_is_page_aligned start ≡ true
  unfolding val_is_page_aligned
  block-aligned =
      let (va, _, _, _) = block-bounds wf few o p small fits in
      rw va (ground (arith, wf.layout.va_aligned))

  -- What init_slab_xip makes of cleared pages.
  pub init_slab_xip-block :
      (offset index : ℕ → ℕ)
      → init_slab_xip start (block_bytes o) size offset index
        ≡ ok (
            if objects (2 ^ o * page_size) size == 0
            then none
            else some (fresh start (2 ^ o * page_size) size offset index))
  init_slab_xip-block offset index =
      let (va, _, ends, first) = block-bounds wf few o p small fits in
      let (bytes, below) = block_bytes_lem wf few o small in
      let one : 1 ≤ 2 ^ o = pow-pos o in
      rw bytes (
        init_slab_xip-fresh start (2 ^ o * page_size) size offset index (omega (arith, va, first))
          block-aligned pos_size less (omega (arith, one)) below (omega (arith, va, ends)))

  pub fresh-InPages :
      (offset index : ℕ → ℕ)
      → (objects (2 ^ o * page_size) size == 0) ≡ false
      → IsSlab
          (fresh start (2 ^ o * page_size) size offset index)
          (range 0 (objects (2 ^ o * page_size) size))
        × InPages c o p (fresh start (2 ^ o * page_size) size offset index)
  fresh-InPages offset index some_object =
      let (va, _, ends, first) = block-bounds wf few o p small fits in
      let (_, below) = block_bytes_lem wf few o small in
      let one : 1 ≤ 2 ^ o = pow-pos o in
      let (split, _, _, _, tight) = objects-fit (2 ^ o * page_size) size (omega (arith, one)) in
      let shift = color-le offset (unused (2 ^ o * page_size) size) in
      (
        fresh-IsSlab start (2 ^ o * page_size) size offset index pos_size (ground (arith, tight))
            below (omega (arith, va, ends)),
        record {
          some_object = ground arith;
          above = omega arith;
          below = omega (arith, split, shift);
        },
      )
