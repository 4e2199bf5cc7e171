-- ===== src/KmemCache.antt =====
-- The caches of slabs of module/mm/kmem_cache/slab.c, over the allocator of page frames. One call
-- runs with no other CPU in between, so the locks of the caches and the frames are not modelled.
pub mod Create
pub mod Total
pub mod Retype
pub mod Invariant
pub mod Relist
pub mod Taken
pub mod GivenBack
pub mod Take
pub mod Blocks
pub mod Put
pub mod Fresh
pub mod Filled
pub mod Grow
pub mod Alloc
pub mod Release
pub mod AddSlabs
pub mod Init
pub mod Deinit
pub mod Startup
pub mod Objects
pub mod Tests
use aco_os.Base.{
  ℕ, zero, suc, ◌+◌, ◌-◌, ◌*◌, ◌/◌, ◌%◌, ◌^◌, Bool, true, false, ◌&&◌, ◌||◌, not, Option, none,
  some, List, [], ◌∷◌, ◌++◌, ltb, leb, ◌==◌, if◌then◌else◌, update, remove,
}
use aco_os.Base.Errno.{Errno, success, efault, enomem}
use aco_os.Base.Int.{ℤ, pos, negsuc, inc, dec, is_zero, is_neg, pos_part, add}
use aco_os.Base.Run.{Run, ok, panic, ◌>>=◌, ◌>>◌, assert}
use aco_os.Pageframe.{
  PgfmType, page_buddyallocator, slab_allocator, is_buddy, is_slab, eq_head, id2va, int_bits,
  add_ptr,
}
use aco_os.Buddy.{State, Config, order2byte, set_page, bkp_alloc, bkp_free}
use aco_os.Slab.{Slab, init_slab_xip, slab_alloc, slab_free}

-- `kmem_cache_t`; its lists hold the page frames whose buddy_node is linked in, in order. obj_num, the
-- number of free objects, is an int in the source; the theorems on operations that raise it keep it
-- below 2^31.
pub record Cache : Type 0 where
  pub obj_num : ℤ
  pub obj_size : ℕ
  pub pg_order : ℕ
  pub pg_orlimit : ℕ
  pub pg_orhas : ℕ
  pub color_offset : ℕ
  pub free : List ℕ
  pub full : List ℕ
  pub partial : List ℕ

-- The page frames with their pools, and what lies in the pages of a frame, read as a slab.
pub record Memory : Type 0 where
  pub buddy : State
  pub slabs : ℕ → Slab

-- `kmm_cinfo`
pub record CacheInfo : Type 0 where
  pub obj_num : ℤ
  pub obj_size : ℕ
  pub pg_orlimit : ℕ
  pub pg_orhas : ℕ
  pub pg_order : ℕ

-- Cleared pages.
abbrev pub cleared : Slab
cleared = record {
  obj_all = 0;
  obj_free = 0;
  obj_size = 0;
  mem_free_head = 0;
  mem_free_tail = 0;
  mem_index_start = 0;
  mem_obj_start = 0;
  index = λ _. 0;
}

-- The bytes from the variable `offset` on: the four of the int, then those that `beyond` gives.
abbrev pub offset_bytes : (ℕ → ℕ) → ℕ → ℕ → ℕ
offset_bytes beyond offset i = if ltb i 4 then offset / 2 ^ (8 * i) % 2 ^ 8 else beyond i

abbrev pub set_pgtype : PgfmType → ℕ → Memory → Memory
set_pgtype t p m = record m { buddy = set_page m.buddy p (record (m.buddy.pages p) { pgtype = t }) }

pub set_pgfm_aslab : ℕ → Memory → Run Memory
set_pgfm_aslab p m = do
  assert (is_buddy (m.buddy.pages p).pgtype && eq_head (m.buddy.pages p).buddy_flags)
  ok (set_pgtype slab_allocator p m)

pub set_pgfm_asbuddy : ℕ → Memory → Run Memory
set_pgfm_asbuddy p m = do
  assert (is_slab (m.buddy.pages p).pgtype && eq_head (m.buddy.pages p).buddy_flags)
  ok (set_pgtype page_buddyallocator p m)

-- The bytes of a block of this order, as an int.
abbrev pub block_bytes : ℕ → ℕ
block_bytes order = int_bits (order2byte order)

-- The end of kmem_obj_alloc: `p` leaves the list it was first on for the list that fits, but stays on
-- the partial one while objects are left.
abbrev pub after_alloc : Bool → ℕ → Bool → Cache → Cache
after_alloc from_partial p none_left k =
    if from_partial
    then record k {
      obj_num = dec k.obj_num;
      partial = if none_left then remove p k.partial else k.partial;
      full = if none_left then k.full ++ (p ∷ []) else k.full;
    }
    else record k {
      obj_num = dec k.obj_num;
      free = remove p k.free;
      full = if none_left then k.full ++ (p ∷ []) else k.full;
      partial = if none_left then k.partial else k.partial ++ (p ∷ []);
    }

-- slab_alloc on the first slab of a list.
pub alloc_from_slab : Bool → List ℕ → Cache → Memory → Run (ℕ × Cache × Memory)
alloc_from_slab from_partial [] k m = panic
alloc_from_slab from_partial (p ∷ _) k m = do
  (ret, s) ← slab_alloc (m.slabs p)
  assert (not (ret == 0))
  ok (ret, after_alloc from_partial p (s.obj_free == 0) k, record m { slabs = update m.slabs p s })

abbrev pub is_empty : List ℕ → Bool
is_empty [] = true
is_empty (_ ∷ _) = false

pub take_object : Cache → Memory → Run (ℕ × Cache × Memory)
take_object k m =
    if is_empty k.partial
    then alloc_from_slab false k.free k m
    else alloc_from_slab true k.partial k m

-- The end of kmem_obj_free: `p` leaves the list it was on for the list that fits, but stays on the
-- partial one unless all objects are free.
abbrev pub after_free : Bool → ℕ → Bool → Cache → Cache
after_free from_partial p all_free k =
    if from_partial
    then record k {
      obj_num = inc k.obj_num;
      partial = if all_free then remove p k.partial else k.partial;
      free = if all_free then k.free ++ (p ∷ []) else k.free;
    }
    else record k {
      obj_num = inc k.obj_num;
      full = remove p k.full;
      free = if all_free then k.free ++ (p ∷ []) else k.free;
      partial = if all_free then k.partial else k.partial ++ (p ∷ []);
    }

pub free_in_slab : Bool → ℕ → ℕ → Cache → Memory → Run (Cache × Memory)
free_in_slab from_partial p address k m = do
  s ← slab_free (m.slabs p) address
  ok (
    after_free from_partial p (s.obj_free == s.obj_all) k,
    record m { slabs = update m.slabs p s },
  )

-- The assertion on the slabs of a list: some objects in use on the partial list, all on the full one.
abbrev pub fits_list : Bool → Slab → Bool
fits_list from_partial s = if from_partial then ltb s.obj_free s.obj_all else s.obj_free == 0

module _ (c : Config) where
  -- A walk of kmem_obj_free over a list, up to the slab in whose pages the address lies.
  pub find_slab : Bool → ℕ → ℕ → List ℕ → Memory → Run (Option ℕ)
  find_slab from_partial order address [] m = ok none
  find_slab from_partial order address (p ∷ ps) m =
      let start = id2va c.layout p in
      let rest = find_slab from_partial order address ps m in
      (do
        assert (is_slab (m.buddy.pages p).pgtype && eq_head (m.buddy.pages p).buddy_flags)
        assert (fits_list from_partial (m.slabs p))
        if ltb start address && ltb address (add_ptr start (block_bytes order))
            then ok (some p)
            else rest)

  pub kmem_obj_free : ℕ → ℕ → Cache → Memory → Run (Cache × Memory)
  kmem_obj_free kmm_cache address k m = if kmm_cache == 0 || address == 0 then ok (k, m) else (do
    in_partial ← find_slab true k.pg_order address k.partial m
    elim in_partial [
      | some p ↦ free_in_slab true p address k m
      | none ↦ do
        in_full ← find_slab false k.pg_order address k.full m
        elim in_full [ some p ↦ free_in_slab false p address k m | none ↦ ok (k, m) ]
    ])

  -- The block and its memory, which is cleared.
  pub bkp_alloc_zero : ℤ → Memory → Run (Option ℕ × Memory)
  bkp_alloc_zero order m = do
    (page, b) ← bkp_alloc c order m.buddy
    ok (
      page,
      elim page [
        | none ↦ record m { buddy = b }
        | some p ↦ record { buddy = b; slabs = update m.slabs p cleared }
      ],
    )

  pub free_block : ℕ → Memory → Run Memory
  free_block p m = do b ← bkp_free c p m.buddy; ok (record m { buddy = b })

  -- The blocks on the list of free slabs go back, first to last.
  pub free_slabs : List ℕ → Memory → Run Memory
  free_slabs [] m = ok m
  free_slabs (p ∷ ps) m = do
    let t = set_pgtype page_buddyallocator p m
    assert (eq_head (t.buddy.pages p).buddy_flags)
    u ← free_block p t
    free_slabs ps u

  -- `sizeof(kmm_cache)` is the eight bytes of a pointer: the memset reaches the lock and obj_num.
  pub kmem_cache_deinit : ℕ → Cache → Memory → Run (Cache × Memory)
  kmem_cache_deinit kmm_cache k m = if kmm_cache == 0 then ok (k, m) else (do
    assert (is_empty k.full && is_empty k.partial)
    t ← free_slabs k.free m
    ok (record k { obj_num = pos 0; free = [] }, t))

-- NULL for either pointer leaves `info` as it is.
pub kmem_cached_info : ℕ → ℕ → Cache → CacheInfo → CacheInfo
kmem_cached_info kmm_cache info k old = if kmm_cache == 0 || info == 0 then old else record {
  obj_num = k.obj_num;
  obj_size = k.obj_size;
  pg_orlimit = k.pg_orlimit;
  pg_orhas = k.pg_orhas;
  pg_order = k.pg_order;
}
