-- ===== src/Memblock.antt =====
-- module/mm/allocators/memblock.c and include/mm/memblock_alloc.h: an allocator of blocks of one size.
-- The free blocks hang on a list through the header that each of them starts with. Pointers are
-- addresses; the caller's pointer to the allocator is not NULL. Iteration with a callback is in
-- Memblock/Each; output is left out.
pub mod Pool
pub mod Init
pub mod Each
mod Tests
use aco_os.Base.{
  ℕ, zero, suc, ◌+◌, ◌-◌, ◌*◌, ◌/◌, ◌%◌, ◌^◌, Bool, true, false, ◌&&◌, ◌||◌, not, List, [], ◌∷◌,
  ltb, leb, ◌==◌, if◌then◌else◌, update, length,
}
use aco_os.Base.Errno.{Errno, success, efault, einval}
use aco_os.Base.Run.{Run, ok, ◌>>=◌}
use aco_os.LinkedList.{Heap, init_node, init_list_head, list_del_init, list_add_tail, list_for_each}
use aco_os.Pageframe.{add_ptr, sub_ptr, int_bits}

-- `mmblock_hdr_t`; `list` is the address of its `_list_block`, `heap` the links of all nodes, and
-- `magic` the magic numbers of the blocks.
pub record Mmblock : Type 0 where
  pub magic_number : ℕ
  pub pa_start : ℕ
  pub block_size : ℕ
  pub total_block : ℕ
  pub rest_block : ℕ
  pub list : ℕ
  pub heap : Heap
  pub magic : ℕ → ℕ

-- MAGIC_NUMBER
abbrev pub magic_value : ℕ
magic_value = 9073

-- `&(blk->_node)`, and list_entry from it: the node stands 8 bytes into the header.
abbrev pub node_of : ℕ → ℕ
node_of block = add_ptr block 8

abbrev pub block_of : ℕ → ℕ
block_of node = sub_ptr node 8

unfoldable pub init_blk_hdr : ℕ → Mmblock → Mmblock
init_blk_hdr block s = record s {
  magic = update s.magic block magic_value;
  heap = init_node (node_of block) s.heap;
}

-- init_blk_hdr and list_add_tail, in memblock_allocator_init and in memblock_free
unfoldable pub add_block : ℕ → Mmblock → Mmblock
add_block block s =
    let t = init_blk_hdr block s in record t { heap = list_add_tail (node_of block) t.list t.heap }

-- The loop of memblock_allocator_init; `block_size * i` is a uint32.
unfoldable pub add_blocks : ℕ → ℕ → ℕ → ℕ → Mmblock → Mmblock
add_blocks pa block_size zero i s = s
add_blocks pa block_size (suc rounds) i s =
    add_blocks pa block_size rounds (i + 1) (add_block (add_ptr pa (int_bits (block_size * i))) s)

unfoldable pub memblock_allocator_init : ℕ → ℕ → ℕ → Mmblock → Errno × Mmblock
memblock_allocator_init pa size block_size s =
    let total = int_bits (size / block_size) in
    if (pa == 0) || ((size == 0) || (block_size == 0))
    then (einval, s)
    else if not (size % block_size == 0)
    then (einval, s)
    else (
      success,
      add_blocks pa block_size total 0 (record {
        magic_number = magic_value;
        pa_start = pa;
        block_size = block_size;
        total_block = total;
        rest_block = total;
        list = s.list;
        heap = init_list_head s.list s.heap;
        magic = s.magic;
      }),
    )

-- The address of the block, 0 for NULL.
unfoldable pub memblock_alloc : Mmblock → ℕ × Mmblock
memblock_alloc s =
    let node = s.heap.next s.list in
    if not (s.magic_number == magic_value) then (0, s) else if s.rest_block == 0 then (0, s) else (
      block_of node,
      record s { heap = list_del_init node s.heap; rest_block = s.rest_block - 1 },
    )

unfoldable pub memblock_free : ℕ → Mmblock → Mmblock
memblock_free address s =
    let t = add_block address s in
    if (address == 0) || not (s.magic_number == magic_value)
    then s
    else if leb s.total_block s.rest_block
    then s
    else record t { rest_block = s.rest_block + 1 }

-- The magic numbers on the list, and `i`.
unfoldable pub check_blocks : (ℕ → ℕ) → List ℕ → ℕ → Bool × ℕ
check_blocks magic [] i = (true, i)
check_blocks magic (node ∷ nodes) i =
    let rest = check_blocks magic nodes (i + 1) in
    if magic (block_of node) == magic_value then rest else (false, i)

-- memblock_self_check; the iteration has fuel.
unfoldable pub memblock_self_check : ℕ → Mmblock → Run Errno
memblock_self_check fuel s =
    if not (s.magic_number == magic_value)
    then ok einval
    else if ltb s.total_block s.rest_block
    then ok efault
    else (do
      nodes ← list_for_each fuel s.list s.heap
      let (right, i) = check_blocks s.magic nodes 0
      ok (if right && (i == s.rest_block) then success else efault))

pub memblock_allocator_merge : Mmblock → Mmblock → Errno × Mmblock × Mmblock
memblock_allocator_merge s t = (success, s, t)
