-- ===== src/Memblock/Init.antt =====
-- memblock_allocator_init: all blocks are free, one after the other from the start of the memory.
use native.Mathlib.Nat.{mul-le-mul_right, mul_comm, div-add-mod', div-le_self}
use aco_os.Base.{
  ℕ, zero, suc, ◌+◌, ◌*◌, ◌/◌, ◌%◌, ◌^◌, ◌≤◌, ◌<◌, ◌≡◌, ◌⊎◌, refl, sym, subst, true, false, List,
  [], ◌∷◌, ◌++◌, ◌==◌, ◌||◌, length, length-append, has-append, ◌∈◌, ◌∉◌, arith,
}
use aco_os.Base.Errno.{success, einval}
use aco_os.LinkedList.{init_list_head}
use aco_os.LinkedList.Chain.{IsRing}
use aco_os.LinkedList.Insert.{init_list_head-IsRing}
use aco_os.Pageframe.{add_ptr, int_bits}
use aco_os.Memblock.{
  Mmblock, magic_value, node_of, init_blk_hdr, add_block, add_blocks, memblock_allocator_init,
}
use aco_os.Memblock.Pool.{IsPool, nodes, nodes-snoc, add_block-IsRing}

-- The first `i` blocks.
abbrev pub firsts : ℕ → ℕ → ℕ → List ℕ
firsts pa block_size zero = []
firsts pa block_size (suc i) = firsts pa block_size i ++ ((pa + i * block_size) ∷ [])

-- The memory for the blocks: `size` bytes from `pa` on, the head of the list outside of it.
pub record IsArea (pa size block_size list : ℕ) : Type 0 where
  pub start : 0 < pa
  pub size_pos : 0 < size
  pub whole : size % block_size ≡ 0
  pub header : 24 ≤ block_size
  pub small : size < 2 ^ 31
  pub ends : pa + size < 2 ^ 64
  pub apart : (list + 16 ≤ pa) ⊎ (pa + size ≤ list)

module _ {pa size block_size list : ℕ} (area : IsArea pa size block_size list) where
  -- A block lies in the memory.
  block-inside :
      (i : ℕ)
      → i < size / block_size
      → (pa + i * block_size + block_size ≤ pa + size)
        × (add_ptr pa (int_bits (block_size * i)) ≡ pa + i * block_size)
  block-inside i h =
      let room : (i + 1) * block_size ≤ size / block_size * block_size =
        mul-le-mul_right block_size (omega arith) in
      let split = div-add-mod' size block_size in
      let flip = mul_comm block_size i in
      (omega (arith, room, split), omega (arith, room, split, flip, area.small, area.ends))

  -- A node at or behind the end of the first blocks is not one of theirs.
  firsts-out :
      (i : ℕ)
      → i ≤ size / block_size
      → (a : ℕ) → pa + i * block_size ≤ a
      → a ∉ nodes (firsts pa block_size i)
  firsts-out zero h a le = refl
  firsts-out (suc i) h a le =
      let (room, _) = block-inside i (omega arith) in
      rw (nodes-snoc (firsts pa block_size i) (pa + i * block_size)) (
        ground (
          arith,
          has-append a (nodes (firsts pa block_size i)) (node_of (pa + i * block_size) ∷ []),
          firsts-out i (omega arith) a (omega arith),
          area.header,
          area.ends,
          room,
        ))

  firsts-below :
      (i : ℕ) → i ≤ size / block_size → (b : ℕ) → b ∈ firsts pa block_size i → b + 8 < 2 ^ 64
  firsts-below zero h b m = ground arith
  firsts-below (suc i) h b m =
      let (room, _) = block-inside i (omega arith) in
      ground (
        arith,
        has-append b (firsts pa block_size i) ((pa + i * block_size) ∷ []),
        firsts-below i (omega arith) b,
        area.header,
        area.ends,
        room,
      )

  -- The allocator after `i` rounds of the loop.
  record Laid (n i : ℕ) (s : Mmblock) : Type 0 where
    head : s.list ≡ list
    ring : IsRing s.heap list (nodes (firsts pa block_size i))
    magic : s.magic_number ≡ magic_value
    rest : s.rest_block ≡ n
    total : s.total_block ≡ n
    marked : (b : ℕ) → b ∈ firsts pa block_size i → s.magic b ≡ magic_value

  add_block-Laid :
      (n i : ℕ) (s : Mmblock)
      → i < size / block_size
      → Laid n i s
      → Laid n (suc i) (add_block (add_ptr pa (int_bits (block_size * i))) s)
  unfolding add_block init_blk_hdr
  add_block-Laid n i s h l =
      let (room, same) = block-inside i h in
      let out : node_of (pa + i * block_size) ∉ (list ∷ nodes (firsts pa block_size i)) = ground (
        arith,
        firsts-out i (omega arith) (node_of (pa + i * block_size))
            (omega (arith, room, area.header, area.ends)),
        area.apart,
        area.header,
        area.ends,
        room,
      ) in
      let ring' =
        add_block-IsRing s (firsts pa block_size i) (pa + i * block_size)
          (subst (λ a. IsRing s.heap a (nodes (firsts pa block_size i))) (sym l.head) l.ring)
          (subst (λ a. node_of (pa + i * block_size) ∉ (a ∷ nodes (firsts pa block_size i)))
            (sym l.head) out) in
      rw same (record {
        head = l.head;
        ring =
            subst
              (λ a.
                IsRing (add_block (pa + i * block_size) s).heap a
                  (nodes (firsts pa block_size (suc i))))
              l.head ring';
        magic = l.magic;
        rest = l.rest;
        total = l.total;
        marked = λ b m.
            ground (
              arith,
              l.marked b,
              has-append b (firsts pa block_size i) ((pa + i * block_size) ∷ []),
            );
      })

  add_blocks-Laid :
      (n rounds i : ℕ) (s : Mmblock)
      → rounds + i ≡ size / block_size
      → Laid n i s
      → Laid n (size / block_size) (add_blocks pa block_size rounds i s)
  unfolding add_blocks
  add_blocks-Laid n zero i s e l =
      let same : i ≡ size / block_size = omega (arith, e) in subst (λ k. Laid n k s) same l
  add_blocks-Laid n (suc rounds) i s e l =
      let next : suc i ≡ i + 1 = omega arith in
      add_blocks-Laid n rounds (i + 1) _ (omega (arith, e)) (
        subst (λ k. Laid n k (add_block (add_ptr pa (int_bits (block_size * i))) s)) next
          (add_block-Laid n i s (omega (arith, e)) l))

  -- Before the loop there is no block.
  Laid-start :
      (n : ℕ) (s : Mmblock)
      → Laid n 0 (record {
        magic_number = magic_value;
        pa_start = pa;
        block_size = block_size;
        total_block = n;
        rest_block = n;
        list = list;
        heap = init_list_head list s.heap;
        magic = s.magic;
      })
  Laid-start n s = record {
    head = refl;
    ring = init_list_head-IsRing s.heap list;
    magic = refl;
    rest = refl;
    total = refl;
    marked = λ b m. ground arith;
  }

  length-firsts : (i : ℕ) → length (firsts pa block_size i) ≡ i
  length-firsts zero = refl
  length-firsts (suc i) =
      omega (
        arith,
        length-append (firsts pa block_size i) ((pa + i * block_size) ∷ []),
        length-firsts i,
      )

  Laid-IsPool :
      (n : ℕ) (s : Mmblock)
      → n ≡ size / block_size
      → Laid n (size / block_size) s
      → IsPool s (firsts pa block_size (size / block_size))
  Laid-IsPool n s e l = record {
    ring =
        subst (λ a. IsRing s.heap a (nodes (firsts pa block_size (size / block_size)))) (sym l.head)
          l.ring;
    magic = l.magic;
    rest = omega (arith, l.rest, e, length-firsts (size / block_size));
    total = omega (arith, l.rest, l.total);
    marked = l.marked;
    below = firsts-below (size / block_size) (omega arith);
  }

-- On memory that is a whole number of blocks with room for a header each, below 2^31 bytes, that does
-- not hold the list's head, memblock_allocator_init succeeds, and all blocks are free, in the order
-- of their addresses.
pub memblock_allocator_init-IsPool :
    (pa size block_size : ℕ) (s : Mmblock)
    → IsArea pa size block_size s.list
    → ((memblock_allocator_init pa size block_size s).0 ≡ success)
      × IsPool
          (memblock_allocator_init pa size block_size s).1
          (firsts pa block_size (size / block_size))
unfolding memblock_allocator_init
memblock_allocator_init-IsPool pa size block_size s area =
    let n = size / block_size in
    let few : int_bits n ≡ n = omega (arith, div-le_self size block_size, area.small) in
    let given : ((pa == 0) || ((size == 0) || (block_size == 0))) ≡ false =
      ground (arith, area.start, area.size_pos, area.header) in
    let whole : (size % block_size == 0) ≡ true = ground (arith, area.whole) in
    let l = add_blocks-Laid area n n 0 _ (omega arith) (Laid-start area n s) in
    rw (given, whole, few) (refl, Laid-IsPool area n _ refl l)

-- A NULL start, a size or block size of 0, or a size that is no multiple of the block size gives
-- -EINVAL and changes nothing.
pub memblock_allocator_init_einval :
    (pa size block_size : ℕ) (s : Mmblock)
    → (pa ≡ 0) ⊎ ((size ≡ 0) ⊎ ((block_size ≡ 0) ⊎ (0 < size % block_size)))
    → memblock_allocator_init pa size block_size s ≡ (einval, s)
unfolding memblock_allocator_init
memblock_allocator_init_einval pa size block_size s bad = ground (arith, bad)
