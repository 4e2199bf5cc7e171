-- ===== src/Memblock/Pool.antt =====
-- memblock_alloc takes the first free block, memblock_free puts one behind the others.
use aco_os.Base.{
  ℕ, suc, ◌+◌, ◌^◌, ◌≤◌, ◌<◌, ◌≡◌, ◌≢◌, ◌⊎◌, refl, sym, subst, true, false, List, [], ◌∷◌, ◌++◌,
  ltb, leb, ◌==◌, length, length-append, has-append, ◌∈◌, ◌∉◌, arith, ap, ◌∙◌,
}
use aco_os.Base.Errno.{success}
use aco_os.Base.Run.{ok}
use aco_os.LinkedList.{init_node, list_add_tail}
use aco_os.LinkedList.Chain.{IsRing}
use aco_os.LinkedList.Insert.{list_add_tail-IsRing}
use aco_os.LinkedList.Remove.{list_del_init-IsRing, init_node-frame}
use aco_os.LinkedList.Walk.{list_for_each-IsRing}
use aco_os.Memblock.{
  Mmblock, magic_value, node_of, block_of, init_blk_hdr, add_block, memblock_alloc, memblock_free,
  memblock_self_check, check_blocks,
}

abbrev pub nodes : List ℕ → List ℕ
nodes [] = []
nodes (b ∷ bs) = node_of b ∷ nodes bs

-- The free blocks of the allocator are `blocks`, in the order in which they will be given out.
pub record IsPool (s : Mmblock) (blocks : List ℕ) : Type 0 where
  pub ring : IsRing s.heap s.list (nodes blocks)
  pub magic : s.magic_number ≡ magic_value
  pub rest : s.rest_block ≡ length blocks
  pub total : s.rest_block ≤ s.total_block
  pub marked : (b : ℕ) → b ∈ blocks → s.magic b ≡ magic_value
  pub below : (b : ℕ) → b ∈ blocks → b + 8 < 2 ^ 64

pub nodes-snoc : (bs : List ℕ) (b : ℕ) → nodes (bs ++ (b ∷ [])) ≡ nodes bs ++ (node_of b ∷ [])
nodes-snoc [] b = refl
nodes-snoc (x ∷ bs) b = ap (λ l. node_of x ∷ l) (nodes-snoc bs b)

-- A block whose node is not on the list goes to its end.
pub add_block-IsRing :
    (s : Mmblock) (bs : List ℕ) (block : ℕ)
    → IsRing s.heap s.list (nodes bs)
    → node_of block ∉ (s.list ∷ nodes bs)
    → IsRing (add_block block s).heap s.list (nodes (bs ++ (block ∷ [])))
unfolding add_block init_blk_hdr
add_block-IsRing s bs block r out =
    subst
      (λ l.
        IsRing (list_add_tail (node_of block) s.list (init_node (node_of block) s.heap)) s.list l)
      (sym (nodes-snoc bs block))
      (list_add_tail-IsRing (init_node (node_of block) s.heap) s.list (node_of block) (nodes bs)
        (init_node-frame s.heap s.list (node_of block) (nodes bs) r out) out)

-- The first free block, 0 for NULL, and the blocks behind it.
abbrev pub first_block : List ℕ → ℕ
first_block [] = 0
first_block (b ∷ _) = b

abbrev pub others : List ℕ → List ℕ
others [] = []
others (_ ∷ bs) = bs

-- On a well-formed allocator, memblock_alloc gives the first free block, and the others stay free; NULL when no block is free.
pub memblock_alloc-IsPool :
    (s : Mmblock) (bs : List ℕ)
    → IsPool s bs
    → ((memblock_alloc s).0 ≡ first_block bs) × IsPool (memblock_alloc s).1 (others bs)
unfolding memblock_alloc
memblock_alloc-IsPool s [] h =
    let right : (s.magic_number == magic_value) ≡ true = ground (arith, h.magic) in
    let none_left : (s.rest_block == 0) ≡ true = ground (arith, h.rest) in
    rw (right, none_left) (refl, h)
memblock_alloc-IsPool s (b ∷ bs) h =
    let right : (s.magic_number == magic_value) ≡ true = ground (arith, h.magic) in
    let some_left : (s.rest_block == 0) ≡ false = ground (arith, h.rest) in
    let first : s.heap.next s.list ≡ node_of b = h.ring.links.0 in
    rw (right, some_left, first)
      (
        omega (arith, h.below b (ground arith)),
        record {
          ring = (list_del_init-IsRing s.heap s.list [] (node_of b) (nodes bs) h.ring).0;
          magic = h.magic;
          rest = omega (arith, h.rest);
          total = omega (arith, h.total);
          marked = λ c m. h.marked c (ground arith);
          below = λ c m. h.below c (ground arith);
        },
      )

-- On a well-formed allocator, memblock_free of a block whose node is not on the list, while not all blocks are free, puts it
-- behind the free ones.
pub memblock_free-IsPool :
    (s : Mmblock) (bs : List ℕ) (block : ℕ)
    → IsPool s bs
    → block ≢ 0
    → block + 8 < 2 ^ 64
    → node_of block ∉ (s.list ∷ nodes bs)
    → s.rest_block < s.total_block
    → IsPool (memblock_free block s) (bs ++ (block ∷ []))
unfolding memblock_free add_block init_blk_hdr
memblock_free-IsPool s bs block h some_block small out room =
    let given : (block == 0) ≡ false = ground arith in
    let right : (s.magic_number == magic_value) ≡ true = ground (arith, h.magic) in
    let less : leb s.total_block s.rest_block ≡ false = ground arith in
    rw (given, right, less)
      (record {
        ring = add_block-IsRing s bs block h.ring out;
        magic = h.magic;
        rest = omega (arith, h.rest, length-append bs (block ∷ []));
        total = omega arith;
        marked = λ c m. ground (arith, h.marked c, has-append c bs (block ∷ []));
        below = λ c m. ground (arith, h.below c, has-append c bs (block ∷ []));
      })

-- memblock_free of NULL, with a wrong magic number, or when all blocks are free, changes nothing.
pub memblock_free_ignored :
    (s : Mmblock) (block : ℕ)
    → (block ≡ 0) ⊎ ((s.magic_number ≢ magic_value) ⊎ (s.total_block ≤ s.rest_block))
    → memblock_free block s ≡ s
unfolding memblock_free
memblock_free_ignored s block why = ground (arith, why)

check_blocks-marked :
    (magic : ℕ → ℕ) (bs : List ℕ) (i : ℕ)
    → ((b : ℕ) → b ∈ bs → magic b ≡ magic_value)
    → ((b : ℕ) → b ∈ bs → b + 8 < 2 ^ 64)
    → check_blocks magic (nodes bs) i ≡ (true, i + length bs)
unfolding check_blocks
check_blocks-marked magic [] i h k = ap (λ n. (true, n)) (omega arith)
check_blocks-marked magic (b ∷ bs) i h k =
    let here : (magic (block_of (node_of b)) == magic_value) ≡ true =
      let e : block_of (node_of b) ≡ b = omega (arith, k b (ground arith)) in
      rw e (ground (arith, h b)) in
    rw here (
      check_blocks-marked magic bs (i + 1) (λ c m. h c (ground arith)) (λ c m. k c (ground arith))
      ∙ ap (λ n. (true, n)) (omega arith))

length-nodes : (bs : List ℕ) → length (nodes bs) ≡ length bs
length-nodes [] = refl
length-nodes (b ∷ bs) = ap suc (length-nodes bs)

-- With more fuel than there are free blocks, the self check passes.
pub memblock_self_check-IsPool :
    (s : Mmblock) (bs : List ℕ) (fuel : ℕ)
    → IsPool s bs
    → length bs < fuel
    → memblock_self_check fuel s ≡ ok success
unfolding memblock_self_check
memblock_self_check-IsPool s bs fuel h enough =
    let right : (s.magic_number == magic_value) ≡ true = ground (arith, h.magic) in
    let few : ltb s.total_block s.rest_block ≡ false = ground (arith, h.total) in
    let counted : (length bs == s.rest_block) ≡ true = ground (arith, h.rest) in
    let count : 0 + length bs ≡ length bs = omega arith in
    rw
      (
        right,
        few,
        list_for_each-IsRing s.heap s.list (nodes bs) fuel h.ring (omega (arith, length-nodes bs)),
        check_blocks-marked s.magic bs 0 h.marked h.below,
        count,
        counted,
      )
      refl
