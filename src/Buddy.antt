-- ===== src/Buddy.antt =====
-- module/mm/buddy/buddy_allocator.c and include/mm/buddy.h: the allocator of page frames. One call
-- runs with no other CPU in between, so the locks of the pools and the pages are not modelled.
pub mod Neighbour
pub mod Invariant
pub mod Merge
pub mod Free
pub mod Split
pub mod Alloc
pub mod Startup
pub mod Boot
pub mod Interface
pub mod Order
pub mod Check
pub mod Sample
mod Tests
use aco_os.Base.{
  ℕ, zero, suc, ◌+◌, ◌-◌, ◌*◌, ◌/◌, ◌%◌, ◌^◌, Bool, true, false, ◌&&◌, ◌||◌, not, Option, none,
  some, List, [], ◌∷◌, ◌++◌, ltb, leb, ◌==◌, if◌then◌else◌, update, remove,
}
use aco_os.Base.Int.{ℤ, pos, negsuc, inc, dec, is_zero}
use aco_os.Base.Run.{Run, ok, panic, out_of_fuel, ◌>>=◌, ◌>>◌, assert}
use aco_os.Pageframe.{
  page_size, word_mod, add_ptr, sub_ptr, Layout, va2id, id2va, va_valid, id_valid, Flags, flag_head,
  flag_head_free, flag_body, PageFrame, is_buddy, eq_head, eq_head_free, eq_body,
}

-- `mempool_alloctor_t`; `block_size` is the 32 bits of an int, `_list` holds the page frames whose buddy_node is linked in, in order.
pub record Pool : Type 0 where
  pub rest_block_num : ℤ
  pub block_size : ℕ
  pub list : List ℕ

-- The page frames and `g_buddy`.
pub record State : Type 0 where
  pub pages : ℕ → PageFrame
  pub pools : ℕ → Pool

-- CONFIG_BUDDYSYSTEM_MAX_ORDER beside the layout of memory.
pub record Config : Type 0 where
  pub layout : Layout
  pub max_order : ℕ

-- ORDER2BYTE
abbrev pub order2byte : ℕ → ℕ
order2byte order = 2 ^ order * page_size % word_mod

abbrev pub set_page : State → ℕ → PageFrame → State
set_page s p f = record s { pages = update s.pages p f }

-- list_del of a frame on the list of this order, and `rest_block_num--`
abbrev pub unlist : State → ℕ → ℕ → State
unlist s order p = record s {
  pools = update s.pools order (record (s.pools order) {
    rest_block_num = dec (s.pools order).rest_block_num;
    list = remove p (s.pools order).list;
  });
}

-- list_add_tail, and `rest_block_num++`
abbrev pub enlist : State → ℕ → ℕ → State
enlist s order p = record s {
  pools = update s.pools order (record (s.pools order) {
    rest_block_num = inc (s.pools order).rest_block_num;
    list = (s.pools order).list ++ (p ∷ []);
  });
}

-- The test on a neighbour in bkp_free.
abbrev pub mergeable : PageFrame → ℕ → Bool
mergeable f order =
    is_buddy f.pgtype
    && ((f.buddy_order == order)
        && (f.buddy_flags.is_head && (not f.buddy_flags.is_body && f.buddy_flags.is_free)))

-- bit i of `rest_pgnum & (1<<i)`; i is below MAX_ORDER, which IsConfig keeps small enough for the shift
abbrev pub bit : ℕ → ℕ → Bool
bit x i = x / 2 ^ i % 2 == 1

pub only_mergeable : State → ℕ → Option ℕ → Option ℕ
only_mergeable s order none = none
only_mergeable s order (some q) = if mergeable (s.pages q) order then some q else none

-- The end of bkp_free: the block goes to the list of its order.
pub put_back : ℕ → ℕ → State → Run State
put_back order p s = do
  let f = s.pages p
  let flags = record f.buddy_flags { is_free = true }
  assert (
      is_buddy f.pgtype
      && (flags.is_free && (flags.is_head && (not flags.is_body && not flags.is_static))))
  ok (enlist (set_page s p (record f { buddy_flags = flags })) order p)

-- A pool that has a block: its first one is taken, with the order asked for. An empty list has no
-- first entry.
pub take_first : ℕ → ℕ → List ℕ → State → Run (ℕ × State)
take_first order order_orig [] s = panic
take_first order order_orig (p ∷ _) s = do
  let t = unlist s order p
  let f = t.pages p
  assert (eq_head_free f.buddy_flags)
  assert (f.buddy_order == order)
  ok (p, set_page t p (record f { buddy_flags = flag_head; buddy_order = order_orig }))

module _ (c : Config) where
  -- The frame at a virtual address, if the address is valid.
  pub frame_at : ℕ → Option ℕ
  frame_at va = if va_valid c.layout va then some (va2id c.layout va) else none

  -- The frames at `pg2va(pgfm) - ORDER2BYTE(order)` and at `pg2va(pgfm) + ORDER2BYTE(order)`.
  pub before : ℕ → ℕ → Option ℕ
  before p order = frame_at (sub_ptr (id2va c.layout p) (order2byte order))

  pub after : ℕ → ℕ → Option ℕ
  after p order = frame_at (add_ptr (id2va c.layout p) (order2byte order))

  -- The free block `q` before `p` takes `p` in.
  pub merge_before : State → ℕ → ℕ → ℕ → State
  merge_before s p q order =
      let s₁ = unlist s order q in
      let s₂ =
        set_page s₁ p
          (record (s₁.pages p) { buddy_order = c.max_order; buddy_flags = flag_body }) in
      set_page s₂ q (record (s₂.pages q) {
        buddy_order = (s₂.pages q).buddy_order + 1;
        buddy_flags = flag_head;
      })

  -- The block `p` takes in the free block `q` after it.
  pub merge_after : State → ℕ → ℕ → ℕ → State
  merge_after s p q order =
      let s₁ = unlist s order q in
      let s₂ = set_page s₁ p (record (s₁.pages p) {
        buddy_order = (s₁.pages p).buddy_order + 1;
        buddy_flags = flag_head;
      }) in
      set_page s₂ q (record (s₂.pages q) { buddy_order = c.max_order; buddy_flags = flag_body })

  -- One round of the loop of bkp_free: the block that results from a merge, if there is one.
  pub absorb : State → ℕ → ℕ → Option (ℕ × State)
  absorb s p order = elim (only_mergeable s order (before p order)) [
    | some q ↦ some (q, merge_before s p q order)
    | none ↦ elim (only_mergeable s order (after p order)) [
      | some q ↦ some (p, merge_after s p q order)
      | none ↦ none
    ]
  ]

  pub merge : ℕ → ℕ → ℕ → State → Run (ℕ × ℕ × State)
  merge zero order p s = out_of_fuel
  merge (suc k) order p s =
      if ltb order (c.max_order - 1)
      then (do
        assert (
            is_buddy (s.pages p).pgtype
            && (((s.pages p).buddy_order == order) && eq_head (s.pages p).buddy_flags))
        elim (absorb s p order) [ some (q, t) ↦ merge k (order + 1) q t | none ↦ ok (order, p, s) ])
      else ok (order, p, s)

  pub bkp_free : ℕ → State → Run State
  bkp_free p s = do
    assert (id_valid c.layout p)
    assert (
        is_buddy (s.pages p).pgtype
        && (eq_head (s.pages p).buddy_flags && ltb (s.pages p).buddy_order c.max_order))
    (order, q, t) ← merge c.max_order (s.pages p).buddy_order p s
    put_back order q t

  -- The loop of bkp_alloc over what is left of the block, from the highest order down: `i` rounds.
  pub give_back : ℕ → ℕ → ℕ → State → Run State
  give_back zero r rest s = ok s
  give_back (suc i) r rest s =
      if rest == 0
      then ok s
      else if bit rest i
      then (do
        assert (eq_body (s.pages r).buddy_flags)
        assert ((s.pages r).buddy_order == c.max_order)
        t ←
            bkp_free r
              (set_page s r (record (s.pages r) { buddy_order = i; buddy_flags = flag_head }))
        give_back i (r + 2 ^ i) (rest - 2 ^ i) t)
      else let go = give_back i r rest s in go

  pub alloc_from : ℕ → ℕ → State → Run (ℕ × State)
  alloc_from order order_orig s = do
    (p, t) ← take_first order order_orig (s.pools order).list s
    u ← give_back c.max_order (p + 2 ^ order_orig) (2 ^ order - 2 ^ order_orig) t
    ok (p, u)

  -- The search of bkp_alloc for a pool with a block, over the orders that are left.
  pub find_block : ℕ → ℕ → ℕ → State → Run (Option ℕ × State)
  find_block zero order order_orig s = ok (none, s)
  find_block (suc k) order order_orig s =
      let next = find_block k (order + 1) order_orig s in
      if is_zero (s.pools order).rest_block_num
      then next
      else (do (p, t) ← alloc_from order order_orig s; ok (some p, t))

  pub bkp_alloc : ℤ → State → Run (Option ℕ × State)
  bkp_alloc (negsuc _) s = ok (none, s)
  bkp_alloc (pos order_orig) s =
      if ltb order_orig c.max_order
      then find_block (c.max_order - order_orig) order_orig order_orig s
      else ok (none, s)
