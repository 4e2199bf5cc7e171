-- ===== src/Buddy/Invariant.antt =====
-- What bkp_alloc and bkp_free keep true of the page frames and the pools.
use aco_os.Base.{ℕ, ◌+◌, ◌^◌, ◌≤◌, ◌<◌, ◌≡◌, ◌≢◌, ◌⊎◌, true, false, length, ◌∈◌, Distinct}
use aco_os.Base.Int.{pos}
use aco_os.Pageframe.{is_buddy, eq_head, eq_head_free, eq_body, PageFrame}
use aco_os.Buddy.{State, Config}
use aco_os.Buddy.Neighbour.{count}

-- A frame in the free lists, and the head of a block that is in use.
abbrev pub IsListed : PageFrame → ℕ → Type 0
IsListed f order =
    (is_buddy f.pgtype ≡ true) × (eq_head_free f.buddy_flags ≡ true) × (f.buddy_order ≡ order)

abbrev pub IsHeld : PageFrame → Type 0
IsHeld f = eq_head f.buddy_flags ≡ true

-- A frame inside a block.
abbrev pub IsInner : PageFrame → ℕ → Type 0
IsInner f max_order =
    (is_buddy f.pgtype ≡ true) × (eq_body f.buddy_flags ≡ true) × (f.buddy_order ≡ max_order)

pub record IsBuddy (c : Config) (s : State) : Type 0 where
  -- what is on the list of an order is a free block of that order
  pub listed :
      (i q : ℕ) → i < c.max_order → q ∈ (s.pools i).list → (q < count c) × IsListed (s.pages q) i
  -- and a free block is on the list of its order
  pub listing :
      (q : ℕ)
      → q < count c
      → IsListed (s.pages q) (s.pages q).buddy_order
      → q ∈ (s.pools (s.pages q).buddy_order).list
  pub distinct : (i : ℕ) → i < c.max_order → Distinct (s.pools i).list
  pub counted :
      (i : ℕ) → i < c.max_order → (s.pools i).rest_block_num ≡ pos (length (s.pools i).list)
  -- the head of a block is neither an inner nor a static frame
  pub clean :
      (q : ℕ)
      → q < count c
      → (s.pages q).buddy_flags.is_head ≡ true
      → ((s.pages q).buddy_flags.is_body ≡ false) × ((s.pages q).buddy_flags.is_static ≡ false)
  -- a block lies within memory, and its frames but the first are inner frames
  pub fits :
      (q : ℕ)
      → q < count c
      → (s.pages q).buddy_flags.is_head ≡ true
      → ((s.pages q).buddy_order < c.max_order) × (q + 2 ^ (s.pages q).buddy_order ≤ count c)
  pub inner :
      (q j : ℕ)
      → q < count c
      → (s.pages q).buddy_flags.is_head ≡ true
      → q < j
      → j < q + 2 ^ (s.pages q).buddy_order
      → IsInner (s.pages j) c.max_order

-- No block covers the frame `j`.
abbrev pub Loose : Config → State → ℕ → Type 0
Loose c s j =
    (q : ℕ)
    → q < count c
    → (s.pages q).buddy_flags.is_head ≡ true
    → (j < q) ⊎ (q + 2 ^ (s.pages q).buddy_order ≤ j)

-- From `s` to `t` the uncovered frames and the blocks in use stay, but for the block at `p`.
pub record Keeps (c : Config) (p : ℕ) (s t : State) : Type 0 where
  pub loose : (j : ℕ) → Loose c s j → Loose c t j × (t.pages j ≡ s.pages j)
  pub held : (q : ℕ) → q ≢ p → IsHeld (s.pages q) → t.pages q ≡ s.pages q

-- The frame `j` lies in a block on a free list.
abbrev pub FreeAt : Config → State → ℕ → Type 0
FreeAt c s j = (q i : ℕ) × (i < c.max_order) × (q ∈ (s.pools i).list) × (q ≤ j) × (j < q + 2 ^ i)
