-- ===== src/Buddy/Merge.antt =====
-- One merge of bkp_free: two neighbouring blocks of one order become one of the next.
use native.Mathlib.Nat.{pow-suc}
use aco_os.Base.{
  ℕ, ◌+◌, ◌^◌, ◌≤◌, ◌<◌, ◌≡◌, ◌≢◌, ◌⊎◌, inl, inr, true, false, ◌==◌, length, has-remove,
  has-remove_ne, Distinct-remove, length-remove, ◌∈◌, Distinct, Bool-cases, arith,
}
use aco_os.Base.Int.{pos}
use aco_os.Pageframe.{is_buddy, flag_head, flag_body}
use aco_os.Buddy.{State, Config, unlist}
use aco_os.Buddy.Neighbour.{count, pow-pos}
use aco_os.Buddy.Invariant.{IsListed, IsHeld, IsInner, IsBuddy, Loose, Keeps, FreeAt}

-- The blocks at `a` and `b`, of order `k` and side by side; one of them, `q`, is free, and the other
-- one, `p`, is in use.
pub record Pair (c : Config) (s : State) (k a b p q : ℕ) : Type 0 where
  pub a_in : a < count c
  pub b_in : b < count c
  pub next_to : b ≡ a + 2 ^ k
  pub room : k + 1 < c.max_order
  pub roles : ((p ≡ a) × (q ≡ b)) ⊎ ((p ≡ b) × (q ≡ a))
  pub type_p : is_buddy (s.pages p).pgtype ≡ true
  pub held_p : IsHeld (s.pages p)
  pub order_p : (s.pages p).buddy_order ≡ k
  pub free_q : IsListed (s.pages q) k

-- What the merge writes.
pub record Joined (c : Config) (s t : State) (k a b q : ℕ) : Type 0 where
  pub at_a : t.pages a ≡ record (s.pages a) { buddy_order = k + 1; buddy_flags = flag_head }
  pub at_b : t.pages b ≡ record (s.pages b) { buddy_order = c.max_order; buddy_flags = flag_body }
  pub other : (j : ℕ) → j ≢ a → j ≢ b → t.pages j ≡ s.pages j
  pub pools : (i : ℕ) → t.pools i ≡ (unlist s k q).pools i

module _ {c : Config} {s t : State} {k a b p q : ℕ} (inv : IsBuddy c s) (m : Pair c s k a b p q)
    (w : Joined c s t k a b q) where
  open m use {a_in, b_in, next_to, room, roles, type_p, held_p, order_p, free_q}
  open w use {at_a, at_b, other, pools}
  open inv use {listed, listing, distinct, counted, clean, fits, inner}

  Joined-IsListed :
      (i r : ℕ) → i < c.max_order → r ∈ (t.pools i).list → (r < count c) × IsListed (t.pages r) i
  Joined-IsListed i r h mem = ground (
    arith,
    pools i,
    listed i r,
    has-remove q r (s.pools k).list,
    Distinct-remove q (s.pools k).list,
    distinct k,
    other r,
  )

  Joined-listing :
      (r : ℕ)
      → r < count c
      → IsListed (t.pages r) (t.pages r).buddy_order
      → r ∈ (t.pools (t.pages r).buddy_order).list
  Joined-listing r h free =
      ground (
        arith,
        pools (t.pages r).buddy_order,
        listing r,
        has-remove_ne q r (s.pools k).list,
        other r,
      )

  Joined-Distinct : (i : ℕ) → i < c.max_order → Distinct (t.pools i).list
  Joined-Distinct i h = ground (arith, pools i, distinct i, Distinct-remove q (s.pools k).list)

  Joined-counted :
      (i : ℕ) → i < c.max_order → (t.pools i).rest_block_num ≡ pos (length (t.pools i).list)
  Joined-counted i h =
      ground (arith, pools i, counted i, listing q, length-remove q (s.pools k).list)

  Joined-clean :
      (r : ℕ)
      → r < count c
      → (t.pages r).buddy_flags.is_head ≡ true
      → ((t.pages r).buddy_flags.is_body ≡ false) × ((t.pages r).buddy_flags.is_static ≡ false)
  Joined-clean r h head = ground (arith, clean r, other r)

  Joined-fits :
      (r : ℕ)
      → r < count c
      → (t.pages r).buddy_flags.is_head ≡ true
      → ((t.pages r).buddy_order < c.max_order) × (r + 2 ^ (t.pages r).buddy_order ≤ count c)
  Joined-fits r h head = ground (arith, fits r, fits b, other r, pow-suc 2 k)

  Joined-IsInner :
      (r j : ℕ)
      → r < count c
      → (t.pages r).buddy_flags.is_head ≡ true
      → r < j
      → j < r + 2 ^ (t.pages r).buddy_order
      → IsInner (t.pages j) c.max_order
  Joined-IsInner r j h head lo hi = ground (
    arith,
    inner r j,
    inner a j,
    inner b j,
    inner r a,
    inner r b,
    other r,
    other j,
    pow-suc 2 k,
    pow-pos k,
  )

  Joined-Loose : (j : ℕ) → Loose c s j → Loose c t j × (t.pages j ≡ s.pages j)
  Joined-Loose j free = (
    λ r h head. ground (arith, free r, free a, free b, other r, pow-suc 2 k),
    ground (arith, free a, free b, other j, pow-pos k),
  )

  Joined-held : (r : ℕ) → r ≢ p → IsHeld (s.pages r) → t.pages r ≡ s.pages r
  Joined-held r ne held = ground (arith, other r)

  -- A frame that was free still is, or lies in the merged block.
  pub Joined-free : (j : ℕ) → FreeAt c s j → FreeAt c t j ⊎ ((a ≤ j) × (j < a + 2 ^ (k + 1)))
  Joined-free j (r, i, h, mem, lo, hi) = elim (Bool-cases (q == r)) [
    | inl same ↦
        let same_order : i ≡ k = ground (arith, listed i r) in
        inr (ground (arith, same_order, pow-suc 2 k))
    | inr differ ↦
        let still : r ∈ (t.pools i).list =
          ground (arith, pools i, has-remove_ne q r (s.pools k).list) in
        inl (r, i, h, still, lo, hi)
  ]

  pub Joined-IsBuddy : IsBuddy c t
  Joined-IsBuddy = record {
    listed = Joined-IsListed;
    listing = Joined-listing;
    distinct = Joined-Distinct;
    counted = Joined-counted;
    clean = Joined-clean;
    fits = Joined-fits;
    inner = Joined-IsInner;
  }

  pub Joined-Keeps : Keeps c p s t
  Joined-Keeps = record { loose = Joined-Loose; held = Joined-held }
