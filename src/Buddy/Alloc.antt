-- ===== src/Buddy/Alloc.antt =====
-- bkp_alloc: a block of the order asked for, split off the first block that is large enough.
use native.Mathlib.Nat.{le_refl}
use native.Mathlib.Decide.{dec_lt}
use aco_os.Base.{
  ℕ, zero, suc, ◌+◌, ◌-◌, ◌^◌, ◌≤◌, ◌<◌, ◌≡◌, ◌≢◌, ◌⊎◌, inl, inr, refl, true, false, Option, none,
  some, List, [], ◌∷◌, ltb, ◌==◌, has-remove, has-remove_ne, Distinct-remove, length-remove, ◌∈◌,
  Bool-cases, List-cases, length-zero, arith,
}
use aco_os.Base.Int.{ℤ, pos, negsuc, is_zero}
use aco_os.Base.Run.{ok, Returns, returns, Returns-bind}
use aco_os.Pageframe.{eq_head_free, flag_head}
use aco_os.Buddy.{State, Config, set_page, unlist, take_first, alloc_from, find_block, bkp_alloc}
use aco_os.Buddy.Neighbour.{count, IsConfig, pow-pos, pow_mono}
use aco_os.Buddy.Invariant.{IsListed, IsHeld, IsBuddy, FreeAt}
use aco_os.Buddy.Free.{InUse}
use aco_os.Buddy.Split.{Spare, GivenBack, give_back-GivenBack}

-- A block of order `o` that was free is handed out, the blocks in use stay as they are, and every
-- other free frame stays free.
pub record Allocated (c : Config) (s : State) (o p : ℕ) (t : State) : Type 0 where
  pub inv : IsBuddy c t
  pub block : InUse c t p o
  pub was_free : eq_head_free (s.pages p).buddy_flags ≡ true
  pub held : (q : ℕ) → q < count c → IsHeld (s.pages q) → t.pages q ≡ s.pages q
  pub conserved : (j : ℕ) → FreeAt c s j → FreeAt c t j ⊎ ((p ≤ j) × (j < p + 2 ^ o))

-- `none` is given only where every list from the order asked for on is empty.
abbrev pub Result : Config → State → ℕ → Option ℕ × State → Type 0
Result c s o (some p, t) = Allocated c s o p t
Result c s o (none, t) = (t ≡ s) × ((i : ℕ) → o ≤ i → i < c.max_order → (s.pools i).list ≡ [])

-- The first block of a list is taken, and cut down to the order asked for.
module _ {c : Config} {s : State} (k o p : ℕ) (inv : IsBuddy c s) (small : k < c.max_order)
    (lower : o ≤ k) (mem : p ∈ (s.pools k).list) where
  open inv use {listed, listing, distinct, counted, clean, fits, inner}

  free : (p < count c) × IsListed (s.pages p) k
  free = listed k p small mem

  taken : State
  taken =
      set_page (unlist s k p) p (record (s.pages p) { buddy_flags = flag_head; buddy_order = o })

  taken-IsBuddy : IsBuddy c taken
  unfolding taken
  taken-IsBuddy =
      let m = pow_mono o k lower in
      record {
        listed = λ i r h q. ground (
          arith,
          free,
          listed i r,
          has-remove p r (s.pools k).list,
          Distinct-remove p (s.pools k).list,
          distinct k,
        );
        listing = λ r h q. ground (arith, free, listing r, has-remove_ne p r (s.pools k).list);
        distinct = λ i h. ground (arith, distinct i, Distinct-remove p (s.pools k).list);
        counted = λ i h. ground (arith, counted i, length-remove p (s.pools k).list);
        clean = λ r h head. ground (arith, clean r);
        fits = λ r h head. ground (arith, fits r, free);
        inner = λ r j h head lo hi. ground (arith, inner r j, inner r p, free);
      }

  taken-InUse : InUse c taken p o
  unfolding taken
  taken-InUse = record {
    in_range = ground (arith, free);
    kind = ground (arith, free);
    in_use = ground arith;
    order = ground arith;
  }

  taken-Spare : Spare c taken (p + 2 ^ o) (p + 2 ^ k)
  unfolding taken
  taken-Spare j lo hi = (
    λ q h head. ground (arith, inner q p, inner p q, inner q j, free, pow-pos o),
    ground (arith, inner p j, free, pow-pos o),
  )

  taken-held : (q : ℕ) → IsHeld (s.pages q) → taken.pages q ≡ s.pages q
  unfolding taken
  taken-held q h = ground (arith, free)

  taken-free : (j : ℕ) → FreeAt c s j → FreeAt c taken j ⊎ ((p ≤ j) × (j < p + 2 ^ k))
  unfolding taken
  taken-free j (r, i, h, m, lo, hi) = elim (Bool-cases (p == r)) [
    | inl same ↦
        let same_order : i ≡ k = ground (arith, listed i r, free) in
        inr (ground (arith, same_order))
    | inr differ ↦
        let still : r ∈ (taken.pools i).list = ground (arith, has-remove_ne p r (s.pools k).list) in
        inl (r, i, h, still, lo, hi)
  ]

  take_first-ok : (r : List ℕ) → take_first k o (p ∷ r) s ≡ ok (p, taken)
  unfolding take_first taken
  take_first-ok r = ground (arith, free)

  handed_out : (u : State) → GivenBack c (p + 2 ^ o) (p + 2 ^ k) taken u → Allocated c s o p u
  handed_out u back =
      let b = taken-InUse in
      let same : u.pages p ≡ taken.pages p = back.held p b.in_range b.in_use in
      record {
        inv = back.inv;
        block = record {
          in_range = b.in_range;
          kind = ground (arith, same, b.kind);
          in_use = ground (arith, same, b.in_use);
          order = ground (arith, same, b.order);
        };
        was_free = free.1.1;
        held = λ q h held. ground (arith, back.held q, taken-held q);
        conserved = λ j f. elim (taken-free j f) [
          | inl still ↦ inl (back.free j still)
          | inr (lo, hi) ↦ elim (dec_lt j (p + 2 ^ o)) [
            | yes h ↦ inr (lo, h)
            | no h ↦ inl (back.home j (omega arith) hi)
          ]
        ];
      }

module _ {c : Config} (wf : IsConfig c) (s : State) (inv : IsBuddy c s) where
  alloc_from-Allocated :
      (k o : ℕ)
      → k < c.max_order
      → o ≤ k
      → (s.pools k).list ≢ []
      → Returns (λ (p, t). Allocated c s o p t) (alloc_from c k o s)
  unfolding alloc_from taken
  alloc_from-Allocated k o small lower some_block = elim (List-cases (s.pools k).list) [
    | inl e ↦ absurd (some_block e)
    | inr (p, r, e) ↦
        let mem : p ∈ (s.pools k).list = ground (arith, e) in
        let m = pow_mono o k lower in
        let room : p + 2 ^ k ≤ count c = ground (arith, inv.fits p, inv.listed k p) in
        rw (e, take_first-ok k o p inv small lower mem r)
          (Returns-bind
            (give_back-GivenBack wf o c.max_order k (p + 2 ^ o) (2 ^ k - 2 ^ o) (p + 2 ^ k)
              (taken k o p inv small lower mem) (taken-IsBuddy k o p inv small lower mem) lower
              (omega arith) (inl (omega arith)) (le_refl c.max_order) (omega arith) room
              (taken-Spare k o p inv small lower mem))
            λ u back. returns (handed_out k o p inv small lower mem u back))
  ]

  find_block-Result :
      (rounds k o : ℕ)
      → rounds + k ≡ c.max_order
      → o ≤ k
      → ((i : ℕ) → o ≤ i → i < k → (s.pools i).list ≡ [])
      → Returns (Result c s o) (find_block c rounds k o s)
  unfolding find_block
  find_block-Result zero k o e lower empty = returns (refl, λ i h g. empty i h (omega arith))
  find_block-Result (suc rounds) k o e lower empty =
      let small : k < c.max_order = omega arith in
      elim (Bool-cases (is_zero (s.pools k).rest_block_num)) [
        | inl none_here ↦
            let nothing : (s.pools k).list ≡ [] =
              ground (arith, inv.counted k, length-zero (s.pools k).list) in
            rw none_here (
              find_block-Result rounds (k + 1) o (omega arith) (omega arith)
                λ i h g. ground (arith, empty i, nothing))
        | inr some_here ↦
            let something : (s.pools k).list ≢ [] = λ q. ground (arith, inv.counted k) in
            rw some_here (
              Returns-bind (alloc_from-Allocated k o small lower something)
                λ (p, t) done. returns done)
      ]

-- On well-formed frames and pools, bkp_alloc of an order below MAX_ORDER fails no ASSERT. It hands out
-- a block of that order that was free, keeps the frame of every block in use and every other free frame
-- free, and leaves frames and pools well formed; or it gives NULL and changes nothing, and then no list
-- from that order on has a block.
pub bkp_alloc-Result :
    {c : Config} (s : State) (o : ℕ)
    → IsConfig c
    → IsBuddy c s
    → o < c.max_order
    → Returns (Result c s o) (bkp_alloc c (pos o) s)
unfolding bkp_alloc
bkp_alloc-Result {c} s o wf inv small =
    let t : ltb o c.max_order ≡ true = ground arith in
    rw t (
      find_block-Result wf s inv (c.max_order - o) o o (omega arith) (le_refl o)
        λ i h g. absurd (omega arith))

-- For any other order, negative or too large, bkp_alloc gives NULL and changes nothing.
pub bkp_alloc_out_of_range :
    (c : Config) (s : State) (order : ℤ)
    → ((o : ℕ) → order ≡ pos o → c.max_order ≤ o)
    → bkp_alloc c order s ≡ ok (none, s)
unfolding bkp_alloc
bkp_alloc_out_of_range c s (negsuc n) h = refl
bkp_alloc_out_of_range c s (pos o) h =
    let large : ltb o c.max_order ≡ false = let g = h o refl in ground arith in rw large
