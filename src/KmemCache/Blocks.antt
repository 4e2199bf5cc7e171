-- ===== src/KmemCache/Blocks.antt =====
-- The pages of the slabs of a cache: where they lie, and that no address is in two of them.
use native.Mathlib.Decide.{dec_lt}
use aco_os.Base.{
  ℕ, ◌+◌, ◌*◌, ◌^◌, ◌≤◌, ◌<◌, ◌≡◌, ◌⊎◌, inl, inr, true, false, ◌&&◌, ◌==◌, ltb, arith, List,
  Bool-cases,
}
use aco_os.Pageframe.{page_size, id2va, add_ptr}
use aco_os.Pageframe.Address.{id2va_lem}
use aco_os.Buddy.{State, Config}
use aco_os.Buddy.Neighbour.{IsConfig, count, pow_mono, pow-pos}
use aco_os.Buddy.Invariant.{IsBuddy, IsHeld}
use aco_os.KmemCache.{Cache, Memory, block_bytes}
use aco_os.KmemCache.Invariant.{lists, IsCache}
use aco_os.Slab.FreeList.{object, mul_int-object}

-- Two heads of blocks in use of the same order are at least a block apart.
pub held-apart :
    {c : Config} {s : State} (o p q : ℕ)
    → IsBuddy c s
    → (p < count c) × IsHeld (s.pages p) × ((s.pages p).buddy_order ≡ o)
    → (q < count c) × IsHeld (s.pages q) × ((s.pages q).buddy_order ≡ o)
    → (p == q) ≡ false
    → (p + 2 ^ o ≤ q) ⊎ (q + 2 ^ o ≤ p)
held-apart {c} {s} o p q inv a b differ = elim (dec_lt p q) [
  | yes lo ↦ elim (dec_lt q (p + 2 ^ o)) [
    | yes hi ↦ absurd (ground (arith, inv.inner p q))
    | no hi ↦ inl (omega arith)
  ]
  | no lo ↦ elim (dec_lt p (q + 2 ^ o)) [
    | yes hi ↦ absurd (ground (arith, inv.inner q p))
    | no hi ↦ inr (omega arith)
  ]
]

-- Blocks are smaller than 2^31 bytes.
module _ {c : Config} (wf : IsConfig c) (few : c.max_order ≤ 19) where
  pub block_bytes_lem :
      (o : ℕ) → o < c.max_order → (block_bytes o ≡ 2 ^ o * page_size) × (2 ^ o * page_size < 2 ^ 31)
  block_bytes_lem o small =
      let room : 2 ^ o ≤ 2 ^ 18 = pow_mono o 18 (omega arith) in (omega arith, omega arith)

  pub block-bounds :
      (o p : ℕ)
      → o < c.max_order
      → p + 2 ^ o ≤ count c
      → (id2va c.layout p ≡ c.layout.va_start + p * page_size)
        × (add_ptr (id2va c.layout p) (block_bytes o)
            ≡ c.layout.va_start + p * page_size + 2 ^ o * page_size)
        × (c.layout.va_start + p * page_size + 2 ^ o * page_size < 2 ^ 64)
        × (0 < c.layout.va_start)
  block-bounds o p small fits =
      let va = id2va_lem wf.layout p (omega (arith, pow-pos o)) in
      let (bytes, _) = block_bytes_lem o small in
      rw (va, bytes)
        (
          omega arith,
          omega (arith, wf.above),
          omega (arith, wf.above),
          omega (arith, wf.below, pow-pos c.max_order),
        )

  -- The test of kmem_obj_free finds the object `i` of the slab at `p` in the pages of `p` only.
  module _ {k : Cache} {m : Memory} {free_of : ℕ → List ℕ} (h : IsCache c k m free_of) (p i : ℕ)
      (on : lists k p ≡ true) (small : i < (m.slabs p).obj_all) where
    abbrev address : ℕ
    address = object (m.slabs p) i

    pub in_pages :
        (q : ℕ)
        → lists k q ≡ true
        → (ltb (id2va c.layout q) address
            && ltb address (add_ptr (id2va c.layout q) (block_bytes k.pg_order)))
          ≡ (p == q)
    in_pages q l =
        let a = h.holds p on in
        let b = h.holds q l in
        let e = (mul_int-object i a.slab small).1 in
        let pa = a.place in
        let fits = h.buddy.fits p a.in_range (ground (arith, a.in_use)) in
        let fits' = h.buddy.fits q b.in_range (ground (arith, b.in_use)) in
        let (start, _, _, _) = block-bounds k.pg_order p h.order_small (rw (← a.order) fits.1) in
        let (start', end', _, _) =
          block-bounds k.pg_order q h.order_small (rw (← b.order) fits'.1) in
        let above = pa.above in
        let below = pa.below in
        let pos_size = a.slab.size_pos in
        elim (Bool-cases (p == q)) [
          | inl same ↦ ground (arith, e, above, below, start, start', end', pos_size)
          | inr differ ↦
              let apart =
                held-apart k.pg_order p q h.buddy (a.in_range, a.in_use, a.order)
                  (b.in_range, b.in_use, b.order) differ in
              ground (arith, e, above, below, start, start', end', pos_size, apart)
        ]
