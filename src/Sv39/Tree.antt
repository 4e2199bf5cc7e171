-- ===== src/Sv39/Tree.antt =====
-- The tables of Sv39 form a tree: what a walk through them finds.
pub mod Lookup
use aco_os.Base.{
  ℕ, zero, suc, ◌+◌, ◌-◌, ◌*◌, ◌/◌, ◌%◌, ◌^◌, ◌≤◌, ◌<◌, ◌≡◌, Bool, true, false, ◌==◌, if◌then◌else◌,
  arith, subst, sym, ◌∙◌,
}
use aco_os.Sv39.{pte_valid, pte_nextpgt, pte2pa}
use aco_os.Sv39.Pages.{Pages}
use aco_os.Sv39.Walk.{Space, index_pages}

-- The tables, their indices, and the number of the first page that each is for.
pub record Shape : Type 0 where
  pub has : ℕ → Bool
  pub index : ℕ → ℕ
  pub start : ℕ → ℕ

-- The pages that a table is for.
abbrev pub table_pages : ℕ → ℕ
table_pages zero = 134217728
table_pages (suc zero) = 262144
table_pages (suc (suc _)) = 512

-- The pages that an entry of a table is for, with `below` levels below.
abbrev pub slot_pages : ℕ → ℕ
slot_pages zero = 1
slot_pages (suc zero) = 512
slot_pages (suc (suc _)) = 262144

module _ (pages : Pages) where
  open pages use {State, pa2va, IsOk, Used}

  -- The entry `e` at place `i` of the table `t` points to a table of the tree.
  pub record Points (h : Shape) (t i e : ℕ) : Type 0 where
    pub next : pte_nextpgt e ≡ true
    pub has : h.has (pa2va (pte2pa e)) ≡ true
    pub index : h.index (pa2va (pte2pa e)) ≡ h.index t + 1
    pub start : h.start (pa2va (pte2pa e)) ≡ h.start t + i * index_pages (h.index t)

  pub record IsTree (h : Shape) (s : Space State) : Type 0 where
    pub state : IsOk s.state
    pub used : (t : ℕ) → h.has t ≡ true → Used s.state t
    pub low : (t : ℕ) → h.has t ≡ true → h.index t ≤ 2
    pub aligned : (t : ℕ) → h.has t ≡ true → h.start t % table_pages (h.index t) ≡ 0
    pub points :
        (t i : ℕ)
        → h.has t ≡ true
        → h.index t < 2
        → i < 512
        → pte_valid (s.ptes t i) ≡ true
        → Points h t i (s.ptes t i)
    -- each table but the root is pointed to
    pub parent :
        (t : ℕ)
        → h.has t ≡ true
        → 0 < h.index t
        → (p i : ℕ) × (h.has p ≡ true)
          × (h.index p + 1 ≡ h.index t)
          × (i < 512)
          × (pte_valid (s.ptes p i) ≡ true)
          × (h.start t ≡ h.start p + i * index_pages (h.index p))
    pub unique :
        (t u : ℕ)
        → h.has t ≡ true
        → h.has u ≡ true
        → h.index t ≡ h.index u
        → h.start t ≡ h.start u
        → t ≡ u

  -- The table at index 2 that the walk for the page `m` ends at, 0 if it ends before.
  abbrev pub reach : ℕ → (ℕ → ℕ → ℕ) → ℕ → ℕ → ℕ
  reach zero ptes t m = t
  reach (suc below) ptes t m =
      let e = ptes t (m / slot_pages (suc below) % 512) in
      let rest = reach below ptes (pa2va (pte2pa e)) m in if pte_valid e then rest else 0

  -- The entry for the page `m`, 0 if there is none.
  unfoldable pub lookup : (ℕ → ℕ → ℕ) → ℕ → ℕ → ℕ
  lookup ptes root m = let t = reach 2 ptes root m in if t == 0 then 0 else ptes t (m % 512)

  module _ {h : Shape} {s : Space State} (tree : IsTree h s) where
    pub aligned_at : (t k : ℕ) → h.has t ≡ true → h.index t ≡ k → h.start t % table_pages k ≡ 0
    aligned_at t k on e = subst (λ x. h.start t % table_pages x ≡ 0) e (tree.aligned t on)

    -- A page has one place in the tables at index 2.
    pub leaf_unique :
        (t u i j : ℕ)
        → h.has t ≡ true
        → h.has u ≡ true
        → h.index t ≡ 2
        → h.index u ≡ 2
        → i < 512
        → j < 512
        → h.start t + i ≡ h.start u + j
        → (t ≡ u) × (i ≡ j)
    leaf_unique t u i j on on' two two' small small' e =
        let a = aligned_at t 2 on two in
        let b = aligned_at u 2 on' two' in
        (tree.unique t u on on' (two ∙ sym two') (omega (arith, a, b)), omega (arith, a, b))
