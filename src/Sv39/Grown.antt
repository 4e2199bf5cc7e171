-- ===== src/Sv39/Grown.antt =====
-- What mapping does to the tables: entries for a run of pages, and new tables.
use aco_os.Base.{
  ℕ, ◌+◌, ◌-◌, ◌*◌, ◌≤◌, ◌<◌, ◌≡◌, ◌⊎◌, inl, inr, refl, Bool, true, false, ◌&&◌, ltb, leb,
  if◌then◌else◌, arith, ◌∙◌, Bool-cases,
}
use aco_os.Pageframe.{page_size}
use aco_os.Sv39.{pte_valid, pa2pte}
use aco_os.Sv39.Tree.{Shape}

-- The page `m` is among `d` pages from `n` on.
abbrev pub in_run : ℕ → ℕ → ℕ → Bool
in_run n d m = leb n m && ltb m (n + d)

-- The entries for `d` pages from `n` on are set, to memory from `pa` on; the other entries at index 2
-- stay, or are 0 in new tables, and so do the pointers to tables.
pub record Grown (flags n pa d : ℕ) (h : Shape) (ptes : ℕ → ℕ → ℕ) (h' : Shape) (ptes' : ℕ → ℕ → ℕ)
    : Type 0 where
  pub keeps :
      (t : ℕ)
      → h.has t ≡ true
      → (h'.has t ≡ true) × (h'.index t ≡ h.index t) × (h'.start t ≡ h.start t)
  pub dirs :
      (t i : ℕ)
      → h.has t ≡ true
      → h.index t < 2
      → i < 512
      → pte_valid (ptes t i) ≡ true
      → ptes' t i ≡ ptes t i
  pub leaves :
      (t i : ℕ)
      → h'.has t ≡ true
      → h'.index t ≡ 2
      → i < 512
      → ptes' t i ≡ (
          if in_run n d (h'.start t + i)
          then pa2pte (pa + (h'.start t + i - n) * page_size) flags
          else if h.has t
          then ptes t i
          else 0)
  pub later : (t : ℕ) → h'.has t ≡ true → h.has t ≡ false → h'.index t ≡ 2 → n < h'.start t + 512

-- Nothing is mapped yet.
pub Grown-refl :
    (flags n pa : ℕ) {d : ℕ} (h : Shape) (ptes : ℕ → ℕ → ℕ)
    → d ≡ 0
    → Grown flags n pa d h ptes h ptes
Grown-refl flags n pa h ptes e = record {
  keeps = λ u on. (on, refl, refl);
  dirs = λ u j on low small v. refl;
  leaves = λ u j on two small. ground (arith, on, e);
  later = λ u on new two. ground (arith, on, new);
}

module _ {flags n pa d : ℕ} {h : Shape} {ptes : ℕ → ℕ → ℕ} {h' : Shape} {ptes' : ℕ → ℕ → ℕ}
    (g : Grown flags n pa d h ptes h' ptes') where
  -- Mapping goes on behind the pages that are done; new tables at index 2 are for later pages.
  pub Grown-trans :
      (m pa' e total : ℕ) {h'' : Shape} {ptes'' : ℕ → ℕ → ℕ}
      → m ≡ n + d
      → pa' ≡ pa + d * page_size
      → total ≡ d + e
      → ((t : ℕ)
          → h''.has t ≡ true
          → h'.has t ≡ false
          → h''.index t ≡ 2
          → (d ≡ 0) ⊎ (m ≤ h''.start t))
      → Grown flags m pa' e h' ptes' h'' ptes''
      → Grown flags n pa total h ptes h'' ptes''
  Grown-trans m pa' e total {h''} {ptes''} at at_pa sum fresh k = record {
    keeps = λ t on. let a = g.keeps t on in let b = k.keeps t a.0 in (b.0, b.1 ∙ a.1, b.2 ∙ a.2);
    dirs = λ t i on low small v.
        let a = g.keeps t on in
        let first = g.dirs t i on low small v in ground (arith, a, first, v, k.dirs t i, low);
    leaves = λ t i on two small. elim (Bool-cases (h'.has t)) [
      | inl was ↦ ground (arith, k.leaves t i on two small, k.keeps t was, g.leaves t i was, was)
      | inr new ↦
          let old : h.has t ≡ false = elim (Bool-cases (h.has t)) [
            | inr o ↦ o
            | inl o ↦ absurd (ground (arith, g.keeps t o, new))
          ] in
          ground (arith, k.leaves t i on two small, new, old, fresh t on new two)
    ];
    later = λ t on new two. elim (Bool-cases (h'.has t)) [
      | inl was ↦ ground (arith, g.later t was new, k.keeps t was)
      | inr gone ↦ ground (arith, k.later t on gone two, fresh t on gone two)
    ];
  }
