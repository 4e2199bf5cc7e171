-- ===== src/Sv39/Walk/Found.antt =====
-- What mapping and unmapping change in what a walk finds.
use aco_os.Base.{
  ℕ, ◌+◌, ◌-◌, ◌*◌, ◌%◌, ◌^◌, ◌≤◌, ◌<◌, ◌≡◌, inl, inr, refl, true, false, ◌==◌, if◌then◌else◌,
  arith, ◌∙◌, Bool-cases, subst, sym, ap,
}
use aco_os.Pageframe.{page_size}
use aco_os.Sv39.{pte_valid, pa2pte}
use aco_os.Sv39.Pages.{Pages}
use aco_os.Sv39.Walk.{Space}
use aco_os.Sv39.Tree.{Shape, IsTree, table_pages, reach, lookup, aligned_at}
use aco_os.Sv39.Tree.Lookup.{reach-covered, reach-has}
use aco_os.Sv39.Grown.{in_run, Grown}
use aco_os.Sv39.Shrunk.{Shrunk}
use aco_os.Sv39.Walk.Fill.{Unmapped}
use aco_os.Sv39.Walk.Stays.{reach-Grown}
use aco_os.Sv39.Walk.Unfill.{Covered}

-- The tables of a tree with this root, which is for all pages below 2^27.
pub record IsRoot (pages : Pages) (h : Shape) (s : Space pages.State) (root : ℕ) : Type 0 where
  pub tree : IsTree pages h s
  pub has : h.has root ≡ true
  pub index : h.index root ≡ 0
  pub start : h.start root ≡ 0

lookup-none :
    (pages : Pages) (ptes : ℕ → ℕ → ℕ) (root m : ℕ)
    → reach pages 2 ptes root m ≡ 0
    → lookup pages ptes root m ≡ 0
unfolding lookup
lookup-none pages ptes root m e = rw e refl

module _ (pages : Pages) {h : Shape} {s : Space pages.State} {root : ℕ}
    (r : IsRoot pages h s root) where
  in_root :
      (m : ℕ) → m < 2 ^ 27 → (h.start root ≤ m) × (m < h.start root + table_pages (h.index root))
  in_root m small =
      let total : table_pages (h.index root) ≡ 2 ^ 27 = ap table_pages r.index in
      (omega (arith, r.start), omega (arith, r.start, total, small))

  -- The table at index 2 of a page.
  pub found :
      (m u : ℕ)
      → m < 2 ^ 27
      → h.has u ≡ true
      → h.index u ≡ 2
      → (h.start u ≤ m) × (m < h.start u + 512)
      → reach pages 2 s.ptes root m ≡ u
  found m u small u_in two range =
      reach-covered pages r.tree 2 root u m (omega arith) r.has (omega (arith, r.index))
        (in_root m small) u_in two range

  pub holds :
      (m : ℕ)
      → m < 2 ^ 27
      → 0 < reach pages 2 s.ptes root m
      → (u : ℕ) × (reach pages 2 s.ptes root m ≡ u)
        × (h.has u ≡ true)
        × (h.index u ≡ 2)
        × (h.start u ≤ m)
        × (m < h.start u + 512)
        × (h.start u + m % 512 ≡ m)
  holds m small far =
      let range = in_root m small in
      reach-has pages r.tree 2 root m (omega arith) r.has (omega (arith, r.index)) range.0 range.1
        far

  lookup-at :
      (m u : ℕ)
      → h.has u ≡ true
      → reach pages 2 s.ptes root m ≡ u
      → lookup pages s.ptes root m ≡ s.ptes u (m % 512)
  unfolding lookup
  lookup-at m u u_in e =
      let pos = (pages.place s.state u r.tree.state (r.tree.used u u_in)).0 in
      let some_table : (u == 0) ≡ false = ground (arith, pos) in rw (e, some_table) refl

  -- Where a walk finds no valid entry, no table has one.
  pub lookup-Unmapped :
      (n count : ℕ)
      → n + count ≤ 2 ^ 27
      → ((m : ℕ) → n ≤ m → m < n + count → pte_valid (lookup pages s.ptes root m) ≡ false)
      → Unmapped pages h s.ptes n count
  lookup-Unmapped n count fits free u i u_in two small run =
      let m : ℕ = h.start u + i in
      let at = found m u (ground (arith, run, fits)) u_in two (omega arith, omega (arith, small)) in
      let slot : m % 512 ≡ i = omega (arith, aligned_at pages r.tree u 2 u_in two, small) in
      let entry : lookup pages s.ptes root m ≡ s.ptes u i =
        lookup-at m u u_in at ∙ ap (λ (j : ℕ). s.ptes u j) slot in
      subst (λ (x : ℕ). pte_valid x ≡ false) entry
        (free m (ground (arith, run)) (ground (arith, run)))

  -- Pages at which a walk ends have tables.
  pub reach-Covered :
      (n count : ℕ)
      → n + count ≤ 2 ^ 27
      → ((m : ℕ) → n ≤ m → m < n + count → 0 < reach pages 2 s.ptes root m)
      → Covered pages h n count
  reach-Covered n count fits far m lo hi =
      let (u, e, u_in, two, u_lo, u_hi, slot) = holds m (omega (arith, hi, fits)) (far m lo hi) in
      (u, u_in, two, u_lo, u_hi)

  pub valid-reach :
      (m : ℕ) → pte_valid (lookup pages s.ptes root m) ≡ true → 0 < reach pages 2 s.ptes root m
  unfolding lookup pte_valid
  valid-reach m v = ground arith

module _ (pages : Pages) {h : Shape} {s : Space pages.State} {h' : Shape} {s' : Space pages.State}
    {root : ℕ} (r : IsRoot pages h s root) (r' : IsRoot pages h' s' root) where
  -- Unmapping clears the entries of the run, and no other.
  pub lookup-Shrunk :
      (n d m : ℕ)
      → m < 2 ^ 27
      → Shrunk n d h s.ptes h' s'.ptes
      → lookup pages s'.ptes root m ≡ (if in_run n d m then 0 else lookup pages s.ptes root m)
  lookup-Shrunk n d m small g = elim (Bool-cases (reach pages 2 s'.ptes root m == 0)) [
    | inl z ↦
        let gone = lookup-none pages s'.ptes root m (ground (arith, z)) in
        elim (Bool-cases (in_run n d m)) [
          | inl i ↦ rw i gone
          | inr o ↦ elim (Bool-cases (reach pages 2 s.ptes root m == 0)) [
            | inl y ↦ rw o (gone ∙ sym (lookup-none pages s.ptes root m (ground (arith, y))))
            | inr y ↦
                let (u, e, u_in, two, lo, hi, slot) = holds pages r m small (ground (arith, y)) in
                let there = g.stays u m u_in two lo hi o in
                let k = g.keeps u there in
                let e' =
                  found pages r' m u small there (sym k.1 ∙ two)
                    (omega (arith, k.2, lo), omega (arith, k.2, hi)) in
                let pos = (pages.place s.state u r.tree.state (r.tree.used u u_in)).0 in
                absurd (ground (arith, e', z, pos))
          ]
        ]
    | inr z ↦
        let (u, e, u_in, two, lo, hi, slot) = holds pages r' m small (ground (arith, z)) in
        let k = g.keeps u u_in in
        let before =
          found pages r m u small k.0 (k.1 ∙ two)
            (omega (arith, k.2, lo), omega (arith, k.2, hi)) in
        let entry = g.leaves u (m % 512) u_in two (omega arith) in
        let new = lookup-at pages r' m u u_in e in
        let old = lookup-at pages r m u k.0 before in ground (arith, new, old, entry, slot)
  ]

  -- Mapping sets the entries of the run, and no other.
  pub lookup-Grown :
      (flags n pa d m : ℕ)
      → m < 2 ^ 27
      → Grown flags n pa d h s.ptes h' s'.ptes
      → (in_run n d m ≡ true → 0 < reach pages 2 s'.ptes root m)
      → lookup pages s'.ptes root m ≡ (
          if in_run n d m
          then pa2pte (pa + (m - n) * page_size) flags
          else lookup pages s.ptes root m)
  lookup-Grown flags n pa d m small g reached =
      elim (Bool-cases (reach pages 2 s'.ptes root m == 0)) [
        | inl z ↦
            let gone = lookup-none pages s'.ptes root m (ground (arith, z)) in
            elim (Bool-cases (in_run n d m)) [
              | inl i ↦ absurd (ground (arith, reached i, z))
              | inr o ↦ elim (Bool-cases (reach pages 2 s.ptes root m == 0)) [
                | inl y ↦ rw o (gone ∙ sym (lookup-none pages s.ptes root m (ground (arith, y))))
                | inr y ↦
                    let same =
                      reach-Grown pages g 2 root m r.tree refl r.has (omega (arith, r.index))
                        (ground (arith, y)) in
                    absurd (ground (arith, same, z, y))
              ]
            ]
        | inr z ↦
            let (u, e, u_in, two, lo, hi, slot) = holds pages r' m small (ground (arith, z)) in
            let entry = g.leaves u (m % 512) u_in two (omega arith) in
            let new = lookup-at pages r' m u u_in e in
            elim (Bool-cases (h.has u)) [
              | inl was ↦
                  let k = g.keeps u was in
                  let before =
                    found pages r m u small was (sym k.1 ∙ two)
                      (omega (arith, k.2, lo), omega (arith, k.2, hi)) in
                  let old = lookup-at pages r m u was before in
                  ground (arith, new, old, entry, slot, was)
              | inr fresh ↦ elim (Bool-cases (reach pages 2 s.ptes root m == 0)) [
                | inl y ↦
                    let old = lookup-none pages s.ptes root m (ground (arith, y)) in
                    ground (arith, new, old, entry, slot, fresh)
                | inr y ↦
                    let same =
                      reach-Grown pages g 2 root m r.tree refl r.has (omega (arith, r.index))
                        (ground (arith, y)) in
                    let (w, e_w, w_in, two_w, lo_w, hi_w, slot_w) =
                      holds pages r m small (ground (arith, y)) in
                    absurd (ground (arith, same, e, e_w, w_in, fresh))
              ]
            ]
      ]
