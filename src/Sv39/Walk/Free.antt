-- ===== src/Sv39/Walk/Free.antt =====
-- riscv_free_pgtable and __arch_hw_unmap_all of arch/riscv/mm/vm.c: the tables below a table go.
use aco_os.Base.{
  ℕ, zero, suc, ◌+◌, ◌*◌, ◌/◌, ◌%◌, ◌^◌, ◌≤◌, ◌<◌, ◌≡◌, inl, inr, refl, true, false, ◌==◌,
  if◌then◌else◌, arith, Bool-cases, subst, sym, ◌∙◌,
}
use aco_os.Base.Run.{Run, Returns, returns, Returns-bind, Returns-mono}
use aco_os.Pageframe.{page_size, val_is_page_aligned}
use aco_os.Sv39.{pte_valid, pte_nextpgt, pte2pa}
use aco_os.Sv39.Pages.{Pages}
use aco_os.Sv39.Walk.{
  Space, set_pte, index_pages, free_leaves, free_slots, riscv_free_pgtable, arch_hw_unmap_all,
}
use aco_os.Sv39.Walk.Slot.{slot_unique}
use aco_os.Sv39.Walk.Fill.{set_leaf-IsTree}
use aco_os.Sv39.Walk.Descend.{pte2pa-aligned}
use aco_os.Sv39.Walk.Release.{removed, without, removed-IsTree}
use aco_os.Sv39.Walk.Found.{IsRoot}
use aco_os.Sv39.Tree.{Shape, Points, IsTree, aligned_at, lookup}

nextpgt_valid : (e : ℕ) → pte_nextpgt e ≡ true → pte_valid e ≡ true
unfolding pte_nextpgt
nextpgt_valid e h = ground arith

module _ (pages : Pages) where
  open pages use {State, pa2va}

  -- No table is below the entry `j` of the table `t`.
  abbrev pub Childless : Shape → ℕ → ℕ → Type 0
  Childless h t j =
      (u : ℕ)
      → h.has u ≡ true
      → h.index u ≡ h.index t + 1
      → h.start u ≡ h.start t + j * index_pages (h.index t)
      → ⊥

  -- The first `done` entries of the table `t` have no table any more.
  pub record Emptied (done : ℕ) (h : Shape) (t : ℕ) (s' : Space State) : Type 0 where
    pub shape : Shape
    pub tree : IsTree pages shape s'
    pub keeps : (u : ℕ) → shape.has u ≡ true → h.has u ≡ true
    pub same : (u : ℕ) → (shape.index u ≡ h.index u) × (shape.start u ≡ h.start u)
    pub upper : (u : ℕ) → h.has u ≡ true → h.index u ≤ h.index t → shape.has u ≡ true
    pub childless : (j : ℕ) → j < done → Childless shape t j

  abbrev pub Frees : ℕ → (ℕ → Space State → Run (Space State)) → Type 0
  Frees below next =
      (h : Shape) (s : Space State) (t : ℕ)
      → IsTree pages h s
      → h.has t ≡ true
      → h.index t + below ≡ 2
      → Returns (Emptied 512 h t) (next t s)

  free_leaves-IsTree :
      (rounds i : ℕ) (h : Shape) (s : Space State) (t : ℕ)
      → h.has t ≡ true
      → h.index t ≡ 2
      → IsTree pages h s
      → IsTree pages h (free_leaves pages rounds i t s)
  unfolding free_leaves
  free_leaves-IsTree zero i h s t on two tree = tree
  free_leaves-IsTree (suc rounds) i h s t on two tree = elim (Bool-cases (pte_valid (s.ptes t i))) [
    | inl v ↦ rw v (
        free_leaves-IsTree rounds (i + 1) h (set_pte t i 0 s) t on two
          (set_leaf-IsTree pages h t on two i 0 s tree))
    | inr v ↦ rw v (free_leaves-IsTree rounds (i + 1) h s t on two tree)
  ]

  module _ (h : Shape) (s : Space State) (t : ℕ) (tree : IsTree pages h s) (on : h.has t ≡ true)
      (high : h.index t < 2) where
    -- An entry that is not valid has no table.
    invalid-Childless : (i : ℕ) → i < 512 → pte_valid (s.ptes t i) ≡ false → Childless h t i
    invalid-Childless i small v u u_in level at =
        let (p, j, p_in, p_index, j_small, p_v, p_start) =
          tree.parent u u_in (omega (arith, level)) in
        let same : h.index p ≡ h.index t = omega (arith, p_index, level) in
        let at' : h.start p + j * index_pages (h.index t)
            ≡ h.start t + i * index_pages (h.index t) =
          subst (λ k. h.start p + j * index_pages k ≡ h.start t + i * index_pages (h.index t)) same
            (sym p_start ∙ at) in
        let (starts, slots) =
          slot_unique (h.index t) (h.start p) (h.start t) j i high
            (aligned_at pages tree p (h.index t) p_in same) (tree.aligned t on) j_small small at' in
        let pt : p ≡ t = tree.unique p t p_in on same starts in ground (arith, p_v, v, pt, slots)

    -- A table that has lost its tables is given back.
    child-Emptied :
        (i child : ℕ) (s₁ : Space State)
        → i < 512
        → h.has child ≡ true
        → h.index child ≡ h.index t + 1
        → h.start child ≡ h.start t + i * index_pages (h.index t)
        → ((j : ℕ) → j < i → Childless h t j)
        → Emptied 512 h child s₁
        → Returns
            (λ st. Emptied (i + 1) h t (record (set_pte t i 0 s₁) { state = st }))
            (pages.free child s₁.state)
    unfolding removed without
    child-Emptied i child s₁ small has index start before w =
        let t_in = w.upper t on (omega (arith, index)) in
        let c_in = w.upper child has (omega arith) in
        let t_same = w.same t in
        let c_same = w.same child in
        let start' : w.shape.start child ≡ w.shape.start t + i * index_pages (w.shape.index t) =
          subst (λ k. w.shape.start child ≡ w.shape.start t + i * index_pages k) (sym t_same.0)
            (omega (arith, t_same, c_same, start)) in
        Returns-mono (pages.free_lem s₁.state child w.tree.state (w.tree.used child c_in))
          λ st (fine, old). record {
            shape = record w.shape { has = λ u. if u == child then false else w.shape.has u };
            tree =
                removed-IsTree pages w.shape s₁ w.tree t i child t_in (omega (arith, t_same, high))
                  small c_in (omega (arith, t_same, c_same, index)) start'
                  (λ u j u_in level j_small at. w.childless j j_small u u_in level at) st fine old;
            keeps = λ u u_in. w.keeps u (ground arith);
            same = w.same;
            upper = λ u u_in low.
                let differ : (u == child) ≡ false = elim (Bool-cases (u == child)) [
                  | inr d ↦ d
                  | inl d ↦
                      let e : u ≡ child = ground (arith, d) in
                      absurd (omega (arith, subst (λ (x : ℕ). h.index x ≤ h.index t) e low, index))
                ] in
                ground (arith, w.upper u u_in (omega (arith, low, index)), differ);
            childless = λ j j_small u u_in level at.
                let u_was : w.shape.has u ≡ true = ground (arith, u_in) in
                let u_same = w.same u in
                let level_h : h.index u ≡ h.index t + 1 = omega (arith, u_same, t_same, level) in
                let at_w =
                  subst (λ k. w.shape.start u ≡ w.shape.start t + j * index_pages k) t_same.0 at in
                let at_h : h.start u ≡ h.start t + j * index_pages (h.index t) =
                  omega (arith, u_same, t_same, at_w) in
                elim (Bool-cases (j == i)) [
                  | inr d ↦ before j (ground (arith, d, j_small)) u (w.keeps u u_was) level_h at_h
                  | inl d ↦
                      let ji : j ≡ i = ground (arith, d) in
                      let at_i : h.start u ≡ h.start t + i * index_pages (h.index t) =
                        subst (λ (x : ℕ). h.start u ≡ h.start t + x * index_pages (h.index t)) ji
                          at_h in
                      let e : u ≡ child =
                        w.tree.unique u child u_was c_in
                          (omega (arith, u_same, c_same, level_h, index))
                          (omega (arith, u_same, c_same, at_i, start)) in
                      ground (arith, u_in, e)
                ];
          }

  Emptied-trans :
      {d : ℕ} {h : Shape} {t : ℕ} {s₁ s₂ : Space State} (e : Emptied d h t s₁)
      → Emptied 512 e.shape t s₂
      → Emptied 512 h t s₂
  Emptied-trans {h = h} {t = t} e r = record {
    shape = r.shape;
    tree = r.tree;
    keeps = λ u u_in. e.keeps u (r.keeps u u_in);
    same = λ u. let a = e.same u in let b = r.same u in (b.0 ∙ a.0, b.1 ∙ a.1);
    upper = λ u u_in low. r.upper u (e.upper u u_in low) (omega (arith, e.same u, e.same t, low));
    childless = r.childless;
  }

  module _ (below : ℕ) (low : below < 2) (next : ℕ → Space State → Run (Space State))
      (frees : Frees below next) where
    free_slots-Emptied :
        (rounds i : ℕ) (h : Shape) (s : Space State) (t : ℕ)
        → IsTree pages h s
        → h.has t ≡ true
        → h.index t + suc below ≡ 2
        → rounds + i ≡ 512
        → ((j : ℕ) → j < i → Childless h t j)
        → Returns (Emptied 512 h t) (free_slots pages next rounds i t s)
    unfolding free_slots val_is_page_aligned
    free_slots-Emptied zero i h s t tree on level total before = returns (record {
      shape = h;
      tree = tree;
      keeps = λ u u_in. u_in;
      same = λ u. (refl, refl);
      upper = λ u u_in below_t. u_in;
      childless = λ j j_small. before j (omega arith);
    })
    free_slots-Emptied (suc rounds) i h s t tree on level total before =
        let small : i < 512 = omega arith in
        let high : h.index t < 2 = omega arith in
        elim (Bool-cases (pte_nextpgt (s.ptes t i))) [
          | inl v ↦
              let p : Points pages h t i (s.ptes t i) =
                tree.points t i on high small (nextpgt_valid (s.ptes t i) v) in
              let child = pa2va (pte2pa (s.ptes t i)) in
              let (pos, al, pal, fits_pa, back) =
                pages.place s.state child tree.state (tree.used child p.has) in
              let pa_al : (pte2pa (s.ptes t i) % page_size == 0) ≡ true =
                pte2pa-aligned (s.ptes t i) in
              let va_al : (child % page_size == 0) ≡ true = ground (arith, al) in
              rw (v, pa_al, va_al)
                (Returns-bind (frees h s child tree p.has (omega (arith, p.index, level))) λ s₁ w.
                  Returns-bind
                    (child-Emptied h s t tree on high i child s₁ small p.has p.index p.start before
                      w)
                    λ st e.
                      let there = e.upper t on (omega arith) in
                      let same = e.same t in
                      Returns-mono
                        (free_slots-Emptied rounds (i + 1) e.shape
                          (record (set_pte t i 0 s₁) { state = st }) t e.tree there
                          (omega (arith, same, level)) (omega arith) e.childless)
                        λ s' r. Emptied-trans e r)
          | inr v ↦
              let invalid : pte_valid (s.ptes t i) ≡ false =
                elim (Bool-cases (pte_valid (s.ptes t i))) [
                  | inr d ↦ d
                  | inl d ↦ absurd (ground (arith, (tree.points t i on high small d).next, v))
                ] in
              rw (v, invalid)
                (free_slots-Emptied rounds (i + 1) h s t tree on level (omega arith) (λ j j_small.
                  elim (Bool-cases (j == i)) [
                    | inr d ↦ before j (ground (arith, d, j_small))
                    | inl d ↦
                        let ji : i ≡ j = ground (arith, d) in
                        subst (λ (x : ℕ). Childless h t x) ji
                          (invalid-Childless h s t tree on high i small invalid)
                  ]))
        ]

  riscv_free_pgtable-Frees : (below : ℕ) → below ≤ 2 → Frees below (riscv_free_pgtable pages below)
  unfolding riscv_free_pgtable
  riscv_free_pgtable-Frees zero low h s t tree on level =
      let two : h.index t ≡ 2 = omega (arith, level) in
      returns (record {
        shape = h;
        tree = free_leaves-IsTree 512 0 h s t on two tree;
        keeps = λ u u_in. u_in;
        same = λ u. (refl, refl);
        upper = λ u u_in below_t. u_in;
        childless = λ j j_small u u_in deep at. absurd (omega (arith, tree.low u u_in, deep, two));
      })
  riscv_free_pgtable-Frees (suc below) low h s t tree on level =
      free_slots-Emptied below (omega arith) (riscv_free_pgtable pages below)
        (riscv_free_pgtable-Frees below (omega arith)) 512 0 h s t tree on level refl
        (λ j j_small. absurd (omega arith))

  -- On tables that form a tree, __arch_hw_unmap_all fails no ASSERT, and a walk then finds no entry
  -- for any page below 2^27; the root has a tree again, with no table below it.
  pub arch_hw_unmap_all-Finds :
      {h : Shape} {s : Space State} {root : ℕ}
      → IsRoot pages h s root
      → Returns
          (λ s'.
            ((h' : Shape) × IsRoot pages h' s' root × ((j : ℕ) → j < 512 → Childless h' root j))
            × ((m : ℕ) → m < 2 ^ 27 → lookup pages s'.ptes root m ≡ 0))
          (arch_hw_unmap_all pages root s)
  unfolding arch_hw_unmap_all lookup
  arch_hw_unmap_all-Finds {h} {s} {root} r =
      let pos = (pages.place s.state root r.tree.state (r.tree.used root r.has)).0 in
      let some_root : (root == 0) ≡ false = ground (arith, pos) in
      rw some_root (
        Returns-mono
          (riscv_free_pgtable-Frees 2 (omega arith) h s root r.tree r.has (omega (arith, r.index)))
          λ s' e.
            let same = e.same root in
            (
              (
                e.shape,
                record {
                  tree = e.tree;
                  has = e.upper root r.has (omega arith);
                  index = same.0 ∙ r.index;
                  start = same.1 ∙ r.start;
                },
                e.childless,
              ),
              λ m small.
                  let j = m / 262144 % 512 in
                  let j_small : j < 512 = omega arith in
                  elim (Bool-cases (pte_valid (s'.ptes root j))) [
                    | inr v ↦ rw v refl
                    | inl v ↦
                        let there = e.upper root r.has (omega arith) in
                        let p =
                          e.tree.points root j there (omega (arith, same, r.index)) j_small v in
                        absurd (
                          e.childless j j_small (pa2va (pte2pa (s'.ptes root j))) p.has p.index
                            p.start)
                  ],
            ))
