-- ===== src/Sv39/Walk/Release.antt =====
-- riscv_unmap gives a table back whose pages are all unmapped.
use aco_os.Base.{
  ℕ, ◌+◌, ◌*◌, ◌<◌, ◌≡◌, ◌≢◌, inl, inr, true, false, ◌&&◌, ◌==◌, if◌then◌else◌, arith, Bool-cases,
  subst, sym, ◌∙◌,
}
use aco_os.Sv39.{pte_valid, pte2pa}
use aco_os.Sv39.Pages.{Pages}
use aco_os.Sv39.Walk.{Space, set_pte, index_pages}
use aco_os.Sv39.Walk.Slot.{slot_unique}
use aco_os.Sv39.Tree.{Shape, Points, IsTree, aligned_at}

module _ (pages : Pages) where
  open pages use {State, pa2va, Used, IsOk}

  module _ (h : Shape) (s : Space State) (tree : IsTree pages h s) (t i child : ℕ)
      (on : h.has t ≡ true) (high : h.index t < 2) (small : i < 512) (has : h.has child ≡ true)
      (index : h.index child ≡ h.index t + 1)
      (start : h.start child ≡ h.start t + i * index_pages (h.index t))
      (childless : (u j : ℕ)
        → h.has u ≡ true
        → h.index u ≡ h.index child + 1
        → j < 512
        → h.start u ≡ h.start child + j * index_pages (h.index child)
        → ⊥)
      (st : State) (fine : IsOk st) (old : (b : ℕ) → Used s.state b → b ≢ child → Used st b) where
    unfoldable pub removed : Shape
    removed = record h { has = λ u. if u == child then false else h.has u }

    unfoldable pub without : Space State
    without = record (set_pte t i 0 s) { state = st }

    -- No other entry points to the table.
    others :
        (u j : ℕ)
        → h.has u ≡ true
        → h.index u + 1 ≡ h.index child
        → j < 512
        → h.start child ≡ h.start u + j * index_pages (h.index u)
        → (u ≡ t) × (j ≡ i)
    others u j on' level j_small at =
        let same : h.index u ≡ h.index t = omega (arith, level, index) in
        let at' : h.start u + j * index_pages (h.index t)
            ≡ h.start t + i * index_pages (h.index t) =
          subst (λ k. h.start u + j * index_pages k ≡ h.start t + i * index_pages (h.index t)) same
            (sym at ∙ start) in
        let (starts, slots) =
          slot_unique (h.index t) (h.start u) (h.start t) j i high
            (aligned_at pages tree u (h.index t) on' same) (tree.aligned t on) j_small small at' in
        (tree.unique u t on' on same starts, slots)

    removed-Points :
        (u j : ℕ)
        → removed.has u ≡ true
        → removed.index u < 2
        → j < 512
        → pte_valid (without.ptes u j) ≡ true
        → Points pages removed u j (without.ptes u j)
    unfolding removed without pte_valid
    removed-Points u j in_tree low j_small v =
        let was : h.has u ≡ true = ground arith in
        elim (Bool-cases ((u == t) && (j == i))) [
          | inl e ↦ absurd (ground (arith, v, e))
          | inr e ↦
              let entry : without.ptes u j ≡ s.ptes u j = ground (arith, e) in
              let p =
                tree.points u j was low j_small (subst (λ (x : ℕ). pte_valid x ≡ true) entry v) in
              let c = pa2va (pte2pa (s.ptes u j)) in
              let differ : (c == child) ≡ false = elim (Bool-cases (c == child)) [
                | inr d ↦ d
                | inl d ↦
                    let same : c ≡ child = ground (arith, d) in
                    let level : h.index u + 1 ≡ h.index child =
                      subst (λ (x : ℕ). h.index u + 1 ≡ h.index x) same (sym p.index) in
                    let at : h.start child ≡ h.start u + j * index_pages (h.index u) =
                      subst (λ (x : ℕ). h.start x ≡ h.start u + j * index_pages (h.index u)) same
                        p.start in
                    absurd (ground (arith, others u j was level j_small at, e))
              ] in
              rw entry (record {
                next = p.next;
                has = ground (arith, p.has, differ);
                index = p.index;
                start = p.start;
              })
        ]

    pub removed-IsTree : IsTree pages removed without
    unfolding removed without
    removed-IsTree = record {
      state = fine;
      used = λ u in_tree. old u (tree.used u (ground arith)) (λ e. ground (arith, in_tree, e));
      low = λ u in_tree. tree.low u (ground arith);
      aligned = λ u in_tree. tree.aligned u (ground arith);
      points = removed-Points;
      parent = λ u in_tree some.
          let was : h.has u ≡ true = ground (arith, in_tree) in
          let not_child : (u == child) ≡ false = ground (arith, in_tree) in
          let (p, j, p_in, p_index, j_small, v, p_start) = tree.parent u was some in
          let differ : (p == child) ≡ false = elim (Bool-cases (p == child)) [
            | inr d ↦ d
            | inl d ↦
                let same : p ≡ child = ground (arith, d) in
                let level : h.index u ≡ h.index child + 1 =
                  subst (λ (x : ℕ). h.index u ≡ h.index x + 1) same (sym p_index) in
                let at : h.start u ≡ h.start child + j * index_pages (h.index child) =
                  subst (λ (x : ℕ). h.start u ≡ h.start x + j * index_pages (h.index x)) same
                    p_start in
                absurd (childless u j was level j_small at)
          ] in
          let away : ((p == t) && (j == i)) ≡ false = elim (Bool-cases ((p == t) && (j == i))) [
            | inr d ↦ d
            | inl d ↦
                let pt : p ≡ t = ground (arith, d) in
                let ji : j ≡ i = ground (arith, d) in
                let at : h.start u ≡ h.start t + i * index_pages (h.index t) =
                  subst (λ (x : ℕ). h.start u ≡ h.start t + x * index_pages (h.index t)) ji
                    (subst (λ (x : ℕ). h.start u ≡ h.start x + j * index_pages (h.index x)) pt
                      p_start) in
                let level : h.index u ≡ h.index t + 1 =
                  subst (λ (x : ℕ). h.index u ≡ h.index x + 1) pt (sym p_index) in
                absurd (
                  ground (
                    arith,
                    tree.unique u child was has (level ∙ sym index) (at ∙ sym start),
                    not_child,
                  ))
          ] in
          (p, j, ground (arith, p_in, differ), p_index, j_small, ground (arith, away, v), p_start);
      unique = λ u w u_in w_in. tree.unique u w (ground arith) (ground arith);
    }
