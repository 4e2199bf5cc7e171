-- ===== src/Sv39/Walk/Unslot.antt =====
-- riscv_unmap at one entry of a table at index 0 or 1.
use aco_os.Base.{
  ℕ, suc, ◌+◌, ◌-◌, ◌*◌, ◌^◌, ◌≤◌, ◌<◌, ◌≡◌, ◌≢◌, inl, inr, true, false, ◌&&◌, ◌==◌, if◌then◌else◌,
  arith, Bool-cases, subst, sym, ◌∙◌,
}
use aco_os.Base.Run.{Returns, returns, Returns-bind}
use aco_os.Sv39.{pte_valid}
use aco_os.Sv39.Pages.{Pages}
use aco_os.Sv39.Walk.{Space, set_pte, index_pages, sub_int, release_table}
use aco_os.Sv39.Walk.Unfill.{Unwalked}
use aco_os.Sv39.Walk.Release.{removed, without, removed-IsTree}
use aco_os.Sv39.Tree.{Shape, IsTree}

invalid_entry : pte_valid 0 ≡ true → ⊥
unfolding pte_valid
invalid_entry v = ground arith

module _ (pages : Pages) where
  open pages use {State, pa2va, Used, IsOk}

  module _ (below : ℕ) (low : below < 2) (h : Shape) (s : Space State) (t i child n count left : ℕ)
      (s₁ : Space State) (tree : IsTree pages h s) (on : h.has t ≡ true)
      (level : h.index t ≡ 1 - below) (small : i < 512)
      (from : h.start t + i * index_pages (1 - below) ≤ n) (has : h.has child ≡ true)
      (index : h.index child ≡ h.index t + 1)
      (start : h.start child ≡ h.start t + i * index_pages (1 - below)) (few : count < 2 ^ 31)
      (w : Unwalked pages below n count h s child
        (h.start t + i * index_pages (1 - below) + index_pages (1 - below))
        left
        s₁) where
    span : ℕ
    span = index_pages (1 - below)

    -- All pages of the entry are done.
    all_done : (count - left ≡ span) → (n ≡ h.start child)
    unfolding span
    all_done e = omega (arith, w.inside, start, from, e)

    t_kept : (w.shape.has t ≡ true) × (w.shape.index t ≡ h.index t) × (w.shape.start t ≡ h.start t)
    t_kept =
        let a = w.upper t on (omega (arith, index)) in
        let b = w.shrunk.keeps t a in (a, sym b.1, sym b.2)

    child_kept :
        (w.shape.has child ≡ true)
        × (w.shape.index child ≡ h.index child)
        × (w.shape.start child ≡ h.start child)
    child_kept =
        let a = w.upper child has (omega arith) in
        let b = w.shrunk.keeps child a in (a, sym b.1, sym b.2)

    start_w : w.shape.start child ≡ w.shape.start t + i * index_pages (w.shape.index t)
    start_w =
        subst (λ k. w.shape.start child ≡ w.shape.start t + i * index_pages k)
          (sym (t_kept.1 ∙ level)) (omega (arith, child_kept, t_kept, start))

    childless :
        count - left ≡ span
        → (u j : ℕ) → w.shape.has u ≡ true
        → w.shape.index u ≡ w.shape.index child + 1
        → j < 512
        → w.shape.start u ≡ w.shape.start child + j * index_pages (w.shape.index child)
        → ⊥
    unfolding span
    childless e u j u_in u_index j_small u_start = elim (Bool-cases (below == 0)) [
      | inl z ↦ absurd (ground (arith, w.tree.low u u_in, u_index, child_kept, index, level, z))
      | inr z ↦
          let one : below ≡ 1 = ground (arith, z, low) in
          let k : w.shape.index child ≡ 1 = omega (arith, child_kept, index, level, one) in
          let u_start' =
            subst (λ k. w.shape.start u ≡ w.shape.start child + j * index_pages k) k u_start in
          let whole : count - left ≡ 262144 =
            subst (λ (b : ℕ). count - left ≡ index_pages (1 - b)) one e in
          w.emptied u (omega (arith, one)) u_in (omega (arith, u_index, k))
            (omega (arith, u_start', all_done e, child_kept))
            (omega (arith, u_start', all_done e, child_kept, whole, j_small))
    ]

    -- A table at index 2 with all its pages in the run.
    whole_leaf :
        (u : ℕ)
        → w.shape.has u ≡ true
        → w.shape.index u ≡ 2
        → n ≤ w.shape.start u
        → w.shape.start u + 512 ≤ n + (count - left)
        → (count - left ≡ span) × (u ≡ child)
    unfolding span
    whole_leaf u u_in two lo hi = elim (Bool-cases (below == 0)) [
      | inr z ↦ absurd (w.emptied u (ground (arith, z)) u_in two lo hi)
      | inl z ↦
          let zero_below : below ≡ 0 = ground (arith, z) in
          let inside =
            subst
              (λ (b : ℕ).
                n + (count - left) ≤ h.start t + i * index_pages (1 - b) + index_pages (1 - b))
              zero_below w.inside in
          let from' = subst (λ (b : ℕ). h.start t + i * index_pages (1 - b) ≤ n) zero_below from in
          let start' =
            subst (λ (b : ℕ). h.start child ≡ h.start t + i * index_pages (1 - b)) zero_below
              start in
          let d : count - left ≡ 512 = omega (arith, inside, from', lo, hi) in
          let same : w.shape.start u ≡ w.shape.start child =
            omega (arith, inside, from', start', child_kept, lo, hi) in
          let k : w.shape.index child ≡ 2 = omega (arith, child_kept, index, level, zero_below) in
          (
            subst (λ (b : ℕ). count - left ≡ index_pages (1 - b)) (sym zero_below) d,
            w.tree.unique u child u_in child_kept.0 (two ∙ sym k) same,
          )
    ]

    released-Unwalked :
        count - left ≡ span
        → (st : State) → IsOk st
        → ((b : ℕ) → Used s₁.state b → b ≢ child → Used st b)
        → Unwalked pages
            (suc below)
            n
            count
            h
            s
            t
            (h.start t + i * index_pages (1 - below) + index_pages (1 - below))
            left
            (record (set_pte t i 0 s₁) { state = st })
    unfolding removed without span
    released-Unwalked e st fine old =
        let t_low : w.shape.index t < 2 = omega (arith, t_kept, level) in
        let tree' =
          removed-IsTree pages w.shape s₁ w.tree t i child t_kept.0 t_low small child_kept.0
            (omega (arith, child_kept, t_kept, index)) start_w (childless e) st fine old in
        record {
          shape = record w.shape { has = λ u. if u == child then false else w.shape.has u };
          tree = tree';
          shrunk = record {
            keeps = λ u u_in. w.shrunk.keeps u (ground arith);
            dirs = λ u j u_in u_low j_small v.
                let away : ((u == t) && (j == i)) ≡ false =
                  elim (Bool-cases ((u == t) && (j == i))) [
                    | inr d ↦ d
                    | inl d ↦ absurd (invalid_entry (ground (arith, v, d)))
                  ] in
                ground (arith, w.shrunk.dirs u j (ground (arith, u_in)) u_low j_small, away, v);
            leaves = λ u j u_in two j_small.
                let other : (u == t) ≡ false = ground (arith, two, t_low) in
                ground (arith, w.shrunk.leaves u j (ground (arith, u_in)) two j_small, other);
            stays = λ u m u_in two lo hi out.
                let there = w.shrunk.stays u m u_in two lo hi out in
                let not_child : (u == child) ≡ false = elim (Bool-cases (u == child)) [
                  | inr d ↦ d
                  | inl d ↦
                      let same : u ≡ child = ground (arith, d) in
                      let k : h.index child ≡ 2 = subst (λ (x : ℕ). h.index x ≡ 2) same two in
                      let k' : 1 - below ≡ 1 = omega (arith, k, index, level) in
                      let d : count - left ≡ 512 = subst (λ k. count - left ≡ index_pages k) k' e in
                      let lo' = subst (λ (x : ℕ). h.start x ≤ m) same lo in
                      let hi' = subst (λ (x : ℕ). m < h.start x + 512) same hi in
                      absurd (ground (arith, out, d, lo', hi', all_done e))
                ] in
                ground (arith, there, not_child);
          };
          fewer = w.fewer;
          inside = w.inside;
          result = w.result;
          upper = λ u u_in u_low.
              let there = w.upper u u_in (omega (arith, u_low, index)) in
              let not_child : (u == child) ≡ false = elim (Bool-cases (u == child)) [
                | inr d ↦ d
                | inl d ↦
                    let same : u ≡ child = ground (arith, d) in
                    absurd
                      (omega (arith, subst (λ (x : ℕ). h.index x ≤ h.index t) same u_low, index))
              ] in
              ground (arith, there, not_child);
          emptied = λ u some u_in two lo hi.
              let whole = whole_leaf u (ground (arith, u_in)) two lo hi in
              ground (arith, whole, u_in);
        }

    pub slot-Unwalked :
        Returns
          (λ s₂.
            Unwalked pages
              (suc below)
              n
              count
              h
              s
              t
              (h.start t + i * index_pages (1 - below) + index_pages (1 - below))
              left
              s₂)
          (release_table pages (1 - below) (sub_int count left) t i child s₁)
    unfolding release_table span
    slot-Unwalked =
        let gone : sub_int count left ≡ count - left = omega (arith, w.fewer, few) in
        rw gone (elim (Bool-cases (count - left == span)) [
          | inr e ↦ rw e (
              returns (record {
                shape = w.shape;
                tree = w.tree;
                shrunk = w.shrunk;
                fewer = w.fewer;
                inside = w.inside;
                result = w.result;
                upper = λ u u_in u_low. w.upper u u_in (omega (arith, u_low, index));
                emptied = λ u some u_in two lo hi. ground (arith, whole_leaf u u_in two lo hi, e);
              }))
          | inl e ↦ rw e (
              Returns-bind
                (pages.free_lem s₁.state child w.tree.state (w.tree.used child child_kept.0))
                λ st (fine, old). returns (released-Unwalked (ground (arith, e)) st fine old))
        ])
