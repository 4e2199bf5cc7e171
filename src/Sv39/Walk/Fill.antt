-- ===== src/Sv39/Walk/Fill.antt =====
-- vm_walkthrough at index 2: entries in one table.
use aco_os.Base.{
  ℕ, zero, suc, ◌+◌, ◌-◌, ◌*◌, ◌^◌, ◌≤◌, ◌<◌, ◌≡◌, ◌⊎◌, inl, inr, refl, true, false, ◌==◌, arith,
  Bool-cases, subst, sym,
}
use aco_os.Base.Errno.{Errno, success, enomem}
use aco_os.Base.Run.{Returns, returns, Returns-mono}
use aco_os.Pageframe.{page_size, add_ptr}
use aco_os.Sv39.{pte_valid, pa2pte}
use aco_os.Sv39.Pages.{Pages}
use aco_os.Sv39.Walk.{Space, set_pte, sub_int, fill}
use aco_os.Sv39.Tree.{Shape, Points, IsTree, leaf_unique, reach}
use aco_os.Sv39.Grown.{in_run, Grown, Grown-refl, Grown-trans}

module _ (pages : Pages) where
  open pages use {State}

  -- None of `count` pages from `n` on is mapped.
  abbrev pub Unmapped : Shape → (ℕ → ℕ → ℕ) → ℕ → ℕ → Type 0
  Unmapped h ptes n count =
      (t i : ℕ)
      → h.has t ≡ true
      → h.index t ≡ 2
      → i < 512
      → in_run n count (h.start t + i) ≡ true
      → pte_valid (ptes t i) ≡ false

  -- What a walk from the page `n` on does below the table `t`, which is for the pages up to `limit`:
  -- `left` of the `count` pages are not done.
  pub record Walked (below flags n pa count : ℕ) (h : Shape) (s : Space State) (t limit : ℕ)
      (ret : Errno) (left : ℕ) (s' : Space State) : Type 0 where
    pub shape : Shape
    pub tree : IsTree pages shape s'
    pub grown : Grown flags n pa (count - left) h s.ptes shape s'.ptes
    pub fewer : left ≤ count
    pub reached : (m : ℕ) → n ≤ m → m < n + (count - left) → 0 < reach pages below s'.ptes t m
    pub inside : n + (count - left) ≤ limit
    pub result : ((ret ≡ success) × ((left ≡ 0) ⊎ (n + (count - left) ≡ limit))) ⊎ (ret ≡ enomem)

  module _ (h : Shape) (t : ℕ) (on : h.has t ≡ true) (two : h.index t ≡ 2) where
    pub set_leaf-IsTree :
        (i e : ℕ) (s : Space State) → IsTree pages h s → IsTree pages h (set_pte t i e s)
    set_leaf-IsTree i e s tree = record {
      state = tree.state;
      used = tree.used;
      low = tree.low;
      aligned = tree.aligned;
      points = λ u j on' low small v.
          let other : (u == t) ≡ false = ground (arith, two, low) in
          let same : (set_pte t i e s).ptes u j ≡ s.ptes u j = rw other refl in
          subst (λ (x : ℕ). Points pages h u j x) (sym same)
            (tree.points u j on' low small (ground (arith, v, other)));
      parent = λ u on' some.
          let (p, j, in_tree, index, small, v, start) = tree.parent u on' some in
          let other : (p == t) ≡ false = ground (arith, two, index, tree.low u on') in
          (p, j, in_tree, index, small, ground (arith, v, other), start);
      unique = tree.unique;
    }

    set_leaf-Grown :
        (i flags n pa : ℕ) (s : Space State)
        → IsTree pages h s
        → i < 512
        → n ≡ h.start t + i
        → Grown flags n pa 1 h s.ptes h (set_pte t i (pa2pte pa flags) s).ptes
    set_leaf-Grown i flags n pa s tree small at = record {
      keeps = λ u on'. (on', refl, refl);
      dirs = λ u j on' low j_small v. ground (arith, two, low);
      leaves = λ u j on' two' j_small. elim (Bool-cases (u == t)) [
        | inl e ↦ let same : u ≡ t = ground arith in rw same (ground (arith, on, at))
        | inr e ↦ elim (Bool-cases (in_run n 1 (h.start u + j))) [
          | inl r ↦ absurd (
              ground
                (arith, leaf_unique pages tree u t j i on' on two' two j_small small, r, at, e))
          | inr r ↦ ground (arith, e, r, on')
        ]
      ];
      later = λ u on' new two'. ground (arith, on', new);
    }

    -- No table is added.
    record Filled (flags n pa count : ℕ) (s : Space State) (ret : Errno) (left : ℕ)
        (s' : Space State) : Type 0 where
      tree : IsTree pages h s'
      grown : Grown flags n pa (count - left) h s.ptes h s'.ptes
      fewer : left ≤ count
      inside : n + (count - left) ≤ h.start t + 512
      result : (ret ≡ success) × ((left ≡ 0) ⊎ (n + (count - left) ≡ h.start t + 512))

    fill-Filled :
        (rounds i flags n pa count : ℕ) (s : Space State)
        → IsTree pages h s
        → rounds + i ≡ 512
        → n ≡ h.start t + i
        → 0 < count
        → count < 2 ^ 31
        → pa + count * page_size < 2 ^ 64
        → Unmapped h s.ptes n count
        → Returns
            (λ (ret, left, s'). Filled flags n pa count s ret left s')
            (fill pages rounds i t pa flags count s)
    unfolding fill
    fill-Filled zero i flags n pa count s tree rounds at some few fits free = returns (record {
      tree = tree;
      grown = Grown-refl flags n pa h s.ptes (omega arith);
      fewer = omega arith;
      inside = omega arith;
      result = (refl, inr (omega arith));
    })
    fill-Filled (suc rounds) i flags n pa count s tree round at some few fits free =
        let small : i < 512 = omega arith in
        let invalid = free t i on two small (ground (arith, at)) in
        let s' = set_pte t i (pa2pte pa flags) s in
        let tree' = set_leaf-IsTree i (pa2pte pa flags) s tree in
        let grown = set_leaf-Grown i flags n pa s tree small at in
        let less : sub_int count 1 ≡ count - 1 = omega arith in
        let next_pa : add_ptr pa page_size ≡ pa + page_size = omega arith in
        rw (invalid, less, next_pa)
          (elim (Bool-cases (count - 1 == 0)) [
            | inl e ↦ rw e (
                returns (record {
                  tree = tree';
                  grown =
                      subst (λ d. Grown flags n pa d h s.ptes h s'.ptes) (ground (arith, e)) grown;
                  fewer = omega arith;
                  inside = omega arith;
                  result = (refl, inl (ground (arith, e)));
                }))
            | inr e ↦ rw e (
                Returns-mono
                  (fill-Filled rounds (i + 1) flags (n + 1) (pa + page_size) (count - 1) s' tree'
                    (omega arith) (omega arith) (ground (arith, e)) (omega arith) (omega arith)
                    (λ u j on' two' j_small r. ground (
                      arith,
                      grown.leaves u j on' two' j_small,
                      free u j on' two' j_small,
                      on',
                      r,
                      some,
                    )))
                  λ (ret, left, s₂) w. record {
                    tree = w.tree;
                    grown =
                        Grown-trans grown (n + 1) (pa + page_size) (count - 1 - left) (count - left)
                          refl (omega arith) (ground (arith, w.fewer, some, e))
                          (λ u new old. ground (arith, new, old)) w.grown;
                    fewer = omega (arith, w.fewer);
                    inside = omega (arith, w.inside, w.fewer);
                    result = (
                      w.result.0,
                      elim w.result.1 [
                        | inl z ↦ inl z
                        | inr z ↦ inr (omega (arith, z, w.fewer, some))
                      ],
                    );
                  })
          ])

    pub fill-Walked :
        (i flags n pa count : ℕ) (s : Space State)
        → IsTree pages h s
        → i ≤ 512
        → n ≡ h.start t + i
        → 0 < count
        → count < 2 ^ 31
        → pa + count * page_size < 2 ^ 64
        → Unmapped h s.ptes n count
        → Returns
            (λ (ret, left, s'). Walked 0 flags n pa count h s t (h.start t + 512) ret left s')
            (fill pages (512 - i) i t pa flags count s)
    fill-Walked i flags n pa count s tree small at some few fits free =
        Returns-mono
          (fill-Filled (512 - i) i flags n pa count s tree (omega arith) at some few fits free)
          λ (ret, left, s') w. record {
            shape = h;
            tree = w.tree;
            grown = w.grown;
            fewer = w.fewer;
            reached = λ m lo hi. (pages.place s.state t tree.state (tree.used t on)).0;
            inside = w.inside;
            result = inl w.result;
          }
