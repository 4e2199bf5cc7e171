-- ===== src/Vma/Hang.antt =====
-- vma_area_hang and vma_area_unhang keep the areas of a vma apart and in order, on the list and in
-- the tree.
use aco_os.Base.{
  ℕ, ◌+◌, ◌≤◌, ◌≡◌, refl, false, List, [], ◌∷◌, ◌++◌, ◌==◌, leb, ◌∈◌, ◌∉◌, Distinct, has-append,
  arith, Bool-cases, inl, inr, ap, some, ◌∙◌, subst, sym,
}
use aco_os.Base.Errno.{success}
use aco_os.Avl.{Avl, All, Compared, less, greater, last}
use aco_os.Vma.{Area, Vma, area_end, insert_compare_vmarea, link_in, vma_area_hang}
use aco_os.Vma.Order.{
  IsArea, Behind, Behind-mono, Sorted, Sorted-Distinct, IsVma, overlaps, front, rear, front-rear,
}

last-mem : (z : ℕ) (zs : List ℕ) → (p : ℕ) × (last (z ∷ zs) ≡ some p) × (p ∈ (z ∷ zs))
last-mem z [] = (z, refl, ground arith)
last-mem z (w ∷ ws) = let (p, e, m) = last-mem w ws in (p, e, ground (arith, m))

-- An area that follows the last of `before` follows all of `before`.
link_in-last :
    (x : ℕ) (before after : List ℕ)
    → Distinct (before ++ after)
    → link_in (last before) x (before ++ after) ≡ before ++ (x ∷ after)
link_in-last x [] after d = refl
link_in-last x (y ∷ []) after d = ground arith
link_in-last x (y ∷ z ∷ zs) after d =
    let (p, e, m) = last-mem z zs in
    let rest = link_in-last x (z ∷ zs) after d.1 in
    let differ : (p == y) ≡ false = ground (arith, has-append y (z ∷ zs) after, m) in
    ground (arith, rest, e, differ)

module _ (areas : ℕ → Area) (x : ℕ) (good : IsArea (areas x)) where
  abbrev pub at : ℕ
  at = (areas x).va

  abbrev pub end : ℕ
  end = (areas x).va + (areas x).size

  abbrev pub compared : ℕ → Compared
  compared y = insert_compare_vmarea (areas x) (areas y)

  pub front-greater : (ys : List ℕ) → All compared greater (front areas at ys)
  unfolding insert_compare_vmarea
  front-greater [] = tt
  front-greater (y ∷ ys) = ground (arith, front-greater ys)

  -- Areas that begin behind the new one.
  pub Behind-less : (ys : List ℕ) → Sorted areas ys → Behind areas end ys → All compared less ys
  unfolding insert_compare_vmarea
  Behind-less [] s b = tt
  Behind-less (y ∷ ys) s b = (ground (arith, s.0), Behind-less ys s.2 b.1)

  pub rear-Sorted : (ys : List ℕ) → Sorted areas ys → Sorted areas (rear areas at ys)
  rear-Sorted [] s = tt
  rear-Sorted (y ∷ ys) s = elim (Bool-cases (leb (area_end (areas y)) at)) [
    | inl e ↦ rw e (rear-Sorted ys s.2)
    | inr e ↦ rw e s
  ]

  rear-Behind :
      (ys : List ℕ)
      → Sorted areas ys
      → overlaps areas x ys ≡ false
      → Behind areas end (rear areas at ys)
  rear-Behind [] s o = tt
  rear-Behind (y ∷ ys) s o = elim (Bool-cases (leb (area_end (areas y)) at)) [
    | inl e ↦ rw e (rear-Behind ys s.2 (ground arith))
    | inr e ↦
        let here : end ≤ (areas y).va = ground arith in
        rw e
          (here, Behind-mono areas ((areas y).va + (areas y).size) end ys (omega (arith, s.0)) s.1)
  ]

  Behind-insert :
      (e : ℕ) (ys : List ℕ)
      → e ≤ at
      → Behind areas e ys
      → Behind areas e (front areas at ys ++ (x ∷ rear areas at ys))
  Behind-insert e [] h b = (h, tt)
  Behind-insert e (y ∷ ys) h b = elim (Bool-cases (leb (area_end (areas y)) at)) [
    | inl t ↦ rw t (b.0, Behind-insert e ys h b.1)
    | inr t ↦ rw t (h, b)
  ]

  insert-Sorted :
      (ys : List ℕ)
      → Sorted areas ys
      → overlaps areas x ys ≡ false
      → Sorted areas (front areas at ys ++ (x ∷ rear areas at ys))
  insert-Sorted [] s o = (good, tt, tt)
  insert-Sorted (y ∷ ys) s o = elim (Bool-cases (leb (area_end (areas y)) at)) [
    | inl e ↦ rw e (
      s.0,
      Behind-insert ((areas y).va + (areas y).size) ys (ground (arith, s.0)) s.1,
      insert-Sorted ys s.2 (ground arith),
    )
    | inr e ↦
        let b : Behind areas end (rear areas at (y ∷ ys)) = rear-Behind (y ∷ ys) s o in
        let b' : Behind areas end (y ∷ ys) = rw e at b in rw e (good, b', s)
  ]

  not-overlaps : (ys : List ℕ) → overlaps areas x ys ≡ false → x ∉ ys
  not-overlaps [] o = refl
  not-overlaps (y ∷ ys) o = ground (arith, not-overlaps ys)

module _ (avl : Avl) {areas : ℕ → Area} {v : Vma avl.Tree} (h : IsVma avl areas v) (x : ℕ) where
  abbrev before : List ℕ
  before = front areas (areas x).va v.l_list

  abbrev after : List ℕ
  after = rear areas (areas x).va v.l_list

  hung : Vma avl.Tree
  hung = record v {
    a_root = (avl.node_add (λ y. insert_compare_vmarea (areas x) (areas y)) x v.a_root).1;
    l_list = before ++ (x ∷ after);
  }

  vma_area_hang-hung :
      IsArea (areas x)
      → overlaps areas x v.l_list ≡ false
      → (vma_area_hang avl areas v x ≡ (success, hung))
        × (avl.nodes hung.a_root ≡ before ++ (x ∷ after))
  unfolding vma_area_hang hung
  vma_area_hang-hung good apart =
      let split = front-rear areas (areas x).va v.l_list in
      let nodes = h.tree ∙ split in
      let sorted = rear-Sorted areas x good v.l_list h.sorted in
      let (free, t) =
        avl.nodes-node_add (compared areas x good) x v.a_root before after nodes
          (front-greater areas x good v.l_list)
          (Behind-less areas x good after sorted
            (rear-Behind areas x good v.l_list h.sorted apart)) in
      let out : x ∉ v.l_list = not-overlaps areas x good v.l_list apart in
      let out' : x ∉ (before ++ after) = subst (λ l. x ∉ l) split out in
      let prev =
        avl.node_prev_lem x (avl.node_add (compared areas x good) x v.a_root).1 before after t
          (ground (arith, has-append x before after)) in
      let d : Distinct (before ++ after) =
        subst (λ l. Distinct l) split (Sorted-Distinct areas v.l_list h.sorted) in
      let list =
        subst (λ l. link_in (last before) x l ≡ before ++ (x ∷ after)) (sym split)
          (link_in-last x before after d) in
      (
        rw (free, prev, vma_area_hang)
            (ap (λ (l : List ℕ). (success, record hung { l_list = l })) list),
        t,
      )

  -- On a vma whose areas are apart and in order, on the list and in the tree, vma_area_hang of an area
  -- that has addresses, ends below 2^64 and shares no address with them gives 0: the area is behind
  -- those that end before it and before the others, and the vma is in order again.
  pub vma_area_hang-IsVma :
      IsArea (areas x)
      → overlaps areas x v.l_list ≡ false
      → ((vma_area_hang avl areas v x).0 ≡ success)
        × IsVma avl areas (vma_area_hang avl areas v x).1
        × ((vma_area_hang avl areas v x).1.l_list
            ≡ front areas (areas x).va v.l_list ++ (x ∷ rear areas (areas x).va v.l_list))
  unfolding hung
  vma_area_hang-IsVma good apart =
      let (e, nodes) = vma_area_hang-hung good apart in
      rw e (
        refl,
        record { sorted = insert-Sorted areas x good v.l_list h.sorted apart; tree = nodes },
        refl,
      )

  pub vma_area_hang-hw_pgtable :
      IsArea (areas x)
      → overlaps areas x v.l_list ≡ false
      → (vma_area_hang avl areas v x).1.hw_pgtable ≡ v.hw_pgtable
  unfolding hung
  vma_area_hang-hw_pgtable good apart = let (e, nodes) = vma_area_hang-hung good apart in rw e refl
