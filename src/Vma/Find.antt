-- ===== src/Vma/Find.antt =====
-- vma_area_unhang, and the search for an area by its address and size.
use aco_os.Base.{
  ℕ, ◌+◌, ◌≡◌, refl, false, Bool, ◌||◌, ◌&&◌, List, [], ◌∷◌, ◌++◌, ◌==◌, leb, ◌∈◌, Distinct, arith,
  remove, Bool-cases, inl, inr, ap, none, some, ◌∙◌, subst, sym,
}
use aco_os.Avl.{Avl, All, less, greater}
use aco_os.Vma.{Area, Vma, area_end, find_compare, vma_area_unhang, find_area}
use aco_os.Vma.Order.{
  IsArea, Behind, Behind-mono, Behind-mem, Sorted, Sorted-Distinct, IsVma, front, rear, front-rear,
}
use aco_os.Vma.Hang.{rear-Sorted}

module _ (areas : ℕ → Area) where
  Behind-remove : (e x : ℕ) (ys : List ℕ) → Behind areas e ys → Behind areas e (remove x ys)
  Behind-remove e x [] b = tt
  Behind-remove e x (y ∷ ys) b = ground (arith, Behind-remove e x ys)

  Sorted-remove : (x : ℕ) (ys : List ℕ) → Sorted areas ys → Sorted areas (remove x ys)
  Sorted-remove x [] s = tt
  Sorted-remove x (y ∷ ys) s = elim (Bool-cases (x == y)) [
    | inl e ↦ rw e s.2
    | inr e ↦
        rw e (s.0, Behind-remove ((areas y).va + (areas y).size) x ys s.1, Sorted-remove x ys s.2)
  ]

  pub Sorted-mem : (x : ℕ) (ys : List ℕ) → Sorted areas ys → x ∈ ys → IsArea (areas x)
  Sorted-mem x [] s m = ground arith
  Sorted-mem x (y ∷ ys) s m = elim (Bool-cases (x == y)) [
    | inl e ↦ let same : x ≡ y = ground arith in rw same s.0
    | inr e ↦ Sorted-mem x ys s.2 (ground arith)
  ]

  -- An area has this address and this size.
  abbrev pub matches : ℕ → ℕ → List ℕ → Bool
  matches va size [] = false
  matches va size (y ∷ ys) =
      ((va == (areas y).va) && (size == (areas y).size)) || matches va size ys

  front-find :
      (va size : ℕ) (ys : List ℕ)
      → Sorted areas ys
      → All (λ y. find_compare va size (areas y)) greater (front areas va ys)
  unfolding find_compare
  front-find va size [] s = tt
  front-find va size (y ∷ ys) s = ground (arith, front-find va size ys, s.0)

  -- Areas behind the key.
  Behind-find :
      (va size : ℕ) (ys : List ℕ)
      → Sorted areas ys
      → Behind areas (va + 1) ys
      → All (λ y. find_compare va size (areas y)) less ys
  unfolding find_compare
  Behind-find va size [] s b = tt
  Behind-find va size (y ∷ ys) s b = ground (arith, Behind-find va size ys, s.0)

  -- The area is the first from its own address on.
  rear_self :
      (x : ℕ) (ys : List ℕ)
      → Sorted areas ys
      → x ∈ ys
      → (zs : List ℕ) × (rear areas (areas x).va ys ≡ x ∷ zs)
  rear_self x [] s m = ground arith
  rear_self x (y ∷ ys) s m = elim (Bool-cases (x == y)) [
    | inl e ↦ (ys, ground (arith, s.0))
    | inr e ↦
        let later = Behind-mem areas ((areas y).va + (areas y).size) x ys s.1 (ground arith) in
        let (zs, r) = rear_self x ys s.2 (ground arith) in (zs, ground (arith, r, s.0, later))
  ]

  rear-find :
      (va size : ℕ) (ys : List ℕ)
      → Sorted areas ys
      → matches va size ys ≡ false
      → All (λ y. find_compare va size (areas y)) less (rear areas va ys)
  unfolding find_compare
  rear-find va size [] s m = tt
  rear-find va size (y ∷ ys) s m = elim (Bool-cases (leb (area_end (areas y)) va)) [
    | inl e ↦ rw e (rear-find va size ys s.2 (ground arith))
    | inr e ↦ rw e (
      ground arith,
      Behind-find va size ys s.2
          (Behind-mono areas ((areas y).va + (areas y).size) (va + 1) ys (ground (arith, s.0)) s.1),
    )
  ]

module _ (avl : Avl) {areas : ℕ → Area} {v : Vma avl.Tree} (h : IsVma avl areas v) where
  -- An area of the vma that is taken out leaves the others in order, on the list and in the tree.
  pub vma_area_unhang-IsVma :
      (x : ℕ)
      → x ∈ v.l_list
      → IsVma avl areas (vma_area_unhang avl v x)
        × ((vma_area_unhang avl v x).l_list ≡ remove x v.l_list)
  unfolding vma_area_unhang
  vma_area_unhang-IsVma x m =
      let d = subst (λ l. Distinct l) (sym h.tree) (Sorted-Distinct areas v.l_list h.sorted) in
      let m' = subst (λ l. x ∈ l) (sym h.tree) m in
      (
        record {
          sorted = Sorted-remove areas x v.l_list h.sorted;
          tree = avl.nodes-node_erase x v.a_root d m' ∙ ap (λ l. remove x l) h.tree;
        },
        refl,
      )

  pub found : (x : ℕ) → x ∈ v.l_list → find_area avl areas v (areas x).va (areas x).size ≡ some x
  unfolding find_area find_compare
  found x m =
      let l = v.l_list in
      let va = (areas x).va in
      let (zs, e) = rear_self areas x l h.sorted m in
      let s : Sorted areas (x ∷ zs) =
        subst (λ r. Sorted areas r) e
          (rear-Sorted areas x (Sorted-mem areas x l h.sorted m) l h.sorted) in
      let split = front-rear areas va l ∙ ap (λ r. front areas va l ++ r) e in
      avl.node_find_some (λ y. find_compare va (areas x).size (areas y)) v.a_root (front areas va l)
        zs x (h.tree ∙ split) (front-find areas va (areas x).size l h.sorted) (ground arith)
        (Behind-find areas va (areas x).size zs s.2
          (Behind-mono areas (va + (areas x).size) (va + 1) zs (omega (arith, s.0)) s.1))

  pub not_found :
      (va size : ℕ) → matches areas va size v.l_list ≡ false → find_area avl areas v va size ≡ none
  unfolding find_area
  not_found va size none_such =
      let l = v.l_list in
      avl.node_find_none (λ y. find_compare va size (areas y)) v.a_root (front areas va l)
        (rear areas va l) (h.tree ∙ front-rear areas va l) (front-find areas va size l h.sorted)
        (rear-find areas va size l h.sorted none_such)

  -- The search finds each area of the vma by its address and size, and nothing by others.
  pub find_area-IsVma :
      (x va size : ℕ)
      → x ∈ v.l_list
      → matches areas va size v.l_list ≡ false
      → (find_area avl areas v (areas x).va (areas x).size ≡ some x)
        × (find_area avl areas v va size ≡ none)
  unfolding find_area
  find_area-IsVma x va size m none_such = (found x m, not_found va size none_such)
