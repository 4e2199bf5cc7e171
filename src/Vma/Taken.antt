-- ===== src/Vma/Taken.antt =====
-- vma_area_hang refuses an area that shares an address with one of the vma.
use aco_os.Base.{
  ℕ, ◌+◌, ◌≤◌, ◌<◌, ◌≡◌, refl, true, false, List, [], ◌∷◌, ◌++◌, leb, ltb, if◌then◌else◌, arith,
  Bool-cases, inl, inr, ap, some, ◌∙◌, subst,
}
use aco_os.Base.Errno.{eexist}
use aco_os.Avl.{Avl, All, less, equal}
use aco_os.Vma.{Area, Vma, area_end, insert_compare_vmarea, vma_area_hang}
use aco_os.Vma.Order.{IsArea, Behind, Behind-mono, Sorted, IsVma, overlaps, front, rear, front-rear}
use aco_os.Vma.Hang.{front-greater, Behind-less, rear-Sorted, compared}

module _ (areas : ℕ → Area) (x : ℕ) (good : IsArea (areas x)) where
  abbrev begin : ℕ
  begin = (areas x).va

  abbrev stop : ℕ
  stop = (areas x).va + (areas x).size

  -- The areas of a list up to the first that begins behind the new one, and the others.
  abbrev lower : List ℕ → List ℕ
  lower [] = []
  lower (y ∷ ys) = if ltb (areas y).va stop then y ∷ lower ys else []

  abbrev upper : List ℕ → List ℕ
  upper [] = []
  upper (y ∷ ys) = if ltb (areas y).va stop then upper ys else y ∷ ys

  lower-upper : (ys : List ℕ) → ys ≡ lower ys ++ upper ys
  lower-upper [] = refl
  lower-upper (y ∷ ys) = ground (arith, lower-upper ys)

  lower-equal :
      (ys : List ℕ)
      → Sorted areas ys
      → Behind areas (begin + 1) ys
      → All (compared areas x good) equal (lower ys)
  unfolding insert_compare_vmarea
  lower-equal [] s b = tt
  lower-equal (y ∷ ys) s b = ground (arith, lower-equal ys s.2 b.1, s.0)

  upper-less : (ys : List ℕ) → Sorted areas ys → All (compared areas x good) less (upper ys)
  upper-less [] s = tt
  upper-less (y ∷ ys) s = elim (Bool-cases (ltb (areas y).va stop)) [
    | inl e ↦ rw e (upper-less ys s.2)
    | inr e ↦
        let here : stop ≤ (areas y).va = ground arith in
        rw e (
          Behind-less areas x good (y ∷ ys) s (
            here,
            Behind-mono areas ((areas y).va + (areas y).size) stop ys (omega (arith, s.0)) s.1,
          ))
  ]

  Behind-apart :
      (ys : List ℕ) → Sorted areas ys → Behind areas stop ys → overlaps areas x ys ≡ false
  Behind-apart [] s b = refl
  Behind-apart (y ∷ ys) s b = ground (arith, Behind-apart ys s.2 b.1, s.0)

  -- The first area from the new one's address on shares an address with it.
  first_overlap :
      (ys : List ℕ)
      → Sorted areas ys
      → overlaps areas x ys ≡ true
      → (y : ℕ) × (zs : List ℕ) × (rear areas begin ys ≡ y ∷ zs)
        × (compared areas x good y ≡ equal)
        × (begin < area_end (areas y))
  unfolding insert_compare_vmarea
  first_overlap [] s o = ground arith
  first_overlap (y ∷ ys) s o = elim (Bool-cases (leb (area_end (areas y)) begin)) [
    | inl e ↦
        let (z, zs, r, q, b) = first_overlap ys s.2 (ground arith) in
        (z, zs, ground (arith, r), q, b)
    | inr e ↦ elim (Bool-cases (leb stop (areas y).va)) [
      | inl t ↦
          let b =
            Behind-mono areas ((areas y).va + (areas y).size) stop ys (ground (arith, s.0)) s.1 in
          absurd (ground (arith, Behind-apart ys s.2 b, s.0))
      | inr t ↦ (y, ys, ground arith, ground arith, ground arith)
    ]
  ]

-- On a vma whose areas are apart and in order, on the list and in the tree, vma_area_hang of an area
-- that has addresses, ends below 2^64 and shares one with them gives -EEXIST, and the vma stays.
pub vma_area_hang_overlap :
    (avl : Avl) {areas : ℕ → Area} {v : Vma avl.Tree} (x : ℕ)
    → IsVma avl areas v
    → IsArea (areas x)
    → overlaps areas x v.l_list ≡ true
    → vma_area_hang avl areas v x ≡ (eexist, v)
unfolding vma_area_hang
vma_area_hang_overlap avl {areas} {v} x h good shared =
    let l = v.l_list in
    let (y, zs, e, q, behind) = first_overlap areas x good l h.sorted shared in
    let s : Sorted areas (y ∷ zs) =
      subst (λ l. Sorted areas l) e (rear-Sorted areas x good l h.sorted) in
    let end_y : area_end (areas y) ≡ (areas y).va + (areas y).size = omega (arith, s.0) in
    let later =
      Behind-mono areas ((areas y).va + (areas y).size) ((areas x).va + 1) zs
        (omega (arith, behind, end_y)) s.1 in
    let split : l
        ≡ front areas (areas x).va l ++ ((y ∷ lower areas x good zs) ++ upper areas x good zs) =
      front-rear areas (areas x).va l
      ∙ ap (λ r. front areas (areas x).va l ++ r)
          (e ∙ ap (λ r. y ∷ r) (lower-upper areas x good zs)) in
    let (z, taken) =
      avl.node_add_taken (compared areas x good) x v.a_root (front areas (areas x).va l)
        (lower areas x good zs) (upper areas x good zs) y (h.tree ∙ split)
        (front-greater areas x good l) (q, lower-equal areas x good zs s.2 later)
        (upper-less areas x good zs s.2) in
    let dup : (avl.node_add (compared areas x good) x v.a_root).0 ≡ some z = ap (λ p. p.0) taken in
    let same : (avl.node_add (compared areas x good) x v.a_root).1 ≡ v.a_root =
      ap (λ p. p.1) taken in
    rw (dup, vma_area_hang) (ap (λ (t : avl.Tree). (eexist, record v { a_root = t })) same)
