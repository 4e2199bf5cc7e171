-- ===== src/Vma/Check.antt =====
-- vm_check of module/mm/vm/vm.c: what it says of a vma whose list and tree agree.
use aco_os.Base.{
  ℕ, ◌+◌, ◌≡◌, refl, true, Bool, ◌&&◌, List, [], ◌∷◌, ◌==◌, ltb, leb, if◌then◌else◌, ◌∈◌, arith,
  none, some, Option, not,
}
use aco_os.Base.Errno.{success, efault}
use aco_os.Pageframe.{val_is_page_aligned}
use aco_os.Avl.{Avl}
use aco_os.Vma.{Area, Vma, area_end, prot_v, without_frame, check_area, check_areas, vm_check}
use aco_os.Vma.Order.{Behind, Sorted, IsVma}
use aco_os.Vma.Find.{found}

-- What vm_check asks of each area by itself.
abbrev pub is_valid : Area → Bool
is_valid a =
    (val_is_page_aligned a.va
      && (val_is_page_aligned a.pa && (val_is_page_aligned a.size && ltb 0 a.size)))
    && (without_frame a && prot_v a.prot)

abbrev pub all_valid : (ℕ → Area) → List ℕ → Bool
all_valid areas [] = true
all_valid areas (x ∷ xs) = is_valid (areas x) && all_valid areas xs

-- The end of the area before, if there is one, lies below the list.
abbrev Follows : (ℕ → Area) → Option ℕ → List ℕ → Type 0
Follows areas none xs = Unit
Follows areas (some e) xs = Behind areas e xs

module _ (avl : Avl) {areas : ℕ → Area} {v : Vma avl.Tree} (h : IsVma avl areas v) where
  check_area-valid :
      (before : Option ℕ) (x : ℕ) (xs : List ℕ)
      → x ∈ v.l_list
      → Follows areas before (x ∷ xs)
      → check_area avl areas v before x ≡ is_valid (areas x)
  unfolding check_area
  check_area-valid none x xs m b =
      let f = found avl h x m in
      let self : (x == x) ≡ true = ground arith in rw (f, self) (ground arith)
  check_area-valid (some e) x xs m b =
      let f = found avl h x m in
      let self : (x == x) ≡ true = ground arith in
      let after : leb e (areas x).va ≡ true = ground arith in rw (f, self, after) (ground arith)

  check_areas-all_valid :
      (before : Option ℕ) (xs : List ℕ)
      → ((x : ℕ) → x ∈ xs → x ∈ v.l_list)
      → Sorted areas xs
      → Follows areas before xs
      → check_areas avl areas v before xs ≡ (if all_valid areas xs then success else efault)
  unfolding check_areas
  check_areas-all_valid before [] inside s b = refl
  check_areas-all_valid before (x ∷ xs) inside s b =
      let here = check_area-valid before x xs (inside x (ground arith)) b in
      let end_x : (areas x).va + (areas x).size ≡ area_end (areas x) = omega (arith, s.0) in
      let next : Follows areas (some (area_end (areas x))) xs = rw (← end_x) s.1 in
      let rest =
        check_areas-all_valid (some (area_end (areas x))) xs (λ y m. inside y (ground arith)) s.2
          next in
      rw (here, rest) (ground arith)

  -- On a vma whose areas are apart and in order, on the list and in the tree, vm_check gives 0 if the
  -- vma is not NULL, has a page table and the kernel's vma, and each area is aligned, has no frame
  -- unless its memory is managed, and has PROT_V; otherwise -EFAULT.
  pub vm_check-IsVma :
      (vma kern_vma : ℕ)
      → vm_check avl areas vma kern_vma v ≡ (
          if (not (vma == 0) && (not (v.hw_pgtable == 0) && (v.kernel_vma == kern_vma)))
            && all_valid areas v.l_list
          then success
          else efault)
  unfolding vm_check
  vm_check-IsVma vma kern_vma =
      let rest = check_areas-all_valid none v.l_list (λ x m. m) h.sorted tt in
      rw rest (ground arith)
