-- ===== src/Vma/Map/Guards.antt =====
-- What vm_iomap, vm_iounmap and __vm_unmap of module/mm/vm/vm.c refuse.
use aco_os.Base.{
  ℕ, ◌+◌, ◌^◌, ◌≤◌, ◌<◌, ◌≡◌, ◌⊎◌, inl, inr, refl, true, false, Bool, ◌&&◌, ◌||◌, ◌==◌, ltb, leb,
  if◌then◌else◌, ◌∈◌, arith, Bool-cases, not,
}
use aco_os.Base.Errno.{eperm, enobufs}
use aco_os.Base.Run.{ok}
use aco_os.Pageframe.{Layout, va_end, pa_end, add_ptr, val_is_page_aligned}
use aco_os.Pageframe.Address.{IsLayout}
use aco_os.Buddy.{Config}
use aco_os.Avl.{Avl}
use aco_os.Vma.{Vma, AreaType}
use aco_os.Vma.Order.{IsVma}
use aco_os.Vma.Find.{matches, found, not_found}
use aco_os.Vma.Map.{Hw, World, vm_iomap, vm_unmap_area, remove_area, type_number}

-- An address is in the range and in the managed region, virtual or physical.
abbrev pub MeetsVa : Layout → ℕ → ℕ → Type 0
MeetsVa l va size =
    (a : ℕ) × (va ≤ a) × (a < va + size) × (l.va_start ≤ a) × (a < l.va_start + l.size)

abbrev pub MeetsPa : Layout → ℕ → ℕ → Type 0
MeetsPa l pa size =
    (a : ℕ) × (pa ≤ a) × (a < pa + size) × (l.pa_start ≤ a) × (a < l.pa_start + l.size)

module _ (c : Config) (hw : Hw) (avl : Avl) (beyond : ℕ → ℕ) (vma_area_cache : ℕ) (v : Vma avl.Tree)
    (w : World hw.Tables) where
  -- On a well-formed layout, vm_iomap of addresses that reach into the managed region, virtual or
  -- physical, gives -EPERM and changes nothing, where neither range wraps at 2^64.
  pub vm_iomap_managed :
      (vma va pa prot size : ℕ)
      → IsLayout c.layout
      → va + size < 2 ^ 64
      → pa + size < 2 ^ 64
      → MeetsVa c.layout va size ⊎ MeetsPa c.layout pa size
      → vm_iomap c hw avl beyond vma_area_cache vma v va pa prot size w ≡ ok (eperm, v, w)
  unfolding vm_iomap
  vm_iomap_managed vma va pa prot size wf va_fits pa_fits (inl (a, lo, hi, lo', hi')) =
      let bad : not (leb (va_end c.layout) va || leb (add_ptr va size) c.layout.va_start) ≡ true =
        ground (arith, wf.va_fits) in
      rw bad refl
  vm_iomap_managed vma va pa prot size wf va_fits pa_fits (inr (a, lo, hi, lo', hi')) =
      let bad : not (leb (pa_end c.layout) pa || leb (add_ptr pa size) c.layout.pa_start) ≡ true =
        ground (arith, wf.va_fits, wf.order) in
      elim (Bool-cases
        (not (leb (va_end c.layout) va || leb (add_ptr va size) c.layout.va_start))) [
          | inl e ↦ rw e refl
          | inr e ↦ rw (e, bad) refl
        ]

  -- On a vma whose areas are apart and in order, on the list and in the tree, __vm_unmap with an
  -- address and a size, aligned and not 0, takes out the area that has both, if its type is the one
  -- asked for; it gives -EPERM for another type and -ENOBUFS where no area has both, and changes
  -- nothing then.
  pub vm_unmap_area_lem :
      (x va size : ℕ) (type : AreaType) (need_hwunmap : Bool)
      → IsVma avl w.areas v
      → x ∈ v.l_list
      → (ltb 0 (w.areas x).size
          && (val_is_page_aligned (w.areas x).va && val_is_page_aligned (w.areas x).size))
        ≡ true
      → (ltb 0 size && (val_is_page_aligned va && val_is_page_aligned size)) ≡ true
      → matches w.areas va size v.l_list ≡ false
      → (vm_unmap_area c hw avl beyond vma_area_cache v
            (w.areas x).va
            (w.areas x).size
            type
            need_hwunmap
            w
          ≡ (if type_number (w.areas x).vmar_typ == type_number type
              then remove_area c hw avl beyond vma_area_cache v x type need_hwunmap w
              else ok (eperm, v, w)))
        × (vm_unmap_area c hw avl beyond vma_area_cache v va size type need_hwunmap w
            ≡ ok (enobufs, v, w))
  unfolding vm_unmap_area
  vm_unmap_area_lem x va size type need_hwunmap h m sane sane' none_such =
      let yes_found = found avl h x m in
      let no_found = not_found avl h va size none_such in
      let self : (((w.areas x).va == (w.areas x).va) && ((w.areas x).size == (w.areas x).size))
          ≡ true =
        ground arith in
      (rw (sane, yes_found, self) refl, rw (sane', no_found) refl)
