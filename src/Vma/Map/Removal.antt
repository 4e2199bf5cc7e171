-- ===== src/Vma/Map/Removal.antt =====
-- __vm_unmap of module/mm/vm/vm.c with the cache of areas.
use aco_os.Base.{
  ℕ, ◌≤◌, ◌<◌, ◌≡◌, inl, inr, refl, Bool, true, ◌&&◌, ◌==◌, ltb, List, remove, ◌∈◌, arith,
  Bool-cases, subst, sym, ◌∙◌, has-remove, Distinct-remove, ◌∉◌,
}
use aco_os.Base.Errno.{Errno, success}
use aco_os.Base.Run.{Returns, returns, Returns-bind, Returns-mono}
use aco_os.Pageframe.{val_is_page_aligned}
use aco_os.Buddy.{Config, State}
use aco_os.Buddy.Neighbour.{IsConfig}
use aco_os.KmemCache.{Cache, Memory}
use aco_os.KmemCache.Invariant.{lists, IsCache}
use aco_os.KmemCache.Objects.{InUse}
use aco_os.Avl.{Avl}
use aco_os.Vma.{Area, Vma, AreaType, vma_area_unhang}
use aco_os.Vma.Order.{IsVma, Sorted-Distinct}
use aco_os.Vma.Find.{vma_area_unhang-IsVma, found}
use aco_os.Vma.Map.{
  Hw, World, type_number, unmap_kernel_io, unmap_area, free_area, remove_area, vm_unmap_area,
}
use aco_os.Vma.Map.Parts.{IsWorld, Unmanaged, free_area-IsWorld}

-- What is asked of the page tables for taking an area out, at the memory and the tables of the call: it
-- ends, leaves a cache of areas and its slabs alone, and `Q` holds of the allocator and the tables.
abbrev pub Unmaps :
    (hw : Hw) → Config → (State → hw.Tables → Type 0) → ℕ → Area → Memory → hw.Tables → Type 0
Unmaps hw c Q pgtable a m t =
    (k : Cache) (free_of : ℕ → List ℕ)
    → IsCache c k m free_of
    → Returns
        (λ (m', t').
          IsCache c k m' free_of
          × ((q : ℕ) → lists k q ≡ true → m'.slabs q ≡ m.slabs q)
          × Q m'.buddy t')
        (hw.hw_unmap pgtable a.va a.size (m, t))

module _ (c : Config) (hw : Hw) (avl : Avl) (Q : State → hw.Tables → Type 0) where
  abbrev pub Removed :
      Bool → Vma avl.Tree → World hw.Tables → ℕ → Errno × Vma avl.Tree × World hw.Tables → Type 0
  Removed need_hwunmap v w x (ret, u, s) =
      (ret ≡ success)
      × (s.areas ≡ w.areas)
      × (u.l_list ≡ remove x v.l_list)
      × ((f : ℕ → List ℕ) × IsWorld c avl u s f)
      × (need_hwunmap ≡ true → Q s.memory.buddy s.tables)

module _ (c : Config) (hw : Hw) (avl : Avl) (beyond : ℕ → ℕ) (vma_area_cache : ℕ) (wf : IsConfig c)
    (few : c.max_order ≤ 19) (some_cache : 0 < vma_area_cache)
    (Q : State → hw.Tables → Type 0) where
  abbrev pub Unmapped : World hw.Tables → (ℕ → List ℕ) → World hw.Tables → Type 0
  Unmapped w fr s =
      (s.areas ≡ w.areas)
      × IsCache c s.cache s.memory fr
      × ((y : ℕ) → InUse w.cache w.memory fr y → InUse s.cache s.memory fr y)
      × Q s.memory.buddy s.tables

  unmap_kernel_io-Unmapped :
      (pgtable x : ℕ) (w : World hw.Tables) (fr : ℕ → List ℕ)
      → IsCache c w.cache w.memory fr
      → Unmaps hw c Q pgtable (w.areas x) w.memory w.tables
      → Returns (Unmapped w fr) (unmap_kernel_io c hw pgtable x w)
  unfolding unmap_kernel_io
  unmap_kernel_io-Unmapped pgtable x w fr h unmaps =
      Returns-bind (unmaps w.cache fr h) λ (m, t) (cache, slabs, good). returns (
        refl,
        cache,
        λ y u. record {
          p = u.p;
          i = u.i;
          listed = u.listed;
          small = ground (arith, slabs u.p u.listed, u.small);
          used = u.used;
          at = ground (arith, slabs u.p u.listed, u.at);
        },
        good,
      )

  pub unmap_area-Unmapped :
      (type : AreaType) (pgtable x : ℕ) (w : World hw.Tables) (fr : ℕ → List ℕ)
      → Unmanaged type
      → IsCache c w.cache w.memory fr
      → Unmaps hw c Q pgtable (w.areas x) w.memory w.tables
      → Returns (Unmapped w fr) (unmap_area c hw type pgtable x w)
  unfolding unmap_area
  unmap_area-Unmapped type pgtable x w fr (inl e) h unmaps =
      rw e (unmap_kernel_io-Unmapped pgtable x w fr h unmaps)
  unmap_area-Unmapped type pgtable x w fr (inr e) h unmaps =
      rw e (unmap_kernel_io-Unmapped pgtable x w fr h unmaps)

  module _ (v : Vma avl.Tree) (w : World hw.Tables) (fr : ℕ → List ℕ) (h : IsWorld c avl v w fr)
      (x : ℕ) (mem : x ∈ v.l_list) where
    unfoldable pub u : Vma avl.Tree
    u = vma_area_unhang avl v x

    kept : (y : ℕ) → y ∈ u.l_list → y ∈ v.l_list
    unfolding u
    kept y m =
        let m' = subst (λ r. y ∈ r) (vma_area_unhang-IsVma avl h.vma x mem).1 m in
        ground (arith, has-remove x y v.l_list, m')

    gone : x ∉ u.l_list
    unfolding u
    gone =
        let (isv, list) = vma_area_unhang-IsVma avl h.vma x mem in
        subst (λ r. x ∉ r) (sym list)
          (Distinct-remove x v.l_list (Sorted-Distinct w.areas v.l_list h.vma.sorted)).1

    pub freed :
        (t : World hw.Tables)
        → t.areas ≡ w.areas
        → IsCache c t.cache t.memory fr
        → ((y : ℕ) → InUse w.cache w.memory fr y → InUse t.cache t.memory fr y)
        → Returns
            (λ s.
              (s.areas ≡ w.areas)
              × ((f : ℕ → List ℕ) × IsWorld c avl u s f)
              × (s.memory.buddy ≡ t.memory.buddy)
              × (s.tables ≡ t.tables))
            (free_area c hw avl beyond vma_area_cache x t)
    unfolding u
    freed t areas cache keep =
        let (isv, list) = vma_area_unhang-IsVma avl h.vma x mem in
        Returns-mono
          (free_area-IsWorld c hw avl beyond vma_area_cache wf few some_cache u x t fr
            (subst (λ a. IsVma avl a u) (sym areas) isv) cache (keep x (h.owned x mem)) gone
            (λ y m. keep y (h.owned y (kept y m))))
          λ s (same, world, buddy, tables). (same ∙ areas, world, buddy, tables)

    -- `Q` of the allocator and the tables still holds.
    pub moved :
        (s t : World hw.Tables)
        → s.memory.buddy ≡ t.memory.buddy
        → s.tables ≡ t.tables
        → Q t.memory.buddy t.tables
        → Q s.memory.buddy s.tables
    moved s t buddy tables good =
        subst (λ b. Q b s.tables) (sym buddy) (subst (λ r. Q t.memory.buddy r) (sym tables) good)

    -- __vm_unmap over any page tables, which are asked to leave the cache alone.
    pub vm_unmap_area-Unhung :
        (need_hwunmap : Bool)
        → (ltb 0 (w.areas x).size
            && (val_is_page_aligned (w.areas x).va && val_is_page_aligned (w.areas x).size))
          ≡ true
        → Unmanaged (w.areas x).vmar_typ
        → Unmaps hw c Q v.hw_pgtable (w.areas x) w.memory w.tables
        → Returns (Removed c hw avl Q need_hwunmap v w x) (
            vm_unmap_area c hw avl beyond vma_area_cache v
              (w.areas x).va
              (w.areas x).size
              (w.areas x).vmar_typ
              need_hwunmap
              w)
    unfolding vm_unmap_area u remove_area
    vm_unmap_area-Unhung need_hwunmap sane unmanaged unmaps =
        let find = found avl h.vma x mem in
        let a = w.areas x in
        let self : ((a.va == a.va) && (a.size == a.size)) ≡ true = ground arith in
        let same_type : (type_number a.vmar_typ == type_number a.vmar_typ) ≡ true = ground arith in
        let (isv, list) = vma_area_unhang-IsVma avl h.vma x mem in
        rw (sane, find, self, same_type)
          (elim (Bool-cases need_hwunmap) [
            | inl n ↦ rw n (
                Returns-bind
                  (unmap_area-Unmapped a.vmar_typ v.hw_pgtable x w fr unmanaged h.cache unmaps)
                  λ t unmapped.
                    Returns-bind (freed t unmapped.0 unmapped.1 unmapped.2) λ s (same, world, b, r).
                      returns (refl, same, list, world, λ e. moved s t b r unmapped.3))
            | inr n ↦ rw n (
                Returns-bind (freed w refl h.cache (λ y o. o)) λ s (same, world, b, r).
                  returns (refl, same, list, world, λ e. absurd (ground (arith, n, e))))
          ])
