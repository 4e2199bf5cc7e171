-- ===== src/Vma/Map/Mapped.antt =====
-- __vm_mmap and __vm_unmap of module/mm/vm/vm.c on the tables of arch/riscv/mm/vm.c, over mm/buddy and
-- the cache of areas.
use aco_os.Base.{
  ℕ, ◌+◌, ◌*◌, ◌%◌, ◌^◌, ◌≤◌, ◌<◌, ◌≡◌, refl, Bool, true, false, ◌&&◌, ltb, ◌==◌, List, ◌∈◌, arith,
  none,
}
use aco_os.Base.Int.{pos_part}
use aco_os.Base.Run.{Returns}
use aco_os.Pageframe.{page_size, val_is_page_aligned}
use aco_os.Buddy.{Config}
use aco_os.Buddy.Neighbour.{IsConfig}
use aco_os.Buddy.Invariant.{IsBuddy}
use aco_os.KmemCache.{Memory}
use aco_os.KmemCache.Objects.{KeepsHeld}
use aco_os.Sv39.{pte_valid}
use aco_os.Sv39.Backing.{stays}
use aco_os.Sv39.Others.{IsRoot-moved}
use aco_os.Avl.{Avl}
use aco_os.Vma.{Vma, AreaType, vma_area_val_init}
use aco_os.Vma.Map.{World, vm_mmap_area, vm_unmap_area}
use aco_os.Vma.Map.Parts.{IsWorld, Unmanaged}
use aco_os.Vma.Map.Install.{Installed, vm_mmap_area-Hung}
use aco_os.Vma.Map.Removal.{Removed, vm_unmap_area-Unhung}
use aco_os.Vma.Map.Sv39.{
  sv39, HasTables, TablesFind, entry_of, with_area, without_area, hw_mmap_sv39-Maps,
  hw_unmap_sv39-Unmaps,
}

module _ (c : Config) (wf : IsConfig c) (some_order : 0 < c.max_order)
    (low : c.layout.pa_start + c.layout.size ≤ 2 ^ 56) (few : c.max_order ≤ 19) (avl : Avl)
    (beyond : ℕ → ℕ) (vma_area_cache : ℕ) (some_cache : 0 < vma_area_cache) where
  -- Another part of the kernel took a block.
  HasTables-held :
      (root : ℕ) (m m' : Memory) (ptes : ℕ → ℕ → ℕ)
      → IsBuddy c m'.buddy
      → KeepsHeld c m m'
      → HasTables c wf some_order low root m.buddy ptes
      → HasTables c wf some_order low root m'.buddy ptes
  HasTables-held root m m' ptes inv kept (h, r) = (
    h,
    IsRoot-moved c wf some_order low m.buddy m'.buddy ptes inv
        (λ a on (p, at, u). stays wf m.buddy m'.buddy a (p, at, u) (kept p u.in_range u.in_use)) r,
  )

  module _ (v : Vma avl.Tree) (w : World (ℕ → ℕ → ℕ)) {fr : ℕ → List ℕ} (h : IsWorld c avl v w fr)
      (tables : HasTables c wf some_order low v.hw_pgtable w.memory.buddy w.tables) where
    -- Where the layout and MAX_ORDER are well formed, MAX_ORDER is from 1 to 19 and memory has physical
    -- addresses below 2^56; the cache of areas is well formed, the areas of the vma are apart, in order
    -- and objects of the cache, and its page tables form a tree: __vm_mmap of a kernel or io area of
    -- `count` pages from page `n` on, some but none beyond 2^39, to aligned addresses whose end is below
    -- 2^64, none of them mapped yet, fails no ASSERT. The vma and the cache are again so, and the areas
    -- of the vma stay what they are. With 0 the new area is in its place among them, and if it was to be
    -- mapped, the tables form a tree in which a walk finds the area's entry for each of its pages, and
    -- what it found for every other page. With an error number the list is as it was.
    pub vm_mmap_area-Installed :
        (n count pa prot : ℕ) (type : AreaType) (need_hwmap : Bool)
        → Unmanaged type
        → 0 < count
        → n + count ≤ 2 ^ 27
        → pa % page_size ≡ 0
        → pa + count * page_size < 2 ^ 64
        → ((p : ℕ)
            → n ≤ p
            → p < n + count
            → pte_valid (entry_of c wf some_order low v.hw_pgtable w.tables p) ≡ false)
        → Returns
            (Installed c
              (sv39 c wf some_order low)
              avl
              (TablesFind c wf some_order low v.hw_pgtable
                (with_area c wf some_order low n count pa prot w.tables v.hw_pgtable))
              need_hwmap
              v
              (vma_area_val_init type (n * page_size) pa (count * page_size) none prot)
              w)
            (vm_mmap_area c
              (sv39 c wf some_order low)
              avl
              beyond
              vma_area_cache
              v
              (n * page_size)
              pa
              prot
              (count * page_size)
              type
              need_hwmap
              w)
    unfolding val_is_page_aligned vma_area_val_init
    vm_mmap_area-Installed n count pa prot type need_hwmap unmanaged some fits aligned fits_pa
          free =
        let sane : (ltb 0 (count * page_size)
              && ((n * page_size % page_size == 0)
                  && ((pa % page_size == 0) && (count * page_size % page_size == 0))))
            ≡ true =
          ground (arith, aligned, some) in
        vm_mmap_area-Hung c (sv39 c wf some_order low) avl beyond vma_area_cache wf few some_cache
          (TablesFind c wf some_order low v.hw_pgtable
            (with_area c wf some_order low n count pa prot w.tables v.hw_pgtable))
          v w h (n * page_size) pa prot (count * page_size) type need_hwmap sane (omega arith)
          unmanaged
          λ m inv kept.
            hw_mmap_sv39-Maps c wf some_order low v.hw_pgtable
              (vma_area_val_init type (n * page_size) pa (count * page_size) none prot) n count m
              w.tables (HasTables-held v.hw_pgtable w.memory m w.tables inv kept tables) refl refl
              fits aligned fits_pa free

    -- Where the layout and MAX_ORDER are well formed, MAX_ORDER is from 1 to 19 and memory has physical
    -- addresses below 2^56; the cache of areas is well formed and has room for one more free object below
    -- 2^31, the areas of the vma are apart, in order and objects of the cache, and its page tables form a
    -- tree: __vm_unmap with the address, size and type of an area of the vma, a kernel or io area of
    -- `count` pages from page `n` on, some but none beyond 2^39, all of them mapped, returns 0 and takes
    -- this area out. The vma and the cache are again so, the areas stay what they are, and if it was to
    -- be unmapped, the tables form a tree in which a walk finds nothing for the pages of the area, and
    -- what it found for every other page.
    pub vm_unmap_area-Removed :
        (x n count : ℕ) (need_hwunmap : Bool)
        → x ∈ v.l_list
        → (w.areas x).va ≡ n * page_size
        → (w.areas x).size ≡ count * page_size
        → Unmanaged (w.areas x).vmar_typ
        → 0 < count
        → n + count ≤ 2 ^ 27
        → pos_part w.cache.obj_num + 1 < 2 ^ 31
        → ((p : ℕ)
            → n ≤ p
            → p < n + count
            → pte_valid (entry_of c wf some_order low v.hw_pgtable w.tables p) ≡ true)
        → Returns
            (Removed c
              (sv39 c wf some_order low)
              avl
              (TablesFind c wf some_order low v.hw_pgtable
                (without_area c wf some_order low n count w.tables v.hw_pgtable))
              need_hwunmap
              v
              w
              x)
            (vm_unmap_area c
              (sv39 c wf some_order low)
              avl
              beyond
              vma_area_cache
              v
              (w.areas x).va
              (w.areas x).size
              (w.areas x).vmar_typ
              need_hwunmap
              w)
    unfolding val_is_page_aligned
    vm_unmap_area-Removed x n count need_hwunmap mem va size unmanaged some fits int mapped =
        let sane : (ltb 0 (w.areas x).size
              && (((w.areas x).va % page_size == 0) && ((w.areas x).size % page_size == 0)))
            ≡ true =
          ground (arith, va, size, some) in
        vm_unmap_area-Unhung c (sv39 c wf some_order low) avl beyond vma_area_cache wf few
          some_cache
          (TablesFind c wf some_order low v.hw_pgtable
            (without_area c wf some_order low n count w.tables v.hw_pgtable))
          v w fr h x mem need_hwunmap sane unmanaged
          (hw_unmap_sv39-Unmaps c wf some_order low v.hw_pgtable (w.areas x) n count w.memory
            w.tables tables va size fits mapped)
