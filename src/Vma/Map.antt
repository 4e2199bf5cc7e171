-- ===== src/Vma/Map.antt =====
-- module/mm/vm/vm.c: mapping and unmapping of areas. One call runs with no other CPU in between, so
-- the locks of the vma and of the frames are not modelled. vm_mmap_area is __vm_mmap, vm_unmap_area is
-- __vm_unmap.
pub mod Guards
pub mod Parts
pub mod Install
pub mod Removal
pub mod Release
pub mod Sv39
pub mod Mapped
pub mod Emptied
use aco_os.Base.{
  ℕ, ◌+◌, ◌*◌, ◌-◌, ◌%◌, ◌^◌, Bool, true, false, ◌&&◌, ◌||◌, not, Option, none, some, List, [], ◌∷◌,
  ltb, leb, ◌==◌, if◌then◌else◌, update,
}
use aco_os.Base.Errno.{Errno, success, enomem, efault, eexist, einval, enobufs, eperm}
use aco_os.Base.Int.{ℤ, pos, inc, dec, is_zero, is_neg, pos_part}
use aco_os.Base.Run.{Run, ok, panic, ◌>>=◌, ◌>>◌, assert}
use aco_os.Pageframe.{
  page_size, PgfmType, page_buddyallocator, slab_allocator, vma_area, eq_head, is_buddy, PageFrame,
  pa_valid, pa2id, id2pa, va_end, pa_end, page_upper_align, val_is_page_aligned, add_ptr,
}
use aco_os.Buddy.{Config, State, set_page, order2byte}
use aco_os.KmemCache.{Cache, Memory, kmem_obj_free, bkp_alloc_zero, free_block}
use aco_os.KmemCache.Create.{kmem_obj_alloc}
use aco_os.Avl.{Avl}
use aco_os.Vma.{
  AreaType, vma_kernel, vma_io, vma_memory, vma_noreach, Area, Vma, vma_area_val_init,
  vma_area_hang, vma_area_unhang, find_area,
}

-- The interface of mm/vm.h to the page tables of the architecture, which may take and free pages; `sv39`
-- (Vma/Map/Sv39) is the one of arch/riscv.
pub record Hw : Type 1 where
  pub Tables : Type 0
  pub hw_mmap : ℕ → ℕ → ℕ → ℕ → ℕ → Memory × Tables → Run (Errno × Memory × Tables)
  pub hw_unmap : ℕ → ℕ → ℕ → Memory × Tables → Run (Memory × Tables)
  pub hw_unmap_all : ℕ → Memory × Tables → Run (Memory × Tables)

-- The page frames and slabs, vma_area_cache, the areas by address, and the page tables.
pub record World (Tables : Type 0) : Type 0 where
  pub memory : Memory
  pub cache : Cache
  pub areas : ℕ → Area
  pub tables : Tables

-- The value of the enumeration.
abbrev pub type_number : AreaType → ℕ
type_number vma_kernel = 0
type_number vma_io = 1
type_number vma_memory = 2
type_number vma_noreach = 3

-- `(phyaddr_t)-1`
abbrev pub no_address : ℕ
no_address = 2 ^ 64 - 1

abbrev pub is_vma_area : PgfmType → Bool
is_vma_area page_buddyallocator = false
is_vma_area slab_allocator = false
is_vma_area vma_area = true

abbrev pub is_eexist : Errno → Bool
is_eexist eexist = true
is_eexist _ = false

abbrev pub is_ok : Errno → Bool
is_ok success = true
is_ok _ = false

abbrev pub set_frame : ℕ → PageFrame → Memory → Memory
set_frame p f m = record m { buddy = set_page m.buddy p f }

-- The assertion on the frame of a memory area.
abbrev pub holds_area : PageFrame → ℕ → Bool
holds_area f size =
    is_vma_area f.pgtype && (eq_head f.buddy_flags && (order2byte f.buddy_order == size))

-- A block for an area: vm_mmap sets its type, and clears what it holds of the area.
abbrev pub as_area : PageFrame → PageFrame
as_area f = record f { pgtype = vma_area; ref_count = pos 0; vma_flags = 0 }

abbrev pub as_buddy : PageFrame → PageFrame
as_buddy f = record f { pgtype = page_buddyallocator; ref_count = pos 0; vma_flags = 0 }

module _ (c : Config) (hw : Hw) where
  open hw use {Tables, hw_mmap, hw_unmap}

  pub map_kernel_io : ℕ → ℕ → World Tables → Run (Errno × World Tables)
  map_kernel_io pgtable x w = do
    let a = w.areas x
    (ret, m, t) ← hw_mmap pgtable a.va a.pa a.prot a.size (w.memory, w.tables)
    assert (not (is_eexist ret))
    ok (ret, record w { memory = m; tables = t })

  -- The frame of a managed area gets one more reference.
  pub take_frame : ℕ → World Tables → Run (World Tables)
  take_frame x w = do
    let a = w.areas x
    let p = pa2id c.layout a.pa
    let f = w.memory.buddy.pages p
    assert (holds_area f a.size)
    ok (record w {
      memory = set_frame p (record f { ref_count = inc f.ref_count }) w.memory;
      areas = update w.areas x (record a { pgfm = some p });
    })

  pub map_memory : ℕ → ℕ → World Tables → Run (Errno × World Tables)
  map_memory pgtable x w = do
    let a = w.areas x
    assert (elim a.pgfm [ none ↦ true | some _ ↦ false ])
    if a.pa == no_address then ok (success, w) else (do
      assert (pa_valid c.layout a.pa)
      (ret, m, t) ← hw_mmap pgtable a.va a.pa a.prot a.size (w.memory, w.tables)
      assert (not (is_eexist ret))
      let w' = record w { memory = m; tables = t }
      if is_ok ret then (do u ← take_frame x w'; ok (success, u)) else ok (ret, w'))

  -- hw_map_callbacks
  pub map_area : AreaType → ℕ → ℕ → World Tables → Run (Errno × World Tables)
  map_area vma_kernel pgtable x w = map_kernel_io pgtable x w
  map_area vma_io pgtable x w = map_kernel_io pgtable x w
  map_area vma_memory pgtable x w = map_memory pgtable x w
  map_area vma_noreach pgtable x w = panic

  pub unmap_kernel_io : ℕ → ℕ → World Tables → Run (World Tables)
  unmap_kernel_io pgtable x w = do
    let a = w.areas x
    (m, t) ← hw_unmap pgtable a.va a.size (w.memory, w.tables)
    ok (record w { memory = m; tables = t })

  -- The frame of a managed area loses a reference; with the last it returns to the allocator.
  pub drop_frame : ℕ → ℕ → Memory → Run Memory
  drop_frame p size m = do
    let f = m.buddy.pages p
    assert (holds_area f size)
    let left = dec f.ref_count
    if is_zero left
        then free_block c p
            (set_frame p (record f { ref_count = left; pgtype = page_buddyallocator }) m)
        else ok (set_frame p (record f { ref_count = left }) m)

  pub unmap_memory : ℕ → ℕ → World Tables → Run (World Tables)
  unmap_memory pgtable x w =
      let a = w.areas x in
      if a.pa == no_address
      then (do assert (elim a.pgfm [ none ↦ true | some _ ↦ false ]); ok w)
      else elim a.pgfm [
        | none ↦ panic
        | some p ↦ do
          m ← drop_frame p a.size w.memory
          (m', t) ← hw_unmap pgtable a.va a.size (m, w.tables)
          ok (record w {
            memory = m';
            tables = t;
            areas = update w.areas x (record a { pgfm = none });
          })
      ]

  -- hw_unmap_callbacks
  pub unmap_area : AreaType → ℕ → ℕ → World Tables → Run (World Tables)
  unmap_area vma_kernel pgtable x w = unmap_kernel_io pgtable x w
  unmap_area vma_io pgtable x w = unmap_kernel_io pgtable x w
  unmap_area vma_memory pgtable x w = unmap_memory pgtable x w
  unmap_area vma_noreach pgtable x w = panic

  module _ (avl : Avl) (beyond : ℕ → ℕ) (vma_area_cache : ℕ) where
    pub free_area : ℕ → World Tables → Run (World Tables)
    free_area x w = do
      (k, m) ← kmem_obj_free c vma_area_cache x w.cache w.memory
      ok (record w { memory = m; cache = k })

    -- The part of __vm_mmap that hangs the area `x` in, and takes it out again on failure.
    pub hang_and_map :
        Vma avl.Tree → ℕ → Bool → World Tables → Run (Errno × Vma avl.Tree × World Tables)
    hang_and_map v x need_hwmap w =
        let (ret, u) = vma_area_hang avl w.areas v x in
        if not (is_ok ret)
        then (do t ← free_area x w; ok (ret, u, t))
        else if not need_hwmap
        then ok (success, u, w)
        else (do
          (ret', t) ← map_area (w.areas x).vmar_typ u.hw_pgtable x w
          if is_ok ret'
              then ok (success, u, t)
              else (do s ← free_area x t; ok (ret', vma_area_unhang avl u x, s)))

    pub vm_mmap_area :
        Vma avl.Tree
        → ℕ
        → ℕ
        → ℕ
        → ℕ
        → AreaType
        → Bool
        → World Tables
        → Run (Errno × Vma avl.Tree × World Tables)
    vm_mmap_area v va pa prot size type need_hwmap w = do
      assert (
          ltb 0 size
          && (val_is_page_aligned va && (val_is_page_aligned pa && val_is_page_aligned size)))
      assert (ltb (type_number type) 3)
      (x, k, m) ← kmem_obj_alloc c beyond vma_area_cache w.cache w.memory
      if x == 0
          then ok (enobufs, v, record w { memory = m; cache = k })
          else hang_and_map v x need_hwmap (record w {
            memory = m;
            cache = k;
            areas = update w.areas x (vma_area_val_init type va pa size none prot);
          })

    -- The part of __vm_unmap that takes the area `x` out.
    pub remove_area :
        Vma avl.Tree
        → ℕ
        → AreaType
        → Bool
        → World Tables
        → Run (Errno × Vma avl.Tree × World Tables)
    remove_area v x type need_hwunmap w =
        let u = vma_area_unhang avl v x in
        if need_hwunmap
        then (do t ← unmap_area type v.hw_pgtable x w; s ← free_area x t; ok (success, u, s))
        else (do s ← free_area x w; ok (success, u, s))

    pub vm_unmap_area :
        Vma avl.Tree
        → ℕ
        → ℕ
        → AreaType
        → Bool
        → World Tables
        → Run (Errno × Vma avl.Tree × World Tables)
    vm_unmap_area v va size type need_hwunmap w = do
      assert (ltb 0 size && (val_is_page_aligned va && val_is_page_aligned size))
      elim (find_area avl w.areas v va size) [
        | none ↦ ok (enobufs, v, w)
        | some x ↦ do
          assert (((w.areas x).va == va) && ((w.areas x).size == size))
          if type_number (w.areas x).vmar_typ == type_number type
              then remove_area v x type need_hwunmap w
              else ok (eperm, v, w)
      ]

    -- `vma` is the address of the vma `v`. An address range may not meet the managed region.
    pub vm_iomap :
        ℕ → Vma avl.Tree → ℕ → ℕ → ℕ → ℕ → World Tables → Run (Errno × Vma avl.Tree × World Tables)
    vm_iomap vma v va pa prot size w =
        if not (leb (va_end c.layout) va || leb (add_ptr va size) c.layout.va_start)
        then ok (eperm, v, w)
        else if not (leb (pa_end c.layout) pa || leb (add_ptr pa size) c.layout.pa_start)
        then ok (eperm, v, w)
        else if (vma == 0)
            || (not (va % page_size == pa % page_size)
                || ((size == 0) || not (val_is_page_aligned va)))
        then ok (efault, v, w)
        else vm_mmap_area v va pa prot (page_upper_align size) vma_io true w

    pub vm_iounmap :
        ℕ → Vma avl.Tree → ℕ → ℕ → World Tables → Run (Errno × Vma avl.Tree × World Tables)
    vm_iounmap vma v va size w =
        if not (leb (va_end c.layout) va || leb (add_ptr va size) c.layout.va_start)
        then ok (eperm, v, w)
        else if (vma == 0) || not (val_is_page_aligned va)
        then ok (efault, v, w)
        else vm_unmap_area v va (page_upper_align size) vma_io true w

    -- vm_mmap with the block at `p`.
    pub map_block :
        ℕ → Vma avl.Tree → ℕ → ℕ → ℕ → World Tables → Run (Errno × Vma avl.Tree × World Tables)
    map_block p v va order prot w = do
      let f = w.memory.buddy.pages p
      assert ((f.buddy_order == order) && (eq_head f.buddy_flags && is_buddy f.pgtype))
      (ret, u, t) ←
          vm_mmap_area v va (id2pa c.layout p) prot (order2byte order) vma_memory true
            (record w { memory = set_frame p (as_area f) w.memory })
      if is_ok ret then ok (ret, u, t) else (do
        m ← free_block c p (set_frame p (as_buddy (t.memory.buddy.pages p)) t.memory)
        ok (ret, u, record t { memory = m }))

    pub vm_mmap :
        ℕ → Vma avl.Tree → ℕ → ℤ → ℕ → World Tables → Run (Errno × Vma avl.Tree × World Tables)
    vm_mmap vma v va order prot w =
        if (vma == 0)
          || (not (val_is_page_aligned va) || (is_neg order || leb c.max_order (pos_part order)))
        then ok (efault, v, w)
        else (do
          (page, m) ← bkp_alloc_zero c order w.memory
          elim page [
            | none ↦ ok (enomem, v, record w { memory = m })
            | some p ↦ map_block p v va (pos_part order) prot (record w { memory = m })
          ])

    pub vm_unmap :
        ℕ → ℕ → Vma avl.Tree → ℕ → ℤ → World Tables → Run (Errno × Vma avl.Tree × World Tables)
    vm_unmap vma kern_vma v va order w =
        if (vma == 0)
          || (not (val_is_page_aligned va)
              || (not (v.kernel_vma == kern_vma)
                  || (is_neg order || leb c.max_order (pos_part order))))
        then ok (efault, v, w)
        else vm_unmap_area v va (order2byte (pos_part order)) vma_memory true w
