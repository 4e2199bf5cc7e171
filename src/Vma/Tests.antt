-- ===== src/Vma/Tests.antt =====
-- Two areas in a tree that is a sorted list; the theorems at them.
use aco_os.Base.{
  ◌+◌, ◌*◌, ◌^◌, ◌≡◌, inl, inr, refl, ℕ, true, List, [], ◌∷◌, ◌++◌, ◌==◌, none, some, if◌then◌else◌,
  arith,
}
use aco_os.Base.Errno.{success, eexist, eperm, enobufs}
use aco_os.Base.Run.{ok, Returns}
use aco_os.Avl.Lists.{sorted_lists}
use aco_os.KmemCache.Tests.{config, config-IsConfig, memory, cache}
use aco_os.Vma.{
  Area, Vma, vma_io, vma_memory, vma_area_val_init, vma_area_hang, vma_area_unhang, find_area,
  vm_check,
}
use aco_os.Vma.Order.{IsVma, front, rear}
use aco_os.Vma.Hang.{vma_area_hang-IsVma}
use aco_os.Vma.Taken.{vma_area_hang_overlap}
use aco_os.Vma.Find.{vma_area_unhang-IsVma, find_area-IsVma}
use aco_os.Vma.Check.{vm_check-IsVma}
use aco_os.Vma.Map.{Hw, World, vm_iomap, vm_mmap_area, vm_unmap_area}
use aco_os.Vma.Map.Parts.{IsWorld}
use aco_os.Vma.Map.Install.{Installed}
use aco_os.Vma.Map.Removal.{Removed}
use aco_os.Vma.Map.Release.{free_areas}
use aco_os.Vma.Map.Guards.{vm_iomap_managed, vm_unmap_area_lem}
use aco_os.Vma.Map.Sv39.{sv39, HasTables, TablesFind, with_area, without_area}
use aco_os.Vma.Map.Mapped.{vm_mmap_area-Installed, vm_unmap_area-Removed}
use aco_os.Vma.Map.Emptied.{free_areas-Emptied}
use aco_os.Pageframe.{page_size}
use aco_os.Buddy.{Config}
use aco_os.Buddy.Neighbour.{IsConfig}
use aco_os.Buddy.Sample
use aco_os.Sv39.Sample.{root, space_mapped, space_unmapped}
use aco_os.Vma.Sample.{vma, world, only, world-IsWorld, world-HasTables}

abbrev an_area : ℕ → ℕ → Area
an_area va size = record { vmar_typ = vma_io; va = va; size = size; pa = va; pgfm = none; prot = 1 }

-- Areas 64 and 128 lie apart, 192 lies between them, 256 in both.
abbrev areas : ℕ → Area
areas x =
    if x == 64
    then an_area 4096 4096
    else if x == 128
    then an_area 16384 8192
    else if x == 192
    then an_area 8192 4096
    else an_area 4096 16384

abbrev two : Vma (List ℕ)
two = record { hw_pgtable = 8192; kernel_vma = 512; a_root = 64 ∷ 128 ∷ []; l_list = 64 ∷ 128 ∷ [] }

two-IsVma : IsVma sorted_lists areas two
two-IsVma = record {
  sorted = ((omega arith, omega arith), (omega arith, tt), ((omega arith, omega arith), tt, tt));
  tree = refl;
}

vma_area_hang-IsVma_example :
    ((vma_area_hang sorted_lists areas two 192).0 ≡ success)
    × IsVma sorted_lists areas (vma_area_hang sorted_lists areas two 192).1
    × ((vma_area_hang sorted_lists areas two 192).1.l_list
        ≡ front areas 8192 two.l_list ++ (192 ∷ rear areas 8192 two.l_list))
vma_area_hang-IsVma_example =
    vma_area_hang-IsVma sorted_lists two-IsVma 192 (omega arith, omega arith) refl

vma_area_hang_overlap_example : vma_area_hang sorted_lists areas two 256 ≡ (eexist, two)
vma_area_hang_overlap_example =
    vma_area_hang_overlap sorted_lists 256 two-IsVma (omega arith, omega arith) refl

abbrev eight : Config
eight = aco_os.Buddy.Sample.config

abbrev eight-IsConfig : IsConfig eight
eight-IsConfig = aco_os.Buddy.Sample.config-IsConfig

abbrev eight_hw : Hw
eight_hw = sv39 eight aco_os.Buddy.Sample.config-IsConfig (omega arith) (omega arith)

-- No page is mapped.
abbrev hw : Hw
hw = sv39 config config-IsConfig (omega arith) (omega arith)

abbrev kernel : World (ℕ → ℕ → ℕ)
kernel = record { memory = memory; cache = cache; areas = areas; tables = λ t i. 0 }

vm_check-IsVma_example : vm_check sorted_lists areas 1024 512 two ≡ success
unfolding aco_os.Pageframe.val_is_page_aligned
vm_check-IsVma_example = vm_check-IsVma sorted_lists two-IsVma 1024 512

vm_iomap_managed_example :
    vm_iomap config hw sorted_lists (λ _. 0) 64 1024 two (2 ^ 32 + 4096) (2 ^ 33) 1 4096 kernel
    ≡ ok (eperm, two, kernel)
vm_iomap_managed_example =
    vm_iomap_managed config hw sorted_lists (λ _. 0) 64 two kernel 1024 (2 ^ 32 + 4096) (2 ^ 33) 1
      4096 config-IsConfig.layout (omega arith) (omega arith)
      (inl (2 ^ 32 + 4096, omega arith, omega arith, omega arith, omega arith))

vma_area_unhang-IsVma_example :
    IsVma sorted_lists areas (vma_area_unhang sorted_lists two 64)
    × ((vma_area_unhang sorted_lists two 64).l_list ≡ 128 ∷ [])
vma_area_unhang-IsVma_example = vma_area_unhang-IsVma sorted_lists two-IsVma 64 refl

find_area-IsVma_example :
    (find_area sorted_lists areas two 16384 8192 ≡ some 128)
    × (find_area sorted_lists areas two 16384 4096 ≡ none)
find_area-IsVma_example = find_area-IsVma sorted_lists two-IsVma 128 16384 4096 refl refl

vm_unmap_area_lem_example :
    (vm_unmap_area config hw sorted_lists (λ _. 0) 64 two 16384 8192 vma_memory true kernel
      ≡ ok (eperm, two, kernel))
    × (vm_unmap_area config hw sorted_lists (λ _. 0) 64 two 16384 4096 vma_memory true kernel
        ≡ ok (enobufs, two, kernel))
unfolding aco_os.Pageframe.val_is_page_aligned
vm_unmap_area_lem_example =
    vm_unmap_area_lem config hw sorted_lists (λ _. 0) 64 two kernel 128 16384 4096 vma_memory true
      two-IsVma refl refl refl refl

-- The page frames 511 and 512 get an area; the pages 0 and 1 are mapped.
vm_mmap_area-Installed_example :
    Returns
      (Installed eight eight_hw sorted_lists
        (TablesFind eight eight-IsConfig (omega arith) (omega arith) root (
          with_area eight eight-IsConfig
            (omega arith)
            (omega arith)
            511
            2
            81920
            1
            world.tables
            root))
        true
        vma
        (vma_area_val_init vma_io (511 * page_size) 81920 (2 * page_size) none 1)
        world)
      (vm_mmap_area eight eight_hw sorted_lists
        (λ _. 0)
        64
        vma
        (511 * page_size)
        81920
        1
        (2 * page_size)
        vma_io
        true
        world)
vm_mmap_area-Installed_example =
    vm_mmap_area-Installed eight eight-IsConfig (omega arith) (omega arith) (omega arith)
      sorted_lists (λ _. 0) 64 (omega arith) vma world world-IsWorld world-HasTables 511 2 81920 1
      vma_io true (inr refl) (omega arith) (omega arith) refl (omega arith) space_unmapped

vm_unmap_area-Removed_example :
    Returns
      (Removed eight eight_hw sorted_lists
        (TablesFind eight eight-IsConfig
          (omega arith)
          (omega arith)
          root
          (without_area eight eight-IsConfig (omega arith) (omega arith) 0 2 world.tables root))
        true
        vma
        world
        only)
      (vm_unmap_area eight eight_hw sorted_lists (λ _. 0) 64 vma 0 8192 vma_io true world)
vm_unmap_area-Removed_example =
    vm_unmap_area-Removed eight eight-IsConfig (omega arith) (omega arith) (omega arith)
      sorted_lists (λ _. 0) 64 (omega arith) vma world world-IsWorld world-HasTables only 0 2 true
      refl refl refl (inr refl) (omega arith) (omega arith) (omega arith)
      (λ p lo hi. space_mapped p hi)

free_areas-Emptied_example :
    Returns
      (λ (v, s).
        (v.l_list ≡ [])
        × (s.areas ≡ world.areas)
        × ((f : ℕ → List ℕ) × IsWorld eight sorted_lists v s f)
        × HasTables eight eight-IsConfig (omega arith) (omega arith) root s.memory.buddy s.tables)
      (free_areas eight eight_hw sorted_lists (λ _. 0) 64 (only ∷ []) vma world)
free_areas-Emptied_example =
    free_areas-Emptied eight eight-IsConfig (omega arith) (omega arith) (omega arith) sorted_lists
      (λ _. 0) 64 (omega arith) vma world (λ _. 1 ∷ []) world-IsWorld (omega arith) world-HasTables
      (λ x m. (
        inr refl,
        record {
          page = 0;
          count = 2;
          va = refl;
          size = refl;
          below = omega arith;
          valid = λ p lo hi. space_mapped p hi;
        },
      ))
