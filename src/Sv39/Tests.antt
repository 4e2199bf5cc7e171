-- ===== src/Sv39/Tests.antt =====
-- The page at 0x80200000 with read and execute rights, and tables that map two pages: the theorems at
-- them.
use aco_os.Base.{ℕ, ◌+◌, ◌-◌, ◌*◌, ◌/◌, ◌%◌, ◌^◌, ◌<◌, ◌≡◌, ◌⊎◌, true, refl, if◌then◌else◌, arith}
use aco_os.Base.Errno.{success, enomem}
use aco_os.Base.Run.{Returns}
use aco_os.Pageframe.{page_size}
use aco_os.Sv39.{pte_valid, pte_nextpgt, pa2pte, pte2pa, pgt2satp, satp2pgt}
use aco_os.Sv39.Fields.{pte2pa-pa2pte, pte_nextpgt-pa2pte, satp2pgt-pgt2satp, index2id_unique}
use aco_os.Sv39.Walk.{arch_hw_mmap, arch_hw_unmap, arch_hw_unmap_all}
use aco_os.Sv39.Tree.{Shape, lookup}
use aco_os.Sv39.Walk.Found.{IsRoot}
use aco_os.Sv39.Walk.Free.{Childless, arch_hw_unmap_all-Finds}
use aco_os.Sv39.Grown.{in_run}
use aco_os.Sv39.Walk.Mapping.{Finds, Undone, arch_hw_mmap-Finds, arch_hw_unmap-Finds}
use aco_os.Sv39.Sample.{sample, space, root, space-IsRoot, space_mapped, space_unmapped}

abbrev page : ℕ
page = 2149580800

pte2pa-pa2pte_example :
    (pte2pa (pa2pte page 11) ≡ page) × (pa2pte page 11 % 2 ^ 10 ≡ 11) × (pa2pte page 11 < 2 ^ 54)
pte2pa-pa2pte_example = pte2pa-pa2pte page 11 refl (omega arith) (omega arith)

pte_nextpgt-pa2pte_example :
    (pte_nextpgt (pa2pte page 1) ≡ true)
    × (pte_valid (pa2pte page 11) ≡ pte_valid 11)
    × (pte_nextpgt (pa2pte page 11) ≡ pte_nextpgt 11)
pte_nextpgt-pa2pte_example = pte_nextpgt-pa2pte page 11 (omega arith)

satp2pgt-pgt2satp_example : (satp2pgt (pgt2satp page) ≡ page) × (pgt2satp page / 2 ^ 60 ≡ 8)
satp2pgt-pgt2satp_example = satp2pgt-pgt2satp page refl (omega arith)

index2id_unique_example : ◌≡◌ {A = ℕ} page page
index2id_unique_example = index2id_unique page page (omega arith) (omega arith) refl refl refl refl

arch_hw_mmap-Finds_example :
    Returns
      (λ (ret, s').
        ((ret ≡ success)
          × Finds sample root
              (λ m.
                if in_run 511 2 m
                then pa2pte (81920 + (m - 511) * page_size) 15
                else lookup sample space.ptes root m)
              s')
        ⊎ ((ret ≡ enomem) × Undone sample root space 511 2 s'))
      (arch_hw_mmap sample root (511 * page_size) 81920 15 (2 * page_size) space)
arch_hw_mmap-Finds_example =
    arch_hw_mmap-Finds sample space-IsRoot 511 2 81920 15 (omega arith) (omega arith) refl
      (omega arith) space_unmapped

arch_hw_unmap-Finds_example :
    Returns
      (Finds sample root (λ m. if in_run 0 2 m then 0 else lookup sample space.ptes root m))
      (arch_hw_unmap sample root (0 * page_size) (2 * page_size) space)
arch_hw_unmap-Finds_example =
    arch_hw_unmap-Finds sample space-IsRoot 0 2 (omega arith) (omega arith)
      (λ m lo hi. space_mapped m hi)

arch_hw_unmap_all-Finds_example :
    Returns
      (λ s'.
        ((h' : Shape) × IsRoot sample h' s' root × ((j : ℕ) → j < 512 → Childless sample h' root j))
        × ((m : ℕ) → m < 2 ^ 27 → lookup sample s'.ptes root m ≡ 0))
      (arch_hw_unmap_all sample root space)
arch_hw_unmap_all-Finds_example = arch_hw_unmap_all-Finds sample space-IsRoot
