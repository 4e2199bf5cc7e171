-- ===== src/Vma/Map/Sv39.antt =====
-- hw_mmap, hw_unmap and hw_unmap_all of include/mm/vm.h on the tables of arch/riscv/mm/vm.c, whose
-- pages come from mm/buddy.
use aco_os.Base.{
  ℕ, ◌+◌, ◌-◌, ◌*◌, ◌%◌, ◌^◌, ◌≤◌, ◌<◌, ◌≡◌, inl, inr, refl, true, false, if◌then◌else◌, List,
  arith,
}
use aco_os.Base.Errno.{Errno}
use aco_os.Base.Run.{Run, ok, ◌>>=◌, returns, Returns-bind}
use aco_os.Pageframe.{page_size}
use aco_os.Buddy.{Config, State}
use aco_os.Buddy.Neighbour.{IsConfig}
use aco_os.Buddy.Invariant.{IsBuddy}
use aco_os.KmemCache.{Cache, Memory}
use aco_os.KmemCache.Invariant.{IsCache, IsCache-Memory}
use aco_os.Sv39.{pte_valid, pa2pte}
use aco_os.Sv39.Backing.{KeepsOthers}
use aco_os.Sv39.Others.{pages_from, tables_at, buddy, IsRoot-from, IsRoot-after}
use aco_os.Sv39.Walk.{arch_hw_mmap, arch_hw_unmap, arch_hw_unmap_all}
use aco_os.Sv39.Tree.{Shape, lookup}
use aco_os.Sv39.Grown.{in_run}
use aco_os.Sv39.Walk.Found.{IsRoot}
use aco_os.Sv39.Walk.Mapping.{arch_hw_mmap-Finds, arch_hw_unmap-Finds}
use aco_os.Vma.{Area}
use aco_os.Vma.Map.{Hw}
use aco_os.Vma.Map.Parts.{Maps}
use aco_os.Vma.Map.Removal.{Unmaps}

module _ (c : Config) (wf : IsConfig c) (some_order : 0 < c.max_order)
    (low : c.layout.pa_start + c.layout.size ≤ 2 ^ 56) where
  pub hw_mmap_sv39 : ℕ → ℕ → ℕ → ℕ → ℕ → Memory × (ℕ → ℕ → ℕ) → Run (Errno × Memory × (ℕ → ℕ → ℕ))
  hw_mmap_sv39 pgtable va pa prot size (m, ptes) = do
    (ret, s) ←
        arch_hw_mmap (pages_from c wf some_order low m.buddy) pgtable va pa prot size
          (tables_at c wf some_order low m.buddy ptes)
    ok (ret, record m { buddy = s.state }, s.ptes)

  pub hw_unmap_sv39 : ℕ → ℕ → ℕ → Memory × (ℕ → ℕ → ℕ) → Run (Memory × (ℕ → ℕ → ℕ))
  hw_unmap_sv39 pgtable va size (m, ptes) = do
    s ←
        arch_hw_unmap (pages_from c wf some_order low m.buddy) pgtable va size
          (tables_at c wf some_order low m.buddy ptes)
    ok (record m { buddy = s.state }, s.ptes)

  pub hw_unmap_all_sv39 : ℕ → Memory × (ℕ → ℕ → ℕ) → Run (Memory × (ℕ → ℕ → ℕ))
  hw_unmap_all_sv39 pgtable (m, ptes) = do
    s ←
        arch_hw_unmap_all (pages_from c wf some_order low m.buddy) pgtable
          (tables_at c wf some_order low m.buddy ptes)
    ok (record m { buddy = s.state }, s.ptes)

  abbrev pub sv39 : Hw
  sv39 = record {
    Tables = ℕ → ℕ → ℕ;
    hw_mmap = hw_mmap_sv39;
    hw_unmap = hw_unmap_sv39;
    hw_unmap_all = hw_unmap_all_sv39;
  }

  -- The tables form a tree with this root.
  abbrev pub HasTables : ℕ → State → (ℕ → ℕ → ℕ) → Type 0
  HasTables root b ptes =
      (h : Shape) × IsRoot (buddy c wf some_order low) h (tables_at c wf some_order low b ptes) root

  -- The entry that a walk finds for a page, 0 if there is none.
  abbrev pub entry_of : ℕ → (ℕ → ℕ → ℕ) → ℕ → ℕ
  entry_of root ptes p = lookup (buddy c wf some_order low) ptes root p

  -- The same, where the walk for each page finds what `f` says.
  abbrev pub TablesFind : ℕ → (ℕ → ℕ) → State → (ℕ → ℕ → ℕ) → Type 0
  TablesFind root f b ptes =
      HasTables root b ptes × ((p : ℕ) → p < 2 ^ 27 → entry_of root ptes p ≡ f p)

  -- The slabs of a cache lie in frames that the tables leave alone.
  IsCache-after :
      (k : Cache) (m : Memory) (free_of : ℕ → List ℕ) (b : State)
      → IsCache c k m free_of
      → IsBuddy c b × KeepsOthers c m.buddy b
      → IsCache c k (record m { buddy = b }) free_of
  IsCache-after k m free_of b cache (inv, kept) =
      IsCache-Memory c k m (record m { buddy = b }) free_of cache inv
        λ q l.
          let s = cache.holds q l in (kept q s.in_range s.in_use (ground (arith, s.kind)), refl)

  -- What a walk finds when the area is mapped, and when it is unmapped.
  abbrev pub with_area : ℕ → ℕ → ℕ → ℕ → (ℕ → ℕ → ℕ) → ℕ → ℕ → ℕ
  with_area n count pa prot ptes root p =
      if in_run n count p then pa2pte (pa + (p - n) * page_size) prot else entry_of root ptes p

  abbrev pub without_area : ℕ → ℕ → (ℕ → ℕ → ℕ) → ℕ → ℕ → ℕ
  without_area n count ptes root p = if in_run n count p then 0 else entry_of root ptes p

  pub hw_mmap_sv39-Maps :
      (root : ℕ) (a : Area) (n count : ℕ) (m : Memory) (ptes : ℕ → ℕ → ℕ)
      → HasTables root m.buddy ptes
      → a.va ≡ n * page_size
      → a.size ≡ count * page_size
      → n + count ≤ 2 ^ 27
      → a.pa % page_size ≡ 0
      → a.pa + count * page_size < 2 ^ 64
      → ((p : ℕ) → n ≤ p → p < n + count → pte_valid (entry_of root ptes p) ≡ false)
      → Maps sv39 c (TablesFind root (with_area n count a.pa a.prot ptes root)) root a m ptes
  unfolding hw_mmap_sv39 lookup
  hw_mmap_sv39-Maps root a n count m ptes (h, r) va size fits aligned fits_pa free k f cache =
      rw (va, size)
        (Returns-bind
          (arch_hw_mmap-Finds (pages_from c wf some_order low m.buddy)
            (IsRoot-from c wf some_order low m.buddy ptes r) n count a.pa a.prot (omega arith) fits
            aligned fits_pa free)
          λ (ret, s) o. elim o [
            | inl (good, ((h', r'), finds)) ↦ rw good (
                returns (
                  refl,
                  IsCache-after k m f s.state cache r'.tree.state,
                  (λ q l. refl),
                  λ e. ((h', IsRoot-after c wf some_order low m.buddy s.state s.ptes r'), finds),
                ))
            | inr (bad, ((h', r'), _, _)) ↦ rw bad (
                returns (
                  refl,
                  IsCache-after k m f s.state cache r'.tree.state,
                  (λ q l. refl),
                  λ e. absurd (ground (arith, e)),
                ))
          ])

  pub hw_unmap_sv39-Unmaps :
      (root : ℕ) (a : Area) (n count : ℕ) (m : Memory) (ptes : ℕ → ℕ → ℕ)
      → HasTables root m.buddy ptes
      → a.va ≡ n * page_size
      → a.size ≡ count * page_size
      → n + count ≤ 2 ^ 27
      → ((p : ℕ) → n ≤ p → p < n + count → pte_valid (entry_of root ptes p) ≡ true)
      → Unmaps sv39 c (TablesFind root (without_area n count ptes root)) root a m ptes
  unfolding hw_unmap_sv39 lookup
  hw_unmap_sv39-Unmaps root a n count m ptes (h, r) va size fits mapped k f cache =
      rw (va, size)
        (Returns-bind
          (arch_hw_unmap-Finds (pages_from c wf some_order low m.buddy)
            (IsRoot-from c wf some_order low m.buddy ptes r) n count (omega arith) fits mapped)
          λ s ((h', r'), finds). returns (
            IsCache-after k m f s.state cache r'.tree.state,
            (λ q l. refl),
            ((h', IsRoot-after c wf some_order low m.buddy s.state s.ptes r'), finds),
          ))
