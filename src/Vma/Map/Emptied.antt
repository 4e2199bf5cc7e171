-- ===== src/Vma/Map/Emptied.antt =====
-- The loop of vma_free of module/mm/vm/vm.c on the tables of arch/riscv/mm/vm.c, over mm/buddy and the
-- cache of areas.
use aco_os.Base.{
  ℕ, ◌+◌, ◌*◌, ◌^◌, ◌≤◌, ◌<◌, ◌≡◌, refl, true, false, List, [], ◌∷◌, length, ◌∈◌, arith, subst, sym,
  ◌∙◌,
}
use aco_os.Base.Int.{pos_part}
use aco_os.Base.Run.{Returns, Returns-mono}
use aco_os.Pageframe.{page_size}
use aco_os.Buddy.{Config, State}
use aco_os.Buddy.Neighbour.{IsConfig}
use aco_os.KmemCache.{Memory}
use aco_os.Sv39.{pte_valid}
use aco_os.Sv39.Grown.{in_run}
use aco_os.Avl.{Avl}
use aco_os.Vma.{Area, Vma}
use aco_os.Vma.Order.{Sorted, Behind-mem}
use aco_os.Vma.Map.{World}
use aco_os.Vma.Map.Parts.{IsWorld, Unmanaged}
use aco_os.Vma.Map.Removal.{Unmaps}
use aco_os.Vma.Map.Release.{free_areas, free_list-Emptied}
use aco_os.Vma.Map.Sv39.{sv39, HasTables, TablesFind, entry_of, without_area, hw_unmap_sv39-Unmaps}

module _ (c : Config) (wf : IsConfig c) (some_order : 0 < c.max_order)
    (low : c.layout.pa_start + c.layout.size ≤ 2 ^ 56) where
  -- The area is a run of pages below 2^39, and a walk finds an entry for each of them.
  pub record IsMapped (root : ℕ) (ptes : ℕ → ℕ → ℕ) (a : Area) : Type 0 where
    pub page : ℕ
    pub count : ℕ
    pub va : a.va ≡ page * page_size
    pub size : a.size ≡ count * page_size
    pub below : page + count ≤ 2 ^ 27
    pub valid :
        (p : ℕ)
        → page ≤ p
        → p < page + count
        → pte_valid (entry_of c wf some_order low root ptes p) ≡ true

  -- The tables form a tree, and the areas of the list are apart and mapped.
  record AreMapped (areas : ℕ → Area) (root : ℕ) (xs : List ℕ) (b : State) (ptes : ℕ → ℕ → ℕ)
      : Type 0 where
    tables : HasTables c wf some_order low root b ptes
    sorted : Sorted areas xs
    mapped : (x : ℕ) → x ∈ xs → IsMapped root ptes (areas x)

  AreMapped-rest :
      (areas : ℕ → Area) (root x : ℕ) (xs : List ℕ) (b b' : State) (ptes ptes' : ℕ → ℕ → ℕ)
      → (q : AreMapped areas root (x ∷ xs) b ptes) → (r : IsMapped root ptes (areas x))
      → TablesFind c wf some_order low root
          (without_area c wf some_order low r.page r.count ptes root)
          b'
          ptes'
      → AreMapped areas root xs b' ptes'
  AreMapped-rest areas root x xs b b' ptes ptes' q r (tables, finds) = record {
    tables = tables;
    sorted = q.sorted.2;
    mapped = λ y m.
        let o = q.mapped y (ground (arith, m)) in
        let behind = Behind-mem areas ((areas x).va + (areas x).size) y xs q.sorted.1 m in
        record {
          page = o.page;
          count = o.count;
          va = o.va;
          size = o.size;
          below = o.below;
          valid = λ p lo hi.
              let out : in_run r.page r.count p ≡ false =
                ground (arith, behind, r.va, r.size, o.va, lo) in
              let same = finds p (omega (arith, hi, o.below)) in
              let now : entry_of c wf some_order low root ptes' p
                  ≡ entry_of c wf some_order low root ptes p =
                same ∙ rw out refl in
              subst (λ (e : ℕ). pte_valid e ≡ true) (sym now) (o.valid p lo hi);
        };
  }

  AreMapped-Unmaps :
      (areas : ℕ → Area) (root x : ℕ) (xs : List ℕ) (m : Memory) (ptes : ℕ → ℕ → ℕ)
      → AreMapped areas root (x ∷ xs) m.buddy ptes
      → Unmaps (sv39 c wf some_order low) c (AreMapped areas root xs) root (areas x) m ptes
  AreMapped-Unmaps areas root x xs m ptes q k f cache =
      let r = q.mapped x (ground arith) in
      Returns-mono
        (hw_unmap_sv39-Unmaps c wf some_order low root (areas x) r.page r.count m ptes q.tables r.va
          r.size r.below r.valid k f cache)
        λ (m', ptes') (cache', slabs, finds).
          (cache', slabs, AreMapped-rest areas root x xs m.buddy m'.buddy ptes ptes' q r finds)

  -- Where the layout and MAX_ORDER are well formed, MAX_ORDER is from 1 to 19 and memory has physical
  -- addresses below 2^56; the cache of areas is well formed and has room below 2^31 for the count of all
  -- areas; the areas of the vma are apart, in order, objects of the cache, kernel or io areas, runs of
  -- pages below 2^39, and mapped by page tables that form a tree: the loop of vma_free fails no ASSERT
  -- and leaves no area; the cache is well formed again, what the areas' objects held stays, and the page
  -- tables form a tree again.
  pub free_areas-Emptied :
      (few : c.max_order ≤ 19) (avl : Avl) (beyond : ℕ → ℕ) (vma_area_cache : ℕ)
      (some_cache : 0 < vma_area_cache) (v : Vma avl.Tree) (w : World (ℕ → ℕ → ℕ)) (fr : ℕ → List ℕ)
      → IsWorld c avl v w fr
      → pos_part w.cache.obj_num + length v.l_list < 2 ^ 31
      → HasTables c wf some_order low v.hw_pgtable w.memory.buddy w.tables
      → ((x : ℕ)
          → x ∈ v.l_list
          → Unmanaged (w.areas x).vmar_typ × IsMapped v.hw_pgtable w.tables (w.areas x))
      → Returns
          (λ (v', s).
            (v'.l_list ≡ [])
            × (s.areas ≡ w.areas)
            × ((f : ℕ → List ℕ) × IsWorld c avl v' s f)
            × HasTables c wf some_order low v.hw_pgtable s.memory.buddy s.tables)
          (free_areas c (sv39 c wf some_order low) avl beyond vma_area_cache v.l_list v w)
  free_areas-Emptied few avl beyond vma_area_cache some_cache v w fr h int tables each =
      Returns-mono
        (free_list-Emptied c (sv39 c wf some_order low) avl beyond vma_area_cache wf few some_cache
          w.areas v.hw_pgtable (AreMapped w.areas v.hw_pgtable)
          (λ x xs m t q. AreMapped-Unmaps w.areas v.hw_pgtable x xs m t q) v.l_list v w fr refl refl
          refl h (λ x m. (each x m).0)
          (record { tables = tables; sorted = h.vma.sorted; mapped = λ x m. (each x m).1 }))
        λ (v', s) (none_left, same, world, q). (none_left, same, world, q.tables)
