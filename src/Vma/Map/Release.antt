-- ===== src/Vma/Map/Release.antt =====
-- vma_free of module/mm/vm/vm.c.
use aco_os.Base.{
  ℕ, ◌≤◌, ◌<◌, ◌≡◌, refl, true, ◌||◌, not, ◌==◌, if◌then◌else◌, List, [], ◌∷◌, remove, ◌∈◌, arith,
  subst, sym, ◌∙◌, ap,
}
use aco_os.Base.Run.{Run, ok, ◌>>=◌, Returns, returns, Returns-bind}
use aco_os.Buddy.{Config, State}
use aco_os.Buddy.Neighbour.{IsConfig}
use aco_os.KmemCache.{Cache, Memory, kmem_obj_free}
use aco_os.Avl.{Avl}
use aco_os.Vma.{Area, Vma, vma_area_unhang}
use aco_os.Vma.Find.{vma_area_unhang-IsVma}
use aco_os.Vma.Map.{Hw, World, unmap_area, free_area}
use aco_os.Vma.Map.Parts.{IsWorld, Unmanaged}
use aco_os.Vma.Map.Removal.{Unmaps, u, unmap_area-Unmapped, freed, moved}

module _ (c : Config) (hw : Hw) (avl : Avl) (beyond : ℕ → ℕ) (vma_area_cache : ℕ) where
  -- The loop: it reads the next area before it takes one out, so it goes through the list as it was.
  pub free_areas : List ℕ → Vma avl.Tree → World hw.Tables → Run (Vma avl.Tree × World hw.Tables)
  free_areas [] v w = ok (v, w)
  free_areas (x ∷ xs) v w = do
    t ← unmap_area c hw (w.areas x).vmar_typ v.hw_pgtable x w
    s ← free_area c hw avl beyond vma_area_cache x t
    free_areas xs (vma_area_unhang avl v x) s

  -- `vma` is the address of `v`, an object of vma_cache, `kern_vma` that of the kernel's. The bytes of
  -- the object, which are cleared, are its own no more.
  pub vma_free : ℕ → ℕ → ℕ → Vma avl.Tree → Cache → World hw.Tables → Run (Cache × World hw.Tables)
  vma_free vma_cache vma kern_vma v k w =
      if (vma == 0) || ((vma == kern_vma) || not (v.kernel_vma == kern_vma)) then ok (k, w) else (do
        (v', s) ← free_areas v.l_list v w
        (m, t) ← hw.hw_unmap_all v'.hw_pgtable (s.memory, s.tables)
        (k', m') ← kmem_obj_free c vma_cache vma k m
        ok (k', record s { memory = m'; tables = t }))

module _ (c : Config) (hw : Hw) (avl : Avl) (beyond : ℕ → ℕ) (vma_area_cache : ℕ) (wf : IsConfig c)
    (few : c.max_order ≤ 19) (some_cache : 0 < vma_area_cache) (areas : ℕ → Area) (pgtable : ℕ)
    (Q : List ℕ → State → hw.Tables → Type 0) where
  -- No area is left, and `Q` holds of none.
  abbrev pub Emptied : Vma avl.Tree × World hw.Tables → Type 0
  Emptied (v', s) =
      (v'.l_list ≡ [])
      × (s.areas ≡ areas)
      × ((f : ℕ → List ℕ) × IsWorld c avl v' s f)
      × Q [] s.memory.buddy s.tables

  -- `Q` holds of the areas that are left, the allocator and the tables.
  pub free_list-Emptied :
      ((x : ℕ) (xs : List ℕ) (m : Memory) (t : hw.Tables)
        → Q (x ∷ xs) m.buddy t
        → Unmaps hw c (Q xs) pgtable (areas x) m t)
      → (xs : List ℕ) (v : Vma avl.Tree) (w : World hw.Tables) (fr : ℕ → List ℕ) → v.l_list ≡ xs
      → v.hw_pgtable ≡ pgtable
      → w.areas ≡ areas
      → IsWorld c avl v w fr
      → ((x : ℕ) → x ∈ xs → Unmanaged (areas x).vmar_typ)
      → Q xs w.memory.buddy w.tables
      → Returns Emptied (free_areas c hw avl beyond vma_area_cache xs v w)
  unfolding free_areas u vma_area_unhang
  free_list-Emptied step [] v w fr e at same h unmanaged q = returns (e, same, (fr, h), q)
  free_list-Emptied step (x ∷ xs) v w fr e at same h unmanaged q =
      let here : x ∈ (x ∷ xs) = ground arith in
      let mem : x ∈ v.l_list = subst (λ r. x ∈ r) (sym e) here in
      let (isv, list) = vma_area_unhang-IsVma avl h.vma x mem in
      let equal : (x == x) ≡ true = ground arith in
      let first : remove x (x ∷ xs) ≡ xs = rw equal refl in
      let rest : (vma_area_unhang avl v x).l_list ≡ xs = list ∙ (ap (λ r. remove x r) e ∙ first) in
      let type : Unmanaged (w.areas x).vmar_typ =
        subst (λ (a : ℕ → Area). Unmanaged (a x).vmar_typ) (sym same) (unmanaged x here) in
      let unmaps : Unmaps hw c (Q xs) v.hw_pgtable (w.areas x) w.memory w.tables =
        subst (λ (a : ℕ → Area). Unmaps hw c (Q xs) v.hw_pgtable (a x) w.memory w.tables) (sym same)
          (subst (λ r. Unmaps hw c (Q xs) r (areas x) w.memory w.tables) (sym at)
            (step x xs w.memory w.tables q)) in
      Returns-bind
        (unmap_area-Unmapped c hw avl beyond vma_area_cache wf few some_cache (Q xs)
          (w.areas x).vmar_typ v.hw_pgtable x w fr type h.cache unmaps)
        λ t (areas_t, cache, keep, good).
          Returns-bind
            (freed c hw avl beyond vma_area_cache wf few some_cache (Q xs) v w fr h x mem t areas_t
              cache keep)
            λ s (areas_s, (f, world), buddy, tables).
              free_list-Emptied step xs (vma_area_unhang avl v x) s f rest at (areas_s ∙ same) world
                (λ y m. unmanaged y (ground (arith, m)))
                (moved c hw avl beyond vma_area_cache wf few some_cache (Q xs) v w fr h x mem s t
                  buddy tables good)
