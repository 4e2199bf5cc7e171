-- ===== src/Vma/Map/Install.antt =====
-- __vm_mmap of module/mm/vm/vm.c with the cache of areas: an area is made and hung in, or nothing is.
use aco_os.Base.{
  ℕ, ◌+◌, ◌^◌, ◌≤◌, ◌<◌, ◌≡◌, ◌≢◌, ◌⊎◌, inl, inr, refl, Bool, true, false, ◌&&◌, ◌==◌, ltb, List,
  [], ◌∷◌, ◌++◌, update, has, ◌∈◌, ◌∉◌, arith, Bool-cases, none, subst, sym, ◌∙◌, ap,
}
use aco_os.Base.Errno.{Errno, success}
use aco_os.Base.Run.{Returns, returns, Returns-bind, Returns-mono}
use aco_os.Pageframe.{val_is_page_aligned}
use aco_os.Buddy.{Config, State}
use aco_os.Buddy.Neighbour.{IsConfig}
use aco_os.Buddy.Invariant.{IsBuddy}
use aco_os.KmemCache.{Memory}
use aco_os.KmemCache.Objects.{KeepsHeld, kmem_obj_alloc-KeepsHeld}
use aco_os.Avl.{Avl}
use aco_os.Vma.{Area, Vma, AreaType, vma_area_val_init}
use aco_os.Vma.Order.{IsArea, Behind, Sorted, IsVma, front, rear}
use aco_os.Vma.Map.{Hw, World, type_number, is_ok, vm_mmap_area}
use aco_os.Vma.Map.Parts.{IsWorld, Maps, Unmanaged, mem_differs, Hung, hang_and_map-Hung}

module _ (areas : ℕ → Area) (x : ℕ) (a : Area) where
  Behind-update :
      (e : ℕ) (ys : List ℕ) → x ∉ ys → Behind areas e ys → Behind (update areas x a) e ys
  Behind-update e [] out b = tt
  Behind-update e (y ∷ ys) out b = ground (arith, Behind-update e ys)

  Sorted-update : (ys : List ℕ) → x ∉ ys → Sorted areas ys → Sorted (update areas x a) ys
  Sorted-update [] out s = tt
  Sorted-update (y ∷ ys) out s =
      let differ : (x == y) ≡ false = ground arith in
      rw differ (
        s.0,
        Behind-update ((areas y).va + (areas y).size) ys (ground arith) s.1,
        Sorted-update ys (ground arith) s.2,
      )

not_mem : (x : ℕ) (ys : List ℕ) → ((y : ℕ) → y ∈ ys → y ≢ x) → x ∉ ys
not_mem x ys h = elim (Bool-cases (has x ys)) [ inr e ↦ e | inl e ↦ absurd (h x e refl) ]

module _ (c : Config) (hw : Hw) (avl : Avl) (Q : State → hw.Tables → Type 0) where
  -- The areas of `v` stay what they are. With 0 there is one more, `a`, behind those that end before
  -- it, and `Q` holds if it was to be mapped; otherwise the list is as it was.
  abbrev pub Installed :
      Bool → Vma avl.Tree → Area → World hw.Tables → Errno × Vma avl.Tree × World hw.Tables → Type 0
  Installed need_hwmap v a w (ret, u, s) =
      ((y : ℕ) → y ∈ v.l_list → s.areas y ≡ w.areas y)
      × ((f : ℕ → List ℕ) × IsWorld c avl u s f)
      × (((ret ≡ success)
            × ((x : ℕ) × (s.areas x ≡ a)
                × (u.l_list ≡ front s.areas a.va v.l_list ++ (x ∷ rear s.areas a.va v.l_list)))
            × (need_hwmap ≡ true → Q s.memory.buddy s.tables))
          ⊎ ((is_ok ret ≡ false) × (u.l_list ≡ v.l_list)))

module _ (c : Config) (hw : Hw) (avl : Avl) (beyond : ℕ → ℕ) (vma_area_cache : ℕ) (wf : IsConfig c)
    (few : c.max_order ≤ 19) (some_cache : 0 < vma_area_cache)
    (Q : State → hw.Tables → Type 0) where
  module _ (v : Vma avl.Tree) (w : World hw.Tables) {fr : ℕ → List ℕ}
      (h : IsWorld c avl v w fr) where
    update_keeps :
        (x : ℕ) (a : Area)
        → x ∉ v.l_list
        → (y : ℕ) → y ∈ v.l_list
        → update w.areas x a y ≡ w.areas y
    update_keeps x a out y m =
        let differ : (y == x) ≡ false = ground (arith, mem_differs x y v.l_list out m) in
        ground (arith, differ)

    Hung-Installed :
        (need_hwmap : Bool) (x : ℕ) (a : Area) (t : World hw.Tables)
        → x ∉ v.l_list
        → t.areas ≡ update w.areas x a
        → (r : Errno × Vma avl.Tree × World hw.Tables)
        → Hung c hw avl beyond vma_area_cache wf few some_cache Q need_hwmap v t x r
        → Installed c hw avl Q need_hwmap v a w r
    Hung-Installed need_hwmap x a t out made (ret, u, s) (areas, world, o) =
        let l = v.l_list in
        let same = areas ∙ made in
        let made_x : update w.areas x a x ≡ a = ground arith in
        let here : s.areas x ≡ a = ap (λ f. f x) same ∙ made_x in
        (
          λ y m. ap (λ f. f y) same ∙ update_keeps x a out y m,
          world,
          elim o [
            | inr kept ↦ inr kept
            | inl (done, list, mapped) ↦
                let list' =
                  subst (λ r. u.l_list ≡ front r (r x).va l ++ (x ∷ rear r (r x).va l)) (sym areas)
                    list in
                inl (
                  done,
                  (
                    x,
                    here,
                    subst (λ b. u.l_list ≡ front s.areas b.va l ++ (x ∷ rear s.areas b.va l)) here
                        list',
                  ),
                  mapped,
                )
          ],
        )

    -- __vm_mmap over any page tables. At the memory when an object was taken for the area, they are asked
    -- to leave the cache alone, and to find no page of the area mapped.
    pub vm_mmap_area-Hung :
        (va pa prot size : ℕ) (type : AreaType) (need_hwmap : Bool)
        → (ltb 0 size
            && (val_is_page_aligned va && (val_is_page_aligned pa && val_is_page_aligned size)))
          ≡ true
        → va + size < 2 ^ 64
        → Unmanaged type
        → ((m : Memory)
            → IsBuddy c m.buddy
            → KeepsHeld c w.memory m
            → Maps hw c Q v.hw_pgtable (vma_area_val_init type va pa size none prot) m w.tables)
        → Returns
            (Installed c hw avl Q need_hwmap v (vma_area_val_init type va pa size none prot) w)
            (vm_mmap_area c hw avl beyond vma_area_cache v va pa prot size type need_hwmap w)
    unfolding vm_mmap_area vma_area_val_init
    vm_mmap_area-Hung va pa prot size type need_hwmap sane fits unmanaged maps =
        let a = vma_area_val_init type va pa size none prot in
        let known : ltb (type_number type) 3 ≡ true = elim unmanaged [
          | inl e ↦ rw e refl
          | inr e ↦ rw e refl
        ] in
        rw (sane, known)
          (Returns-bind (kmem_obj_alloc-KeepsHeld wf few h.cache vma_area_cache some_cache beyond)
            λ (x, k, m) ((f, cache, given, keep), held). elim (Bool-cases (x == 0)) [
              | inl e ↦ rw e (
                  returns (
                    λ y m. refl,
                    (
                      f,
                      record {
                        vma = h.vma;
                        cache = cache;
                        owned = λ y m. (keep y (h.owned y m)).0;
                      },
                    ),
                    inr (refl, refl),
                  ))
              | inr e ↦ elim given [
                | inl z ↦ absurd (ground (arith, e, z))
                | inr own ↦
                    let out = not_mem x v.l_list (λ y m. (keep y (h.owned y m)).1) in
                    let t : World hw.Tables = record w {
                      memory = m;
                      cache = k;
                      areas = update w.areas x a;
                    } in
                    let here : t.areas x ≡ a = ground arith in
                    let vma : IsVma avl t.areas v = record {
                      sorted = Sorted-update w.areas x a v.l_list out h.vma.sorted;
                      tree = h.vma.tree;
                    } in
                    rw e (
                      Returns-mono
                        (hang_and_map-Hung c hw avl beyond vma_area_cache wf few some_cache Q v t f
                          x vma cache own out (λ y m. (keep y (h.owned y m)).0)
                          (subst (λ b. IsArea b) (sym here) (ground (arith, sane), fits)) need_hwmap
                          (subst (λ b. Unmanaged b.vmar_typ) (sym here) unmanaged)
                          (subst (λ b. Maps hw c Q v.hw_pgtable b t.memory t.tables) (sym here)
                            (maps m cache.buddy held)))
                        (Hung-Installed need_hwmap x a t out refl))
              ]
            ])
