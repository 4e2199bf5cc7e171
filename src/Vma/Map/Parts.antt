-- ===== src/Vma/Map/Parts.antt =====
-- What hangs an area into a vma and maps it, and takes it out again (__vm_mmap of module/mm/vm/vm.c).
use aco_os.Base.{
  ℕ, ◌≤◌, ◌<◌, ◌≡◌, ◌≢◌, ◌⊎◌, inl, inr, refl, Bool, true, false, ◌==◌, List, [], ◌∷◌, ◌++◌, remove,
  ◌∈◌, ◌∉◌, has-append, arith, Bool-cases, subst, sym, ◌∙◌, ap,
}
use aco_os.Base.Errno.{Errno, success}
use aco_os.Base.Run.{ok, Returns, returns, Returns-bind, ◌>>=◌}
use aco_os.Buddy.{Config, State}
use aco_os.Buddy.Neighbour.{IsConfig}
use aco_os.KmemCache.{Cache, Memory}
use aco_os.KmemCache.Invariant.{lists, IsCache}
use aco_os.KmemCache.Objects.{InUse, kmem_obj_free-TakesBack}
use aco_os.Avl.{Avl}
use aco_os.Vma.{Area, Vma, AreaType, vma_kernel, vma_io, vma_area_hang, vma_area_unhang}
use aco_os.Vma.Order.{IsArea, IsVma, overlaps, front, rear, front-rear}
use aco_os.Vma.Hang.{vma_area_hang-IsVma, vma_area_hang-hw_pgtable}
use aco_os.Vma.Taken.{vma_area_hang_overlap}
use aco_os.Vma.Find.{vma_area_unhang-IsVma}
use aco_os.Vma.Map.{Hw, World, is_ok, is_eexist, map_area, map_kernel_io, free_area, hang_and_map}

-- The vma is in order, the cache of areas is well formed, and the areas of the vma are objects in use.
pub record IsWorld (c : Config) (avl : Avl) {Tables : Type 0} (v : Vma avl.Tree) (w : World Tables)
    (free_of : ℕ → List ℕ) : Type 0 where
  pub vma : IsVma avl w.areas v
  pub cache : IsCache c w.cache w.memory free_of
  pub owned : (x : ℕ) → x ∈ v.l_list → InUse w.cache w.memory free_of x

remove-insert :
    (x : ℕ) (before after : List ℕ)
    → x ∉ before
    → remove x (before ++ (x ∷ after)) ≡ before ++ after
remove-insert x [] after out = ground arith
remove-insert x (y ∷ ys) after out = ground (arith, remove-insert x ys after)

pub mem_differs : (x y : ℕ) (ys : List ℕ) → x ∉ ys → y ∈ ys → y ≢ x
mem_differs x y ys out m e = ground arith

-- What is asked of the page tables for the mapping of an area, at the memory and the tables of the
-- call: it ends, finds none of the area's pages mapped, leaves a cache of areas and its slabs alone, and
-- where it succeeds, `Q` holds of the allocator and the tables.
abbrev pub Maps :
    (hw : Hw) → Config → (State → hw.Tables → Type 0) → ℕ → Area → Memory → hw.Tables → Type 0
Maps hw c Q pgtable a m t =
    (k : Cache) (free_of : ℕ → List ℕ)
    → IsCache c k m free_of
    → Returns
        (λ (ret, m', t').
          (is_eexist ret ≡ false)
          × IsCache c k m' free_of
          × ((q : ℕ) → lists k q ≡ true → m'.slabs q ≡ m.slabs q)
          × (is_ok ret ≡ true → Q m'.buddy t'))
        (hw.hw_mmap pgtable a.va a.pa a.prot a.size (m, t))

-- The kinds of areas that have no frames.
abbrev pub Unmanaged : AreaType → Type 0
Unmanaged type = (type ≡ vma_kernel) ⊎ (type ≡ vma_io)

module _ (c : Config) (hw : Hw) (avl : Avl) (beyond : ℕ → ℕ) (vma_area_cache : ℕ) (wf : IsConfig c)
    (few : c.max_order ≤ 19) (some_cache : 0 < vma_area_cache) where
  -- The object of an area that is not on the list goes back to the cache.
  pub free_area-IsWorld :
      (u : Vma avl.Tree) (x : ℕ) (w : World hw.Tables) (fr : ℕ → List ℕ)
      → IsVma avl w.areas u
      → IsCache c w.cache w.memory fr
      → InUse w.cache w.memory fr x
      → x ∉ u.l_list
      → ((y : ℕ) → y ∈ u.l_list → InUse w.cache w.memory fr y)
      → Returns
          (λ s.
            (s.areas ≡ w.areas)
            × ((f : ℕ → List ℕ) × IsWorld c avl u s f)
            × (s.memory.buddy ≡ w.memory.buddy)
            × (s.tables ≡ w.tables))
          (free_area c hw avl beyond vma_area_cache x w)
  unfolding free_area
  free_area-IsWorld u x w fr vma h own out owned =
      Returns-bind (kmem_obj_free-TakesBack wf few h vma_area_cache some_cache x own)
        λ (k, m) (f, cache, others, buddy). returns (
          refl,
          (
            f,
            record {
              vma = vma;
              cache = cache;
              owned = λ y mem. others y (owned y mem) (mem_differs x y u.l_list out mem);
            },
          ),
          buddy,
          refl,
        )

module _ (c : Config) (hw : Hw) (avl : Avl) (beyond : ℕ → ℕ) (vma_area_cache : ℕ) (wf : IsConfig c)
    (few : c.max_order ≤ 19) (some_cache : 0 < vma_area_cache)
    (Q : State → hw.Tables → Type 0) where
  abbrev pub Mapped : World hw.Tables → (ℕ → List ℕ) → Errno × World hw.Tables → Type 0
  Mapped w fr (ret, s) =
      (s.areas ≡ w.areas)
      × IsCache c s.cache s.memory fr
      × ((y : ℕ) → InUse w.cache w.memory fr y → InUse s.cache s.memory fr y)
      × (is_ok ret ≡ true → Q s.memory.buddy s.tables)

  map_kernel_io-Mapped :
      (pgtable x : ℕ) (w : World hw.Tables) (fr : ℕ → List ℕ)
      → IsCache c w.cache w.memory fr
      → Maps hw c Q pgtable (w.areas x) w.memory w.tables
      → Returns (Mapped w fr) (map_kernel_io c hw pgtable x w)
  unfolding map_kernel_io
  map_kernel_io-Mapped pgtable x w fr h maps =
      Returns-bind (maps w.cache fr h) λ (ret, m, t) (new, cache, slabs, good). rw new (
        returns (
          refl,
          cache,
          λ y u. record {
            p = u.p;
            i = u.i;
            listed = u.listed;
            small = ground (arith, slabs u.p u.listed, u.small);
            used = u.used;
            at = ground (arith, slabs u.p u.listed, u.at);
          },
          good,
        ))

  map_area-Mapped :
      (type : AreaType) (pgtable x : ℕ) (w : World hw.Tables) (fr : ℕ → List ℕ)
      → Unmanaged type
      → IsCache c w.cache w.memory fr
      → Maps hw c Q pgtable (w.areas x) w.memory w.tables
      → Returns (Mapped w fr) (map_area c hw type pgtable x w)
  unfolding map_area
  map_area-Mapped type pgtable x w fr (inl e) h maps =
      rw e (map_kernel_io-Mapped pgtable x w fr h maps)
  map_area-Mapped type pgtable x w fr (inr e) h maps =
      rw e (map_kernel_io-Mapped pgtable x w fr h maps)

  -- The area `x` is in its place on the list, and mapped if that was asked for; or the list is as it
  -- was. The areas are those of `w`.
  abbrev pub Hung :
      Bool → Vma avl.Tree → World hw.Tables → ℕ → Errno × Vma avl.Tree × World hw.Tables → Type 0
  Hung need_hwmap v w x (ret, u, s) =
      (s.areas ≡ w.areas)
      × ((f : ℕ → List ℕ) × IsWorld c avl u s f)
      × (((ret ≡ success)
            × (u.l_list
                ≡ front w.areas (w.areas x).va v.l_list
                  ++ (x ∷ rear w.areas (w.areas x).va v.l_list))
            × (need_hwmap ≡ true → Q s.memory.buddy s.tables))
          ⊎ ((is_ok ret ≡ false) × (u.l_list ≡ v.l_list)))

  module _ (v : Vma avl.Tree) (w : World hw.Tables) (fr : ℕ → List ℕ) (x : ℕ)
      (vma : IsVma avl w.areas v) (h : IsCache c w.cache w.memory fr)
      (own : InUse w.cache w.memory fr x) (out : x ∉ v.l_list)
      (owned : (y : ℕ) → y ∈ v.l_list → InUse w.cache w.memory fr y)
      (good : IsArea (w.areas x)) where
    hung_owned :
        (y : ℕ)
        → y ∈ (front w.areas (w.areas x).va v.l_list ++ (x ∷ rear w.areas (w.areas x).va v.l_list))
        → InUse w.cache w.memory fr y
    hung_owned y m = elim (Bool-cases (y == x)) [
      | inl e ↦ let same : y ≡ x = ground arith in rw same own
      | inr e ↦
          let l = v.l_list in
          let before = front w.areas (w.areas x).va l in
          let after = rear w.areas (w.areas x).va l in
          let both : y ∈ (before ++ after) =
            ground (arith, m, e, has-append y before (x ∷ after), has-append y before after) in
          owned y (subst (λ r. y ∈ r) (sym (front-rear w.areas (w.areas x).va l)) both)
    ]

    -- The new area is hung in as the vma `u`, but not mapped: it is taken out again.
    undo-Hung :
        (need_hwmap : Bool) (u : Vma avl.Tree) (ret : Errno) (t : World hw.Tables)
        → is_ok ret ≡ false
        → IsVma avl w.areas u
        → u.l_list
          ≡ front w.areas (w.areas x).va v.l_list ++ (x ∷ rear w.areas (w.areas x).va v.l_list)
        → Mapped w fr (ret, t)
        → Returns (Hung need_hwmap v w x) (do
          s ← free_area c hw avl beyond vma_area_cache x t
          ok (ret, vma_area_unhang avl u x, s))
    undo-Hung need_hwmap u ret t failed isv list (areas, cache, keep, good) =
        let l = v.l_list in
        let split = front-rear w.areas (w.areas x).va l in
        let out' : x ∉ front w.areas (w.areas x).va l = ground (
          arith,
          has-append x (front w.areas (w.areas x).va l) (rear w.areas (w.areas x).va l),
          subst (λ r. x ∉ r) split out,
        ) in
        let mem : x ∈ u.l_list =
          subst (λ r. x ∈ r) (sym list)
            (ground (
              arith,
              has-append x (front w.areas (w.areas x).va l) (x ∷ rear w.areas (w.areas x).va l),
            )) in
        let (isv', gone) = vma_area_unhang-IsVma avl isv x mem in
        let back : (vma_area_unhang avl u x).l_list ≡ l =
          gone
          ∙ (ap (λ r. remove x r) list
              ∙ (remove-insert x (front w.areas (w.areas x).va l) (rear w.areas (w.areas x).va l)
                    out'
                  ∙ sym split)) in
        Returns-bind
          (free_area-IsWorld c hw avl beyond vma_area_cache wf few some_cache
            (vma_area_unhang avl u x) x t fr
            (subst (λ a. IsVma avl a (vma_area_unhang avl u x)) (sym areas) isv') cache (keep x own)
            (subst (λ r. x ∉ r) (sym back) out)
            (λ y m. keep y (owned y (subst (λ r. y ∈ r) back m))))
          λ s (same, world, _, _). returns (same ∙ areas, world, inr (failed, back))

    pub hang_and_map-Hung :
        (need_hwmap : Bool)
        → Unmanaged (w.areas x).vmar_typ
        → Maps hw c Q v.hw_pgtable (w.areas x) w.memory w.tables
        → Returns
            (Hung need_hwmap v w x)
            (hang_and_map c hw avl beyond vma_area_cache v x need_hwmap w)
    unfolding hang_and_map
    hang_and_map-Hung need_hwmap unmanaged maps = elim (Bool-cases (overlaps w.areas x v.l_list)) [
      | inl e ↦ rw (vma_area_hang_overlap avl x vma good e) (
          Returns-bind
            (free_area-IsWorld c hw avl beyond vma_area_cache wf few some_cache v x w fr vma h own
              out owned)
            λ s (same, world, _, _). returns (same, world, inr (refl, refl)))
      | inr e ↦
          let (done, isv, list) = vma_area_hang-IsVma avl vma x good e in
          let u = (vma_area_hang avl w.areas v x).1 in
          let owned' : (y : ℕ) → y ∈ u.l_list → InUse w.cache w.memory fr y =
            λ y m. hung_owned y (subst (λ r. y ∈ r) list m) in
          rw done (elim (Bool-cases need_hwmap) [
            | inr n ↦ rw n (
                returns (
                  refl,
                  (fr, record { vma = isv; cache = h; owned = owned' }),
                  inl (refl, list, λ e. absurd (ground (arith, n, e))),
                ))
            | inl n ↦
                rw (n, vma_area_hang-hw_pgtable avl vma x good e)
                  (Returns-bind
                    (map_area-Mapped (w.areas x).vmar_typ v.hw_pgtable x w fr unmanaged h maps)
                    λ (ret, t) mapped. elim (Bool-cases (is_ok ret)) [
                      | inl r ↦ rw r (
                          returns (
                            mapped.0,
                            (
                              fr,
                              record {
                                vma = subst (λ a. IsVma avl a u) (sym mapped.0) isv;
                                cache = mapped.1;
                                owned = λ y m. mapped.2 y (owned' y m);
                              },
                            ),
                            inl (refl, list, λ e. mapped.3 r),
                          ))
                      | inr r ↦ rw r (undo-Hung true u ret t r isv list mapped)
                    ])
          ])
    ]
