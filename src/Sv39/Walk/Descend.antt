-- ===== src/Sv39/Walk/Descend.antt =====
-- The step of vm_walkthrough from a table to the one below.
use aco_os.Base.{
  ℕ, ◌+◌, ◌*◌, ◌%◌, ◌<◌, ◌≡◌, ◌⊎◌, inl, inr, refl, true, ◌==◌, arith, Bool-cases, subst, sym,
}
use aco_os.Base.Errno.{Errno, success, enomem}
use aco_os.Base.Run.{Returns, returns, Returns-bind}
use aco_os.Pageframe.{page_size, val_is_page_aligned}
use aco_os.Sv39.{pte_valid, pte2pa}
use aco_os.Sv39.Pages.{Pages}
use aco_os.Sv39.Walk.{Space, index_pages, descend}
use aco_os.Sv39.Walk.Added.{added, after, added-IsTree, added-Grown, entry_new, flags_new, to_new}
use aco_os.Sv39.Tree.{Shape, IsTree}
use aco_os.Sv39.Grown.{Grown, Grown-refl}

pub pte2pa-aligned : (e : ℕ) → (pte2pa e % page_size == 0) ≡ true
unfolding pte2pa
pte2pa-aligned e = ground arith

module _ (pages : Pages) where
  open pages use {State, alloc, pa2va, va2pa, Used, IsOk}

  -- The table `child` is below the entry `i` of `t`, and nothing but a table was added.
  pub record Found (flags n pa : ℕ) (h : Shape) (s : Space State) (t i child : ℕ) (s' : Space State)
      : Type 0 where
    pub shape : Shape
    pub tree : IsTree pages shape s'
    pub grown : Grown flags n pa 0 h s.ptes shape s'.ptes
    pub valid : pte_valid (s'.ptes t i) ≡ true
    pub points : pa2va (pte2pa (s'.ptes t i)) ≡ child
    pub has : shape.has child ≡ true
    pub index : shape.index child ≡ h.index t + 1
    pub start : shape.start child ≡ h.start t + i * index_pages (h.index t)

  -- There was no page for the table.
  pub record NoPage (h : Shape) (s s' : Space State) : Type 0 where
    pub tree : IsTree pages h s'
    pub same : s'.ptes ≡ s.ptes

  abbrev pub Descended : ℕ → ℕ → ℕ → Shape → Space State → ℕ → ℕ → Errno × ℕ × Space State → Type 0
  Descended flags n pa h s t i (ret, child, s') =
      ((ret ≡ success) × Found flags n pa h s t i child s') ⊎ ((ret ≡ enomem) × NoPage h s s')

  module _ (h : Shape) (s : Space State) (tree : IsTree pages h s) (t i : ℕ) (on : h.has t ≡ true)
      (high : h.index t < 2) (small : i < 512) where
    -- The allocator alone has changed.
    keep-IsTree :
        (st : State)
        → IsOk st
        → ((b : ℕ) → Used s.state b → Used st b)
        → IsTree pages h (record s { state = st })
    keep-IsTree st fine old = record {
      state = fine;
      used = λ u on'. old u (tree.used u on');
      low = tree.low;
      aligned = tree.aligned;
      points = tree.points;
      parent = tree.parent;
      unique = tree.unique;
    }

    pub descend-Descended :
        (flags n pa : ℕ)
        → n < h.start t + i * index_pages (h.index t) + index_pages (h.index t)
        → Returns (Descended flags n pa h s t i) (descend pages t i s)
    unfolding descend val_is_page_aligned added after
    descend-Descended flags n pa within = elim (Bool-cases (pte_valid (s.ptes t i))) [
      | inl v ↦
          let p = tree.points t i on high small v in
          let (pos, al, pal, below, back) =
            pages.place s.state (pa2va (pte2pa (s.ptes t i))) tree.state
              (tree.used (pa2va (pte2pa (s.ptes t i))) p.has) in
          let pa_al : (pte2pa (s.ptes t i) % page_size == 0) ≡ true = pte2pa-aligned (s.ptes t i) in
          let va_al : (pa2va (pte2pa (s.ptes t i)) % page_size == 0) ≡ true = ground (arith, al) in
          rw (v, p.next, pa_al, va_al)
            (returns (
              inl (
                refl,
                record {
                  shape = h;
                  tree = tree;
                  grown = Grown-refl flags n pa h s.ptes refl;
                  valid = v;
                  points = refl;
                  has = p.has;
                  index = p.index;
                  start = p.start;
                },
              )))
      | inr v ↦ rw v (
          Returns-bind (pages.alloc_lem s.state tree.state) λ (a, st) (fine, old, o).
            elim (Bool-cases (a == 0)) [
              | inl z ↦
                  rw z
                    (returns (inr (refl, record { tree = keep-IsTree st fine old; same = refl })))
              | inr z ↦ elim o [
                | inl z' ↦ absurd (ground (arith, z, z'))
                | inr (new, fresh) ↦
                    let (pos, al, pal, below, back) = pages.place st a fine new in
                    let pa_al : (va2pa a % page_size == 0) ≡ true = ground (arith, pal) in
                    let va_al : (a % page_size == 0) ≡ true = ground (arith, al) in
                    let entry =
                      entry_new pages h s tree t i on high small v a st fine old new fresh in
                    rw (z, pa_al, va_al)
                      (returns (
                        inl (
                          refl,
                          record {
                            shape =
                                added pages h s tree t i on high small v a st fine old new fresh;
                            tree =
                                added-IsTree pages h s tree t i on high small v a st fine old new
                                  fresh;
                            grown =
                                added-Grown pages h s tree t i on high small v a st fine old new
                                  fresh flags n pa within;
                            valid =
                                subst (λ (x : ℕ). pte_valid x ≡ true) (sym entry)
                                  (flags_new pages h s tree t i on high small v a st fine old new
                                    fresh).0;
                            points =
                                subst (λ (x : ℕ). pa2va (pte2pa x) ≡ a) (sym entry)
                                  (to_new pages h s tree t i on high small v a st fine old new
                                    fresh);
                            has = ground arith;
                            index = ground arith;
                            start = ground arith;
                          },
                        )))
              ]
            ])
    ]
