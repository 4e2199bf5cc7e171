-- ===== src/Sv39/Walk/Mapping.antt =====
-- __arch_hw_mmap and __arch_hw_unmap of arch/riscv/mm/vm.c, seen through the walks of the MMU.
use aco_os.Base.{
  ℕ, ◌+◌, ◌-◌, ◌*◌, ◌/◌, ◌%◌, ◌^◌, ◌≤◌, ◌<◌, ◌≡◌, ◌⊎◌, inl, inr, refl, true, false, ltb, ◌==◌,
  if◌then◌else◌, arith, ◌∙◌, Bool-cases, subst, sym, ap,
}
use aco_os.Base.Errno.{success, enomem}
use aco_os.Base.Run.{Returns, returns, Returns-bind, Returns-mono}
use aco_os.Pageframe.{page_size, val_is_page_aligned, int_bits}
use aco_os.Sv39.{pte_valid, pa2pte}
use aco_os.Sv39.Pages.{Pages}
use aco_os.Sv39.Walk.{Space, arch_hw_mmap, arch_hw_unmap}
use aco_os.Sv39.Tree.{Shape, table_pages, reach, lookup}
use aco_os.Sv39.Shrunk.{Shrunk}
use aco_os.Sv39.Grown.{in_run, Grown}
use aco_os.Sv39.Walk.Slots.{bytes_between_lem}
use aco_os.Sv39.Walk.Walkthrough.{vm_walkthrough-Walks}
use aco_os.Sv39.Walk.Unfill.{Covered}
use aco_os.Sv39.Walk.Unslots.{riscv_unmap-Unwalks}
use aco_os.Sv39.Walk.Found.{
  IsRoot, lookup-Unmapped, reach-Covered, valid-reach, lookup-Shrunk, lookup-Grown,
}

module _ (pages : Pages) where
  open pages use {State}

  -- The tables are a tree again, and the walk for each page finds what `f` says.
  abbrev pub Finds : ℕ → (ℕ → ℕ) → Space State → Type 0
  Finds root f s' =
      ((h : Shape) × IsRoot pages h s' root)
      × ((m : ℕ) → m < 2 ^ 27 → lookup pages s'.ptes root m ≡ f m)

  -- The tables form a tree, the pages outside of the run are as before, and none of the run is mapped.
  abbrev pub Undone : ℕ → Space State → ℕ → ℕ → Space State → Type 0
  Undone root s n count s' =
      ((h' : Shape) × IsRoot pages h' s' root)
      × ((m : ℕ)
          → m < 2 ^ 27
          → in_run n count m ≡ false
          → lookup pages s'.ptes root m ≡ lookup pages s.ptes root m)
      × ((m : ℕ)
          → m < 2 ^ 27
          → in_run n count m ≡ true
          → pte_valid (lookup pages s'.ptes root m) ≡ false)

  module _ {h : Shape} {s : Space State} {root : ℕ} (r : IsRoot pages h s root) where
    Covered-Finds :
        (n count : ℕ)
        → count < 2 ^ 31
        → n + count ≤ 2 ^ 27
        → Covered pages h n count
        → Returns
            (Finds root (λ m. if in_run n count m then 0 else lookup pages s.ptes root m))
            (arch_hw_unmap pages root (n * page_size) (count * page_size) s)
    unfolding arch_hw_unmap val_is_page_aligned
    Covered-Finds n count few fits covered =
        let (pos, al, rest, rest', back) =
          pages.place s.state root r.tree.state (r.tree.used root r.has) in
        let some_root : (root == 0) ≡ false = ground (arith, pos) in
        let size_al : (count * page_size % page_size == 0) ≡ true = ground arith in
        let va_al : (n * page_size % page_size == 0) ≡ true = ground arith in
        let npages : int_bits (count * page_size / page_size) ≡ count = omega arith in
        let small : ltb count (2 ^ 31) ≡ true = ground arith in
        let total : table_pages (h.index root) ≡ 2 ^ 27 = ap table_pages r.index in
        elim (Bool-cases (count * page_size == 0)) [
          | inl z ↦ rw (some_root, size_al, va_al, z) (returns ((h, r), λ m low. ground (arith, z)))
          | inr z ↦
              rw (some_root, size_al, va_al, z, npages, small)
                (Returns-bind
                  (riscv_unmap-Unwalks pages 2 (omega arith) h s root n count r.tree r.has
                    (omega (arith, r.index)) (omega (arith, r.start))
                    (ground (arith, r.start, total, fits, z)) (ground (arith, z)) few fits covered)
                  λ (left, s') w.
                    let done : left ≡ 0 = elim w.result [
                      | inl e ↦ e
                      | inr e ↦ omega (arith, e, r.start, total, fits, w.fewer)
                    ] in
                    let kept = w.upper root r.has (omega arith) in
                    let k = w.shrunk.keeps root kept in
                    let r' : IsRoot pages w.shape s' root = record {
                      tree = w.tree;
                      has = kept;
                      index = sym k.1 ∙ r.index;
                      start = sym k.2 ∙ r.start;
                    } in
                    let all : count - left ≡ count = omega (arith, done) in
                    rw done (
                      returns (
                        (w.shape, r'),
                        λ m low.
                            lookup-Shrunk pages r r' n count m low
                              (subst (λ d. Shrunk n d h s.ptes w.shape s'.ptes) all w.shrunk),
                      )))
        ]

    -- On tables that form a tree, __arch_hw_unmap of pages that are all mapped, fewer than 2^31, below
    -- 2^39, fails no ASSERT. A walk then finds no entry for these pages, and for every other page what
    -- it found; the tables form a tree.
    pub arch_hw_unmap-Finds :
        (n count : ℕ)
        → count < 2 ^ 31
        → n + count ≤ 2 ^ 27
        → ((m : ℕ) → n ≤ m → m < n + count → pte_valid (lookup pages s.ptes root m) ≡ true)
        → Returns
            (Finds root (λ m. if in_run n count m then 0 else lookup pages s.ptes root m))
            (arch_hw_unmap pages root (n * page_size) (count * page_size) s)
    arch_hw_unmap-Finds n count few fits mapped =
        Covered-Finds n count few fits
          (reach-Covered pages r n count fits (λ m lo hi. valid-reach pages r m (mapped m lo hi)))

  module _ {h : Shape} {s : Space State} {root : ℕ} (r : IsRoot pages h s root) where
    module _ (n count prot pa left : ℕ) (fits : n + count ≤ 2 ^ 27)
        (free : (m : ℕ) → n ≤ m → m < n + count → pte_valid (lookup pages s.ptes root m) ≡ false)
        {h₁ : Shape} {s₁ : Space State} (r₁ : IsRoot pages h₁ s₁ root)
        (grown : Grown prot n pa (count - left) h s.ptes h₁ s₁.ptes)
        (reached : (m : ℕ)
          → n ≤ m
          → m < n + (count - left)
          → 0 < reach pages 2 s₁.ptes root m) where
      lookup_mapped :
          (m : ℕ)
          → m < 2 ^ 27
          → lookup pages s₁.ptes root m ≡ (
              if in_run n (count - left) m
              then pa2pte (pa + (m - n) * page_size) prot
              else lookup pages s.ptes root m)
      lookup_mapped m low =
          lookup-Grown pages r r₁ prot n pa (count - left) m low grown
            (λ i. reached m (ground arith) (ground arith))

      -- What was mapped is unmapped again.
      unmap-Undone :
          count < 2 ^ 31
          → Returns
              (Undone root s n count)
              (arch_hw_unmap pages root (n * page_size) ((count - left) * page_size) s₁)
      unfolding pte_valid
      unmap-Undone few =
          Returns-mono
            (Covered-Finds r₁ n (count - left) (omega arith) (omega arith)
              (reach-Covered pages r₁ n (count - left) (omega arith) reached))
            λ s' (root', finds). (
              root',
              (λ m low out. ground (arith, finds m low, lookup_mapped m low, out)),
              (λ m low run. ground (arith, finds m low, lookup_mapped m low, free m, run)),
            )

    -- On tables that form a tree, __arch_hw_mmap of pages none of which is mapped, fewer than 2^31 and
    -- below 2^39, to aligned memory whose end is no overflow, fails no ASSERT. Either it returns 0 and a
    -- walk finds for each page of the run the entry with its address and flags, and for every other page
    -- what it found; or it returns -ENOMEM, no page of the run is mapped, and a walk finds for every
    -- other page what it found. The tables form a tree.
    pub arch_hw_mmap-Finds :
        (n count pa prot : ℕ)
        → count < 2 ^ 31
        → n + count ≤ 2 ^ 27
        → pa % page_size ≡ 0
        → pa + count * page_size < 2 ^ 64
        → ((m : ℕ) → n ≤ m → m < n + count → pte_valid (lookup pages s.ptes root m) ≡ false)
        → Returns
            (λ (ret, s').
              ((ret ≡ success)
                × Finds root
                    (λ m.
                      if in_run n count m
                      then pa2pte (pa + (m - n) * page_size) prot
                      else lookup pages s.ptes root m)
                    s')
              ⊎ ((ret ≡ enomem) × Undone root s n count s'))
            (arch_hw_mmap pages root (n * page_size) pa prot (count * page_size) s)
    unfolding arch_hw_mmap val_is_page_aligned
    arch_hw_mmap-Finds n count pa prot few fits pa_al fits_pa free =
        let (pos, al, rest, rest', back) =
          pages.place s.state root r.tree.state (r.tree.used root r.has) in
        let some_root : (root == 0) ≡ false = ground (arith, pos) in
        let root_al : (root % page_size == 0) ≡ true = ground (arith, al) in
        let size_al : (count * page_size % page_size == 0) ≡ true = ground arith in
        let va_al : (n * page_size % page_size == 0) ≡ true = ground arith in
        let pa_al' : (pa % page_size == 0) ≡ true = ground arith in
        let npages : int_bits (count * page_size / page_size) ≡ count = omega arith in
        let small : ltb count (2 ^ 31) ≡ true = ground arith in
        let total : table_pages (h.index root) ≡ 2 ^ 27 = ap table_pages r.index in
        elim (Bool-cases (count * page_size == 0)) [
          | inl z ↦
              rw (some_root, root_al, size_al, va_al, pa_al', z)
                (returns (inl (refl, ((h, r), λ m low. ground (arith, z)))))
          | inr z ↦
              rw (some_root, root_al, size_al, va_al, pa_al', z, npages, small)
                (Returns-bind
                  (vm_walkthrough-Walks pages 2 prot (omega arith) h s root n pa count r.tree r.has
                    (omega (arith, r.index)) (omega (arith, r.start))
                    (ground (arith, r.start, total, fits, z)) (ground (arith, z)) few fits fits_pa
                    (lookup-Unmapped pages r n count fits free))
                  λ (ret, left, s') w.
                    let k = w.grown.keeps root r.has in
                    let r' : IsRoot pages w.shape s' root = record {
                      tree = w.tree;
                      has = k.0;
                      index = k.1 ∙ r.index;
                      start = k.2 ∙ r.start;
                    } in
                    let found = lookup_mapped n count prot pa left fits free r' w.grown w.reached in
                    elim w.result [
                      | inl (good, e) ↦
                          let done : left ≡ 0 = elim e [
                            | inl y ↦ y
                            | inr y ↦ omega (arith, y, r.start, total, fits, w.fewer)
                          ] in
                          rw good (
                            returns (
                              inl (
                                refl,
                                ((w.shape, r'), λ m low. ground (arith, found m low, done)),
                              )))
                      | inr bad ↦
                          rw (bad, bytes_between_lem count left w.fewer few)
                            (Returns-bind
                              (unmap-Undone n count prot pa left fits free r' w.grown w.reached few)
                              λ u undone. returns (inr (refl, undone)))
                    ])
        ]
