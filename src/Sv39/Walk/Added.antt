-- ===== src/Sv39/Walk/Added.antt =====
-- A new table below an entry: the tables form a tree again.
use aco_os.Base.{
  ℕ, ◌+◌, ◌*◌, ◌<◌, ◌≡◌, ◌≢◌, inl, inr, refl, true, false, ◌&&◌, ◌==◌, if◌then◌else◌, arith, ◌∙◌,
  Bool-cases, subst, sym, ap,
}
use aco_os.Sv39.{pte_valid, pte_nextpgt, pa2pte, pte2pa}
use aco_os.Sv39.Fields.{pte2pa-pa2pte, pte_nextpgt-pa2pte}
use aco_os.Sv39.Pages.{Pages}
use aco_os.Sv39.Walk.{Space, set_pte, clear_table, index_pages}
use aco_os.Sv39.Walk.Slot.{slot_aligned, slot_unique}
use aco_os.Sv39.Tree.{Shape, Points, IsTree, aligned_at}
use aco_os.Sv39.Grown.{Grown}

module _ (pages : Pages) where
  open pages use {State, pa2va, va2pa, Used, IsOk}

  module _ (h : Shape) (s : Space State) (tree : IsTree pages h s) (t i : ℕ) (on : h.has t ≡ true)
      (high : h.index t < 2) (small : i < 512) (none_yet : pte_valid (s.ptes t i) ≡ false) where
    -- A new table `a` below the entry.
    module _ (a : ℕ) (st : State) (fine : IsOk st) (old : (b : ℕ) → Used s.state b → Used st b)
        (new : Used st a) (fresh : (b : ℕ) → Used s.state b → b ≢ a) where
      unfoldable pub added : Shape
      added = record {
        has = λ u. if u == a then true else h.has u;
        index = λ u. if u == a then h.index t + 1 else h.index u;
        start = λ u. if u == a then h.start t + i * index_pages (h.index t) else h.start u;
      }

      unfoldable pub after : Space State
      after = set_pte t i (pa2pte (va2pa a) 1) (record { state = st; ptes = clear_table a s.ptes })

      other : (u : ℕ) → h.has u ≡ true → (u == a) ≡ false
      other u in_tree = elim (Bool-cases (u == a)) [
        | inr e ↦ e
        | inl e ↦ absurd (fresh u (tree.used u in_tree) (ground (arith, e)))
      ]

      pub to_new : pa2va (pte2pa (pa2pte (va2pa a) 1)) ≡ a
      to_new =
          let (pos, al, pal, below, back) = pages.place st a fine new in
          let fields = pte2pa-pa2pte (va2pa a) 1 pal below (omega arith) in rw fields.0 back

      pub flags_new :
          (pte_valid (pa2pte (va2pa a) 1) ≡ true) × (pte_nextpgt (pa2pte (va2pa a) 1) ≡ true)
      unfolding pte_valid
      flags_new = let f = pte_nextpgt-pa2pte (va2pa a) 1 (omega arith) in (f.1 ∙ refl, f.0)

      added_unique :
          (u : ℕ)
          → h.has u ≡ true
          → h.index u ≡ h.index t + 1
          → h.start u ≡ h.start t + i * index_pages (h.index t)
          → ⊥
      added_unique u in_tree index start =
          let (p, j, p_in, p_index, j_small, v, p_start) =
            tree.parent u in_tree (omega (arith, index)) in
          let level : h.index p ≡ h.index t = omega (arith, p_index, index) in
          let p_start' : h.start p + j * index_pages (h.index t)
              ≡ h.start t + i * index_pages (h.index t) =
            subst (λ k. h.start p + j * index_pages k ≡ h.start t + i * index_pages (h.index t))
              level (sym p_start ∙ start) in
          let (start_same, slot) =
            slot_unique (h.index t) (h.start p) (h.start t) j i high
              (aligned_at pages tree p (h.index t) p_in level) (tree.aligned t on) j_small small
              p_start' in
          let same : p ≡ t = tree.unique p t p_in on level start_same in
          ground (arith, v, none_yet, same, slot)

      pub entry_new : after.ptes t i ≡ pa2pte (va2pa a) 1
      unfolding after
      entry_new = ground arith

      entry_old :
          (u j : ℕ) → h.has u ≡ true → pte_valid (s.ptes u j) ≡ true → after.ptes u j ≡ s.ptes u j
      unfolding after
      entry_old u j in_tree v = ground (arith, other u in_tree, none_yet, v)

      entry_clear : (j : ℕ) → after.ptes a j ≡ 0
      unfolding after
      entry_clear j = ground (arith, other t on)

      entry_other :
          (u j : ℕ)
          → (u == a) ≡ false
          → ((u == t) && (j == i)) ≡ false
          → after.ptes u j ≡ s.ptes u j
      unfolding after
      entry_other u j e there = ground (arith, e, there)

      added-Points :
          (u j : ℕ)
          → added.has u ≡ true
          → added.index u < 2
          → j < 512
          → pte_valid (after.ptes u j) ≡ true
          → Points pages added u j (after.ptes u j)
      unfolding added pte_valid
      added-Points u j in_tree low j_small v = elim (Bool-cases (u == a)) [
        | inl e ↦
            let same : u ≡ a = ground arith in
            absurd (
              ground
                (arith, subst (λ (x : ℕ). pte_valid (after.ptes x j) ≡ true) same v, entry_clear j))
        | inr e ↦
            let was : h.has u ≡ true = ground (arith, e) in
            elim (Bool-cases ((u == t) && (j == i))) [
              | inl here ↦
                  let ut : u ≡ t = ground arith in
                  let ji : j ≡ i = ground arith in
                  let entry : after.ptes u j ≡ pa2pte (va2pa a) 1 = rw (ut, ji) entry_new in
                  rw entry (record {
                    next = flags_new.1;
                    has = ground (arith, to_new);
                    index = ground (arith, to_new, ut, other t on);
                    start = ground (arith, to_new, ut, ji, other t on);
                  })
              | inr there ↦
                  let entry : after.ptes u j ≡ s.ptes u j = entry_other u j e there in
                  let p =
                    tree.points u j was (ground (arith, e)) j_small
                      (subst (λ (x : ℕ). pte_valid x ≡ true) entry v) in
                  let c = other (pa2va (pte2pa (s.ptes u j))) p.has in
                  rw entry (record {
                    next = p.next;
                    has = ground (arith, p.has, c);
                    index = ground (arith, p.index, c, e);
                    start = ground (arith, p.start, c, e);
                  })
            ]
      ]

      pub added-IsTree : IsTree pages added after
      unfolding added after
      added-IsTree = record {
        state = fine;
        used = λ u in_tree. elim (Bool-cases (u == a)) [
          | inl e ↦ let same : u ≡ a = ground arith in rw same new
          | inr e ↦ old u (tree.used u (ground (arith, e)))
        ];
        low = λ u in_tree. ground (arith, tree.low u, high);
        aligned = λ u in_tree. elim (Bool-cases (u == a)) [
          | inl e ↦ rw e (slot_aligned (h.index t) (h.start t) i high (tree.aligned t on))
          | inr e ↦ rw e (tree.aligned u (ground (arith, e)))
        ];
        points = added-Points;
        parent = λ u in_tree some. elim (Bool-cases (u == a)) [
          | inl e ↦
              let v : pte_valid (after.ptes t i) ≡ true = rw entry_new flags_new.0 in
              (
                t,
                i,
                ground (arith, on),
                ground (arith, e, other t on),
                small,
                v,
                ground (arith, e, other t on),
              )
          | inr e ↦
              let (p, j, p_in, index, j_small, v, start) =
                tree.parent u (ground (arith, e)) (ground (arith, e)) in
              let v' : pte_valid (after.ptes p j) ≡ true = rw (entry_old p j p_in v) v in
              (
                p,
                j,
                ground (arith, p_in),
                ground (arith, index, e, other p p_in),
                j_small,
                v',
                ground (arith, start, e, other p p_in),
              )
        ];
        unique = λ u w u_in w_in index start. elim (Bool-cases (u == a)) [
          | inl e ↦ elim (Bool-cases (w == a)) [
            | inl f ↦ ground (arith, e, f)
            | inr f ↦ absurd (
                added_unique w (ground (arith, w_in, f)) (ground (arith, index, e, f))
                  (ground (arith, start, e, f)))
          ]
          | inr e ↦ elim (Bool-cases (w == a)) [
            | inl f ↦ absurd (
                added_unique u (ground (arith, u_in, e)) (ground (arith, index, e, f))
                  (ground (arith, start, e, f)))
            | inr f ↦
                tree.unique u w (ground (arith, u_in, e)) (ground (arith, w_in, f))
                  (ground (arith, index, e, f)) (ground (arith, start, e, f))
          ]
        ];
      }

      pub added-Grown :
          (flags n pa : ℕ)
          → n < h.start t + i * index_pages (h.index t) + index_pages (h.index t)
          → Grown flags n pa 0 h s.ptes added after.ptes
      unfolding added
      added-Grown flags n pa within = record {
        keeps = λ u u_in.
            let o = other u u_in in (ground (arith, u_in), ground (arith, o), ground (arith, o));
        dirs = λ u j u_in low j_small v. entry_old u j u_in v;
        leaves = λ u j u_in two j_small. elim (Bool-cases (u == a)) [
          | inl e ↦
              let same : u ≡ a = ground arith in
              let gone : h.has u ≡ false = elim (Bool-cases (h.has u)) [
                | inr g ↦ g
                | inl g ↦ absurd (ground (arith, other u g, e))
              ] in
              rw gone
                (ground (arith, subst (λ (x : ℕ). after.ptes x j ≡ 0) (sym same) (entry_clear j)))
          | inr e ↦
              let was : h.has u ≡ true = ground (arith, u_in, e) in
              let away : ((u == t) && (j == i)) ≡ false = ground (arith, e, two, high) in
              ground (arith, entry_other u j e away, was)
        ];
        later = λ u u_in gone two. elim (Bool-cases (u == a)) [
          | inr e ↦ absurd (ground (arith, u_in, gone, e))
          | inl e ↦
              let one : h.index t ≡ 1 = ground (arith, two, e) in
              let within' =
                subst (λ k. n < h.start t + i * index_pages k + index_pages k) one within in
              let start' = ap (λ k. h.start t + i * index_pages k) one in
              ground (arith, e, within', start')
        ];
      }
