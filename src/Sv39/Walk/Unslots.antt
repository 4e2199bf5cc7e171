-- ===== src/Sv39/Walk/Unslots.antt =====
-- riscv_unmap at every index.
use aco_os.Base.{
  ℕ, zero, suc, ◌+◌, ◌-◌, ◌*◌, ◌%◌, ◌^◌, ◌≤◌, ◌<◌, ◌≡◌, inl, inr, true, false, ltb, ◌==◌,
  if◌then◌else◌, arith, ◌∙◌, Bool-cases, subst, sym, ap,
}
use aco_os.Base.Run.{Run, Returns, returns, Returns-mono, Returns-bind}
use aco_os.Pageframe.{page_size, add_ptr, val_is_page_aligned}
use aco_os.Sv39.{pte_valid, pte2pa, index2id}
use aco_os.Sv39.Pages.{Pages}
use aco_os.Sv39.Walk.{Space, index_pages, bytes_between, unmap_slots, riscv_unmap}
use aco_os.Sv39.Walk.Slot.{
  slot_total, slot_table, slot_next, slot_end, slot_limit, slot_lem, index2id_slot,
}
use aco_os.Sv39.Tree.{Shape, Points, IsTree, aligned_at, table_pages, reach}
use aco_os.Sv39.Tree.Lookup.{reach-covered}
use aco_os.Sv39.Shrunk.{Shrunk, Shrunk-refl, Shrunk-trans}
use aco_os.Sv39.Walk.Slots.{bytes_between_lem}
use aco_os.Sv39.Walk.Descend.{pte2pa-aligned}
use aco_os.Sv39.Walk.Unfill.{Covered, Unwalked, unfill-Unwalked}
use aco_os.Sv39.Walk.Unslot.{slot-Unwalked}

module _ (pages : Pages) where
  open pages use {State, pa2va}

  -- A walk with `below` levels below the table, over pages that all have tables.
  abbrev pub Unwalks : ℕ → (ℕ → ℕ → ℕ → Space State → Run (ℕ × Space State)) → Type 0
  Unwalks below next =
      (h : Shape) (s : Space State) (t n count : ℕ)
      → IsTree pages h s
      → h.has t ≡ true
      → h.index t + below ≡ 2
      → h.start t ≤ n
      → n < h.start t + table_pages (h.index t)
      → 0 < count
      → count < 2 ^ 31
      → n + count ≤ 2 ^ 27
      → Covered pages h n count
      → Returns
          (λ (left, s').
            Unwalked pages below n count h s t (h.start t + table_pages (h.index t)) left s')
          (next t (n * page_size) count s)

  Covered-Shrunk :
      {n d : ℕ} {h : Shape} {ptes : ℕ → ℕ → ℕ} {h' : Shape} {ptes' : ℕ → ℕ → ℕ} (m rest count : ℕ)
      → Shrunk n d h ptes h' ptes'
      → m ≡ n + d
      → count ≡ d + rest
      → Covered pages h n count
      → Covered pages h' m rest
  Covered-Shrunk m rest count g at sum covered p lo hi =
      let (u, u_in, two, u_lo, u_hi) =
        covered p (omega (arith, at, lo)) (omega (arith, at, sum, hi)) in
      let there = g.stays u p u_in two u_lo u_hi (ground (arith, at, lo)) in
      let k = g.keeps u there in
      (u, there, sym k.1 ∙ two, omega (arith, k.2, u_lo), omega (arith, k.2, u_hi))

  module _ (below : ℕ) (low : below < 2) (next : ℕ → ℕ → ℕ → Space State → Run (ℕ × Space State))
      (walks : Unwalks below next) where
    -- The entry for a page that has a table.
    entry-Points :
        (i : ℕ) (h : Shape) (s : Space State) (t n count : ℕ)
        → IsTree pages h s
        → h.has t ≡ true
        → h.index t ≡ 1 - below
        → i < 512
        → h.start t + i * index_pages (1 - below) ≤ n
        → n < h.start t + i * index_pages (1 - below) + index_pages (1 - below)
        → 0 < count
        → Covered pages h n count
        → Points pages h t i (s.ptes t i)
    entry-Points i h s t n count tree on level small lo hi some covered =
        let (u, u_in, two, u_lo, u_hi) = covered n (omega arith) (omega (arith, some)) in
        let limit = slot_limit (1 - below) (h.start t) i (omega arith) small in
        let total : table_pages (h.index t) ≡ table_pages (1 - below) = ap table_pages level in
        let far : reach pages (suc below) s.ptes t n ≡ u =
          reach-covered pages tree (suc below) t u n (omega (arith, low)) on
            (omega (arith, level, low)) (omega (arith, lo), omega (arith, hi, limit, total)) u_in
            two (u_lo, u_hi) in
        let slot =
          slot_lem below (h.start t) i n low (aligned_at pages tree t (1 - below) on level) small lo
            hi in
        let far' : (if pte_valid (s.ptes t i)
              then reach pages below s.ptes (pa2va (pte2pa (s.ptes t i))) n
              else 0)
            ≡ u =
          subst
            (λ (j : ℕ).
              (if pte_valid (s.ptes t j)
                then reach pages below s.ptes (pa2va (pte2pa (s.ptes t j))) n
                else 0)
              ≡ u)
            slot far in
        let there = (pages.place s.state u tree.state (tree.used u u_in)).0 in
        elim (Bool-cases (pte_valid (s.ptes t i))) [
          | inl v ↦ tree.points t i on (omega (arith, level)) small v
          | inr v ↦ absurd (ground (arith, far', v, there))
        ]

    next-Unwalked :
        (limit total : ℕ) (h : Shape) (s : Space State) (t n count left : ℕ) (s₂ : Space State)
        (left' : ℕ) (s₃ : Space State)
        → limit % 512 ≡ 0
        → h.has t ≡ true
        → (w : Unwalked pages (suc below) n count h s t limit left s₂) → limit ≡ n + (count - left)
        → Unwalked pages (suc below) limit left w.shape s₂ t total left' s₃
        → Unwalked pages (suc below) n count h s t total left' s₃
    next-Unwalked limit total h s t n count left s₂ left' s₃ edge on w end r =
        let sum : count - left' ≡ (count - left) + (left - left') =
          omega (arith, w.fewer, r.fewer) in
        let t_in = w.upper t on (omega arith) in
        record {
          shape = r.shape;
          tree = r.tree;
          shrunk = Shrunk-trans w.shrunk limit (left - left') (count - left') end sum r.shrunk;
          fewer = omega (arith, w.fewer, r.fewer);
          inside = omega (arith, r.inside, end, sum);
          result = elim r.result [ inl z ↦ inl z | inr z ↦ inr (omega (arith, z, end, sum)) ];
          upper = λ u u_in u_low.
              let u_in' = w.upper u u_in u_low in
              let k = w.shrunk.keeps u u_in' in
              let k_t = w.shrunk.keeps t t_in in r.upper u u_in' (omega (arith, k, k_t, u_low));
          emptied = λ u some u_in two lo hi.
              let k = r.shrunk.keeps u u_in in
              let at = aligned_at pages r.tree u 2 u_in two in
              elim (Bool-cases (ltb (r.shape.start u) limit)) [
                | inr q ↦
                    r.emptied u some u_in two (ground (arith, q)) (omega (arith, hi, end, sum))
                | inl q ↦
                    w.emptied u some k.0 (k.1 ∙ two) (omega (arith, k.2, lo))
                      (ground (arith, k.2, q, at, edge, end))
              ];
        }

    unmap_slots-Unwalked :
        (rounds i : ℕ) (h : Shape) (s : Space State) (t n count : ℕ)
        → IsTree pages h s
        → h.has t ≡ true
        → h.index t ≡ 1 - below
        → rounds + i ≡ 512
        → h.start t + i * index_pages (1 - below) ≤ n
        → (i < 512 → n < h.start t + i * index_pages (1 - below) + index_pages (1 - below))
        → n ≤ h.start t + table_pages (1 - below)
        → 0 < count
        → count < 2 ^ 31
        → n + count ≤ 2 ^ 27
        → Covered pages h n count
        → Returns
            (λ (left, s').
              Unwalked pages
                (suc below)
                n
                count
                h
                s
                t
                (h.start t + table_pages (1 - below))
                left
                s')
            (unmap_slots pages next (1 - below) rounds i t (n * page_size) count s)
    unfolding unmap_slots val_is_page_aligned
    unmap_slots-Unwalked zero i h s t n count tree on level rounds lo hi end some few fits covered =
        let full : i * index_pages (1 - below) ≡ 512 * index_pages (1 - below) =
          let last : i ≡ 512 = omega arith in ap (λ (x : ℕ). x * index_pages (1 - below)) last in
        returns (record {
          shape = h;
          tree = tree;
          shrunk = Shrunk-refl n h s.ptes (omega arith);
          fewer = omega arith;
          inside = omega (arith, end);
          result = inr (omega (arith, full, slot_total (1 - below) (omega arith), end, lo));
          upper = λ u u_in u_low. u_in;
          emptied = λ u some u_in two lo hi. absurd (omega (arith, lo, hi));
        })
    unmap_slots-Unwalked (suc rounds) i h s t n count tree on level round lo hi end some few fits
          covered =
        let small : i < 512 = omega arith in
        let span = index_pages (1 - below) in
        let p = entry-Points i h s t n count tree on level small lo (hi small) some covered in
        let child = pa2va (pte2pa (s.ptes t i)) in
        let (pos, al, pal, fits_pa, back) =
          pages.place s.state child tree.state (tree.used child p.has) in
        let some_child : (child == 0) ≡ false = ground (arith, pos) in
        let pa_al : (pte2pa (s.ptes t i) % page_size == 0) ≡ true = pte2pa-aligned (s.ptes t i) in
        let va_al : (child % page_size == 0) ≡ true = ground (arith, al) in
        let index' : h.index child ≡ 2 - below = omega (arith, p.index, level, low) in
        let start' : h.start child ≡ h.start t + i * span =
          subst (λ k. h.start child ≡ h.start t + i * index_pages k) level p.start in
        let pages' : table_pages (h.index child) ≡ span =
          ap table_pages (p.index ∙ ap (λ k. k + 1) level) ∙ slot_table (1 - below) (omega arith) in
        let limit : ℕ = h.start t + i * span + span in
        let end_child : h.start child + table_pages (h.index child) ≡ limit =
          omega (arith, start', pages') in
        let bounds = slot_limit (1 - below) (h.start t) i (omega arith) small in
        rw (p.next, some_child, pa_al, va_al)
          (Returns-bind
            (walks h s child n count tree p.has (omega (arith, index', low))
              (omega (arith, start', lo)) (omega (arith, start', pages', hi small)) some few fits
              covered)
            λ (n', s₁) w₀.
              let w : Unwalked pages below n count h s child limit n' s₁ =
                subst (λ L. Unwalked pages below n count h s child L n' s₁) end_child w₀ in
              Returns-bind
                (slot-Unwalked pages below low h s t i child n count n' s₁ tree on level small lo
                  p.has p.index start' few w)
                λ s₂ j. elim (Bool-cases (n' == 0)) [
                  | inl z ↦ rw z (
                      returns (record {
                        shape = j.shape;
                        tree = j.tree;
                        shrunk = j.shrunk;
                        fewer = j.fewer;
                        inside = omega (arith, j.inside, bounds);
                        result = inl (ground (arith, z));
                        upper = j.upper;
                        emptied = j.emptied;
                      }))
                  | inr z ↦
                      let full : limit ≡ n + (count - n') = elim j.result [
                        | inl q ↦ absurd (ground (arith, z, q))
                        | inr q ↦ sym q
                      ] in
                      let moved : bytes_between count n' ≡ (count - n') * page_size =
                        bytes_between_lem count n' j.fewer few in
                      let va : add_ptr (n * page_size) ((count - n') * page_size)
                          ≡ limit * page_size =
                        omega (arith, full, j.fewer, fits) in
                      let t_in = j.upper t on (omega arith) in
                      let kept = j.shrunk.keeps t t_in in
                      let step = slot_next i span in
                      let edge =
                        slot_end (1 - below) (h.start t) i (omega arith)
                          (aligned_at pages tree t (1 - below) on level) in
                      rw (z, moved, va)
                        (Returns-mono
                          (unmap_slots-Unwalked rounds (i + 1) j.shape s₂ t limit n' j.tree t_in
                            (sym kept.1 ∙ level) (omega arith) (omega (arith, kept.2, step))
                            (λ q. omega (arith, kept.2, step, bounds))
                            (omega (arith, kept.2, bounds)) (ground (arith, z))
                            (omega (arith, j.fewer, few)) (omega (arith, full, j.fewer, fits))
                            (Covered-Shrunk limit n' count j.shrunk full (omega (arith, j.fewer))
                              covered))
                          λ (left₃, s₃) r.
                            next-Unwalked limit (h.start t + table_pages (1 - below)) h s t n count
                              n' s₂ left₃ s₃ edge on j full
                              (subst
                                (λ st.
                                  Unwalked pages (suc below) limit n' j.shape s₂ t
                                    (st + table_pages (1 - below)) left₃ s₃)
                                (sym kept.2) r))
                ])

  -- The walk clears the entries of pages that all have tables, until all are done or the pages of the
  -- table end, and gives back the tables that it has emptied.
  pub riscv_unmap-Unwalks : (below : ℕ) → below ≤ 2 → Unwalks below (riscv_unmap pages below)
  unfolding riscv_unmap
  riscv_unmap-Unwalks zero low h s t n count tree on level lo hi some few fits covered =
      let two : h.index t ≡ 2 = omega (arith, level) in
      let hi' : n < h.start t + table_pages 2 = subst (λ k. n < h.start t + table_pages k) two hi in
      let (small, from, to) =
        index2id_slot 2 (h.start t) n (omega arith) (aligned_at pages tree t 2 on two) lo hi' in
      let total : table_pages (h.index t) ≡ 512 = ap table_pages two in
      rw total (
        returns (
          unfill-Unwalked pages h t on two (index2id (n * page_size) 2) n count s tree
            (omega (arith, small)) (omega (arith, from, to)) some few))
  riscv_unmap-Unwalks (suc below) low h s t n count tree on level lo hi some few fits covered =
      let at : h.index t ≡ 1 - below = omega (arith, level) in
      let hi' : n < h.start t + table_pages (1 - below) =
        subst (λ k. n < h.start t + table_pages k) at hi in
      let (small, from, to) =
        index2id_slot (1 - below) (h.start t) n (omega arith)
          (aligned_at pages tree t (1 - below) on at) lo hi' in
      rw at (
        unmap_slots-Unwalked below (omega arith) (riscv_unmap pages below)
          (riscv_unmap-Unwalks below (omega arith)) (512 - index2id (n * page_size) (1 - below))
          (index2id (n * page_size) (1 - below)) h s t n count tree on at (omega (arith, small))
          from (λ q. to) (omega (arith, hi')) some few fits covered)
