-- ===== src/Sv39/Tree/Lookup.antt =====
-- The entry that a walk through the tables finds for a page.
use aco_os.Base.{
  ℕ, zero, suc, ◌+◌, ◌-◌, ◌*◌, ◌/◌, ◌%◌, ◌≤◌, ◌<◌, ◌≡◌, refl, true, arith, subst, sym, ◌∙◌, ap,
  Bool-cases, inl, inr,
}
use aco_os.Sv39.{pte_valid, pte2pa}
use aco_os.Sv39.Pages.{Pages}
use aco_os.Sv39.Walk.{Space, index_pages}
use aco_os.Sv39.Walk.Slot.{slot_lem, slot_limit, slot_table, slot_holds, same_start}
use aco_os.Sv39.Tree.{Shape, IsTree, table_pages, slot_pages, reach, aligned_at}

module _ (pages : Pages) where
  open pages use {State, pa2va}

  module _ {h : Shape} {s : Space State} (tree : IsTree pages h s) where
    -- The walk from the table that points to `t` goes on from `t`.
    reach-parent :
        (below t m : ℕ)
        → below < 2
        → h.has t ≡ true
        → h.index t + below ≡ 2
        → h.start t ≤ m
        → m < h.start t + table_pages (h.index t)
        → (p : ℕ) × (h.has p ≡ true)
          × (h.index p + suc below ≡ 2)
          × (h.start p ≤ m)
          × (m < h.start p + table_pages (h.index p))
          × (reach pages (suc below) s.ptes p m ≡ reach pages below s.ptes t m)
    reach-parent below t m low on level lo hi =
        let (p, i, p_in, p_index, small, v, start) = tree.parent t on (omega (arith, level, low)) in
        let at : h.index p ≡ 1 - below = omega (arith, p_index, level, low) in
        let start' : h.start t ≡ h.start p + i * index_pages (1 - below) =
          subst (λ k. h.start t ≡ h.start p + i * index_pages k) at start in
        let at_t : h.index t ≡ (1 - below) + 1 = omega (arith, at, p_index) in
        let total : table_pages (h.index t) ≡ index_pages (1 - below) =
          ap table_pages at_t ∙ slot_table (1 - below) (omega arith) in
        let lo' : h.start p + i * index_pages (1 - below) ≤ m = omega (arith, start', lo) in
        let hi' : m < h.start p + i * index_pages (1 - below) + index_pages (1 - below) =
          omega (arith, start', hi, total) in
        let slot =
          slot_lem below (h.start p) i m low (aligned_at pages tree p (1 - below) p_in at) small lo'
            hi' in
        let limit = slot_limit (1 - below) (h.start p) i (omega arith) small in
        let total_p : table_pages (h.index p) ≡ table_pages (1 - below) = ap table_pages at in
        let c = tree.points p i p_in (omega (arith, at)) small v in
        let same : pa2va (pte2pa (s.ptes p i)) ≡ t =
          tree.unique (pa2va (pte2pa (s.ptes p i))) t c.has on (c.index ∙ p_index)
            (c.start ∙ sym start) in
        (
          p,
          p_in,
          omega (arith, at, low),
          omega (arith, lo'),
          omega (arith, hi', limit, total_p),
          rw (slot, v, same) refl,
        )

    table_unique :
        (t u m k : ℕ)
        → k ≤ 2
        → h.has t ≡ true
        → h.has u ≡ true
        → h.index t ≡ k
        → h.index u ≡ k
        → (h.start t ≤ m) × (m < h.start t + table_pages k)
        → (h.start u ≤ m) × (m < h.start u + table_pages k)
        → t ≡ u
    table_unique t u m k low on on' e e' r r' = tree.unique t u on on' (e ∙ sym e') (
        same_start k (h.start t) (h.start u) m low (aligned_at pages tree t k on e)
          (aligned_at pages tree u k on' e') r r')

    -- A table at index 2 is where the walk for each of its pages ends, from any table that is for the page.
    pub reach-covered :
        (below t u m : ℕ)
        → below ≤ 2
        → h.has t ≡ true
        → h.index t + below ≡ 2
        → (h.start t ≤ m) × (m < h.start t + table_pages (h.index t))
        → h.has u ≡ true
        → h.index u ≡ 2
        → (h.start u ≤ m) × (m < h.start u + 512)
        → reach pages below s.ptes t m ≡ u
    reach-covered zero t u m low on level r on' two r' =
        let two' : h.index t ≡ 2 = omega (arith, level) in
        table_unique t u m 2 (omega arith) on on' two' two
          (subst (λ k. (h.start t ≤ m) × (m < h.start t + table_pages k)) two' r) r'
    reach-covered (suc zero) t u m low on level r on' two r' =
        let total : table_pages (h.index u) ≡ 512 = ap table_pages two in
        let (p, p_in, p_index, p_lo, p_hi, p_reach) =
          reach-parent 0 u m (omega arith) on' (omega (arith, two)) r'.0
            (omega (arith, r', total)) in
        let one : h.index t ≡ 1 = omega (arith, level) in
        let one' : h.index p ≡ 1 = omega (arith, p_index) in
        let same : p ≡ t =
          table_unique p t m 1 (omega arith) p_in on one' one
            (p_lo, subst (λ k. m < h.start p + table_pages k) one' p_hi)
            (r.0, subst (λ k. m < h.start t + table_pages k) one r.1) in
        subst (λ (x : ℕ). reach pages 1 s.ptes x m ≡ u) same p_reach
    reach-covered (suc (suc zero)) t u m low on level r on' two r' =
        let total : table_pages (h.index u) ≡ 512 = ap table_pages two in
        let (p, p_in, p_index, p_lo, p_hi, p_reach) =
          reach-parent 0 u m (omega arith) on' (omega (arith, two)) r'.0
            (omega (arith, r', total)) in
        let (q, q_in, q_index, q_lo, q_hi, q_reach) =
          reach-parent 1 p m (omega arith) p_in (omega (arith, p_index)) p_lo p_hi in
        let top : h.index t ≡ 0 = omega (arith, level) in
        let top' : h.index q ≡ 0 = omega (arith, q_index) in
        let same : q ≡ t =
          table_unique q t m 0 (omega arith) q_in on top' top
            (q_lo, subst (λ k. m < h.start q + table_pages k) top' q_hi)
            (r.0, subst (λ k. m < h.start t + table_pages k) top r.1) in
        subst (λ (x : ℕ). reach pages 2 s.ptes x m ≡ u) same (q_reach ∙ p_reach)
    reach-covered (suc (suc (suc below))) t u m low on level r on' two r' =
        absurd (omega (arith, low))

    -- A walk that ends, ends at the table at index 2 that is for the page.
    pub reach-has :
        (below t m : ℕ)
        → below ≤ 2
        → h.has t ≡ true
        → h.index t + below ≡ 2
        → h.start t ≤ m
        → m < h.start t + table_pages (h.index t)
        → 0 < reach pages below s.ptes t m
        → (u : ℕ) × (reach pages below s.ptes t m ≡ u)
          × (h.has u ≡ true)
          × (h.index u ≡ 2)
          × (h.start u ≤ m)
          × (m < h.start u + 512)
          × (h.start u + m % 512 ≡ m)
    reach-has zero t m low on level lo hi far =
        let two : h.index t ≡ 2 = omega (arith, level) in
        let total : table_pages (h.index t) ≡ 512 = ap table_pages two in
        (
          t,
          refl,
          on,
          two,
          lo,
          omega (arith, hi, total),
          omega (arith, hi, lo, total, aligned_at pages tree t 2 on two),
        )
    reach-has (suc below) t m low on level lo hi far =
        let j = m / slot_pages (suc below) % 512 in
        let at : h.index t ≡ 1 - below = omega (arith, level) in
        elim (Bool-cases (pte_valid (s.ptes t j))) [
          | inr v ↦ absurd (ground (arith, far, v))
          | inl v ↦
              let far' : 0 < reach pages below s.ptes (pa2va (pte2pa (s.ptes t j))) m =
                rw v at far in
              let p = tree.points t j on (omega (arith, at)) (omega arith) v in
              let start : h.start (pa2va (pte2pa (s.ptes t j)))
                  ≡ h.start t + j * index_pages (1 - below) =
                subst (λ k. h.start (pa2va (pte2pa (s.ptes t j))) ≡ h.start t + j * index_pages k)
                  at p.start in
              let at_c : h.index (pa2va (pte2pa (s.ptes t j))) ≡ (1 - below) + 1 =
                omega (arith, p.index, at) in
              let total : table_pages (h.index (pa2va (pte2pa (s.ptes t j))))
                  ≡ index_pages (1 - below) =
                ap table_pages at_c ∙ slot_table (1 - below) (omega arith) in
              let hi' : m < h.start t + table_pages (1 - below) =
                subst (λ k. m < h.start t + table_pages k) at hi in
              let (from, to) =
                slot_holds below (h.start t) m (omega arith)
                  (aligned_at pages tree t (1 - below) on at) lo hi' in
              rw v (
                reach-has below (pa2va (pte2pa (s.ptes t j))) m (omega arith) p.has
                  (omega (arith, at_c, level)) (omega (arith, start, from))
                  (omega (arith, start, total, to)) far')
        ]
