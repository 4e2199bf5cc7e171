-- ===== src/Sv39/Walk/Walkthrough.antt =====
-- vm_walkthrough at every index.
use aco_os.Base.{ℕ, zero, suc, ◌+◌, ◌-◌, ◌*◌, ◌≤◌, ◌<◌, ◌≡◌, arith, subst, ap}
use aco_os.Pageframe.{page_size}
use aco_os.Sv39.{index2id}
use aco_os.Sv39.Pages.{Pages}
use aco_os.Sv39.Walk.{vm_walkthrough}
use aco_os.Sv39.Walk.Slot.{index2id_slot}
use aco_os.Sv39.Tree.{aligned_at, table_pages}
use aco_os.Sv39.Walk.Fill.{fill-Walked}
use aco_os.Sv39.Walk.Slots.{Walks, walk_slots-Walked}

module _ (pages : Pages) where
  -- The walk from a table maps pages that were not mapped, until all are done, the pages of the table
  -- end, or no page is left for a table.
  pub vm_walkthrough-Walks :
      (below flags : ℕ) → below ≤ 2 → Walks pages below flags (vm_walkthrough pages below flags)
  unfolding vm_walkthrough
  vm_walkthrough-Walks zero flags low h s t n pa count tree on level lo hi some few fits fits_pa
        free =
      let two : h.index t ≡ 2 = omega (arith, level) in
      let hi' : n < h.start t + table_pages 2 = subst (λ k. n < h.start t + table_pages k) two hi in
      let (small, from, to) =
        index2id_slot 2 (h.start t) n (omega arith) (aligned_at pages tree t 2 on two) lo hi' in
      let total : table_pages (h.index t) ≡ 512 = ap table_pages two in
      rw total (
        fill-Walked pages h t on two (index2id (n * page_size) 2) flags n pa count s tree
          (omega (arith, small)) (omega (arith, from, to)) some few fits_pa free)
  vm_walkthrough-Walks (suc below) flags low h s t n pa count tree on level lo hi some few fits
        fits_pa free =
      let at : h.index t ≡ 1 - below = omega (arith, level) in
      let hi' : n < h.start t + table_pages (1 - below) =
        subst (λ k. n < h.start t + table_pages k) at hi in
      let (small, from, to) =
        index2id_slot (1 - below) (h.start t) n (omega arith)
          (aligned_at pages tree t (1 - below) on at) lo hi' in
      rw at (
        walk_slots-Walked pages below flags (omega arith) (vm_walkthrough pages below flags)
          (vm_walkthrough-Walks below flags (omega arith))
          (512 - index2id (n * page_size) (1 - below)) (index2id (n * page_size) (1 - below)) h s t
          n pa count tree on at (omega (arith, small)) from (λ q. to) (omega (arith, hi')) some few
          fits fits_pa free)
