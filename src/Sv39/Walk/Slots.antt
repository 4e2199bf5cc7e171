-- ===== src/Sv39/Walk/Slots.antt =====
-- The loop of vm_walkthrough at index 0 and 1, over what it does one level below.
use aco_os.Base.{
  ℕ, zero, suc, ◌+◌, ◌-◌, ◌*◌, ◌%◌, ◌^◌, ◌≤◌, ◌<◌, ◌≡◌, inl, inr, refl, true, ◌||◌, not, ltb, ◌==◌,
  arith, ◌∙◌, Bool-cases, subst, sym, ap,
}
use aco_os.Base.Errno.{Errno}
use aco_os.Base.Run.{Run, Returns, returns, Returns-mono, Returns-bind}
use aco_os.Pageframe.{page_size, add_ptr}
use aco_os.Sv39.{pte_valid, pte2pa}
use aco_os.Sv39.Pages.{Pages}
use aco_os.Sv39.Walk.{Space, index_pages, bytes_between, is_ok, walk_slots}
use aco_os.Sv39.Walk.Stays.{Unmapped-Grown, reach-Grown}
use aco_os.Sv39.Walk.Slot.{slot_total, slot_table, slot_next, slot_end, slot_lem, slot_limit}
use aco_os.Sv39.Tree.{Shape, IsTree, aligned_at, table_pages}
use aco_os.Sv39.Grown.{Grown, Grown-refl, Grown-trans}
use aco_os.Sv39.Walk.Fill.{Unmapped, Walked}
use aco_os.Sv39.Walk.Descend.{Found, descend-Descended}

pub bytes_between_lem : (a b : ℕ) → b ≤ a → a < 2 ^ 31 → bytes_between a b ≡ (a - b) * page_size
bytes_between_lem a b h few = ground arith

module _ (pages : Pages) where
  open pages use {State, pa2va}

  -- A walk with `below` levels below the table.
  abbrev pub Walks : ℕ → ℕ → (ℕ → ℕ → ℕ → ℕ → Space State → Run (Errno × ℕ × Space State)) → Type 0
  Walks below flags next =
      (h : Shape) (s : Space State) (t n pa count : ℕ)
      → IsTree pages h s
      → h.has t ≡ true
      → h.index t + below ≡ 2
      → h.start t ≤ n
      → n < h.start t + table_pages (h.index t)
      → 0 < count
      → count < 2 ^ 31
      → n + count ≤ 2 ^ 27
      → pa + count * page_size < 2 ^ 64
      → Unmapped pages h s.ptes n count
      → Returns
          (λ (ret, left, s').
            Walked pages below flags n pa count h s t (h.start t + table_pages (h.index t)) ret left
              s')
          (next t (n * page_size) pa count s)

  module _ (below flags : ℕ) (low : below < 2)
      (next : ℕ → ℕ → ℕ → ℕ → Space State → Run (Errno × ℕ × Space State))
      (walks : Walks below flags next) where
    -- What a walk below an entry has done, seen from the table.
    below-Walked :
        (i : ℕ) (h : Shape) (s : Space State) (t n pa count child : ℕ) (s₁ : Space State)
        (ret : Errno) (left : ℕ) (s₂ : Space State)
        → IsTree pages h s
        → h.has t ≡ true
        → h.index t ≡ 1 - below
        → i < 512
        → h.start t + i * index_pages (1 - below) ≤ n
        → (f : Found pages flags n pa h s t i child s₁)
        → Walked pages below flags n pa count f.shape s₁ child
            (h.start t + i * index_pages (1 - below) + index_pages (1 - below))
            ret
            left
            s₂
        → Walked pages
            (suc below)
            flags
            n
            pa
            count
            h
            s
            t
            (h.start t + i * index_pages (1 - below) + index_pages (1 - below))
            ret
            left
            s₂
    below-Walked i h s t n pa count child s₁ ret left s₂ tree on level small lo f w =
        let kept = f.grown.keeps t on in
        let entry : s₂.ptes t i ≡ s₁.ptes t i =
          w.grown.dirs t i kept.0 (omega (arith, kept.1, level)) small f.valid in
        record {
          shape = w.shape;
          tree = w.tree;
          grown =
              Grown-trans f.grown n pa (count - left) (count - left) (omega arith) (omega arith)
                (omega arith) (λ u new old two. inl refl) w.grown;
          fewer = w.fewer;
          reached = λ m a b.
              let at = aligned_at pages tree t (1 - below) on level in
              let slot =
                slot_lem below (h.start t) i m low at small (omega (arith, lo, a))
                  (omega (arith, b, w.inside)) in
              let here = w.reached m a b in
              let valid : pte_valid (s₂.ptes t i) ≡ true = rw entry f.valid in
              let to : pa2va (pte2pa (s₂.ptes t i)) ≡ child = rw entry f.points in
              rw (slot, valid, to) here;
          inside = w.inside;
          result = w.result;
        }

    -- The walk goes on at the next entry.
    next-Walked :
        (limit total : ℕ) (h : Shape) (s : Space State) (t n pa count left : ℕ) (s₂ : Space State)
        (ret : Errno) (ret' : Errno) (left' : ℕ) (s₃ : Space State)
        → limit % 512 ≡ 0
        → IsTree pages h s
        → h.has t ≡ true
        → h.index t ≡ 1 - below
        → (w : Walked pages (suc below) flags n pa count h s t limit ret left s₂)
        → limit ≡ n + (count - left)
        → Walked pages
            (suc below)
            flags
            limit
            (pa + (count - left) * page_size)
            left
            w.shape
            s₂
            t
            total
            ret'
            left'
            s₃
        → Walked pages (suc below) flags n pa count h s t total ret' left' s₃
    next-Walked limit total h s t n pa count left s₂ ret ret' left' s₃ edge tree on level w end r =
        let sum : count - left' ≡ (count - left) + (left - left') =
          omega (arith, w.fewer, r.fewer) in
        record {
          shape = r.shape;
          tree = r.tree;
          grown =
              Grown-trans w.grown limit (pa + (count - left) * page_size) (left - left')
                (count - left') end refl sum
                (λ u new old two. inr (
                  omega (
                    arith,
                    r.grown.later u new old two,
                    aligned_at pages r.tree u 2 new two,
                    edge,
                  )))
                r.grown;
          fewer = omega (arith, w.fewer, r.fewer);
          reached = λ m a b. elim (Bool-cases (ltb m limit)) [
            | inr q ↦ r.reached m (ground (arith, q)) (ground (arith, b, end, sum))
            | inl q ↦
                let before = w.reached m a (ground (arith, q, end)) in
                let kept = w.grown.keeps t on in
                let same =
                  reach-Grown pages r.grown (suc below) t m w.tree refl kept.0
                    (omega (arith, kept.1, level)) before in
                rw same before
          ];
          inside = omega (arith, r.inside, end, sum);
          result = elim r.result [
            | inl (e, done) ↦
                inl (e, elim done [ inl z ↦ inl z | inr z ↦ inr (omega (arith, z, end, sum)) ])
            | inr e ↦ inr e
          ];
        }

    -- A walk through entries of a table; the page `n` is of the entry `i`, or behind the table.
    pub walk_slots-Walked :
        (rounds i : ℕ) (h : Shape) (s : Space State) (t n pa count : ℕ)
        → IsTree pages h s
        → h.has t ≡ true
        → h.index t ≡ 1 - below
        → rounds + i ≡ 512
        → h.start t + i * index_pages (1 - below) ≤ n
        → (i < 512 → n < h.start t + i * index_pages (1 - below) + index_pages (1 - below))
        → n ≤ h.start t + table_pages (1 - below)
        → 0 < count
        → count < 2 ^ 31
        → n + count ≤ 2 ^ 27
        → pa + count * page_size < 2 ^ 64
        → Unmapped pages h s.ptes n count
        → Returns
            (λ (ret, left, s').
              Walked pages
                (suc below)
                flags
                n
                pa
                count
                h
                s
                t
                (h.start t + table_pages (1 - below))
                ret
                left
                s')
            (walk_slots pages next rounds i t (n * page_size) pa count s)
    unfolding walk_slots
    walk_slots-Walked zero i h s t n pa count tree on level rounds lo hi end some few fits fits_pa
          free =
        let full : i * index_pages (1 - below) ≡ 512 * index_pages (1 - below) =
          let last : i ≡ 512 = omega arith in ap (λ (x : ℕ). x * index_pages (1 - below)) last in
        returns (record {
          shape = h;
          tree = tree;
          grown = Grown-refl flags n pa h s.ptes (omega arith);
          fewer = omega arith;
          reached = λ m a b. absurd (omega arith);
          inside = omega (arith, end);
          result =
              inl (refl, inr (omega (arith, full, slot_total (1 - below) (omega arith), end, lo)));
        })
    walk_slots-Walked (suc rounds) i h s t n pa count tree on level round lo hi end some few fits
          fits_pa free =
        let small : i < 512 = omega arith in
        let span = index_pages (1 - below) in
        let within : n < h.start t + i * index_pages (h.index t) + index_pages (h.index t) =
          rw level (hi small) in
        Returns-bind
          (descend-Descended pages h s tree t i on (omega (arith, level)) small flags n pa within)
          λ (ret, child, s₁) found. elim found [
            | inr (e, no_page) ↦ rw e (
                returns (record {
                  shape = h;
                  tree = no_page.tree;
                  grown =
                      subst (λ p. Grown flags n pa (count - count) h s.ptes h p) (sym no_page.same)
                        (Grown-refl flags n pa h s.ptes (omega arith));
                  fewer = omega arith;
                  reached = λ m a b. absurd (omega arith);
                  inside = omega (arith, end);
                  result = inr refl;
                }))
            | inl (e, f) ↦
                let index' : f.shape.index child ≡ 2 - below = omega (arith, f.index, level, low) in
                let start' : f.shape.start child ≡ h.start t + i * span =
                  subst (λ k. f.shape.start child ≡ h.start t + i * index_pages k) level f.start in
                let pages' : table_pages (f.shape.index child) ≡ span =
                  ap table_pages (f.index ∙ ap (λ k. k + 1) level)
                  ∙ slot_table (1 - below) (omega arith) in
                rw e (
                  Returns-bind
                    (walks f.shape s₁ child n pa count f.tree f.has (omega (arith, index', low))
                      (omega (arith, start', lo)) (omega (arith, start', pages', hi small)) some few
                      fits fits_pa
                      (Unmapped-Grown pages f.grown n count count (omega arith) (omega arith) free))
                    λ (ret', n', s₂) w₀.
                      let limit : ℕ = h.start t + i * span + span in
                      let end_child : f.shape.start child + table_pages (f.shape.index child)
                          ≡ limit =
                        omega (arith, start', pages') in
                      let w : Walked pages below flags n pa count f.shape s₁ child limit ret' n'
                          s₂ =
                        subst
                          (λ L. Walked pages below flags n pa count f.shape s₁ child L ret' n' s₂)
                          end_child w₀ in
                      let j =
                        below-Walked i h s t n pa count child s₁ ret' n' s₂ tree on level small lo f
                          w in
                      let bounds = slot_limit (1 - below) (h.start t) i (omega arith) small in
                      elim (Bool-cases (not (is_ok ret') || (n' == 0))) [
                        | inl stop ↦ rw stop (
                            returns (record {
                              shape = j.shape;
                              tree = j.tree;
                              grown = j.grown;
                              fewer = j.fewer;
                              reached = j.reached;
                              inside = omega (arith, j.inside, bounds);
                              result = elim j.result [
                                | inl (e, done) ↦ inl (e, inl (ground (arith, stop, e)))
                                | inr e ↦ inr e
                              ];
                            }))
                        | inr go ↦
                            let full : limit ≡ n + (count - n') = elim j.result [
                              | inr e ↦ absurd (ground (arith, go, e))
                              | inl (e, done) ↦ elim done [
                                | inl z ↦ absurd (ground (arith, go, z))
                                | inr z ↦ sym z
                              ]
                            ] in
                            let moved : bytes_between count n' ≡ (count - n') * page_size =
                              bytes_between_lem count n' j.fewer few in
                            let va : add_ptr (n * page_size) ((count - n') * page_size)
                                ≡ limit * page_size =
                              omega (arith, full, j.fewer, fits) in
                            let pa' : add_ptr pa ((count - n') * page_size)
                                ≡ pa + (count - n') * page_size =
                              omega (arith, j.fewer, fits_pa) in
                            let kept = j.grown.keeps t on in
                            let step = slot_next i span in
                            rw (go, moved, va, pa')
                              (Returns-mono
                                (walk_slots-Walked rounds (i + 1) j.shape s₂ t limit
                                  (pa + (count - n') * page_size) n' j.tree kept.0 (kept.1 ∙ level)
                                  (omega arith) (omega (arith, kept.2, step))
                                  (λ q. omega (arith, kept.2, step, bounds))
                                  (omega (arith, kept.2, bounds)) (ground (arith, go))
                                  (omega (arith, j.fewer, few)) (omega (arith, full, j.fewer, fits))
                                  (omega (arith, j.fewer, fits_pa))
                                  (Unmapped-Grown pages j.grown limit n' count full
                                    (omega (arith, j.fewer)) free))
                                λ (ret₃, left₃, s₃) r.
                                  next-Walked limit (h.start t + table_pages (1 - below)) h s t n pa
                                    count n' s₂ ret' ret₃ left₃ s₃
                                    (slot_end (1 - below) (h.start t) i (omega arith)
                                      (aligned_at pages tree t (1 - below) on level))
                                    tree on level j full
                                    (subst
                                      (λ st.
                                        Walked pages (suc below) flags limit
                                          (pa + (count - n') * page_size) n' j.shape s₂ t
                                          (st + table_pages (1 - below)) ret₃ left₃ s₃)
                                      kept.2 r))
                      ])
          ]
