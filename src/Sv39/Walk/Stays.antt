-- ===== src/Sv39/Walk/Stays.antt =====
-- What stays where tables have grown: pages that are not mapped, and where walks end.
use aco_os.Base.{
  ℕ, zero, suc, ◌+◌, ◌/◌, ◌%◌, ◌<◌, ◌≡◌, inl, inr, refl, true, false, arith, ◌∙◌, Bool-cases, subst,
  sym,
}
use aco_os.Sv39.{pte_valid, pte2pa}
use aco_os.Sv39.Pages.{Pages}
use aco_os.Sv39.Walk.{Space}
use aco_os.Sv39.Tree.{Shape, Points, IsTree, reach, slot_pages}
use aco_os.Sv39.Grown.{in_run, Grown}
use aco_os.Sv39.Walk.Fill.{Unmapped}

module _ (pages : Pages) where
  open pages use {State, pa2va}

  module _ {flags n pa d : ℕ} {h : Shape} {ptes : ℕ → ℕ → ℕ} {h' : Shape} {ptes' : ℕ → ℕ → ℕ}
      (g : Grown flags n pa d h ptes h' ptes') where
    pub Unmapped-Grown :
        (m rest count : ℕ)
        → m ≡ n + d
        → count ≡ d + rest
        → Unmapped pages h ptes n count
        → Unmapped pages h' ptes' m rest
    unfolding pte_valid
    Unmapped-Grown m rest count at sum free u j on two small r = elim (Bool-cases (h.has u)) [
      | inr new ↦ ground (arith, g.leaves u j on two small, new, r)
      | inl was ↦
          let k = g.keeps u was in
          let outside : in_run n d (h'.start u + j) ≡ false = ground (arith, r, at) in
          let invalid = free u j was (sym k.1 ∙ two) small (ground (arith, r, k, at, sum)) in
          let same : ptes' u j ≡ ptes u j =
            ground (arith, g.leaves u j on two small, was, outside) in
          subst (λ (x : ℕ). pte_valid x ≡ false) (sym same) invalid
    ]

    -- Where a walk ended, it ends again.
    pub reach-Grown :
        (below t m : ℕ) {s : Space State}
        → IsTree pages h s
        → s.ptes ≡ ptes
        → h.has t ≡ true
        → h.index t + below ≡ 2
        → 0 < reach pages below ptes t m
        → reach pages below ptes' t m ≡ reach pages below ptes t m
    reach-Grown zero t m tree e on level far = refl
    reach-Grown (suc below) t m {s} tree e on level far =
        elim (Bool-cases (pte_valid (ptes t (m / slot_pages (suc below) % 512)))) [
          | inr v ↦ absurd (ground (arith, far, v))
          | inl v ↦
              let j = m / slot_pages (suc below) % 512 in
              let same = g.dirs t j on (omega (arith, level)) (omega arith) v in
              let v' : pte_valid (s.ptes t j) ≡ true =
                subst (λ (p : ℕ → ℕ → ℕ). pte_valid (p t j) ≡ true) (sym e) v in
              let p : Points pages h t j (ptes t j) =
                subst (λ (p : ℕ → ℕ → ℕ). Points pages h t j (p t j)) e
                  (tree.points t j on (omega (arith, level)) (omega arith) v') in
              let far' : 0 < reach pages below ptes (pa2va (pte2pa (ptes t j))) m = rw v at far in
              rw (same, v)
                (reach-Grown below (pa2va (pte2pa (ptes t j))) m tree e p.has
                  (omega (arith, p.index, level)) far')
        ]
