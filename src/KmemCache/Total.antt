-- ===== src/KmemCache/Total.antt =====
-- The objects that are free in the slabs of a list.
use aco_os.Base.{
  ℕ, ◌+◌, ◌≡◌, refl, List, [], ◌∷◌, ◌++◌, update, remove, length, ◌∈◌, ◌∉◌, Distinct, arith,
}

-- `free_of` gives the free objects of the slab at a frame.
abbrev pub total : (ℕ → List ℕ) → List ℕ → ℕ
total free_of [] = 0
total free_of (p ∷ ps) = length (free_of p) + total free_of ps

pub total-append :
    (free_of : ℕ → List ℕ) (ps qs : List ℕ)
    → total free_of (ps ++ qs) ≡ total free_of ps + total free_of qs
total-append free_of [] qs = omega arith
total-append free_of (p ∷ ps) qs = omega (arith, total-append free_of ps qs)

pub total-remove :
    (free_of : ℕ → List ℕ) (p : ℕ) (ps : List ℕ)
    → p ∈ ps
    → total free_of ps ≡ length (free_of p) + total free_of (remove p ps)
total-remove free_of p [] h = ground arith
total-remove free_of p (q ∷ ps) h = ground (arith, total-remove free_of p ps)

module _ (free_of : ℕ → List ℕ) (p : ℕ) (xs : List ℕ) where
  pub total-update_absent :
      (ps : List ℕ) → p ∉ ps → total (update free_of p xs) ps ≡ total free_of ps
  total-update_absent [] h = refl
  total-update_absent (q ∷ ps) h = ground (arith, total-update_absent ps)

  pub total-update :
      (ps : List ℕ)
      → Distinct ps
      → p ∈ ps
      → total (update free_of p xs) ps + length (free_of p) ≡ total free_of ps + length xs
  total-update [] d h = ground arith
  total-update (q ∷ ps) d h = ground (arith, total-update ps, total-update_absent ps)

pub total-none :
    (free_of : ℕ → List ℕ) (ps : List ℕ)
    → ((p : ℕ) → p ∈ ps → free_of p ≡ [])
    → total free_of ps ≡ 0
total-none free_of [] h = refl
total-none free_of (p ∷ ps) h =
    let none_here : free_of p ≡ [] = h p (ground arith) in
    let rest = total-none free_of ps (λ q m. h q (ground arith)) in
    rw none_here (omega (arith, rest))
