-- ===== src/Vma/Order.antt =====
-- The areas of a vma follow one another in memory.
use aco_os.Base.{
  ℕ, ◌+◌, ◌^◌, ◌≤◌, ◌<◌, ◌≡◌, inl, inr, refl, true, false, Bool, ◌||◌, List, [], ◌∷◌, ◌++◌, leb,
  if◌then◌else◌, has, ◌∈◌, Distinct, arith, Bool-cases,
}
use aco_os.Avl.{Avl}
use aco_os.Vma.{Area, Vma, area_end}

-- An area has addresses, and its end is below 2^64.
abbrev pub IsArea : Area → Type 0
IsArea a = (0 < a.size) × (a.va + a.size < 2 ^ 64)

-- All the areas of a list lie at `e` or behind.
abbrev pub Behind : (ℕ → Area) → ℕ → List ℕ → Type 0
Behind areas e [] = Unit
Behind areas e (y ∷ ys) = (e ≤ (areas y).va) × Behind areas e ys

abbrev pub Sorted : (ℕ → Area) → List ℕ → Type 0
Sorted areas [] = Unit
Sorted areas (x ∷ xs) =
    IsArea (areas x) × Behind areas ((areas x).va + (areas x).size) xs × Sorted areas xs

pub record IsVma (avl : Avl) (areas : ℕ → Area) (v : Vma avl.Tree) : Type 0 where
  pub sorted : Sorted areas v.l_list
  pub tree : avl.nodes v.a_root ≡ v.l_list

-- Two areas share an address.
abbrev pub overlap : Area → Area → Bool
overlap a b = if leb (area_end b) a.va then false else if leb (area_end a) b.va then false else true

abbrev pub overlaps : (ℕ → Area) → ℕ → List ℕ → Bool
overlaps areas x [] = false
overlaps areas x (y ∷ ys) = overlap (areas x) (areas y) || overlaps areas x ys

-- The areas before an address, and those from it on.
abbrev pub front : (ℕ → Area) → ℕ → List ℕ → List ℕ
front areas a [] = []
front areas a (y ∷ ys) = if leb (area_end (areas y)) a then y ∷ front areas a ys else []

abbrev pub rear : (ℕ → Area) → ℕ → List ℕ → List ℕ
rear areas a [] = []
rear areas a (y ∷ ys) = if leb (area_end (areas y)) a then rear areas a ys else y ∷ ys

module _ (areas : ℕ → Area) where
  pub front-rear : (a : ℕ) (ys : List ℕ) → ys ≡ front areas a ys ++ rear areas a ys
  front-rear a [] = refl
  front-rear a (y ∷ ys) = ground (arith, front-rear a ys)

  pub Behind-mono : (e f : ℕ) (ys : List ℕ) → f ≤ e → Behind areas e ys → Behind areas f ys
  Behind-mono e f [] h b = tt
  Behind-mono e f (y ∷ ys) h b = (omega arith, Behind-mono e f ys h b.1)

  pub Behind-mem : (e y : ℕ) (ys : List ℕ) → Behind areas e ys → y ∈ ys → e ≤ (areas y).va
  Behind-mem e y [] b m = ground arith
  Behind-mem e y (z ∷ zs) b m = ground (arith, Behind-mem e y zs)

  pub Sorted-Distinct : (ys : List ℕ) → Sorted areas ys → Distinct ys
  Sorted-Distinct [] s = tt
  Sorted-Distinct (y ∷ ys) s = elim (Bool-cases (has y ys)) [
    | inr e ↦ (e, Sorted-Distinct ys s.2)
    | inl e ↦ absurd (omega (arith, Behind-mem ((areas y).va + (areas y).size) y ys s.1 e, s.0))
  ]
