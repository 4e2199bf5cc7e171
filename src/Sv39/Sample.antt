-- ===== src/Sv39/Sample.antt =====
-- Tables in three page frames of a sample of mm/buddy, which map two pages.
use aco_os.Base.{
  ℕ, zero, suc, ◌+◌, ◌*◌, ◌^◌, ◌≤◌, ◌<◌, ◌≡◌, ◌≢◌, ◌⊎◌, inl, inr, refl, sym, subst, true, false,
  ◌&&◌, ◌||◌, ◌==◌, if◌then◌else◌, arith, Bool-cases,
}
use aco_os.Pageframe.{id2va, pa2va}
use aco_os.Buddy.Sample.{config, config-IsConfig, one_free, one_free-IsBuddy, one_free-InUse}
use aco_os.Sv39.{pte_valid, pte_writeable, pte_readable, pte_excutable, pte_nextpgt, pte2pa}
use aco_os.Sv39.Pages.{Pages}
use aco_os.Sv39.Backing.{buddy_pages, UsedPage}
use aco_os.Sv39.Walk.{Space}
use aco_os.Sv39.Tree.{Shape, Points, IsTree, lookup}
use aco_os.Sv39.Walk.Found.{IsRoot}

abbrev pub sample : Pages
sample = buddy_pages config config-IsConfig (omega arith) (omega arith)

-- The frames 1, 2 and 5.
abbrev pub root : ℕ
root = 2 ^ 32 + 4096

abbrev pub middle : ℕ
middle = 2 ^ 32 + 8192

abbrev pub leaf : ℕ
leaf = 2 ^ 32 + 20480

abbrev pub shape : Shape
shape = record {
  has = λ a. (a == root) || ((a == middle) || (a == leaf));
  index = λ a. if a == root then 0 else if a == middle then 1 else 2;
  start = λ a. 0;
}

-- The pages 0 and 1 are mapped, to frames from 16 on.
abbrev pub space : Space sample.State
space = record {
  state = one_free;
  ptes = λ a i.
      if i == 0
      then (if a == root
          then 2049
          else if a == middle
          then 5121
          else if a == leaf
          then 16399
          else 0)
      else if (a == leaf) && (i == 1)
      then 17423
      else 0;
}

in_shape : (a : ℕ) → shape.has a ≡ true → (a ≡ root) ⊎ ((a ≡ middle) ⊎ (a ≡ leaf))
in_shape a h = ground arith

frame-UsedPage : (p : ℕ) → 0 < p → p < 8 → p ≢ 3 → UsedPage config one_free (2 ^ 32 + p * 4096)
unfolding id2va
frame-UsedPage p some small other = (p, ground arith, one_free-InUse p some small other)

is_used : {a b : ℕ} → UsedPage config one_free b → a ≡ b → UsedPage config one_free a
is_used {a} u e = subst (λ (x : ℕ). UsedPage config one_free x) (sym e) u

root-Points : Points sample shape root 0 2049
unfolding pte_nextpgt pte_valid pte_writeable pte_readable pte_excutable pte2pa pa2va
root-Points = record { next = refl; has = refl; index = refl; start = refl }

middle-Points : Points sample shape middle 0 5121
unfolding pte_nextpgt pte_valid pte_writeable pte_readable pte_excutable pte2pa pa2va
middle-Points = record { next = refl; has = refl; index = refl; start = refl }

entry-Points :
    (a i : ℕ)
    → shape.has a ≡ true
    → shape.index a < 2
    → pte_valid (space.ptes a i) ≡ true
    → Points sample shape a i (space.ptes a i)
unfolding pte_valid
entry-Points a i h low v =
    let first : i ≡ 0 = ground arith in
    elim (in_shape a h) [
      | inl e ↦ rw (e, first) root-Points
      | inr (inl e) ↦ rw (e, first) middle-Points
      | inr (inr e) ↦ absurd (ground (arith, e, low))
    ]

pub space-IsTree : IsTree sample shape space
unfolding pte_valid
space-IsTree = record {
  state = one_free-IsBuddy;
  used = λ a h. elim (in_shape a h) [
    | inl e ↦ is_used (frame-UsedPage 1 (omega arith) (omega arith) (omega arith)) e
    | inr (inl e) ↦ is_used (frame-UsedPage 2 (omega arith) (omega arith) (omega arith)) e
    | inr (inr e) ↦ is_used (frame-UsedPage 5 (omega arith) (omega arith) (omega arith)) e
  ];
  low = λ a h. ground arith;
  aligned = λ a h. omega arith;
  points = λ a i h low small v. entry-Points a i h low v;
  parent = λ a h some. elim (in_shape a h) [
    | inl e ↦ absurd (ground (arith, e, some))
    | inr (inl e) ↦ (root, 0, refl, ground (arith, e), omega arith, refl, refl)
    | inr (inr e) ↦ (middle, 0, refl, ground (arith, e), omega arith, refl, refl)
  ];
  unique = λ a b h h' e e'. ground arith;
}

pub space-IsRoot : IsRoot sample shape space root
space-IsRoot = record { tree = space-IsTree; has = refl; index = refl; start = refl }

pub space_mapped : (m : ℕ) → m < 2 → pte_valid (lookup sample space.ptes root m) ≡ true
unfolding lookup pte_valid pte2pa pa2va
space_mapped zero h = refl
space_mapped (suc zero) h = refl
space_mapped (suc (suc m)) h = absurd (omega arith)

pub space_unmapped :
    (m : ℕ) → 511 ≤ m → m < 513 → pte_valid (lookup sample space.ptes root m) ≡ false
unfolding lookup pte_valid pte2pa pa2va
space_unmapped m lo hi = elim (Bool-cases (m == 511)) [
  | inl e ↦ let at : m ≡ 511 = ground arith in rw at refl
  | inr e ↦ let at : m ≡ 512 = ground arith in rw at refl
]
