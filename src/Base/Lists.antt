-- ===== src/Base/Lists.antt =====
-- Lists of addresses: length, membership as a test, lists without repetition.
use Prim.Native.Nat.{ℕ, zero, suc, ◌+◌, ◌≤◌, ◌<◌}
use mathlib.Core.Path.{◌≡◌, refl}
use mathlib.Core.Bool.{Bool, true, false, ◌||◌}
use mathlib.Core.Logic.{◌⊎◌, inl, inr}
use mathlib.Core.List.{List, [], ◌∷◌, ◌++◌}
use native.Mathlib.Omega.{arith}
use aco_os.Base.Tests.{◌==◌, if◌then◌else◌}

module _ {ℓ} {A : Type ℓ} where
  abbrev pub length : List A → ℕ
  length [] = 0
  length (x ∷ xs) = suc (length xs)

  pub length-append : (xs ys : List A) → length (xs ++ ys) ≡ length xs + length ys
  length-append [] ys = omega arith
  length-append (x ∷ xs) ys = omega (arith, length-append xs ys)

abbrev pub has : ℕ → List ℕ → Bool
has a [] = false
has a (x ∷ xs) = (a == x) || has a xs

infix 40 ◌∈◌ ◌∉◌
abbrev pub ◌∈◌ : ℕ → List ℕ → Type 0
a ∈ xs = has a xs ≡ true

abbrev pub ◌∉◌ : ℕ → List ℕ → Type 0
a ∉ xs = has a xs ≡ false

-- No address occurs twice.
abbrev pub Distinct : List ℕ → Type 0
Distinct [] = Unit
Distinct (x ∷ xs) = (x ∉ xs) × Distinct xs

pub has-append : (a : ℕ) (xs ys : List ℕ) → has a (xs ++ ys) ≡ (has a xs || has a ys)
has-append a [] ys = refl
has-append a (x ∷ xs) ys = ground (arith, has-append a xs ys)

-- Drops the first occurrence.
abbrev pub remove : ℕ → List ℕ → List ℕ
remove a [] = []
remove a (x ∷ xs) = if a == x then xs else x ∷ remove a xs

pub has-remove : (a b : ℕ) (xs : List ℕ) → b ∈ remove a xs → b ∈ xs
has-remove a b [] h = h
has-remove a b (x ∷ xs) h = ground (arith, has-remove a b xs)

pub has-remove_ne : (a b : ℕ) (xs : List ℕ) → (a == b) ≡ false → has b (remove a xs) ≡ has b xs
has-remove_ne a b [] h = refl
has-remove_ne a b (x ∷ xs) h = ground (arith, has-remove_ne a b xs)

pub not-mem-remove : (a b : ℕ) (xs : List ℕ) → b ∉ xs → b ∉ remove a xs
not-mem-remove a b [] h = h
not-mem-remove a b (x ∷ xs) h = ground (arith, not-mem-remove a b xs)

pub Distinct-remove :
    (a : ℕ) (xs : List ℕ) → Distinct xs → Distinct (remove a xs) × (a ∉ remove a xs)
Distinct-remove a [] d = (tt, refl)
Distinct-remove a (x ∷ xs) d = ground (arith, Distinct-remove a xs, not-mem-remove a x xs)

pub length-remove : (a : ℕ) (xs : List ℕ) → a ∈ xs → length xs ≡ suc (length (remove a xs))
length-remove a [] h = ground arith
length-remove a (x ∷ xs) h = ground (arith, length-remove a xs)

pub Distinct-snoc : (a : ℕ) (xs : List ℕ) → Distinct xs → a ∉ xs → Distinct (xs ++ (a ∷ []))
Distinct-snoc a [] d h = (refl, tt)
Distinct-snoc a (x ∷ xs) d h = ground (arith, Distinct-snoc a xs, has-append x xs (a ∷ []))

abbrev pub Disjoint : List ℕ → List ℕ → Type 0
Disjoint xs ys = (a : ℕ) → a ∈ xs → a ∉ ys

-- A list has no repetition exactly when its two halves have none and share nothing.
pub Distinct-split :
    (xs ys : List ℕ) → Distinct (xs ++ ys) → Distinct xs × Distinct ys × Disjoint xs ys
Distinct-split [] ys d = (tt, d, λ a i. ground arith)
Distinct-split (x ∷ xs) ys d =
    let (left, right, apart) = Distinct-split xs ys d.1 in
    (
      (ground (arith, has-append x xs ys), left),
      right,
      λ a i. ground (arith, has-append x xs ys, apart a),
    )

pub Distinct-join :
    (xs ys : List ℕ) → Distinct xs → Distinct ys → Disjoint xs ys → Distinct (xs ++ ys)
Distinct-join [] ys d e apart = e
Distinct-join (x ∷ xs) ys d e apart = (
  ground (arith, has-append x xs ys, apart x),
  Distinct-join xs ys d.1 e (λ a i. apart a (ground arith)),
)

pub List-cases {ℓ} :
    {A : Type ℓ} (xs : List A) → (xs ≡ []) ⊎ ((x : A) × (ys : List A) × (xs ≡ x ∷ ys))
List-cases [] = inl refl
List-cases (x ∷ xs) = inr (x, xs, refl)

pub length-zero {ℓ} : {A : Type ℓ} (xs : List A) → length xs ≡ 0 → xs ≡ []
length-zero [] h = refl
length-zero (x ∷ xs) h = absurd (omega arith)

pub length-le-remove : (a : ℕ) (xs : List ℕ) → length xs ≤ suc (length (remove a xs))
length-le-remove a [] = omega arith
length-le-remove a (x ∷ xs) = ground (arith, length-le-remove a xs)

-- Numbers below `n`, none of them twice, are at most `n`.
pub Distinct-length :
    (n : ℕ) (xs : List ℕ) → Distinct xs → ((a : ℕ) → a ∈ xs → a < n) → length xs ≤ n
Distinct-length zero [] d below = omega arith
Distinct-length zero (x ∷ xs) d below = absurd (ground (arith, below x))
Distinct-length (suc n) xs d below =
    let (d', out) = Distinct-remove n xs d in
    let rest =
      Distinct-length n (remove n xs) d' (λ a m. ground (arith, below a, has-remove n a xs, out)) in
    omega (arith, length-le-remove n xs, rest)
