-- ===== src/Base/Count.antt =====
-- How many of the CPUs below `n` are in a stage of some kind.
use native.Mathlib.Decide.{ℕ_discrete, dec_lt}
use aco_os.Base.{
  ℕ, zero, suc, ◌+◌, ◌≤◌, ◌<◌, ◌≡◌, refl, Bool, true, false, ◌==◌, update, arith, subst, sym, inl,
  inr, Bool-cases,
}

abbrev pub one_if : Bool → ℕ
one_if true = 1
one_if false = 0

module _ {A : Type 0} where
  abbrev pub count : (A → Bool) → ℕ → (ℕ → A) → ℕ
  count p zero f = 0
  count p (suc n) f = one_if (p (f n)) + count p n f

  count-same :
      (p : A → Bool) (n : ℕ) (f : ℕ → A) (i : ℕ) (x : A)
      → n ≤ i
      → count p n (update f i x) ≡ count p n f
  count-same p zero f i x h = refl
  count-same p (suc n) f i x h =
      let ne : (i == n) ≡ false = ground arith in
      rw ne (omega (arith, count-same p n f i x (omega arith)))

  -- One CPU changes its phase.
  pub count-update :
      (p : A → Bool) (n : ℕ) (f : ℕ → A) (i : ℕ) (x : A)
      → i < n
      → count p n (update f i x) + one_if (p (f i)) ≡ count p n f + one_if (p x)
  count-update p zero f i x h = absurd (omega arith)
  count-update p (suc n) f i x h = elim (ℕ_discrete i n) [
    | yes e ↦
        let self : (n == n) ≡ true = ground arith in
        rw (e, self) (omega (arith, count-same p n f n x (omega arith)))
    | no ne ↦
        let other : (i == n) ≡ false = ground arith in
        rw other (omega (arith, count-update p n f i x (omega arith)))
  ]

  pub count-le : (p : A → Bool) (n : ℕ) (f : ℕ → A) → count p n f ≤ n
  count-le p zero f = omega arith
  count-le p (suc n) f = ground (arith, count-le p n f)

  -- A CPU of the kind counts, and two of them count twice.
  pub count-pos :
      (p : A → Bool) (n : ℕ) (f : ℕ → A) (i : ℕ) → i < n → p (f i) ≡ true → 0 < count p n f
  count-pos p zero f i h e = absurd (omega arith)
  count-pos p (suc n) f i h e = elim (ℕ_discrete i n) [
    | yes same ↦
        let here : p (f n) ≡ true = subst (λ k. p (f k) ≡ true) same e in rw here (omega arith)
    | no ne ↦ omega (arith, count-pos p n f i (omega arith) e)
  ]

  count-two :
      (p : A → Bool) (n : ℕ) (f : ℕ → A) (i j : ℕ)
      → i < j
      → j < n
      → p (f i) ≡ true
      → p (f j) ≡ true
      → 1 < count p n f
  count-two p zero f i j lo hi e k = absurd (omega arith)
  count-two p (suc n) f i j lo hi e k = elim (ℕ_discrete j n) [
    | yes same ↦
        let here : p (f n) ≡ true = subst (λ m. p (f m) ≡ true) same k in
        rw here (omega (arith, count-pos p n f i (omega arith) e))
    | no ne ↦ omega (arith, count-two p n f i j lo (omega arith) e k)
  ]

  -- Where at most one counts, two that count are the same.
  pub count_unique :
      (p : A → Bool) (n : ℕ) (f : ℕ → A) (i j : ℕ)
      → count p n f ≤ 1
      → i < n
      → j < n
      → p (f i) ≡ true
      → p (f j) ≡ true
      → i ≡ j
  count_unique p n f i j one hi hj e k = elim (dec_lt i j) [
    | yes less ↦ absurd (omega (arith, count-two p n f i j less hj e k))
    | no ge ↦ elim (dec_lt j i) [
      | yes more ↦ absurd (omega (arith, count-two p n f j i more hi k e))
      | no le ↦ omega arith
    ]
  ]

  -- Where all count, each does.
  pub count-all :
      (p : A → Bool) (n : ℕ) (f : ℕ → A) (i : ℕ) → count p n f ≡ n → i < n → p (f i) ≡ true
  count-all p zero f i all h = absurd (omega arith)
  count-all p (suc n) f i all h = elim (Bool-cases (p (f n))) [
    | inr other ↦ absurd (ground (arith, other, all, count-le p n f))
    | inl here ↦ elim (ℕ_discrete i n) [
      | yes same ↦ subst (λ k. p (f k) ≡ true) (sym same) here
      | no ne ↦ count-all p n f i (ground (arith, here, all)) (omega arith)
    ]
  ]

  pub count-none :
      (p : A → Bool) (n : ℕ) (f : ℕ → A) → ((i : ℕ) → i < n → p (f i) ≡ false) → count p n f ≡ 0
  count-none p zero f h = refl
  count-none p (suc n) f h = ground (arith, h n, count-none p n f (λ i small. h i (omega arith)))
