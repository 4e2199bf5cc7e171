-- ===== src/Strings/Compare.antt =====
-- strnlen, memcmp and memchr.
use native.Mathlib.Decide.{ℕ_discrete, dec_lt}
use aco_os.Base.{
  ℕ, zero, suc, ◌+◌, ◌-◌, ◌≤◌, ◌<◌, ◌≡◌, ◌≢◌, ◌⊎◌, inl, inr, refl, true, false, leb, ◌==◌, arith,
  ap, sym, subst, ◌∙◌, ◌↔◌, Bool-cases,
}
use aco_os.Base.Int.{pos, is_zero}
use aco_os.Strings.{count_bytes, strnlen, compare_bytes, memcmp, sub_int}

count_bytes_lem :
    (s rounds lenth : ℕ) (mem : ℕ → ℕ)
    → (lenth ≤ count_bytes s rounds lenth mem)
      × (count_bytes s rounds lenth mem ≤ lenth + rounds)
      × (count_bytes s rounds lenth mem < lenth + rounds
          → mem (s + count_bytes s rounds lenth mem) ≡ 0)
unfolding count_bytes
count_bytes_lem s zero lenth mem = (omega arith, omega arith, λ h. absurd (omega (arith, h)))
count_bytes_lem s (suc rounds) lenth mem =
    let rest = count_bytes_lem s rounds (lenth + 1) mem in
    elim (Bool-cases (mem (s + lenth) == 0)) [
      | inl e ↦ rw e (omega arith, omega arith, λ h. ground (arith, e))
      | inr e ↦ rw e (omega (arith, rest), omega (arith, rest), λ h. rest.2 (omega (arith, h)))
    ]

count_bytes-before :
    (s rounds lenth j : ℕ) (mem : ℕ → ℕ)
    → lenth ≤ j
    → j < count_bytes s rounds lenth mem
    → mem (s + j) ≢ 0
unfolding count_bytes
count_bytes-before s zero lenth j mem lo hi e = absurd (omega arith)
count_bytes-before s (suc rounds) lenth j mem lo hi e = elim (Bool-cases (mem (s + lenth) == 0)) [
  | inl t ↦ ground (arith, t, hi)
  | inr f ↦ elim (ℕ_discrete lenth j) [
    | yes same ↦
        let here : mem (s + j) ≡ mem (s + lenth) = ap (λ k. mem (s + k)) (sym same) in
        ground (arith, f, here, e)
    | no ne ↦ count_bytes-before s rounds (lenth + 1) j mem (omega arith) (ground (arith, f, hi)) e
  ]
]

-- strnlen of a string that is not NULL is at most maxlen, no byte before it is 0, and unless it is
-- maxlen the byte there is 0.
pub strnlen_lem :
    (s maxlen : ℕ) (mem : ℕ → ℕ)
    → 0 < s
    → (strnlen s maxlen mem ≤ maxlen)
      × ((j : ℕ) → j < strnlen s maxlen mem → mem (s + j) ≢ 0)
      × ((strnlen s maxlen mem ≡ maxlen) ⊎ (mem (s + strnlen s maxlen mem) ≡ 0))
unfolding strnlen
strnlen_lem s maxlen mem hs =
    let given : (s == 0) ≡ false = ground arith in
    let bounds = count_bytes_lem s maxlen 0 mem in
    rw given (
      omega (arith, bounds),
      (λ j h. count_bytes-before s maxlen 0 j mem (omega arith) h),
      elim (dec_lt (count_bytes s maxlen 0 mem) maxlen) [
        | yes less ↦ inr (bounds.2 (omega arith))
        | no ge ↦ inl (omega (arith, bounds))
      ],
    )

is_zero-pos : (n : ℕ) → is_zero (pos n) ≡ (n == 0)
is_zero-pos zero = refl
is_zero-pos (suc n) = ground arith

pub sub_int_zero : (a b : ℕ) → is_zero (sub_int a b) ≡ (a == b)
sub_int_zero a b = elim (dec_lt a b) [
  | yes less ↦ let t : leb b a ≡ false = ground arith in rw t (ground arith)
  | no ge ↦ let t : leb b a ≡ true = ground arith in rw t (is_zero-pos (a - b) ∙ ground arith)
]

compare_bytes-equal :
    (s1 s2 rounds i : ℕ) (mem : ℕ → ℕ)
    → is_zero (compare_bytes s1 s2 rounds i mem) ≡ true
    → (j : ℕ) → i ≤ j
    → j < i + rounds
    → mem (s1 + j) ≡ mem (s2 + j)
unfolding compare_bytes
compare_bytes-equal s1 s2 zero i mem e j lo hi = absurd (omega arith)
compare_bytes-equal s1 s2 (suc rounds) i mem e j lo hi =
    let zero_here = sub_int_zero (mem (s1 + i)) (mem (s2 + i)) in
    elim (Bool-cases (is_zero (sub_int (mem (s1 + i)) (mem (s2 + i))))) [
      | inl t ↦ elim (ℕ_discrete i j) [
        | yes same ↦
            let here : mem (s1 + i) ≡ mem (s2 + i) = ground (arith, t, zero_here) in
            subst (λ k. mem (s1 + k) ≡ mem (s2 + k)) same here
        | no ne ↦
            compare_bytes-equal s1 s2 rounds (i + 1) mem (ground (arith, t, e)) j (omega arith)
              (omega arith)
      ]
      | inr f ↦ absurd (ground (arith, f, e))
    ]

equal-compare_bytes :
    (s1 s2 rounds i : ℕ) (mem : ℕ → ℕ)
    → ((j : ℕ) → i ≤ j → j < i + rounds → mem (s1 + j) ≡ mem (s2 + j))
    → is_zero (compare_bytes s1 s2 rounds i mem) ≡ true
unfolding compare_bytes
equal-compare_bytes s1 s2 zero i mem h = refl
equal-compare_bytes s1 s2 (suc rounds) i mem h =
    let t : is_zero (sub_int (mem (s1 + i)) (mem (s2 + i))) ≡ true =
      sub_int_zero (mem (s1 + i)) (mem (s2 + i)) ∙ ground (arith, h i) in
    rw t (equal-compare_bytes s1 s2 rounds (i + 1) mem (λ j lo hi. h j (omega arith) (omega arith)))

-- memcmp of two pointers that are not NULL gives 0 exactly when the areas are equal byte for byte.
pub memcmp-is_zero :
    (str1 str2 n : ℕ) (mem : ℕ → ℕ)
    → 0 < str1
    → 0 < str2
    → (is_zero (memcmp str1 str2 n mem) ≡ true)
      ↔ ((j : ℕ) → j < n → mem (str1 + j) ≡ mem (str2 + j))
unfolding memcmp
memcmp-is_zero str1 str2 n mem h1 h2 =
    let e1 : (str1 == 0) ≡ false = ground arith in
    let e2 : (str2 == 0) ≡ false = ground arith in
    elim (Bool-cases (n == 0)) [
      | inl none ↦ rw (e1, e2, none) ((λ e j h. absurd (ground (arith, none))), (λ h. refl))
      | inr some_left ↦
          rw (e1, e2, some_left)
            (
              (λ e j h. compare_bytes-equal str1 str2 n 0 mem e j (omega arith) (omega arith)),
              (λ h. equal-compare_bytes str1 str2 n 0 mem (λ j lo hi. h j (omega arith))),
            )
    ]
