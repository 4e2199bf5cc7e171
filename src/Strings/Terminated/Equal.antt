-- ===== src/Strings/Terminated/Equal.antt =====
-- strcmp.
use aco_os.Base.{
  ℕ, zero, suc, ◌+◌, ◌^◌, ◌≤◌, ◌<◌, ◌≡◌, ◌≢◌, ◌↔◌, inl, inr, refl, true, false, ◌&&◌, ◌==◌, arith,
  Bool-cases, ◌∙◌, sym, subst,
}
use aco_os.Base.Int.{is_zero}
use aco_os.Base.Run.{Returns, returns, Returns-mono}
use aco_os.Strings.{sub_int}
use aco_os.Strings.Compare.{sub_int_zero}
use aco_os.Strings.Terminated.{compare_to_end, strcmp}
use aco_os.Strings.Terminated.Append.{IsString}

-- The strings are the same from `i` on.
abbrev Same : ℕ → ℕ → ℕ → ℕ → ℕ → (ℕ → ℕ) → Type 0
Same src des i n k mem = (n ≡ k) × ((j : ℕ) → i ≤ j → j < n → mem (src + j) ≡ mem (des + j))

string_end : {mem : ℕ → ℕ} {s n : ℕ} → IsString mem s n → (i : ℕ) → i ≤ n → mem (s + i) ≡ 0 → i ≡ n
string_end {n = n} str i low z = elim (Bool-cases (i == n)) [
  | inl e ↦ ground (arith, e)
  | inr e ↦ absurd (str.bytes i (ground (arith, e, low)) z)
]

string_on : {mem : ℕ → ℕ} {s n : ℕ} → IsString mem s n → (i : ℕ) → i ≤ n → mem (s + i) ≢ 0 → i < n
string_on {mem} {s} {n} str i low on = elim (Bool-cases (i == n)) [
  | inr e ↦ ground (arith, e, low)
  | inl e ↦
      let at : i ≡ n = ground (arith, e) in
      absurd (on (subst (λ (x : ℕ). mem (s + x) ≡ 0) (sym at) str.end))
]

compare_to_end_lem :
    (fuel src des i n k : ℕ) (mem : ℕ → ℕ)
    → IsString mem src n
    → IsString mem des k
    → i ≤ n
    → i ≤ k
    → n < fuel + i
    → Returns (λ r. (is_zero r ≡ true) ↔ Same src des i n k mem) (compare_to_end fuel src des i mem)
unfolding compare_to_end
compare_to_end_lem zero src des i n k mem a b low low' enough = absurd (omega arith)
compare_to_end_lem (suc fuel) src des i n k mem a b low low' enough =
    let zero_here = sub_int_zero (mem (src + i)) (mem (des + i)) in
    elim (Bool-cases (mem (src + i) == mem (des + i))) [
      | inr differ ↦
          let not_end : ((mem (src + i) == 0) && (mem (des + i) == 0)) ≡ false =
            ground (arith, differ) in
          let diff : is_zero (sub_int (mem (src + i)) (mem (des + i))) ≡ false =
            zero_here ∙ differ in
          rw (not_end, diff)
            (returns (
              (λ z. absurd (ground (arith, diff, z))),
              (λ (e, same). elim (Bool-cases (i == n)) [
                | inr less ↦
                    absurd
                      (ground (arith, same i (omega arith) (ground (arith, less, low)), differ))
                | inl at ↦
                    let i_n : i ≡ n = ground (arith, at) in
                    let z : mem (src + i) ≡ 0 =
                      subst (λ (x : ℕ). mem (src + x) ≡ 0) (sym i_n) a.end in
                    let z' : mem (des + i) ≡ 0 =
                      subst (λ (x : ℕ). mem (des + x) ≡ 0) (sym (i_n ∙ e)) b.end in
                    absurd (ground (arith, z, z', differ))
              ]),
            ))
      | inl equal ↦
          let diff : is_zero (sub_int (mem (src + i)) (mem (des + i))) ≡ true = zero_here ∙ equal in
          elim (Bool-cases (mem (src + i) == 0)) [
            | inl stop ↦
                let end : ((mem (src + i) == 0) && (mem (des + i) == 0)) ≡ true =
                  ground (arith, stop, equal) in
                let at = string_end a i low (ground (arith, stop)) in
                let at' = string_end b i low' (ground (arith, stop, equal)) in
                rw end (
                  returns
                    ((λ z. (sym at ∙ at', λ j lo hi. absurd (omega (arith, at)))), (λ same. refl)))
            | inr on ↦
                let not_end : ((mem (src + i) == 0) && (mem (des + i) == 0)) ≡ false =
                  ground (arith, on) in
                let below = string_on a i low (λ z. ground (arith, z, on)) in
                let below' = string_on b i low' (λ z. ground (arith, z, on, equal)) in
                rw (not_end, diff)
                  (Returns-mono
                    (compare_to_end_lem fuel src des (i + 1) n k mem a b (omega (arith, below))
                      (omega (arith, below')) (omega arith))
                    λ r h. (
                      (λ z. (
                        (h.0 z).0,
                        λ j lo hi. elim (Bool-cases (i == j)) [
                          | inr other ↦ (h.0 z).1 j (ground (arith, lo, other)) hi
                          | inl at ↦
                              let here : i ≡ j = ground (arith, at) in
                              subst (λ (x : ℕ). mem (src + x) ≡ mem (des + x)) here
                                (ground (arith, equal))
                        ],
                      )),
                      (λ s. h.1 (s.0, λ j lo hi. s.1 j (omega arith) hi)),
                    ))
          ]
    ]

-- strcmp of two strings, neither of them NULL, the first below 2^31 bytes as the index is an int, with
-- fuel above the length of the first, returns; it gives 0 exactly when the strings have the same length
-- and the same bytes.
pub strcmp-is_zero :
    (fuel src des n k : ℕ) (mem : ℕ → ℕ)
    → 0 < src
    → 0 < des
    → IsString mem src n
    → IsString mem des k
    → n < 2 ^ 31
    → n < fuel
    → Returns
        (λ r. (is_zero r ≡ true) ↔ ((n ≡ k) × ((j : ℕ) → j < n → mem (src + j) ≡ mem (des + j))))
        (strcmp fuel src des mem)
unfolding strcmp
strcmp-is_zero fuel src des n k mem some_src some_des a b int enough =
    let e : (src == 0) ≡ false = ground arith in
    let e' : (des == 0) ≡ false = ground arith in
    rw (e, e')
      (Returns-mono
        (compare_to_end_lem fuel src des 0 n k mem a b (omega arith) (omega arith) (omega arith))
        λ r h. (
          (λ z. ((h.0 z).0, λ j hi. (h.0 z).1 j (omega arith) hi)),
          (λ s. h.1 (s.0, λ j lo hi. s.1 j hi)),
        ))
