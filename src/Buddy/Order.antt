-- ===== src/Buddy/Order.antt =====
-- PGNUM2ORDER of include/mm/buddy.h: the order of a number of pages.
use native.Mathlib.Nat.{pow-suc, mul-div_cancel}
use native.Mathlib.Decide.{ℕ_discrete, dec_lt}
use aco_os.Base.{
  ℕ, zero, suc, ◌+◌, ◌-◌, ◌*◌, ◌/◌, ◌^◌, ◌≤◌, ◌<◌, ◌≡◌, refl, Bool, true, false, ltb, ◌==◌, ◌∙◌,
  subst, if◌then◌else◌, arith, ap,
}
use aco_os.Base.Int.{ℤ, pos, negsuc}
use aco_os.Buddy.{bit}
use aco_os.Buddy.Neighbour.{pow-pos, pow_mono}
use aco_os.Buddy.Split.{bit_low, bit_high}

-- The loop of PGNUM2ORDER, with `rounds` bits to go from bit `i` on.
pub scan_bits : ℕ → ℕ → ℕ → Bool → ℕ → ℤ
scan_bits pgnum zero i flag ret = pos ret
scan_bits pgnum (suc rounds) i flag ret =
    let go = scan_bits pgnum rounds (i + 1) flag ret in
    let found = scan_bits pgnum rounds (i + 1) true i in
    if bit pgnum i then (if flag then negsuc 0 else found) else go

-- `pgnum` is an int; MAX_ORDER is at most 31, so that `1 << i` is one too.
pub pgnum2order : ℕ → ℤ → ℤ
pgnum2order max_order (negsuc _) = negsuc 0
pgnum2order max_order (pos pgnum) =
    if pgnum == 0 then negsuc 0 else scan_bits pgnum max_order 0 false 0

pow_add : (d i : ℕ) → 2 ^ (d + i) ≡ 2 ^ d * 2 ^ i
pow_add zero i = let e : 0 + i ≡ i = omega arith in ap (λ x. 2 ^ x) e ∙ omega arith
pow_add (suc d) i =
    let e : suc d + i ≡ suc (d + i) = omega arith in
    ap (λ x. 2 ^ x) e
    ∙ omega (arith, pow-suc 2 (d + i), pow_add d i, ap (λ (x : ℕ). x * 2 ^ i) (pow-suc 2 d))

bit_below : (d i : ℕ) → bit (2 ^ (suc d + i)) i ≡ false
bit_below d i =
    let q : 2 ^ (suc d + i) / 2 ^ i ≡ 2 ^ suc d =
      ap (λ x. x / 2 ^ i) (pow_add (suc d) i) ∙ mul-div_cancel (2 ^ suc d) (pow-pos i) in
    ground (arith, q, pow-suc 2 d)

-- A power of two has one bit.
bit_pow : (k i : ℕ) → bit (2 ^ k) i ≡ (k == i)
bit_pow k i = elim (dec_lt i k) [
  | yes h ↦
      let e : suc (k - i - 1) + i ≡ k = omega arith in
      let b : bit (2 ^ k) i ≡ false =
        subst (λ x. bit (2 ^ x) i ≡ false) e (bit_below (k - i - 1) i) in
      ground (arith, b)
  | no h ↦ elim (ℕ_discrete k i) [
    | yes e ↦
        let b : bit (2 ^ k) i ≡ true =
          subst (λ x. bit (2 ^ k) x ≡ true) e
            (bit_high (2 ^ k) k (omega arith) (omega (arith, pow-pos k))) in
        ground (arith, b)
    | no ne ↦
        let b : bit (2 ^ k) i ≡ false =
          bit_low (2 ^ k) i
            (omega (arith, pow_mono (suc k) i (omega arith), pow-suc 2 k, pow-pos k)) in
        ground (arith, b)
  ]
]

scan_bits-pow_found : (k rounds i r : ℕ) → k < i → scan_bits (2 ^ k) rounds i true r ≡ pos r
unfolding scan_bits
scan_bits-pow_found k zero i r h = refl
scan_bits-pow_found k (suc rounds) i r h =
    let b : bit (2 ^ k) i ≡ false = bit_pow k i ∙ ground arith in
    rw b (scan_bits-pow_found k rounds (i + 1) r (omega arith))

scan_bits-pow :
    (k rounds i : ℕ)
    → i ≤ k
    → scan_bits (2 ^ k) rounds i false 0 ≡ (if ltb k (rounds + i) then pos k else pos 0)
unfolding scan_bits
scan_bits-pow k zero i h = ground arith
scan_bits-pow k (suc rounds) i h = elim (ℕ_discrete k i) [
  | yes e ↦
      let b : bit (2 ^ k) i ≡ true = bit_pow k i ∙ ground arith in
      rw b (scan_bits-pow_found k rounds (i + 1) i (omega arith) ∙ ground arith)
  | no ne ↦
      let b : bit (2 ^ k) i ≡ false = bit_pow k i ∙ ground arith in
      rw b (scan_bits-pow k rounds (i + 1) (omega arith) ∙ ground arith)
]

-- PGNUM2ORDER inverts ORDER2PGNUM below MAX_ORDER. For the sizes from 2^MAX_ORDER on it does not
-- report an error but gives order 0.
pub pgnum2order-pow :
    (max_order k : ℕ)
    → pgnum2order max_order (pos (2 ^ k)) ≡ (if ltb k max_order then pos k else pos 0)
unfolding pgnum2order
pgnum2order-pow max_order k =
    let nz : (2 ^ k == 0) ≡ false = ground (arith, pow-pos k) in
    rw nz (scan_bits-pow k max_order 0 (omega arith) ∙ ground arith)
