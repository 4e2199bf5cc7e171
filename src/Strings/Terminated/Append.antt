-- ===== src/Strings/Terminated/Append.antt =====
-- strcpy and strcat.
use aco_os.Base.{
  ℕ, zero, suc, ◌+◌, ◌-◌, ◌^◌, ◌≤◌, ◌<◌, ◌≡◌, ◌≢◌, ◌⊎◌, inl, inr, refl, true, false, ◌&&◌, leb, ltb,
  ◌==◌, if◌then◌else◌, update, arith, ap, Bool-cases,
}
use aco_os.Base.Run.{Returns, returns, Returns-bind, Returns-mono}
use aco_os.Strings.Terminated.{strlen_from, copy_to_end, strcat}

-- The string at `s` has `n` bytes before its 0.
pub record IsString (mem : ℕ → ℕ) (s n : ℕ) : Type 0 where
  pub bytes : (j : ℕ) → j < n → mem (s + j) ≢ 0
  pub end : mem (s + n) ≡ 0

strlen_from_lem :
    (fuel s i n : ℕ) (mem : ℕ → ℕ)
    → IsString mem s n
    → i ≤ n
    → n < fuel + i
    → Returns (λ r. r ≡ n) (strlen_from fuel s i mem)
unfolding strlen_from
strlen_from_lem zero s i n mem str low enough = absurd (omega arith)
strlen_from_lem (suc fuel) s i n mem str low enough = elim (Bool-cases (i == n)) [
  | inl e ↦
      let at : i ≡ n = ground (arith, e) in
      let stop : (mem (s + i) == 0) ≡ true = rw (at, str.end) refl in rw stop (returns at)
  | inr e ↦
      let on : (mem (s + i) == 0) ≡ false = ground (arith, str.bytes i (ground (arith, e, low))) in
      rw on (strlen_from_lem fuel s (i + 1) n mem str (ground (arith, e, low)) (omega arith))
]

-- What is copied is what was in memory before.
abbrev Copied : ℕ → ℕ → ℕ → ℕ → (ℕ → ℕ) → ℕ × (ℕ → ℕ) → Type 0
Copied dest src i n mem (k, m) =
    (k ≡ n)
    × ((a : ℕ)
        → m a ≡ (if leb (dest + i) a && ltb a (dest + n) then mem (src + (a - dest)) else mem a))

copy_to_end_lem :
    (fuel dest src i n : ℕ) (mem : ℕ → ℕ)
    → IsString mem src n
    → i ≤ n
    → n < fuel + i
    → (dest + n < src) ⊎ (src + n < dest)
    → Returns (Copied dest src i n mem) (copy_to_end fuel dest src i mem)
unfolding copy_to_end
copy_to_end_lem zero dest src i n mem str low enough apart = absurd (omega arith)
copy_to_end_lem (suc fuel) dest src i n mem str low enough apart = elim (Bool-cases (i == n)) [
  | inl e ↦
      let at : i ≡ n = ground (arith, e) in
      let stop : (mem (src + i) == 0) ≡ true = rw (at, str.end) refl in
      rw stop (returns (at, λ a. ground (arith, at)))
  | inr e ↦
      let less : i < n = ground (arith, e, low) in
      let on : (mem (src + i) == 0) ≡ false = ground (arith, str.bytes i less) in
      let mem' = update mem (dest + i) (mem (src + i)) in
      let same : (j : ℕ) → j ≤ n → mem' (src + j) ≡ mem (src + j) = λ j h.
        let other : (dest + i == src + j) ≡ false = ground (arith, apart, less, h) in
        rw other refl in
      let str' : IsString mem' src n = record {
        bytes = λ j h z. str.bytes j h (ground (arith, same j (omega (arith, h)), z));
        end = ground (arith, same n (omega arith), str.end);
      } in
      rw on (
        Returns-mono
          (copy_to_end_lem fuel dest src (i + 1) n mem' str' (omega (arith, less)) (omega arith)
            apart)
          λ (k, m) r. (
            r.0,
            λ a. elim (Bool-cases (dest + i == a)) [
              | inl b ↦
                  let at : a ≡ dest + i = ground (arith, b) in
                  let place : src + (a - dest) ≡ src + i = omega (arith, at) in
                  let there : mem (src + (a - dest)) ≡ mem (src + i) = ap mem place in
                  ground (arith, r.1 a, b, at, less, there)
              | inr b ↦
                  let kept : leb dest a ≡ true
                      → ltb a (dest + n) ≡ true
                      → mem' (src + (a - dest)) ≡ mem (src + (a - dest)) =
                    λ lo hi. same (a - dest) (ground (arith, lo, hi)) in
                  ground (arith, r.1 a, b, less, kept)
            ],
          ))
]

-- strcat of a string of `n` bytes, `n` below 2^31 as its index is an int, to one of `d` bytes, where
-- the source does not overlap what is written and the fuel is above both lengths, returns the
-- destination. The bytes of the source and a 0 then stand from the end of the first string on, the rest
-- of memory is as it was, and the destination holds a string of `d + n` bytes.
pub strcat_lem :
    (fuel dest src d n : ℕ) (mem : ℕ → ℕ)
    → 0 < dest
    → 0 < src
    → IsString mem dest d
    → IsString mem src n
    → n < 2 ^ 31
    → d < fuel
    → n < fuel
    → (dest + d + n < src) ⊎ (src + n < dest)
    → Returns
        (λ (r, m).
          (r ≡ dest)
          × ((a : ℕ)
              → m a ≡ (
                  if leb (dest + d) a && ltb a (dest + d + n)
                  then mem (src + (a - (dest + d)))
                  else if a == dest + d + n
                  then 0
                  else mem a))
          × IsString m dest (d + n))
        (strcat fuel dest src mem)
unfolding strcat
strcat_lem fuel dest src d n mem some_dest some_src to from int enough enough' apart =
    let e : (src == 0) ≡ false = ground arith in
    let e' : (dest == 0) ≡ false = ground arith in
    rw (e, e')
      (Returns-bind (strlen_from_lem fuel dest 0 d mem to (omega arith) (omega arith)) λ k at.
        rw at (
          Returns-bind
            (copy_to_end_lem fuel (dest + d) src 0 n mem from (omega arith) (omega arith)
              (ground (arith, apart)))
            λ (i, m) c.
              let value : (a : ℕ)
                  → update m (dest + d + i) 0 a ≡ (
                      if leb (dest + d) a && ltb a (dest + d + n)
                      then mem (src + (a - (dest + d)))
                      else if a == dest + d + n
                      then 0
                      else mem a) =
                λ a. ground (arith, c.0, c.1 a) in
              let joined : IsString (update m (dest + d + i) 0) dest (d + n) = record {
                bytes = λ j h z. elim (Bool-cases (ltb j d)) [
                  | inl low ↦
                      to.bytes j (ground (arith, low)) (ground (arith, value (dest + j), low, z))
                  | inr high ↦
                      let place : src + (dest + j - (dest + d)) ≡ src + (j - d) =
                        ground (arith, high) in
                      let there : mem (src + (dest + j - (dest + d))) ≡ mem (src + (j - d)) =
                        ap mem place in
                      from.bytes (j - d) (ground (arith, h, high))
                        (ground (arith, value (dest + j), high, h, z, there))
                ];
                end = ground (arith, value (dest + (d + n)));
              } in
              returns (refl, value, joined)))
