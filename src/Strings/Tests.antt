-- ===== src/Strings/Tests.antt =====
-- Memory with the bytes 1, 2, 3, 0 from 16 on and 9 elsewhere, and the theorems at it.
use aco_os.Base.{
  ℕ, ◌+◌, ◌-◌, ◌&&◌, leb, ltb, refl, ◌≤◌, ◌<◌, ◌≡◌, ◌≢◌, ◌⊎◌, inr, ◌↔◌, true, ◌==◌, if◌then◌else◌,
  arith,
}
use aco_os.Base.Int.{is_zero}
use aco_os.Strings.{memcpy, memmove, memset, strnlen, memcmp}
use aco_os.Base.Run.{Returns}
use aco_os.Strings.Terminated.{strcat, strcmp}
use aco_os.Strings.Terminated.Append.{IsString, strcat_lem}
use aco_os.Strings.Terminated.Equal.{strcmp-is_zero}
use aco_os.Strings.Copy.{memcpy-memmove, memset_lem}
use aco_os.Strings.Compare.{strnlen_lem, memcmp-is_zero}

abbrev mem : ℕ → ℕ
mem a =
    if a == 16 then 1 else if a == 17 then 2 else if a == 18 then 3 else if a == 19 then 0 else 9

memcpy-memmove_example :
    ((memcpy 32 16 3 mem).0 ≡ 32)
    × ((memcpy 32 16 3 mem).1 33 ≡ 2)
    × ((memmove 32 16 3 mem).0 ≡ 32)
    × ((memmove 32 16 3 mem).1 33 ≡ 2)
memcpy-memmove_example =
    memcpy-memmove 32 16 3 mem 33 (omega arith) (omega arith) (inr (omega arith))

memset_lem_example : ((memset 16 7 2 mem).0 ≡ 16) × ((memset 16 7 2 mem).1 18 ≡ 3)
memset_lem_example = memset_lem 16 7 2 mem 18

strnlen_lem_example :
    (strnlen 16 8 mem ≤ 8)
    × ((j : ℕ) → j < strnlen 16 8 mem → mem (16 + j) ≢ 0)
    × ((strnlen 16 8 mem ≡ 8) ⊎ (mem (16 + strnlen 16 8 mem) ≡ 0))
strnlen_lem_example = strnlen_lem 16 8 mem (omega arith)

memcmp-is_zero_example :
    (is_zero (memcmp 16 32 3 mem) ≡ true) ↔ ((j : ℕ) → j < 3 → mem (16 + j) ≡ mem (32 + j))
memcmp-is_zero_example = memcmp-is_zero 16 32 3 mem (omega arith) (omega arith)

-- The bytes 5, 0 from 32 on as well.
abbrev two_strings : ℕ → ℕ
two_strings a = if a == 32 then 5 else if a == 33 then 0 else mem a

first-IsString : IsString two_strings 16 3
first-IsString = record { bytes = λ j h. ground arith; end = refl }

second-IsString : IsString two_strings 32 1
second-IsString = record { bytes = λ j h. ground arith; end = refl }

strcat_lem_example :
    Returns
      (λ (r, m).
        (r ≡ 32)
        × ((a : ℕ)
            → m a ≡ (
                if leb 33 a && ltb a 36
                then two_strings (16 + (a - 33))
                else if a == 36
                then 0
                else two_strings a))
        × IsString m 32 4)
      (strcat 4 32 16 two_strings)
strcat_lem_example =
    strcat_lem 4 32 16 1 3 two_strings (omega arith) (omega arith) second-IsString first-IsString
      (omega arith) (omega arith) (omega arith) (inr (omega arith))

strcmp-is_zero_example :
    Returns
      (λ r.
        (is_zero r ≡ true)
        ↔ ((◌≡◌ {A = ℕ} 3 1) × ((j : ℕ) → j < 3 → two_strings (16 + j) ≡ two_strings (32 + j))))
      (strcmp 4 16 32 two_strings)
strcmp-is_zero_example =
    strcmp-is_zero 4 16 32 3 1 two_strings (omega arith) (omega arith) first-IsString
      second-IsString (omega arith) (omega arith)
