-- ===== src/Strings/Copy.antt =====
-- memcpy, memmove and memset.
use native.Mathlib.Decide.{ℕ_discrete}
use aco_os.Base.{
  ℕ, zero, suc, ◌+◌, ◌-◌, ◌≤◌, ◌<◌, ◌≡◌, ◌⊎◌, refl, ◌&&◌, leb, ltb, ◌==◌, if◌then◌else◌, update,
  arith, ap, not,
}
use aco_os.Strings.{copy_bytes, memcpy, memmove, set_bytes, memset}

abbrev Apart : ℕ → ℕ → ℕ → Type 0
Apart des src n = (des + n ≤ src) ⊎ (src + n ≤ des)

copy_bytes_lem :
    (des src rounds i : ℕ) (mem : ℕ → ℕ) (a : ℕ)
    → Apart des src (i + rounds)
    → copy_bytes des src rounds i mem a
      ≡ (if leb (des + i) a && ltb a (des + i + rounds) then mem (src + (a - des)) else mem a)
unfolding copy_bytes
copy_bytes_lem des src zero i mem a apart = ground arith
copy_bytes_lem des src (suc rounds) i mem a apart =
    let rest =
      copy_bytes_lem des src rounds (i + 1) (update mem (des + i) (mem (src + i))) a
        (ground (arith, apart)) in
    elim (ℕ_discrete (des + i) a) [
      | yes e ↦
          let here : src + (a - des) ≡ src + i = omega (arith, e) in
          ground (arith, rest, e, ap mem here)
      | no ne ↦ ground (arith, rest, apart, ne)
    ]

set_bytes_lem :
    (des c rounds i : ℕ) (mem : ℕ → ℕ) (a : ℕ)
    → set_bytes des c rounds i mem a
      ≡ (if leb (des + i) a && ltb a (des + i + rounds) then c else mem a)
unfolding set_bytes
set_bytes_lem des c zero i mem a = ground arith
set_bytes_lem des c (suc rounds) i mem a =
    ground (arith, set_bytes_lem des c rounds (i + 1) (update mem (des + i) c) a)

-- memcpy and memmove between areas that do not overlap: byte for byte the target becomes what the
-- source is, no other byte changes, and the target is returned.
pub memcpy-memmove :
    (des src n : ℕ) (mem : ℕ → ℕ) (a : ℕ)
    → 0 < des
    → 0 < src
    → (des + n ≤ src) ⊎ (src + n ≤ des)
    → ((memcpy des src n mem).0 ≡ des)
      × ((memcpy des src n mem).1 a
          ≡ (if leb des a && ltb a (des + n) then mem (src + (a - des)) else mem a))
      × ((memmove des src n mem).0 ≡ des)
      × ((memmove des src n mem).1 a
          ≡ (if leb des a && ltb a (des + n) then mem (src + (a - des)) else mem a))
unfolding memcpy memmove
memcpy-memmove des src n mem a hd hs apart =
    let body = copy_bytes_lem des src n 0 mem a (ground (arith, apart)) in
    (refl, ground (arith, body), refl, ground (arith, body))

-- memset sets the bytes of the area and no other, and returns the area; on NULL it changes nothing.
pub memset_lem :
    (des c n : ℕ) (mem : ℕ → ℕ) (a : ℕ)
    → ((memset des c n mem).0 ≡ des)
      × ((memset des c n mem).1 a
          ≡ (if not (des == 0) && (leb des a && ltb a (des + n)) then c else mem a))
unfolding memset
memset_lem des c n mem a = (refl, ground (arith, set_bytes_lem des c n 0 mem a))
