-- ===== src/Strings/Terminated.antt =====
-- lib/string/string.c: the functions on strings that end with a 0. A loop that looks for it runs on
-- fuel; more than the length of the string is enough. The index is an int in the source: what is said of a
-- loop is for a string of less than 2^31 bytes, in which the index stays below 2^31.
pub mod Append
pub mod Equal
use aco_os.Base.{ℕ, zero, suc, ◌+◌, ◌-◌, Bool, ◌&&◌, ◌||◌, leb, ◌==◌, if◌then◌else◌, update}
use aco_os.Base.Int.{ℤ, pos, is_zero}
use aco_os.Base.Run.{Run, ok, out_of_fuel, ◌>>=◌}
use aco_os.Strings.{sub_int}

pub strlen_from : ℕ → ℕ → ℕ → (ℕ → ℕ) → Run ℕ
strlen_from zero src lenth mem = out_of_fuel
strlen_from (suc fuel) src lenth mem =
    let rest = strlen_from fuel src (lenth + 1) mem in
    if mem (src + lenth) == 0 then ok lenth else rest

pub strlen : ℕ → ℕ → (ℕ → ℕ) → Run ℕ
strlen fuel src mem = if src == 0 then ok 0 else strlen_from fuel src 0 mem

-- The loop of strcpy and the second one of strcat: the index at the end, and the memory. The index is
-- at most the length of the source string, which the callers keep below 2^31.
pub copy_to_end : ℕ → ℕ → ℕ → ℕ → (ℕ → ℕ) → Run (ℕ × (ℕ → ℕ))
copy_to_end zero dest src i mem = out_of_fuel
copy_to_end (suc fuel) dest src i mem =
    let rest = copy_to_end fuel dest src (i + 1) (update mem (dest + i) (mem (src + i))) in
    if mem (src + i) == 0 then ok (i, mem) else rest

pub strcpy : ℕ → ℕ → ℕ → (ℕ → ℕ) → Run (ℕ × (ℕ → ℕ))
strcpy fuel dest src mem =
    if (src == 0) || (dest == 0)
    then ok (dest, mem)
    else (do (i, m) ← copy_to_end fuel dest src 0 mem; ok (dest, update m (dest + i) 0))

-- The loops with a bound, `rounds` below it. At the bound itself src[i] is read but makes no difference.
pub copy_below : ℕ → ℕ → ℕ → ℕ → (ℕ → ℕ) → ℕ × (ℕ → ℕ)
copy_below dest src zero i mem = (i, mem)
copy_below dest src (suc rounds) i mem =
    let rest = copy_below dest src rounds (i + 1) (update mem (dest + i) (mem (src + i))) in
    if mem (src + i) == 0 then (i, mem) else rest

-- The 0 that strcpy_safe and strncpy_safe write.
pub terminate : ℕ → ℕ → ℕ × (ℕ → ℕ) → ℕ → ℕ
terminate dest max_size (i, mem) =
    if leb max_size i then update mem (dest + i - 1) 0 else update mem (dest + i) 0

pub strcpy_safe : ℕ → ℕ → ℕ → (ℕ → ℕ) → ℕ × (ℕ → ℕ)
strcpy_safe dest src max_size mem = (
  dest,
  if (max_size == 0) || ((src == 0) || (dest == 0))
      then mem
      else terminate dest max_size (copy_below dest src max_size 0 mem),
)

pub strncpy_safe : ℕ → ℕ → ℕ → ℕ → (ℕ → ℕ) → ℕ × (ℕ → ℕ)
strncpy_safe dest src n max_size mem = (
  dest,
  if ((max_size == 0) || (n == 0)) || ((src == 0) || (dest == 0))
      then mem
      else terminate dest max_size
          (copy_below dest src (if leb n max_size then n else max_size) 0 mem),
)

pub strncpy : ℕ → ℕ → ℕ → (ℕ → ℕ) → ℕ × (ℕ → ℕ)
strncpy dest src n mem =
    let (i, m) = copy_below dest src n 0 mem in
    (dest, if (n == 0) || ((dest == 0) || (src == 0)) then mem else update m (dest + i) 0)

pub compare_to_end : ℕ → ℕ → ℕ → ℕ → (ℕ → ℕ) → Run ℤ
compare_to_end zero src des i mem = out_of_fuel
compare_to_end (suc fuel) src des i mem =
    let rest = compare_to_end fuel src des (i + 1) mem in
    let diff = sub_int (mem (src + i)) (mem (des + i)) in
    if (mem (src + i) == 0) && (mem (des + i) == 0)
    then ok (pos 0)
    else if is_zero diff
    then rest
    else ok diff

pub strcmp : ℕ → ℕ → ℕ → (ℕ → ℕ) → Run ℤ
strcmp fuel src des mem =
    if (src == 0) && (des == 0)
    then ok (pos 0)
    else if src == 0
    then ok (sub_int 0 (mem des))
    else if des == 0
    then ok (pos (mem src))
    else compare_to_end fuel src des 0 mem

pub strcat : ℕ → ℕ → ℕ → (ℕ → ℕ) → Run (ℕ × (ℕ → ℕ))
strcat fuel dest src mem = if (src == 0) || (dest == 0) then ok (dest, mem) else (do
  n ← strlen_from fuel dest 0 mem
  (i, m) ← copy_to_end fuel (dest + n) src 0 mem
  ok (dest, update m (dest + n + i) 0))

-- The loops of strchr and strrchr, at the pointer `p`.
pub first_of : ℕ → ℕ → ℕ → (ℕ → ℕ) → Run ℕ
first_of zero p c mem = out_of_fuel
first_of (suc fuel) p c mem =
    let rest = first_of fuel (p + 1) c mem in
    if mem p == 0 then ok 0 else if mem p == c then ok p else rest

pub strchr : ℕ → ℕ → ℕ → (ℕ → ℕ) → Run ℕ
strchr fuel str c mem = if str == 0 then ok 0 else first_of fuel str c mem

pub last_of : ℕ → ℕ → ℕ → ℕ → (ℕ → ℕ) → Run ℕ
last_of zero p c last mem = out_of_fuel
last_of (suc fuel) p c last mem =
    let rest = last_of fuel (p + 1) c (if mem p == c then p else last) mem in
    if mem p == 0 then ok last else rest

pub strrchr : ℕ → ℕ → ℕ → (ℕ → ℕ) → Run ℕ
strrchr fuel str c mem = if str == 0 then ok 0 else last_of fuel str c 0 mem
