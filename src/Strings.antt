-- ===== src/Strings.antt =====
-- lib/string/string.c: the functions on bytes in memory, which maps an address to a byte. A pointer into
-- an object does not wrap, a char is unsigned on RISC-V, NULL is 0, and `n` is below 2^31, so that the
-- int that counts does not overflow.
pub mod Copy
pub mod Compare
pub mod Terminated
mod Tests
use aco_os.Base.{ℕ, zero, suc, ◌+◌, ◌-◌, Bool, ◌&&◌, ◌||◌, leb, ◌==◌, if◌then◌else◌, update}
use aco_os.Base.Int.{ℤ, pos, negsuc, is_zero}

-- The loop of memmove and memcpy, with `rounds` bytes to go.
pub copy_bytes : ℕ → ℕ → ℕ → ℕ → (ℕ → ℕ) → ℕ → ℕ
copy_bytes des src zero i mem = mem
copy_bytes des src (suc rounds) i mem =
    copy_bytes des src rounds (i + 1) (update mem (des + i) (mem (src + i)))

-- The pointer that is returned, and the memory.
pub memcpy : ℕ → ℕ → ℕ → (ℕ → ℕ) → ℕ × (ℕ → ℕ)
memcpy des src n mem =
    (des, if (des == 0) || ((src == 0) || (n == 0)) then mem else copy_bytes des src n 0 mem)

pub memmove : ℕ → ℕ → ℕ → (ℕ → ℕ) → ℕ × (ℕ → ℕ)
memmove str1 str2 n mem =
    (str1, if (str1 == 0) || ((str2 == 0) || (n == 0)) then mem else copy_bytes str1 str2 n 0 mem)

pub set_bytes : ℕ → ℕ → ℕ → ℕ → (ℕ → ℕ) → ℕ → ℕ
set_bytes des c zero i mem = mem
set_bytes des c (suc rounds) i mem = set_bytes des c rounds (i + 1) (update mem (des + i) c)

-- `c` is a uint8_t.
pub memset : ℕ → ℕ → ℕ → (ℕ → ℕ) → ℕ × (ℕ → ℕ)
memset des c n mem = (des, if (des == 0) || (n == 0) then mem else set_bytes des c n 0 mem)

-- The loop of strnlen, `rounds` before maxlen.
pub count_bytes : ℕ → ℕ → ℕ → (ℕ → ℕ) → ℕ
count_bytes s zero lenth mem = lenth
count_bytes s (suc rounds) lenth mem =
    let rest = count_bytes s rounds (lenth + 1) mem in if mem (s + lenth) == 0 then lenth else rest

pub strnlen : ℕ → ℕ → (ℕ → ℕ) → ℕ
strnlen s maxlen mem = if s == 0 then 0 else count_bytes s maxlen 0 mem

-- The difference of two bytes, an int.
abbrev pub sub_int : ℕ → ℕ → ℤ
sub_int a b = if leb b a then pos (a - b) else negsuc (b - a - 1)

pub compare_bytes : ℕ → ℕ → ℕ → ℕ → (ℕ → ℕ) → ℤ
compare_bytes s1 s2 zero i mem = pos 0
compare_bytes s1 s2 (suc rounds) i mem =
    let rest = compare_bytes s1 s2 rounds (i + 1) mem in
    let diff = sub_int (mem (s1 + i)) (mem (s2 + i)) in if is_zero diff then rest else diff

pub memcmp : ℕ → ℕ → ℕ → (ℕ → ℕ) → ℤ
memcmp str1 str2 n mem =
    if ((str1 == 0) && (str2 == 0)) || (n == 0)
    then pos 0
    else if str1 == 0
    then sub_int 0 (mem str2)
    else if str2 == 0
    then pos (mem str1)
    else compare_bytes str1 str2 n 0 mem

-- The loop of memchr; `c` is an int, of which a char can only equal a byte.
pub find_byte : ℕ → ℕ → ℕ → ℕ → (ℕ → ℕ) → ℕ
find_byte str c zero i mem = 0
find_byte str c (suc rounds) i mem =
    let rest = find_byte str c rounds (i + 1) mem in if mem (str + i) == c then str + i else rest

pub memchr : ℕ → ℕ → ℕ → (ℕ → ℕ) → ℕ
memchr str c n mem = if (str == 0) || (n == 0) then 0 else find_byte str c n 0 mem
