-- ===== src/Pageframe.antt =====
-- include/mm/page.h and include/mm/pageframe.h: pages, the linear map between physical and virtual
-- addresses, and the page frames. Addresses are uintptr_t, so sums and differences wrap at 2^64.
pub mod Address
pub mod Init
pub mod Fresh
mod Tests
use aco_os.Base.{
  ℕ, ◌+◌, ◌-◌, ◌*◌, ◌/◌, ◌%◌, ◌^◌, ◌≤◌, ◌<◌, ◌≡◌, Bool, true, false, ◌&&◌, not, if◌then◌else◌, ltb,
  leb, ◌==◌,
}
use aco_os.Base.Int.{ℤ}

-- CONFIG_PAGE_OFFSET is 12 by default, and Sv39 has no other page size.
abbrev pub page_size : ℕ
page_size = 2 ^ 12

abbrev pub word_mod : ℕ
word_mod = 2 ^ 64

-- Sum and difference of two uintptr_t.
abbrev pub add_ptr : ℕ → ℕ → ℕ
add_ptr a b = (a + b) % word_mod

abbrev pub sub_ptr : ℕ → ℕ → ℕ
sub_ptr a b = (a + word_mod - b) % word_mod

-- `x & ~PAGE_ALIGN_BIT` clears the low twelve bits, `x & PAGE_ALIGN_BIT` keeps them.
unfoldable pub page_downs_align : ℕ → ℕ
page_downs_align x = x / page_size * page_size

unfoldable pub page_upper_align : ℕ → ℕ
page_upper_align x = add_ptr x (page_size - 1) / page_size * page_size

unfoldable pub val_is_page_aligned : ℕ → Bool
val_is_page_aligned x = x % page_size == 0

-- PGFRAME_PA_START, PGFRAME_VA_START and PGFRAME_SIZE
pub record Layout : Type 0 where
  pub pa_start : ℕ
  pub va_start : ℕ
  pub size : ℕ

abbrev pub pa_end : Layout → ℕ
pa_end l = add_ptr l.pa_start l.size

abbrev pub va_end : Layout → ℕ
va_end l = add_ptr l.va_start l.size

abbrev pub page_nums : Layout → ℕ
page_nums l = l.size / page_size

abbrev pub va2pa_offset : Layout → ℕ
va2pa_offset l = sub_ptr l.va_start l.pa_start

unfoldable pub va2pa : Layout → ℕ → ℕ
va2pa l va = sub_ptr va (va2pa_offset l)

unfoldable pub pa2va : Layout → ℕ → ℕ
pa2va l pa = add_ptr pa (va2pa_offset l)

-- The cast to int keeps the low 32 bits; a page frame is named by its index in PAGES.
abbrev pub int_bits : ℕ → ℕ
int_bits x = x % 2 ^ 32

-- An int that is compared with, or added to, a size_t is extended with its sign.
abbrev pub extend_sign : ℕ → ℕ
extend_sign x = if ltb x (2 ^ 31) then x else x + (2 ^ 64 - 2 ^ 32)

unfoldable pub va2id : Layout → ℕ → ℕ
va2id l va = int_bits (sub_ptr va l.va_start / page_size)

unfoldable pub pa2id : Layout → ℕ → ℕ
pa2id l pa = int_bits (sub_ptr pa l.pa_start / page_size)

unfoldable pub id2va : Layout → ℕ → ℕ
id2va l id = add_ptr l.va_start (id * page_size % word_mod)

unfoldable pub id2pa : Layout → ℕ → ℕ
id2pa l id = add_ptr l.pa_start (id * page_size % word_mod)

unfoldable pub va_valid : Layout → ℕ → Bool
va_valid l va = leb l.va_start va && ltb va (va_end l)

unfoldable pub pa_valid : Layout → ℕ → Bool
pa_valid l pa = leb l.pa_start pa && ltb pa (pa_end l)

-- An int is negative when its bit pattern is 2^31 or more.
unfoldable pub id_valid : Layout → ℕ → Bool
id_valid l id = ltb id (2 ^ 31) && ltb id (int_bits (page_nums l))

pub data PgfmType : Type 0 where
  page_buddyallocator slab_allocator vma_area : PgfmType

-- The four bits of `buddy_flags`, PG_BUDDY_FLAG_FREE to PG_BUDDY_FLAG_STATIC.
pub record Flags : Type 0 where
  pub is_free : Bool
  pub is_head : Bool
  pub is_body : Bool
  pub is_static : Bool

abbrev pub flag_head : Flags
flag_head = record { is_free = false; is_head = true; is_body = false; is_static = false }

abbrev pub flag_head_free : Flags
flag_head_free = record { is_free = true; is_head = true; is_body = false; is_static = false }

abbrev pub flag_body : Flags
flag_body = record { is_free = false; is_head = false; is_body = true; is_static = false }

abbrev pub flag_static : Flags
flag_static = record { is_free = false; is_head = false; is_body = false; is_static = true }

-- `struct pageframe`, without its lock; `buddy_node` is the membership in a list.
pub record PageFrame : Type 0 where
  pub pgtype : PgfmType
  pub buddy_flags : Flags
  pub buddy_order : ℕ
  pub ref_count : ℤ
  pub vma_flags : ℕ

abbrev pub is_buddy : PgfmType → Bool
is_buddy page_buddyallocator = true
is_buddy slab_allocator = false
is_buddy vma_area = false

abbrev pub is_slab : PgfmType → Bool
is_slab page_buddyallocator = false
is_slab slab_allocator = true
is_slab vma_area = false

-- `flags == PG_BUDDY_FLAG_HEAD` and the like
abbrev pub eq_head : Flags → Bool
eq_head f = not f.is_free && (f.is_head && (not f.is_body && not f.is_static))

abbrev pub eq_head_free : Flags → Bool
eq_head_free f = f.is_free && (f.is_head && (not f.is_body && not f.is_static))

abbrev pub eq_body : Flags → Bool
eq_body f = not f.is_free && (not f.is_head && (f.is_body && not f.is_static))

abbrev pub eq_static : Flags → Bool
eq_static f = not f.is_free && (not f.is_head && (not f.is_body && f.is_static))
