-- ===== src/Pageframe/Address.antt =====
-- The address macros of pageframe.h invert one another on the managed pages.
use aco_os.Base.{ℕ, ◌+◌, ◌*◌, ◌%◌, ◌^◌, ◌≤◌, ◌<◌, ◌≡◌, true, arith}
use aco_os.Pageframe.{
  page_size, page_downs_align, page_upper_align, val_is_page_aligned, Layout, page_nums, va2pa,
  pa2va, va2id, id2va, va_valid, pa_valid, id_valid,
}

-- What pgfm_module_init checks of the layout, and that the region ends below 2^64 and has fewer
-- than 2^31 pages.
pub record IsLayout (l : Layout) : Type 0 where
  pub order : l.pa_start ≤ l.va_start
  pub pa_aligned : l.pa_start % page_size ≡ 0
  pub va_aligned : l.va_start % page_size ≡ 0
  pub size_aligned : l.size % page_size ≡ 0
  pub size_pos : 0 < l.size
  pub va_fits : l.va_start + l.size < 2 ^ 64
  pub few_pages : l.size < 2 ^ 43

module _ {l : Layout} (wf : IsLayout l) where
  -- On a well-formed layout, pa2va takes a valid physical address to a valid virtual one, and va2pa
  -- takes that back to it.
  pub va2pa-pa2va :
      (pa : ℕ)
      → pa_valid l pa ≡ true
      → (va2pa l (pa2va l pa) ≡ pa) × (va_valid l (pa2va l pa) ≡ true)
  unfolding va2pa pa2va pa_valid va_valid
  va2pa-pa2va pa h = ground arith

  pub pa2va-va2pa :
      (va : ℕ)
      → va_valid l va ≡ true
      → (pa2va l (va2pa l va) ≡ va) × (pa_valid l (va2pa l va) ≡ true)
  unfolding va2pa pa2va pa_valid va_valid
  pa2va-va2pa va h = ground arith

  -- On a well-formed layout, every address within a page below the count is valid and has that page's
  -- number.
  pub va2id-id2va :
      (id off : ℕ)
      → id < page_nums l
      → off < page_size
      → (va2id l (id2va l id + off) ≡ id) × (va_valid l (id2va l id + off) ≡ true)
  unfolding va2id id2va va_valid
  va2id-id2va id off h k = ground arith

  pub id2va_lem : (id : ℕ) → id < page_nums l → id2va l id ≡ l.va_start + id * page_size
  unfolding id2va
  id2va_lem id h = ground arith

  pub id_valid_lem : (id : ℕ) → id < page_nums l → id_valid l id ≡ true
  unfolding id_valid
  id_valid_lem id h = ground arith

-- PAGE_UPPER_ALIGN gives the least page boundary at or above x, PAGE_DOWNS_ALIGN the greatest at or
-- below it, where the sum does not wrap.
pub align_bounds :
    (x : ℕ)
    → x + page_size ≤ 2 ^ 64
    → (page_downs_align x ≤ x)
      × (x < page_downs_align x + page_size)
      × (x ≤ page_upper_align x)
      × (page_upper_align x < x + page_size)
      × (val_is_page_aligned (page_downs_align x) ≡ true)
      × (val_is_page_aligned (page_upper_align x) ≡ true)
unfolding page_downs_align page_upper_align val_is_page_aligned
align_bounds x h = ground arith
