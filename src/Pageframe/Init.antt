-- ===== src/Pageframe/Init.antt =====
-- module/mm/pageframe/pgfm_module.c and pgfm_check.c: the page frames are set up from the layout
-- that the port gives, and checked. The log output is not modelled.
use aco_os.Base.{
  ℕ, zero, suc, ◌+◌, ◌-◌, ◌*◌, ◌^◌, Bool, false, ◌&&◌, ◌||◌, not, leb, ltb, ◌==◌, if◌then◌else◌,
  update, Option, none, some,
}
use aco_os.Base.Errno.{Errno, success, enomem, efault}
use aco_os.Base.Int.{ℤ, pos, negsuc, dec, is_zero}
use aco_os.Pageframe.{
  page_downs_align, page_upper_align, val_is_page_aligned, add_ptr, int_bits, extend_sign, Layout,
  pa_end, va_end, page_nums, id2va, PageFrame, page_buddyallocator, flag_head, flag_static,
  is_buddy, is_slab, eq_body, eq_static,
}

-- What the port and the linker script give: the region, the kernel image in it, the free area in it.
pub record Boot : Type 0 where
  pub layout : Layout
  pub pa_kstart : ℕ
  pub k_size : ℕ
  pub free_va_start : ℕ
  pub free_size : ℕ

-- `pgfm_module_init_done`, PAGES (0 is NULL) and the page frames.
pub record Frames : Type 0 where
  pub init_done : ℕ
  pub pgframe_pages : ℕ
  pub pages : ℕ → PageFrame

-- sizeof(struct pageframe): the lock and the type, 4 bytes each, and the packed 18 and 5 bytes, to a
-- multiple of 4.
abbrev pub pageframe_bytes : ℕ
pageframe_bytes = 32

-- `need_alloc_size`, as the 64 bits that it is used as.
unfoldable pub need_alloc_size : Layout → ℕ
need_alloc_size l = extend_sign (int_bits (page_nums l * pageframe_bytes))

-- The area that is left when the page frames have their place.
unfoldable pub rest_start : Boot → ℕ
rest_start b = page_upper_align (add_ptr b.free_va_start (need_alloc_size b.layout))

unfoldable pub rest_end : Boot → ℕ
rest_end b = page_downs_align (add_ptr b.free_va_start b.free_size)

-- The checks of pgfm_module_init, in its order.
unfoldable pub boot_check : Boot → Errno
boot_check b =
    let l = b.layout in
    let kernel_end = add_ptr b.pa_kstart b.k_size in
    let free_end = add_ptr b.free_va_start b.free_size in
    if ltb l.va_start l.pa_start
    then efault
    else if not (val_is_page_aligned l.pa_start)
    then efault
    else if not (val_is_page_aligned l.va_start)
    then efault
    else if not (val_is_page_aligned l.size)
    then efault
    else if l.size == 0
    then efault
    else if not (
        leb l.pa_start b.pa_kstart
        && (ltb b.pa_kstart (pa_end l) && (ltb l.pa_start kernel_end && leb kernel_end (pa_end l))))
    then efault
    else if not (
        leb l.va_start b.free_va_start
        && (ltb b.free_va_start (va_end l) && (ltb l.va_start free_end && leb free_end (va_end l))))
    then efault
    else if ltb b.free_size (need_alloc_size l)
    then enomem
    else if leb (rest_end b) (rest_start b)
    then enomem
    else success

-- Whether a frame lies in the area that is left.
unfoldable pub in_rest : Boot → ℕ → Bool
in_rest b i = leb (rest_start b) (id2va b.layout i) && ltb (id2va b.layout i) (rest_end b)

-- The body of the loop.
unfoldable pub init_frame : Boot → ℕ → PageFrame
init_frame b i = record {
  pgtype = page_buddyallocator;
  buddy_flags = if in_rest b i then flag_head else flag_static;
  buddy_order = 0;
  ref_count = pos 0;
  vma_flags = 0;
}

unfoldable pub init_frames : Boot → ℕ → ℕ → (ℕ → PageFrame) → ℕ → PageFrame
init_frames b zero i pages = pages
init_frames b (suc rounds) i pages = init_frames b rounds (i + 1) (update pages i (init_frame b i))

unfoldable pub pgfm_module_init : Boot → Frames → Errno × Frames
pgfm_module_init b s =
    if s.init_done == 0
    then (elim (boot_check b) [
      | success ↦ (
        success,
        record {
          init_done = s.init_done + 1;
          pgframe_pages = b.free_va_start;
          pages = init_frames b (int_bits (page_nums b.layout)) 0 s.pages;
        },
      )
      | e ↦ (e, record s { pgframe_pages = 0 })
    ])
    else (success, s)

-- `bef_count` before the first head.
abbrev pub no_head : ℤ
no_head = negsuc 233332

abbrev pub is_no_head : ℤ → Bool
is_no_head (pos _) = false
is_no_head (negsuc n) = n == 233332

-- A head: no other block may be open before it.
unfoldable pub after_head : PageFrame → ℤ → Option ℤ
after_head f bef_count =
    if not f.buddy_flags.is_head
    then some bef_count
    else if f.buddy_flags.is_body || f.buddy_flags.is_static
    then none
    else if is_no_head bef_count
    then some (pos (2 ^ f.buddy_order - 1))
    else if not (is_zero bef_count)
    then none
    else some (pos (2 ^ f.buddy_order - 1))

unfoldable pub after_body : ℕ → PageFrame → ℤ → Option ℤ
after_body max_order f bef_count =
    if not f.buddy_flags.is_body
    then some bef_count
    else if not (eq_body f.buddy_flags)
    then none
    else if f.buddy_order == max_order
    then some (dec bef_count)
    else none

-- One round of pages_slfcheck: the new `bef_count`, or none for -EFAULT.
unfoldable pub check_frame : ℕ → PageFrame → ℤ → Option ℤ
check_frame max_order f bef_count =
    if not (is_buddy f.pgtype || is_slab f.pgtype)
    then none
    else if f.buddy_flags.is_static && not (eq_static f.buddy_flags)
    then none
    else (elim (after_head f bef_count) [ some b ↦ after_body max_order f b | none ↦ none ])

unfoldable pub check_frames : ℕ → (ℕ → PageFrame) → ℕ → ℕ → ℤ → Errno
check_frames max_order pages zero i bef_count = success
check_frames max_order pages (suc rounds) i bef_count =
    elim (check_frame max_order (pages i) bef_count) [
      | some b ↦ check_frames max_order pages rounds (i + 1) b
      | none ↦ efault
    ]

unfoldable pub pages_slfcheck : ℕ → Layout → (ℕ → PageFrame) → Errno
pages_slfcheck max_order l pages = check_frames max_order pages (page_nums l) 0 no_head
