-- ===== src/Pageframe/Tests.antt =====
-- A region of eight pages, the kernel in the first one, and the theorems at it.
use aco_os.Base.{ℕ, ◌+◌, ◌*◌, ◌^◌, ◌≤◌, ◌<◌, ◌≡◌, ◌≢◌, refl, true, inl, arith}
use aco_os.Base.Errno.{success}
use aco_os.Base.Int.{pos}
use aco_os.Pageframe.{
  page_size, page_downs_align, page_upper_align, val_is_page_aligned, Layout, page_nums, va2pa,
  pa2va, va2id, id2va, va_valid, pa_valid, PageFrame, page_buddyallocator, flag_head, eq_head,
}
use aco_os.Pageframe.Address.{IsLayout, va2pa-pa2va, pa2va-va2pa, va2id-id2va, align_bounds}
use aco_os.Pageframe.Init.{
  Boot, Frames, need_alloc_size, rest_start, rest_end, boot_check, in_rest, pgfm_module_init,
  pages_slfcheck, pageframe_bytes,
}
use aco_os.Pageframe.Fresh.{
  IsFresh, pgfm_module_init-IsFresh, pgfm_module_init_later, pgfm_module_init_failed,
  in_rest-bounds, pages_slfcheck-IsFresh,
}

abbrev layout : Layout
layout = record { pa_start = 4096; va_start = 2 ^ 32; size = 8 * 4096 }

layout-IsLayout : IsLayout layout
layout-IsLayout = record {
  order = omega arith;
  pa_aligned = refl;
  va_aligned = refl;
  size_aligned = refl;
  size_pos = omega arith;
  va_fits = omega arith;
  few_pages = omega arith;
}

va2pa-pa2va_example :
    (va2pa layout (pa2va layout 5000) ≡ 5000) × (va_valid layout (pa2va layout 5000) ≡ true)
unfolding pa_valid
va2pa-pa2va_example = va2pa-pa2va layout-IsLayout 5000 refl

pa2va-va2pa_example :
    (pa2va layout (va2pa layout (2 ^ 32 + 7)) ≡ 2 ^ 32 + 7)
    × (pa_valid layout (va2pa layout (2 ^ 32 + 7)) ≡ true)
unfolding va_valid
pa2va-va2pa_example = pa2va-va2pa layout-IsLayout (2 ^ 32 + 7) refl

va2id-id2va_example :
    (va2id layout (id2va layout 3 + 12) ≡ 3) × (va_valid layout (id2va layout 3 + 12) ≡ true)
va2id-id2va_example = va2id-id2va layout-IsLayout 3 12 (omega arith) (omega arith)

align_bounds_example :
    (page_downs_align 5000 ≤ 5000)
    × (5000 < page_downs_align 5000 + page_size)
    × (5000 ≤ page_upper_align 5000)
    × (page_upper_align 5000 < 5000 + page_size)
    × (val_is_page_aligned (page_downs_align 5000) ≡ true)
    × (val_is_page_aligned (page_upper_align 5000) ≡ true)
align_bounds_example = align_bounds 5000 (omega arith)

abbrev boot : Boot
boot = record {
  layout = layout;
  pa_kstart = 4096;
  k_size = 4096;
  free_va_start = 2 ^ 32 + 4096;
  free_size = 7 * 4096;
}

abbrev block : PageFrame
block = record {
  pgtype = page_buddyallocator;
  buddy_flags = flag_head;
  buddy_order = 0;
  ref_count = pos 0;
  vma_flags = 0;
}

abbrev frames : Frames
frames = record { init_done = 0; pgframe_pages = 0; pages = λ i. block }

boot-success : boot_check boot ≡ success
unfolding boot_check rest_start rest_end need_alloc_size page_upper_align page_downs_align
    val_is_page_aligned
boot-success = refl

pgfm_module_init-IsFresh_example :
    ((pgfm_module_init boot frames).0 ≡ success)
    × ((pgfm_module_init boot frames).1.init_done ≡ 1)
    × ((j : ℕ)
        → j < page_nums layout
        → IsFresh ((pgfm_module_init boot frames).1.pages j)
          × (eq_head ((pgfm_module_init boot frames).1.pages j).buddy_flags ≡ in_rest boot j))
pgfm_module_init-IsFresh_example =
    pgfm_module_init-IsFresh boot frames layout-IsLayout refl boot-success

inside : in_rest boot 5 ≡ true
unfolding in_rest rest_start rest_end need_alloc_size page_upper_align page_downs_align id2va
inside = refl

in_rest-bounds_example :
    (boot.free_va_start + page_nums layout * pageframe_bytes ≤ id2va layout 5)
    × (id2va layout 5 + page_size ≤ boot.free_va_start + boot.free_size)
in_rest-bounds_example =
    in_rest-bounds boot 5 layout-IsLayout boot-success (omega arith) (omega arith) (omega arith)
      inside

pages_slfcheck-IsFresh_example : pages_slfcheck 3 layout (λ i. block) ≡ success
pages_slfcheck-IsFresh_example =
    pages_slfcheck-IsFresh 3 layout (λ i. block) (λ j hi. (refl, refl, inl refl))

pgfm_module_init_later_example :
    pgfm_module_init boot (record frames { init_done = 1 })
    ≡ (success, record frames { init_done = 1 })
pgfm_module_init_later_example =
    pgfm_module_init_later boot (record frames { init_done = 1 }) (λ e. absurd (omega (arith, e)))

abbrev unaligned : Boot
unaligned = record boot { layout = record layout { pa_start = 5 } }

unaligned-efault : boot_check unaligned ≢ success
unfolding boot_check val_is_page_aligned
unaligned-efault e = ground arith

pgfm_module_init_failed_example :
    pgfm_module_init unaligned frames ≡ (boot_check unaligned, record frames { pgframe_pages = 0 })
pgfm_module_init_failed_example = pgfm_module_init_failed unaligned frames refl unaligned-efault
