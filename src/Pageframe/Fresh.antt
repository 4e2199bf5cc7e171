-- ===== src/Pageframe/Fresh.antt =====
-- How pgfm_module_init leaves the page frames, and what pages_slfcheck says of them.
use aco_os.Base.{
  ℕ, zero, suc, ◌+◌, ◌*◌, ◌^◌, ◌≤◌, ◌<◌, ◌≡◌, ◌≢◌, ◌⊎◌, inl, inr, refl, true, false, ◌==◌, update,
  arith, some, sym, subst,
}
use aco_os.Base.Errno.{success}
use aco_os.Base.Int.{ℤ, pos}
use aco_os.Pageframe.{
  page_size, page_downs_align, page_upper_align, add_ptr, int_bits, Layout, va_end, page_nums,
  id2va, PageFrame, is_buddy, eq_head, eq_static,
}
use aco_os.Pageframe.Address.{IsLayout, id2va_lem}
use aco_os.Pageframe.Init.{
  Boot, Frames, need_alloc_size, rest_start, rest_end, boot_check, in_rest, init_frame, init_frames,
  pgfm_module_init, no_head, check_frame, check_frames, after_head, after_body, pages_slfcheck,
  pageframe_bytes,
}

-- A usable frame is a block of order 0 in use; all others are static.
abbrev pub IsFresh : PageFrame → Type 0
IsFresh f =
    (is_buddy f.pgtype ≡ true)
    × (f.buddy_order ≡ 0)
    × ((eq_head f.buddy_flags ≡ true) ⊎ (eq_static f.buddy_flags ≡ true))

init_frame-IsFresh : (b : Boot) (i : ℕ) → IsFresh (init_frame b i)
unfolding init_frame
init_frame-IsFresh b i = ground arith

init_frames_lem :
    (b : Boot) (rounds i : ℕ) (pages : ℕ → PageFrame) (j : ℕ)
    → (i ≤ j → j < i + rounds → init_frames b rounds i pages j ≡ init_frame b j)
      × (j < i → init_frames b rounds i pages j ≡ pages j)
unfolding init_frames
init_frames_lem b zero i pages j = (λ lo hi. absurd (omega arith), λ lo. refl)
init_frames_lem b (suc rounds) i pages j =
    let rest = init_frames_lem b rounds (i + 1) (update pages i (init_frame b i)) j in
    (λ lo hi. ground (arith, rest), λ lo. ground (arith, rest))

-- On a well-formed layout, the first call of pgfm_module_init that passes its checks sets the
-- counter, and leaves every page frame fresh; a frame is usable exactly when its page lies in the
-- area that is left, between `rest_start` and `rest_end`.
pub pgfm_module_init-IsFresh :
    (b : Boot) (s : Frames)
    → IsLayout b.layout
    → s.init_done ≡ 0
    → boot_check b ≡ success
    → (pgfm_module_init b s).0 ≡ success
      × ((pgfm_module_init b s).1.init_done ≡ 1)
      × ((j : ℕ)
          → j < page_nums b.layout
          → IsFresh ((pgfm_module_init b s).1.pages j)
            × (eq_head ((pgfm_module_init b s).1.pages j).buddy_flags ≡ in_rest b j))
unfolding pgfm_module_init init_frame
pgfm_module_init-IsFresh b s wf first checked =
    let small : int_bits (page_nums b.layout) ≡ page_nums b.layout = ground (arith, wf.few_pages) in
    rw (first, checked)
      (
        refl,
        omega (arith, first),
        λ j hi.
            let same =
              (init_frames_lem b (int_bits (page_nums b.layout)) 0 s.pages j).0 (omega arith)
                (omega arith) in
            (subst IsFresh (sym same) (init_frame-IsFresh b j), ground (arith, same)),
      )

-- A later call of pgfm_module_init succeeds and changes nothing.
pub pgfm_module_init_later :
    (b : Boot) (s : Frames) → s.init_done ≢ 0 → pgfm_module_init b s ≡ (success, s)
unfolding pgfm_module_init
pgfm_module_init_later b s later = let e : (s.init_done == 0) ≡ false = ground arith in rw e refl

-- A first call whose checks fail gives their error, sets PAGES to NULL, and changes neither the frames
-- nor the counter, so that the next call tries again.
pub pgfm_module_init_failed :
    (b : Boot) (s : Frames)
    → s.init_done ≡ 0
    → boot_check b ≢ success
    → pgfm_module_init b s ≡ (boot_check b, record s { pgframe_pages = 0 })
unfolding pgfm_module_init
pgfm_module_init_failed b s first failed = ground (arith, first, failed)

need_alloc_size_lem :
    (l : Layout) → page_nums l < 2 ^ 26 → need_alloc_size l ≡ page_nums l * pageframe_bytes
unfolding need_alloc_size
need_alloc_size_lem l few = ground arith

-- What the checks say of the free area.
boot_check-free :
    (b : Boot)
    → boot_check b ≡ success
    → (need_alloc_size b.layout ≤ b.free_size)
      × (add_ptr b.free_va_start b.free_size ≤ va_end b.layout)
unfolding boot_check
boot_check-free b checked = ground (arith, checked)

-- When the checks of pgfm_module_init pass on a well-formed layout of fewer than 2^26 pages, and the free
-- area ends below 2^64, a frame that it makes usable
-- shares no byte with the array of page frames and lies within the free area.
pub in_rest-bounds :
    (b : Boot) (j : ℕ)
    → IsLayout b.layout
    → boot_check b ≡ success
    → page_nums b.layout < 2 ^ 26
    → b.free_va_start + b.free_size < 2 ^ 64
    → j < page_nums b.layout
    → in_rest b j ≡ true
    → (b.free_va_start + page_nums b.layout * pageframe_bytes ≤ id2va b.layout j)
      × (id2va b.layout j + page_size ≤ b.free_va_start + b.free_size)
unfolding in_rest rest_start rest_end page_upper_align page_downs_align
in_rest-bounds b j wf checked few ends hi inside =
    let at = id2va_lem wf j hi in
    let need = need_alloc_size_lem b.layout few in
    let (enough, below) = boot_check-free b checked in
    ground (arith, at, need, enough, below, wf.va_aligned, wf.size_aligned, wf.va_fits)

check_frame-IsFresh :
    (max_order : ℕ) (f : PageFrame) (b : ℤ)
    → (b ≡ no_head) ⊎ (b ≡ pos 0)
    → IsFresh f
    → (check_frame max_order f b ≡ some (pos 0)) ⊎ (check_frame max_order f b ≡ some b)
unfolding check_frame after_head after_body
check_frame-IsFresh max_order f b (inl e) (kind, order, inl head) =
    inl (ground (arith, e, kind, order, head))
check_frame-IsFresh max_order f b (inr e) (kind, order, inl head) =
    inl (ground (arith, e, kind, order, head))
check_frame-IsFresh max_order f b closed (kind, order, inr static) =
    inr (ground (arith, kind, static))

check_frames-IsFresh :
    (max_order rounds i : ℕ) (pages : ℕ → PageFrame) (b : ℤ)
    → (b ≡ no_head) ⊎ (b ≡ pos 0)
    → ((j : ℕ) → i ≤ j → j < i + rounds → IsFresh (pages j))
    → check_frames max_order pages rounds i b ≡ success
unfolding check_frames
check_frames-IsFresh max_order zero i pages b closed fresh = refl
check_frames-IsFresh max_order (suc rounds) i pages b closed fresh =
    let here = fresh i (omega arith) (omega arith) in
    let rest = λ (b' : ℤ) (e : (b' ≡ no_head) ⊎ (b' ≡ pos 0)).
      check_frames-IsFresh max_order rounds (i + 1) pages b' e
        (λ j lo hi. fresh j (omega arith) (omega arith)) in
    elim (check_frame-IsFresh max_order (pages i) b closed here) [
      | inl e ↦ rw (e, check_frames) (rest (pos 0) (inr refl))
      | inr e ↦ rw (e, check_frames) (rest b closed)
    ]

-- The self check passes on fresh page frames.
pub pages_slfcheck-IsFresh :
    (max_order : ℕ) (l : Layout) (pages : ℕ → PageFrame)
    → ((j : ℕ) → j < page_nums l → IsFresh (pages j))
    → pages_slfcheck max_order l pages ≡ success
unfolding pages_slfcheck
pages_slfcheck-IsFresh max_order l pages fresh =
    check_frames-IsFresh max_order (page_nums l) 0 pages no_head (inl refl)
      (λ j lo hi. fresh j (omega arith))
