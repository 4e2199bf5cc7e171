-- ===== src/Sv39/Pages.antt =====
-- What the page tables of arch/riscv/mm/vm.c ask of the allocator of pages (bk_alloc_zero and bk_free
-- of mm/buddy.h) and of the map between addresses (pa2va and va2pa of mm/pageframe.h).
use aco_os.Base.{ℕ, ◌%◌, ◌^◌, ◌<◌, ◌≡◌, ◌≢◌, ◌⊎◌}
use aco_os.Base.Run.{Run, Returns}
use aco_os.Pageframe.{page_size}

pub record Pages : Type 1 where
  pub State : Type 0
  -- bk_alloc_zero(0): the address of a page, 0 for NULL
  pub alloc : State → Run (ℕ × State)
  -- bk_free
  pub free : ℕ → State → Run State
  pub pa2va : ℕ → ℕ
  pub va2pa : ℕ → ℕ
  pub IsOk : State → Type 0
  -- the page at an address is in use
  pub Used : State → ℕ → Type 0
  pub alloc_lem :
      (s : State)
      → IsOk s
      → Returns
          (λ (a, t).
            IsOk t
            × ((b : ℕ) → Used s b → Used t b)
            × ((a ≡ 0) ⊎ (Used t a × ((b : ℕ) → Used s b → b ≢ a))))
          (alloc s)
  pub free_lem :
      (s : State) (a : ℕ)
      → IsOk s
      → Used s a
      → Returns (λ t. IsOk t × ((b : ℕ) → Used s b → b ≢ a → Used t b)) (free a s)
  pub place :
      (s : State) (a : ℕ)
      → IsOk s
      → Used s a
      → (0 < a)
        × (a % page_size ≡ 0)
        × (va2pa a % page_size ≡ 0)
        × (va2pa a < 2 ^ 56)
        × (pa2va (va2pa a) ≡ a)
