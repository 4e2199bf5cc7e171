-- ===== src/Buddy/Tests.antt =====
-- The allocator on eight page frames, with blocks of up to four: runs, and the theorems at them.
use aco_os.Base.{ℕ, zero, suc, ◌+◌, ◌*◌, ◌^◌, ◌<◌, ◌≡◌, refl, true, none, List, [], ◌∷◌, arith}
use aco_os.Base.Errno.{success}
use aco_os.Base.Int.{pos, negsuc}
use aco_os.Base.Run.{ok, Returns}
use aco_os.Pageframe.{eq_head, id_valid, va_valid, va2id, id2va}
use aco_os.Pageframe.{int_bits}
use aco_os.Buddy.{
  order2byte, State, bkp_free, bkp_alloc, merge, absorb, only_mergeable, before, after, frame_at,
  merge_before, merge_after, put_back,
}
use aco_os.Buddy.Neighbour.{count}
use aco_os.Buddy.Invariant.{IsBuddy, FreeAt}
use aco_os.Buddy.Free.{Freed, bkp_free-Freed}
use aco_os.Buddy.Alloc.{Result, bkp_alloc-Result, bkp_alloc_out_of_range}
use aco_os.Buddy.Startup.{init_pools, free_all, buddy_module_init, buddy_module_init-IsBuddy}
use aco_os.Pageframe.Init.{Boot, Frames, boot_check, in_rest, rest_start, rest_end, need_alloc_size}
use aco_os.Pageframe.{page_upper_align, page_downs_align, val_is_page_aligned}
use aco_os.Buddy.Boot.{memory_boot-IsBuddy, after_boot}
use aco_os.Buddy.Interface.{bk_free, bk_free-Freed}
use aco_os.Buddy.Order.{pgnum2order, pgnum2order-pow}
use aco_os.Buddy.Check.{buddy_slfcheck, buddy_slfcheck-success}
use aco_os.Buddy.Sample.{
  layout, config, config-IsConfig, fresh, fresh-AllFresh, start, start-IsBuddy, start-InUse, value,
  one_free, one_free-IsBuddy,
}

bkp_free-Freed_example : Returns (Freed config 3 0 start) (bkp_free config 3 start)
bkp_free-Freed_example = bkp_free-Freed start 3 0 config-IsConfig start-IsBuddy start-InUse

bkp_alloc-Result_example : Returns (Result config one_free 0) (bkp_alloc config (pos 0) one_free)
bkp_alloc-Result_example =
    bkp_alloc-Result one_free 0 config-IsConfig one_free-IsBuddy (omega arith)

buddy_module_init-IsBuddy_example :
    (Returns
      (λ (done, t).
        (done ≡ 1)
        × IsBuddy config t
        × ((j : ℕ)
            → j < count config
            → eq_head (fresh.pages j).buddy_flags ≡ true
            → FreeAt config t j))
      (buddy_module_init config 0 fresh))
    × (buddy_module_init config 1 fresh ≡ ok (1, fresh))
buddy_module_init-IsBuddy_example =
    buddy_module_init-IsBuddy 0 fresh config-IsConfig (omega arith) fresh-AllFresh

bkp_alloc_out_of_range_example : bkp_alloc config (negsuc 4) one_free ≡ ok (none, one_free)
bkp_alloc_out_of_range_example =
    bkp_alloc_out_of_range config one_free (negsuc 4) (λ o e. ground arith)

bk_free-Freed_example :
    Returns (Freed config 3 0 start) (bk_free config (id2va config.layout 3 + 5) start)
    × (bk_free config 0 start ≡ ok start)
    × (bk_free config 77 start ≡ ok start)
unfolding va_valid
bk_free-Freed_example =
    bk_free-Freed start 3 0 5 77 config-IsConfig start-IsBuddy start-InUse (omega arith) refl

pgnum2order-pow_example : pgnum2order 6 (pos (2 ^ 6)) ≡ pos 0
pgnum2order-pow_example = pgnum2order-pow 6 6

start_block_size : (i : ℕ) → i < 3 → (start.pools i).block_size ≡ int_bits (order2byte i)
unfolding start init_pools
start_block_size zero h = refl
start_block_size (suc zero) h = refl
start_block_size (suc (suc zero)) h = refl
start_block_size (suc (suc (suc i))) h = absurd (omega arith)

buddy_slfcheck-success_example : buddy_slfcheck config start ≡ success
buddy_slfcheck-success_example =
    buddy_slfcheck-success start start-IsBuddy (omega arith) start_block_size

-- The free lists after start-up.
abbrev lists : State → List ℕ × List ℕ × List ℕ
lists s = ((s.pools 0).list, (s.pools 1).list, (s.pools 2).list)

booted : State
booted = value start (free_all config 8 0 start)

booted-lists : lists booted ≡ (7 ∷ [], 5 ∷ [], 1 ∷ [])
unfolding booted start value init_pools free_all bkp_free merge absorb only_mergeable before after
    frame_at merge_before merge_after put_back id_valid va_valid va2id id2va
booted-lists = refl

abbrev boot : Boot
boot = record {
  layout = layout;
  pa_kstart = 0;
  k_size = 4096;
  free_va_start = 2 ^ 32 + 4096;
  free_size = 7 * 4096;
}

abbrev frames : Frames
frames = record { init_done = 0; pgframe_pages = 0; pages = fresh.pages }

boot-success : boot_check boot ≡ success
unfolding boot_check rest_start rest_end need_alloc_size page_upper_align page_downs_align
    val_is_page_aligned
boot-success = refl

memory_boot-IsBuddy_example :
    Returns
      (λ (done, t).
        (done ≡ 1)
        × IsBuddy config t
        × ((j : ℕ) → j < count config → in_rest boot j ≡ true → FreeAt config t j))
      (buddy_module_init config 0 (after_boot boot frames fresh.pools))
memory_boot-IsBuddy_example =
    memory_boot-IsBuddy 3 boot frames fresh.pools config-IsConfig (omega arith) refl boot-success
