-- ===== src/Buddy/Boot.antt =====
-- pgfm_module_init (module/mm/pageframe/pgfm_module.c) and after it buddy_module_init
-- (module/mm/buddy/buddy_module.c): from the layout of memory to the free lists.
use aco_os.Base.{ℕ, ◌<◌, ◌≡◌, ◌∙◌, true}
use aco_os.Base.Errno.{success}
use aco_os.Base.Run.{Returns, Returns-mono}
use aco_os.Pageframe.{page_nums}
use aco_os.Pageframe.Init.{Boot, Frames, boot_check, in_rest, pgfm_module_init}
use aco_os.Pageframe.Fresh.{pgfm_module_init-IsFresh}
use aco_os.Buddy.{State, Config, Pool}
use aco_os.Buddy.Neighbour.{IsConfig}
use aco_os.Buddy.Invariant.{IsBuddy, FreeAt}
use aco_os.Buddy.Startup.{buddy_module_init, buddy_module_init-IsBuddy}

-- The page frames that pgfm_module_init leaves, beside the pools.
abbrev pub after_boot : Boot → Frames → (ℕ → Pool) → State
after_boot b f pools = record { pages = (pgfm_module_init b f).1.pages; pools = pools }

abbrev pub config_of : ℕ → Boot → Config
config_of max_order b = record { layout = b.layout; max_order = max_order }

-- When the checks of pgfm_module_init pass on a well-formed layout, the first calls of
-- pgfm_module_init and buddy_module_init together fail no ASSERT, leave well-formed frames and
-- pools, and put every frame of the area that is left into a free block.
pub memory_boot-IsBuddy :
    (max_order : ℕ) (b : Boot) (f : Frames) (pools : ℕ → Pool)
    → IsConfig (config_of max_order b)
    → 0 < max_order
    → f.init_done ≡ 0
    → boot_check b ≡ success
    → Returns
        (λ (done, t).
          (done ≡ 1)
          × IsBuddy (config_of max_order b) t
          × ((j : ℕ)
              → j < page_nums b.layout
              → in_rest b j ≡ true
              → FreeAt (config_of max_order b) t j))
        (buddy_module_init (config_of max_order b) 0 (after_boot b f pools))
memory_boot-IsBuddy max_order b f pools wf pos_order first checked =
    let (_, _, frames) = pgfm_module_init-IsFresh b f wf.layout first checked in
    Returns-mono
      (buddy_module_init-IsBuddy 0 (after_boot b f pools) wf pos_order (λ j hi. (frames j hi).0)).0
      λ (done, t) (e, inv, free). (e, inv, λ j hi inside. free j hi ((frames j hi).1 ∙ inside))
