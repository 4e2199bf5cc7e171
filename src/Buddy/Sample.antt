-- ===== src/Buddy/Sample.antt =====
-- Eight page frames with blocks of up to four, the first frame static: as at the start, and with
-- frame 3 free.
use aco_os.Base.{ℕ, ◌*◌, ◌^◌, ◌<◌, ◌≢◌, refl, [], if◌then◌else◌, ◌==◌, arith}
use aco_os.Base.Int.{pos, negsuc}
use aco_os.Base.Run.{Run, ok, panic, out_of_fuel, Returns, returns}
use aco_os.Pageframe.{Layout, flag_head, flag_static, page_buddyallocator}
use aco_os.Buddy.{State, Config, bkp_free}
use aco_os.Buddy.Neighbour.{IsConfig}
use aco_os.Buddy.Invariant.{IsBuddy, IsHeld}
use aco_os.Buddy.Free.{InUse, Freed, bkp_free-Freed}
use aco_os.Buddy.Startup.{init_pools, init_pools-IsBuddy, AllFresh}

abbrev pub layout : Layout
layout = record { pa_start = 0; va_start = 2 ^ 32; size = 8 * 4096 }

abbrev pub config : Config
config = record { layout = layout; max_order = 3 }

pub config-IsConfig : IsConfig config
config-IsConfig = record {
  layout = record {
    order = omega arith;
    pa_aligned = refl;
    va_aligned = refl;
    size_aligned = refl;
    size_pos = omega arith;
    va_fits = omega arith;
    few_pages = omega arith;
  };
  below = omega arith;
  above = omega arith;
}

-- Frame 0 is static; the others are usable.
abbrev pub fresh : State
fresh = record {
  pages = λ i. record {
    pgtype = page_buddyallocator;
    buddy_flags = if i == 0 then flag_static else flag_head;
    buddy_order = 0;
    ref_count = pos 0;
    vma_flags = 0;
  };
  pools = λ i. record { rest_block_num = negsuc 0; block_size = 0; list = [] };
}

pub fresh-AllFresh : AllFresh config fresh
fresh-AllFresh j h = ground arith

unfoldable pub start : State
start = init_pools config fresh

pub start-IsBuddy : IsBuddy config start
unfolding start
start-IsBuddy = init_pools-IsBuddy config fresh (omega arith) fresh-AllFresh

pub start-InUse : InUse config start 3 0
unfolding start init_pools
start-InUse = record { in_range = omega arith; kind = refl; in_use = refl; order = refl }

unfoldable pub value : {A : Type 0} → A → Run A → A
value d (ok a) = a
value d panic = d
value d out_of_fuel = d

pub Returns-value : {A : Type 0} {P : A → Type 0} {r : Run A} (d : A) → Returns P r → P (value d r)
unfolding value
Returns-value d (returns p) = p

-- After frame 3 is freed a block of order 0 can be had.
unfoldable pub one_free : State
one_free = value start (bkp_free config 3 start)

pub one_free-IsBuddy : IsBuddy config one_free
unfolding one_free
one_free-IsBuddy =
    (Returns-value start (bkp_free-Freed start 3 0 config-IsConfig start-IsBuddy start-InUse)).inv

-- The other frames are in use.
pub one_free-InUse : (p : ℕ) → 0 < p → p < 8 → p ≢ 3 → InUse config one_free p 0
unfolding one_free start init_pools
one_free-InUse p some small other =
    let used : IsHeld (start.pages p) = ground arith in
    let freed : Freed config 3 0 start one_free =
      Returns-value start (bkp_free-Freed start 3 0 config-IsConfig start-IsBuddy start-InUse) in
    let same = freed.keeps.held p other used in
    record {
      in_range = omega arith;
      kind = ground (arith, same);
      in_use = ground (arith, same);
      order = ground (arith, same);
    }
