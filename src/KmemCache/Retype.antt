-- ===== src/KmemCache/Retype.antt =====
-- The type of the frame at the head of a block in use may change: frames and pools stay well formed.
use aco_os.Base.{ℕ, ◌<◌, arith}
use aco_os.Pageframe.{PgfmType}
use aco_os.Buddy.{Config}
use aco_os.Buddy.Invariant.{IsBuddy, IsHeld}
use aco_os.Buddy.Neighbour.{count}
use aco_os.KmemCache.{Memory, set_pgtype}

module _ (c : Config) (kind : PgfmType) (p : ℕ) (m : Memory) where
  pub set_pgtype-IsBuddy :
      IsHeld (m.buddy.pages p)
      → p < count c
      → IsBuddy c m.buddy
      → IsBuddy c (set_pgtype kind p m).buddy
  set_pgtype-IsBuddy held small inv = record {
    listed = λ i q h mem. ground (arith, inv.listed i q);
    listing = λ q h mem. ground (arith, inv.listing q);
    distinct = inv.distinct;
    counted = inv.counted;
    clean = λ q h head. ground (arith, inv.clean q);
    fits = λ q h head. ground (arith, inv.fits q);
    inner = λ q j h head lo hi. ground (arith, inv.inner q j, inv.clean q);
  }
