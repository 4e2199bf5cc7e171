-- ===== src/Rwlock.antt =====
-- include/aco/rwlock.h: reader-writer locks that `n` CPUs race for. An atomic operation is one step; the
-- spinlock inside is a flag that `lock` sets when it finds it clear (Sync/Spinlock). Critical sections
-- of the CPUs are in Sync/Critical.
pub mod Exclusion
mod Tests
use aco_os.Base.{ℕ, ◌+◌, ◌-◌, ◌%◌, ◌^◌, ◌≡◌, ◌<◌, Bool, true, false, ◌==◌, if◌then◌else◌, update}

-- `rwlock_t`: whether `lk` is taken, and the counters, each 32 bits.
pub record Rwlock : Type 0 where
  pub taken : Bool
  pub readers : ℕ
  pub writers : ℕ

-- Where a CPU is: in r_lock (r_), in w_lock (w_), in w_lock_br (b_). It waits for `lk`, tests the
-- counters, has passed or failed the test, and leaves `lk` after the count; w_lock_br then drains.
pub data Phase : Type 0 where
  idle reading writing draining : Phase
  r_wait r_check r_pass r_leave r_fail : Phase
  w_wait w_check w_check_readers w_pass w_leave w_fail : Phase
  b_wait b_check b_pass b_leave b_fail : Phase

abbrev pub rwlock_init : Rwlock
rwlock_init = record { taken = false; readers = 0; writers = 0 }

-- atomic_fetch_and_add and atomic_fetch_and_sub with 1
abbrev pub add_one : ℕ → ℕ
add_one x = (x + 1) % 2 ^ 32

abbrev pub sub_one : ℕ → ℕ
sub_one x = (x + 2 ^ 32 - 1) % 2 ^ 32

-- lock(&(ptr->lk)) in the phase `stay`: one round of its loop.
abbrev pub take : Phase → Phase → Rwlock → Rwlock × Phase
take stay go m = if m.taken then (m, stay) else (record m { taken = true }, go)

abbrev pub leave : Phase → Rwlock → Rwlock × Phase
leave go m = (record m { taken = false }, go)

-- The next atomic operation of a CPU in r_lock, w_lock, w_lock_br, or, from `reading` and `writing`,
-- in r_unlock, w_unlock and w_unlock_br.
unfoldable pub advance : Phase → Rwlock → Rwlock × Phase
advance idle m = (m, idle)
advance r_wait m = take r_wait r_check m
advance r_check m = (m, if m.writers == 0 then r_pass else r_fail)
advance r_pass m = (record m { readers = add_one m.readers }, r_leave)
advance r_leave m = leave reading m
advance r_fail m = leave r_wait m
advance reading m = (record m { readers = sub_one m.readers }, idle)
advance w_wait m = take w_wait w_check m
advance w_check m = (m, if m.writers == 0 then w_check_readers else w_fail)
advance w_check_readers m = (m, if m.readers == 0 then w_pass else w_fail)
advance w_pass m = (record m { writers = add_one m.writers }, w_leave)
advance w_leave m = leave writing m
advance w_fail m = leave w_wait m
advance writing m = (record m { writers = sub_one m.writers }, idle)
advance b_wait m = take b_wait b_check m
advance b_check m = (m, if m.writers == 0 then b_pass else b_fail)
advance b_pass m = (record m { writers = add_one m.writers }, b_leave)
advance b_leave m = leave draining m
advance b_fail m = leave b_wait m
advance draining m = (m, if m.readers == 0 then writing else draining)

pub record System : Type 0 where
  pub mem : Rwlock
  pub phase : ℕ → Phase

-- A CPU calls one of the three lock functions, or takes its next step.
pub data Step (n : ℕ) (s : System) : System → Type 0 where
  asks_r :
      (i : ℕ) → i < n → s.phase i ≡ idle → Step n s (record s { phase = update s.phase i r_wait })
  asks_w :
      (i : ℕ) → i < n → s.phase i ≡ idle → Step n s (record s { phase = update s.phase i w_wait })
  asks_b :
      (i : ℕ) → i < n → s.phase i ≡ idle → Step n s (record s { phase = update s.phase i b_wait })
  advances :
      (i : ℕ)
      → i < n
      → Step n s (record {
        mem = (advance (s.phase i) s.mem).0;
        phase = update s.phase i (advance (s.phase i) s.mem).1;
      })

pub data Reach (n : ℕ) : System → Type 0 where
  start : Reach n (record { mem = rwlock_init; phase = λ i. idle })
  later : {s t : System} → Reach n s → Step n s t → Reach n t
