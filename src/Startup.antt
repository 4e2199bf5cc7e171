-- ===== src/Startup.antt =====
-- include/aco/init.h and start_kernel of kernel/entry.c: the CPUs run the modules' init functions, the
-- boot CPU first. Each atomic operation, init function and test is one step of a CPU; the steps of the
-- CPUs come in any order. The logo is output.
pub mod Order
pub mod Logged
pub mod Loop
mod Tests
use aco_os.Base.{
  ℕ, ◌+◌, ◌%◌, ◌^◌, ◌≡◌, ◌<◌, Bool, true, false, List, [], ◌∷◌, ◌==◌, if◌then◌else◌, update,
}
use aco_os.Base.Int.{ℤ, pos, is_zero}
use aco_os.Base.Run.{Run, ok, panic, out_of_fuel, ◌>>=◌}

-- The init function of a module, at the CPU that runs it; `World` is the memory it works on.
abbrev pub InitFunc : Type 0 → Type 0
InitFunc World = ℕ → World → Run (ℤ × World)

-- atomic_fetch_and_add
abbrev pub fetch_and_add : ℕ → ℕ → ℕ × ℕ
fetch_and_add value x = (value, (value + x) % 2 ^ 32)

-- Where a CPU is in start_kernel: in the loop on module_inited; in aco_module_init, with the functions
-- that are left; before the boot CPU's addition to module_inited; before the addition to
-- bootdone_cpus; in the boot CPU's loop on it; before pages_slfcheck; at the end; at a failed
-- ASSERT in or on aco_module_init; at that on pages_slfcheck.
pub data Stage (World : Type 0) : Type 0 where
  asleep announcing counting waiting checking done failed rejected : Stage World
  initing : List (InitFunc World) → Stage World

pub record Shared (World : Type 0) : Type 0 where
  pub module_inited : ℕ
  pub bootdone_cpus : ℕ
  pub world : World

pub record System (World : Type 0) : Type 0 where
  pub shared : Shared World
  pub stages : ℕ → Stage World

-- The section of the init functions in the order of their priorities, pages_slfcheck, and the numbers
-- of the boot CPU and of all CPUs.
pub record Image (World : Type 0) : Type 0 where
  pub inits : List (InitFunc World)
  pub pages_slfcheck : World → ℤ
  pub cpu_boot : ℕ
  pub cpus : ℕ

module _ {World : Type 0} where
  -- One CPU that runs all functions without a stop.
  pub aco_module_init : List (InitFunc World) → ℕ → World → Run (ℤ × World)
  aco_module_init [] i w = ok (pos 0, w)
  aco_module_init (f ∷ fs) i w = do
    (error, w') ← f i w
    if is_zero error then aco_module_init fs i w' else ok (error, w')

  -- A function has returned, or not.
  pub after_init :
      List (InitFunc World) → Run (ℤ × World) → Shared World → Stage World × Shared World
  after_init fs (ok (error, w)) m =
      (if is_zero error then initing fs else failed, record m { world = w })
  after_init fs panic m = (failed, m)
  after_init fs out_of_fuel m = (failed, m)

  -- The next step of the CPU `i` in start_kernel.
  pub start_kernel : Image World → ℕ → Stage World → Shared World → Stage World × Shared World
  start_kernel image i asleep m =
      (if (fetch_and_add m.module_inited 0).0 == 0 then asleep else initing image.inits, m)
  start_kernel image i (initing []) m = (if i == image.cpu_boot then announcing else counting, m)
  start_kernel image i (initing (f ∷ fs)) m = after_init fs (f i m.world) m
  start_kernel image i announcing m =
      (counting, record m { module_inited = (fetch_and_add m.module_inited 1).1 })
  start_kernel image i counting m = (
    if i == image.cpu_boot then waiting else done,
    record m { bootdone_cpus = (fetch_and_add m.bootdone_cpus 1).1 },
  )
  start_kernel image i waiting m =
      (if (fetch_and_add m.bootdone_cpus 0).0 == image.cpus then checking else waiting, m)
  start_kernel image i checking m =
      (if is_zero (image.pages_slfcheck m.world) then done else rejected, m)
  start_kernel image i done m = (done, m)
  start_kernel image i failed m = (failed, m)
  start_kernel image i rejected m = (rejected, m)

  pub step : Image World → ℕ → System World → System World
  step image i s =
      let (p, m) = start_kernel image i (s.stages i) s.shared in
      record { shared = m; stages = update s.stages i p }

  pub entry : Image World → World → System World
  entry image w = record {
    shared = record { module_inited = 0; bootdone_cpus = 0; world = w };
    stages = λ i. if i == image.cpu_boot then initing image.inits else asleep;
  }

-- The states that the CPUs can reach from the entry of start_kernel.
pub data Reach {World : Type 0} (image : Image World) : System World → Type 0 where
  enters : (w : World) → Reach image (entry image w)
  later :
      {s : System World} → Reach image s → (i : ℕ) → i < image.cpus → Reach image (step image i s)
