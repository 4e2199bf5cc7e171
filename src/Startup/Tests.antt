-- ===== src/Startup/Tests.antt =====
-- Two CPUs and one module, whose function counts its calls: the boot CPU gets to the check.
use aco_os.Base.{ℕ, ◌+◌, ◌≡◌, ◌≢◌, refl, List, [], ◌∷◌, arith}
use aco_os.Base.Int.{pos}
use aco_os.Base.Run.{ok}
use aco_os.Startup.{
  InitFunc, Image, System, asleep, failed, checking, done, initing, Shared, start_kernel,
  after_init, aco_module_init, step, entry,
}
use aco_os.Startup.Logged.{
  Call, logs, logs_from, logged, Runs, starts, goes_on, calls_of, passed, Runs-ordered,
}
use aco_os.Startup.Loop.{alone, alone-aco_module_init}

abbrev first_call : ℕ → Call
first_call i = record { cpu = i; place = 0; error = pos 0 }

abbrev image : Image ℕ
image = record {
  inits = (λ i calls. ok (pos 0, calls + 1)) ∷ [];
  pages_slfcheck = λ calls. pos 0;
  cpu_boot = 0;
  cpus = 2;
}

-- The boot CPU runs its module and counts itself, the other one runs and counts, and the boot CPU sees it.
abbrev last : System (ℕ × List Call)
last =
    let l = logged image in
    step l 0 (
      step l 1 (
        step l 1
          (step l 1 (step l 1 (step l 0 (step l 0 (step l 0 (step l 0 (entry l (0, []))))))))))

last-Runs : Runs image last
last-Runs =
    goes_on
      (goes_on
        (goes_on
          (goes_on
            (goes_on
              (goes_on
                (goes_on (goes_on (goes_on (starts 0) 0 (omega arith)) 0 (omega arith)) 0
                  (omega arith))
                0 (omega arith))
              1 (omega arith))
            1 (omega arith))
          1 (omega arith))
        1 (omega arith))
      0 (omega arith)

last_checking : last.stages 0 ≡ checking
unfolding step entry start_kernel after_init logged logs_from logs
last_checking = refl

Runs-ordered_example :
    (last.stages 1 ≡ asleep → calls_of 1 last.shared.world.1 ≡ [])
    × (last.stages 1 ≢ asleep → calls_of 0 last.shared.world.1 ≡ passed 1)
    × (last.stages 0 ≡ checking
        → (last.stages 1 ≡ done) × (calls_of 1 last.shared.world.1 ≡ passed 1))
Runs-ordered_example =
    Runs-ordered image (omega arith) (omega arith) last last-Runs 1 (omega arith)
      (λ e. ground (arith, e))

-- Two calls are in the log, one of each CPU.
last_calls : last.shared.world.1 ≡ first_call 0 ∷ (first_call 1 ∷ [])
unfolding step entry start_kernel after_init logged logs_from logs
last_calls = refl

-- The second of three functions returns 5.
abbrev three : List (InitFunc ℕ)
three =
    (λ i calls. ok (pos 0, calls + 1))
    ∷ (λ i calls. ok (pos 5, calls + 10))
    ∷ (λ i calls. ok (pos 0, calls + 100))
    ∷ []

abbrev fresh : Shared ℕ
fresh = record { module_inited = 0; bootdone_cpus = 0; world = 0 }

alone-aco_module_init_example :
    alone image 0 3 (initing three, fresh) ≡ (failed, record fresh { world = 11 })
unfolding aco_module_init
alone-aco_module_init_example = alone-aco_module_init image 0 three fresh (pos 5) 11 refl
