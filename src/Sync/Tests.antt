-- ===== src/Sync/Tests.antt =====
-- Two CPUs at a lock: CPU 0 takes it and CPU 1 waits; the theorems at this run.
use aco_os.Base.{ℕ, ◌≡◌, ◌≢◌, ◌<◌, refl, true, false, [], ◌∷◌, update, arith}
use aco_os.Sync.{
  Cpu, outside, spinning, holding, System, begins, tries, Reach, start, later, cpu_critical_in,
  cpu_critical_out, fetch_and_and_0, begin_lock, try_lock,
}
use aco_os.Sync.Critical.{run, run-Balanced, cpu_critical_in-depth, cpu_critical_out_outside}
use aco_os.Sync.Spinlock.{Reach-exclusive, Reach-uninterrupted, Reach-try_lock, Reach-try_lock_held}

abbrev idle : Cpu
idle = record { intr = true; intr_nest = 0; intr_enable = false }

run-Balanced_example :
    ((run (true ∷ (true ∷ (false ∷ (false ∷ [])))) idle).intr_nest ≡ 0)
    × ((run (true ∷ (true ∷ (false ∷ (false ∷ [])))) idle).intr ≡ true)
run-Balanced_example =
    run-Balanced (true ∷ (true ∷ (false ∷ (false ∷ [])))) idle (λ h. absurd (omega arith))
      (omega arith) (omega arith, (omega arith, refl))

cpu_critical_in-depth_example :
    ((cpu_critical_in idle).0 ≡ (cpu_critical_in idle).1.intr_nest)
    × (0 < (cpu_critical_in idle).0)
    × ((cpu_critical_in idle).1.intr ≡ false)
    × ((cpu_critical_out (cpu_critical_in idle).1).0 ≡ idle.intr_nest)
cpu_critical_in-depth_example = cpu_critical_in-depth idle

cpu_critical_out_outside_example : cpu_critical_out idle ≡ (0, idle)
cpu_critical_out_outside_example = cpu_critical_out_outside idle refl

abbrev system : System
system = record { value = 1; workers = λ i. record { cpu = idle; phase = outside } }

abbrev waiting_0 : System
waiting_0 = record system { workers = update system.workers 0 (begin_lock (system.workers 0)) }

abbrev held_by_0 : System
held_by_0 = record {
  value = (try_lock waiting_0.value (waiting_0.workers 0)).0;
  workers = update waiting_0.workers 0 (try_lock waiting_0.value (waiting_0.workers 0)).1;
}

abbrev waiting_1 : System
waiting_1 = record held_by_0 {
  workers = update held_by_0.workers 1 (begin_lock (held_by_0.workers 1));
}

waiting_0-Reach : Reach waiting_0
waiting_0-Reach =
    later
      (start {s = system}
        (record { value = refl; phase = λ i. refl; cpu = λ i h. absurd (omega arith) }))
      (begins 0 refl)

waiting_1-Reach : Reach waiting_1
unfolding begin_lock
waiting_1-Reach = later (later waiting_0-Reach (tries 0 refl)) (begins 1 refl)

held : (waiting_1.workers 0).phase ≡ holding
unfolding begin_lock try_lock fetch_and_and_0
held = refl

waits : (waiting_1.workers 1).phase ≡ spinning
unfolding begin_lock
waits = refl

Reach-exclusive_example : ◌≡◌ {A = ℕ} 0 0
Reach-exclusive_example = Reach-exclusive waiting_1 0 0 waiting_1-Reach held held

Reach-uninterrupted_example : (waiting_1.workers 1).cpu.intr ≡ false
unfolding begin_lock
Reach-uninterrupted_example = Reach-uninterrupted waiting_1 1 waiting_1-Reach (λ e. ground arith)

nobody : (k : ℕ) → (waiting_0.workers k).phase ≢ holding
unfolding begin_lock
nobody k = ground arith

waits_0 : (waiting_0.workers 0).phase ≡ spinning
unfolding begin_lock
waits_0 = refl

Reach-try_lock_example : (try_lock waiting_0.value (waiting_0.workers 0)).1.phase ≡ holding
Reach-try_lock_example = Reach-try_lock waiting_0 0 waiting_0-Reach waits_0 nobody

Reach-try_lock_held_example :
    ((try_lock waiting_1.value (waiting_1.workers 1)).1.phase ≡ spinning)
    × ((try_lock waiting_1.value (waiting_1.workers 1)).0 ≡ waiting_1.value)
Reach-try_lock_held_example = Reach-try_lock_held waiting_1 1 0 waiting_1-Reach waits held
