-- ===== src/Sync/Critical.antt =====
-- Critical sections of one CPU nest, and the last way out restores its interrupts.
use aco_os.Base.{
  ℕ, ◌+◌, ◌-◌, ◌^◌, ◌≡◌, ◌<◌, length, refl, Bool, true, false, List, [], ◌∷◌, arith, Bool-cases,
  subst,
}
use aco_os.Sync.{Cpu, IsCpu, cpu_critical_in, cpu_critical_out}

-- A run of calls, cpu_critical_in as `true` and cpu_critical_out as `false`.
unfoldable pub run : List Bool → Cpu → Cpu
run [] c = c
run (true ∷ calls) c = run calls (cpu_critical_in c).1
run (false ∷ calls) c = run calls (cpu_critical_out c).1

-- The calls that are open after a run, counted from `depth`; none where one is closed too often.
abbrev pub Balanced : List Bool → ℕ → Type 0
Balanced [] depth = depth ≡ 0
Balanced (true ∷ calls) depth = Balanced calls (depth + 1)
Balanced (false ∷ calls) depth = (0 < depth) × Balanced calls (depth - 1)

-- The CPU `c` is `depth` calls deep in the CPU `d`.
record Inside (depth : ℕ) (d c : Cpu) : Type 0 where
  nest : c.intr_nest ≡ d.intr_nest + depth
  off : 0 < c.intr_nest → c.intr ≡ false
  kept : 0 < d.intr_nest → c.intr_enable ≡ d.intr_enable
  saved : d.intr_nest ≡ 0 → 0 < depth → c.intr_enable ≡ d.intr
  same : depth ≡ 0 → c.intr ≡ d.intr
  outer : IsCpu d

Inside-in : (depth : ℕ) (d c : Cpu) → Inside depth d c → Inside (depth + 1) d (cpu_critical_in c).1
unfolding cpu_critical_in
Inside-in depth d c h = record {
  nest = ground (arith, h.nest);
  off = λ k. ground arith;
  kept = λ k. ground (arith, h.nest, h.kept);
  saved = λ e k. ground (arith, h.nest, h.saved, h.same);
  same = λ e. absurd (omega (arith, e));
  outer = h.outer;
}

Inside-out :
    (depth : ℕ) (d c : Cpu)
    → 0 < depth
    → Inside depth d c
    → Inside (depth - 1) d (cpu_critical_out c).1
unfolding cpu_critical_out
Inside-out depth d c deep h = record {
  nest = ground (arith, h.nest);
  off = λ k. ground (arith, h.nest);
  kept = λ k. ground (arith, h.nest, h.kept);
  saved = λ e k. ground (arith, h.nest, h.saved);
  same = λ e. ground (arith, h.nest, h.saved, h.kept, h.off, h.outer);
  outer = h.outer;
}

run-Inside :
    (calls : List Bool) (depth : ℕ) (d c : Cpu)
    → Balanced calls depth
    → Inside depth d c
    → Inside 0 d (run calls c)
unfolding run
run-Inside [] depth d c e h = subst (λ k. Inside k d c) e h
run-Inside (true ∷ calls) depth d c b h = run-Inside calls (depth + 1) d _ b (Inside-in depth d c h)
run-Inside (false ∷ calls) depth d c b h =
    run-Inside calls (depth - 1) d _ b.1 (Inside-out depth d c b.0 h)

-- On a CPU whose interrupts are off within critical sections, any run of calls in which each
-- cpu_critical_in has its cpu_critical_out gives back the depth and the interrupts that it began with,
-- where the depth at the start and the number of calls stay below 2^31, so that the int INTR_NEST does
-- not overflow.
pub run-Balanced :
    (calls : List Bool) (c : Cpu)
    → IsCpu c
    → c.intr_nest + length calls < 2 ^ 31
    → Balanced calls 0
    → ((run calls c).intr_nest ≡ c.intr_nest) × ((run calls c).intr ≡ c.intr)
run-Balanced calls c wf shallow balanced =
    let h = run-Inside calls 0 c c balanced (record {
      nest = omega arith;
      off = wf;
      kept = λ k. refl;
      saved = λ e k. absurd (omega arith);
      same = λ e. refl;
      outer = wf;
    }) in
    (omega (arith, h.nest), h.same refl)

-- cpu_critical_in returns the new depth, which is not 0, and turns interrupts off; cpu_critical_out
-- right after it returns the depth before.
pub cpu_critical_in-depth :
    (c : Cpu)
    → ((cpu_critical_in c).0 ≡ (cpu_critical_in c).1.intr_nest)
      × (0 < (cpu_critical_in c).0)
      × ((cpu_critical_in c).1.intr ≡ false)
      × ((cpu_critical_out (cpu_critical_in c).1).0 ≡ c.intr_nest)
unfolding cpu_critical_in cpu_critical_out
cpu_critical_in-depth c = (refl, omega arith, refl, ground arith)

-- cpu_critical_out outside every critical section changes nothing and returns 0.
pub cpu_critical_out_outside : (c : Cpu) → c.intr_nest ≡ 0 → cpu_critical_out c ≡ (0, c)
unfolding cpu_critical_out
cpu_critical_out_outside c e = ground (arith, e, Bool-cases c.intr)
