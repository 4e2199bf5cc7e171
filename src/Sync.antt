-- ===== src/Sync.antt =====
-- kernel/cpu_critical.c, include/aco/cpu.h, include/aco/atomic.h and include/aco/spinlock.h: critical
-- sections of a CPU, and spinlocks that CPUs race for. An atomic operation is one step.
pub mod Critical
pub mod Spinlock
mod Tests
use aco_os.Base.{
  ℕ, zero, suc, ◌+◌, ◌-◌, ◌%◌, ◌≡◌, ◌<◌, Bool, true, false, List, [], ◌∷◌, ◌==◌, if◌then◌else◌,
  update,
}

-- One CPU: whether its interrupts are on, and its entries of INTR_NEST and INTR_ENABLE. The first is an
-- int in the source: it counts the open calls of cpu_critical_in, of which there are fewer than 2^31.
pub record Cpu : Type 0 where
  pub intr : Bool
  pub intr_nest : ℕ
  pub intr_enable : Bool

pub cpu_intr_restore : Bool → Cpu → Cpu
cpu_intr_restore enable c = if enable then record c { intr = true } else record c { intr = false }

-- The depth after the call, and the CPU.
pub cpu_critical_in : Cpu → ℕ × Cpu
cpu_critical_in c =
    let enable = if c.intr_nest == 0 then c.intr else c.intr_enable in
    (c.intr_nest + 1, record { intr = false; intr_nest = c.intr_nest + 1; intr_enable = enable })

pub cpu_critical_out : Cpu → ℕ × Cpu
unfolding cpu_intr_restore
cpu_critical_out c =
    let off = record c { intr = false } in
    if c.intr_nest == 0
    then (0, cpu_intr_restore c.intr off)
    else (let left = record off { intr_nest = c.intr_nest - 1 } in
        if left.intr_nest == 0
        then (0, cpu_intr_restore left.intr_enable left)
        else (left.intr_nest, left))

-- `*ptr & 0` and `*ptr | 1`, with the value before
unfoldable pub fetch_and_and_0 : ℕ → ℕ × ℕ
fetch_and_and_0 value = (value, 0)

pub fetch_and_or_1 : ℕ → ℕ × ℕ
fetch_and_or_1 value = (value, value - value % 2 + 1)

-- Where a CPU is in `lock` and `unlock`: before the first, in the loop, between the two, and after
-- the write of the second.
pub data Phase : Type 0 where
  outside spinning holding leaving : Phase

pub record Worker : Type 0 where
  pub cpu : Cpu
  pub phase : Phase

-- One lock, and the CPUs.
pub record System : Type 0 where
  pub value : ℕ
  pub workers : ℕ → Worker

-- The steps of a CPU in `lock`: cpu_critical_in, and a round of the loop; in `unlock`: the write, and
-- cpu_critical_out.
unfoldable pub begin_lock : Worker → Worker
begin_lock w = record { cpu = (cpu_critical_in w.cpu).1; phase = spinning }

unfoldable pub try_lock : ℕ → Worker → ℕ × Worker
try_lock value w =
    let (old, new) = fetch_and_and_0 value in
    (new, record w { phase = if old == 0 then spinning else holding })

pub release : ℕ → Worker → ℕ × Worker
release value w = ((fetch_and_or_1 value).1, record w { phase = leaving })

pub end_unlock : Worker → Worker
end_unlock w = record { cpu = (cpu_critical_out w.cpu).1; phase = outside }

-- A step of one CPU of the system.
pub data Step (s : System) : System → Type 0 where
  begins :
      (i : ℕ)
      → (s.workers i).phase ≡ outside
      → Step s (record s { workers = update s.workers i (begin_lock (s.workers i)) })
  tries :
      (i : ℕ)
      → (s.workers i).phase ≡ spinning
      → Step s (record {
        value = (try_lock s.value (s.workers i)).0;
        workers = update s.workers i (try_lock s.value (s.workers i)).1;
      })
  releases :
      (i : ℕ)
      → (s.workers i).phase ≡ holding
      → Step s (record {
        value = (release s.value (s.workers i)).0;
        workers = update s.workers i (release s.value (s.workers i)).1;
      })
  ends :
      (i : ℕ)
      → (s.workers i).phase ≡ leaving
      → Step s (record s { workers = update s.workers i (end_unlock (s.workers i)) })

-- Interrupts are off within a critical section.
abbrev pub IsCpu : Cpu → Type 0
IsCpu c = 0 < c.intr_nest → c.intr ≡ false

-- After init_lock, with no CPU in `lock` or `unlock`.
pub record IsStart (s : System) : Type 0 where
  pub value : s.value ≡ 1
  pub phase : (i : ℕ) → (s.workers i).phase ≡ outside
  pub cpu : (i : ℕ) → IsCpu (s.workers i).cpu

pub data Reach : System → Type 0 where
  start : {s : System} → IsStart s → Reach s
  later : {s t : System} → Reach s → Step s t → Reach t
