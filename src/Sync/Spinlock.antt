-- ===== src/Sync/Spinlock.antt =====
-- A spinlock has at most one holder, is never lost, and its holder is not interrupted.
use aco_os.Base.{ℕ, ◌≡◌, ◌≢◌, ◌<◌, ◌⊎◌, inl, inr, refl, Bool, true, false, ◌==◌, arith}
use aco_os.Sync.{
  IsCpu, Phase, outside, spinning, holding, leaving, Worker, System, Step, begins, tries, releases,
  ends, Reach, start, later, cpu_critical_in, cpu_critical_out, fetch_and_and_0, fetch_and_or_1,
  begin_lock, try_lock, release, end_unlock,
}

-- Whether a CPU has the lock.
abbrev has_lock : Phase → Bool
has_lock outside = false
has_lock spinning = false
has_lock holding = true
has_lock leaving = false

abbrev is_outside : Phase → Bool
is_outside outside = true
is_outside spinning = false
is_outside holding = false
is_outside leaving = false

-- The lock is 1 and free, or 0 and held by exactly one CPU.
record IsLock (s : System) : Type 0 where
  value :
      ((s.value ≡ 1) × ((i : ℕ) → has_lock (s.workers i).phase ≡ false))
      ⊎ ((s.value ≡ 0) × ((i : ℕ) × ((j : ℕ) → has_lock (s.workers j).phase ≡ (i == j))))
  cpu : (i : ℕ) → IsCpu (s.workers i).cpu
  inside : (i : ℕ) → is_outside (s.workers i).phase ≡ false → 0 < (s.workers i).cpu.intr_nest

Step-value :
    (s t : System)
    → Step s t
    → IsLock s
    → ((t.value ≡ 1) × ((i : ℕ) → has_lock (t.workers i).phase ≡ false))
      ⊎ ((t.value ≡ 0) × ((i : ℕ) × ((j : ℕ) → has_lock (t.workers j).phase ≡ (i == j))))
unfolding begin_lock try_lock release end_unlock fetch_and_and_0 fetch_and_or_1
Step-value s t (begins i at) h = elim h.value [
  | inl (e, none) ↦ inl (e, λ j. ground (arith, none j))
  | inr (e, (k, one)) ↦ inr (e, (k, λ j. ground (arith, at, one j, one i)))
]
Step-value s t (tries i at) h = elim h.value [
  | inl (e, none) ↦ inr (refl, (i, λ j. ground (arith, e, none j)))
  | inr (e, (k, one)) ↦ inr (refl, (k, λ j. ground (arith, e, at, one j, one i)))
]
Step-value s t (releases i at) h = elim h.value [
  | inl (e, none) ↦ absurd (ground (arith, at, none i))
  | inr (e, (k, one)) ↦ inl (omega (arith, e), λ j. ground (arith, at, one j, one i))
]
Step-value s t (ends i at) h = elim h.value [
  | inl (e, none) ↦ inl (e, λ j. ground (arith, none j))
  | inr (e, (k, one)) ↦ inr (e, (k, λ j. ground (arith, at, one j, one i)))
]

begin_lock-IsCpu : (w : Worker) → IsCpu (begin_lock w).cpu × (0 < (begin_lock w).cpu.intr_nest)
unfolding begin_lock cpu_critical_in
begin_lock-IsCpu w = (λ k. refl, omega arith)

end_unlock-IsCpu : (w : Worker) → IsCpu w.cpu → IsCpu (end_unlock w).cpu
unfolding end_unlock cpu_critical_out
end_unlock-IsCpu w h k = ground (arith, h)

end_unlock_phase : (w : Worker) → (end_unlock w).phase ≡ outside
unfolding end_unlock
end_unlock_phase w = refl

has_lock-holding : (p : Phase) → has_lock p ≡ true → p ≡ holding
has_lock-holding outside e = ground arith
has_lock-holding spinning e = ground arith
has_lock-holding holding e = refl
has_lock-holding leaving e = ground arith

Step-IsLock : (s t : System) → Step s t → IsLock s → IsLock t
unfolding try_lock release
Step-IsLock s t (begins i at) h = record {
  value = Step-value s t (begins i at) h;
  cpu = λ j. ground (arith, h.cpu j, begin_lock-IsCpu (s.workers i));
  inside = λ j. ground (arith, h.inside j, begin_lock-IsCpu (s.workers i));
}
Step-IsLock s t (tries i at) h = record {
  value = Step-value s t (tries i at) h;
  cpu = λ j. ground (arith, h.cpu j, h.cpu i);
  inside = λ j. ground (arith, at, h.inside j, h.inside i);
}
Step-IsLock s t (releases i at) h = record {
  value = Step-value s t (releases i at) h;
  cpu = λ j. ground (arith, h.cpu j, h.cpu i);
  inside = λ j. ground (arith, at, h.inside j, h.inside i);
}
Step-IsLock s t (ends i at) h = record {
  value = Step-value s t (ends i at) h;
  cpu = λ j. ground (arith, h.cpu j, end_unlock-IsCpu (s.workers i) (h.cpu i));
  inside = λ j. ground (arith, h.inside j, end_unlock_phase (s.workers i));
}

Reach-IsLock : (s : System) → Reach s → IsLock s
Reach-IsLock s (start h) = record {
  value = inl (h.value, λ i. ground (arith, h.phase i));
  cpu = h.cpu;
  inside = λ i e. absurd (ground (arith, h.phase i));
}
Reach-IsLock t (later {s} r step) = Step-IsLock s t step (Reach-IsLock s r)

-- However the CPUs interleave from a free lock on: two CPUs that hold the lock are the same.
pub Reach-exclusive :
    (s : System) (i j : ℕ)
    → Reach s
    → (s.workers i).phase ≡ holding
    → (s.workers j).phase ≡ holding
    → i ≡ j
Reach-exclusive s i j r hi hj = elim (Reach-IsLock s r).value [
  | inl (e, none) ↦ absurd (ground (arith, hi, none i))
  | inr (e, (k, one)) ↦ ground (arith, hi, hj, one i, one j)
]

-- A CPU that waits for the lock, holds it or is about to leave has its interrupts off.
pub Reach-uninterrupted :
    (s : System) (i : ℕ) → Reach s → (s.workers i).phase ≢ outside → (s.workers i).cpu.intr ≡ false
Reach-uninterrupted s i r busy =
    let h = Reach-IsLock s r in
    h.cpu i (
      h.inside i (
        elim (s.workers i).phase as (λ p. p ≢ outside → is_outside p ≡ false) [
          | outside ↦ λ ne. absurd (ne refl)
          | _ ↦ λ ne. refl
        ]
          busy))

-- The lock is never lost: where no CPU holds it, the next try of a waiting CPU takes it.
pub Reach-try_lock :
    (s : System) (i : ℕ)
    → Reach s
    → (s.workers i).phase ≡ spinning
    → ((k : ℕ) → (s.workers k).phase ≢ holding)
    → (try_lock s.value (s.workers i)).1.phase ≡ holding
unfolding try_lock fetch_and_and_0
Reach-try_lock s i r waits free = elim (Reach-IsLock s r).value [
  | inl (e, none) ↦ ground (arith, e)
  | inr (e, (k, one)) ↦ absurd (free k (has_lock-holding _ (ground (arith, one k))))
]

-- Where a CPU holds the lock, the try of a waiting CPU leaves it waiting and the lock as it is.
pub Reach-try_lock_held :
    (s : System) (i j : ℕ)
    → Reach s
    → (s.workers i).phase ≡ spinning
    → (s.workers j).phase ≡ holding
    → ((try_lock s.value (s.workers i)).1.phase ≡ spinning)
      × ((try_lock s.value (s.workers i)).0 ≡ s.value)
unfolding try_lock fetch_and_and_0
Reach-try_lock_held s i j r waits held = elim (Reach-IsLock s r).value [
  | inl (e, none) ↦ absurd (ground (arith, held, none j))
  | inr (e, (k, one)) ↦ ground (arith, e)
]
