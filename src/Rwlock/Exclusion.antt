-- ===== src/Rwlock/Exclusion.antt =====
-- A writer of a reader-writer lock excludes readers and other writers.
use native.Mathlib.Decide.{ℕ_discrete, dec_lt}
use aco_os.Base.{
  ℕ, zero, suc, ◌+◌, ◌^◌, ◌≤◌, ◌<◌, ◌≡◌, ◌≢◌, ◌⊎◌, inl, inr, refl, Bool, true, false, ◌==◌, update,
  arith, Bool-cases, ap,
}
use aco_os.Rwlock.{
  Rwlock, Phase, idle, reading, writing, draining, r_wait, r_pass, r_leave, w_wait, w_check_readers,
  w_pass, w_leave, b_wait, b_pass, b_leave, advance, System, asks_r, asks_w, asks_b, advances,
  Reach, start, later,
}
use aco_os.Base.Count.{count, one_if, count-update, count-le, count-pos, count_unique}

-- The phases within `lk`, and those that the counters count.
abbrev in_lk : Phase → Bool
in_lk idle = false
in_lk reading = false
in_lk writing = false
in_lk draining = false
in_lk r_wait = false
in_lk w_wait = false
in_lk b_wait = false
in_lk _ = true

abbrev pub counts_reader : Phase → Bool
counts_reader r_leave = true
counts_reader reading = true
counts_reader _ = false

abbrev pub counts_writer : Phase → Bool
counts_writer w_leave = true
counts_writer writing = true
counts_writer b_leave = true
counts_writer draining = true
counts_writer _ = false

-- The phases that no writer, and that no reader may overlap.
abbrev no_writer : Phase → Bool
no_writer r_pass = true
no_writer w_check_readers = true
no_writer w_pass = true
no_writer b_pass = true
no_writer _ = false

abbrev no_reader : Phase → Bool
no_reader w_pass = true
no_reader w_leave = true
no_reader writing = true
no_reader _ = false

-- What one step of a CPU does to the lock, if the lock is as its phase asks.
record Effect (p : Phase) (m : Rwlock) : Type 0 where
  taken :
      one_if (advance p m).0.taken + one_if (in_lk p)
      ≡ one_if m.taken + one_if (in_lk (advance p m).1)
  readers :
      (advance p m).0.readers + one_if (counts_reader p)
      ≡ m.readers + one_if (counts_reader (advance p m).1)
  writers :
      (advance p m).0.writers + one_if (counts_writer p)
      ≡ m.writers + one_if (counts_writer (advance p m).1)
  more_readers : m.readers < (advance p m).0.readers → no_writer p ≡ true
  more_writers : m.writers < (advance p m).0.writers → (no_writer p ≡ true) × (in_lk p ≡ true)
  clear_writers : no_writer (advance p m).1 ≡ true → (advance p m).0.writers ≡ 0
  clear_readers : no_reader (advance p m).1 ≡ true → (advance p m).0.readers ≡ 0

record IsReady (p : Phase) (m : Rwlock) : Type 0 where
  taken : in_lk p ≡ true → m.taken ≡ true
  readers : counts_reader p ≡ true → 0 < m.readers
  writers : counts_writer p ≡ true → 0 < m.writers
  clear_writers : no_writer p ≡ true → m.writers ≡ 0
  clear_readers : no_reader p ≡ true → m.readers ≡ 0
  small : (m.readers + 1 < 2 ^ 32) × (m.writers + 1 < 2 ^ 32)

advance-Effect : (p : Phase) (m : Rwlock) → IsReady p m → Effect p m
unfolding advance
advance-Effect _ m r = record {
  taken = ground (arith, r.taken, Bool-cases m.taken);
  readers = ground (arith, r.readers, r.small, Bool-cases m.taken);
  writers = ground (arith, r.writers, r.small, Bool-cases m.taken);
  more_readers = λ h. ground (arith, r.readers, r.small, Bool-cases m.taken);
  more_writers = λ h. ground (arith, r.writers, r.small, Bool-cases m.taken);
  clear_writers = λ h. ground (arith, r.clear_writers, Bool-cases m.taken);
  clear_readers = λ h. ground (arith, r.clear_readers, Bool-cases m.taken);
}

record IsSystem (n : ℕ) (s : System) : Type 0 where
  taken : one_if s.mem.taken ≡ count in_lk n s.phase
  readers : s.mem.readers ≡ count counts_reader n s.phase
  writers : s.mem.writers ≡ count counts_writer n s.phase
  one_writer : s.mem.writers ≤ 1
  clear_writers : (i : ℕ) → i < n → no_writer (s.phase i) ≡ true → s.mem.writers ≡ 0
  clear_readers : (i : ℕ) → i < n → no_reader (s.phase i) ≡ true → s.mem.readers ≡ 0

one_if-le : (b : Bool) → one_if b ≤ 1
one_if-le true = omega arith
one_if-le false = omega arith

one_if-true : (b : Bool) → 0 < one_if b → b ≡ true
one_if-true true h = refl
one_if-true false h = absurd (omega arith)

IsSystem-IsReady :
    (n : ℕ) (s : System) (i : ℕ) → n + 1 < 2 ^ 32 → i < n → IsSystem n s → IsReady (s.phase i) s.mem
IsSystem-IsReady n s i few h inv = record {
  taken = λ e. one_if-true s.mem.taken (omega (arith, inv.taken, count-pos in_lk n s.phase i h e));
  readers = λ e. omega (arith, inv.readers, count-pos counts_reader n s.phase i h e);
  writers = λ e. omega (arith, inv.writers, count-pos counts_writer n s.phase i h e);
  clear_writers = inv.clear_writers i h;
  clear_readers = inv.clear_readers i h;
  small =
      (omega (arith, inv.readers, count-le counts_reader n s.phase), omega (arith, inv.one_writer));
}

-- Only one CPU is within `lk`.
alone :
    (n : ℕ) (s : System) (i j : ℕ)
    → IsSystem n s
    → i < n
    → j < n
    → in_lk (s.phase i) ≡ true
    → in_lk (s.phase j) ≡ true
    → i ≡ j
alone n s i j inv hi hj e k =
    count_unique in_lk n s.phase i j (omega (arith, inv.taken, one_if-le s.mem.taken)) hi hj e k

no_writer-in_lk : (p : Phase) → no_writer p ≡ true → in_lk p ≡ true
no_writer-in_lk _ h = ground (arith, h)

no_reader-cases : (p : Phase) → no_reader p ≡ true → (in_lk p ≡ true) ⊎ (counts_writer p ≡ true)
no_reader-cases _ h = ground (arith, h)

module _ {n : ℕ} (few : n + 1 < 2 ^ 32) (s : System) (inv : IsSystem n s) (i : ℕ) (h : i < n) where
  effect : Effect (s.phase i) s.mem
  effect = advance-Effect (s.phase i) s.mem (IsSystem-IsReady n s i few h inv)

  writers-before :
      (j : ℕ)
      → j < n
      → i ≢ j
      → no_writer (s.phase j) ≡ true
      → (advance (s.phase i) s.mem).0.writers ≡ 0
  writers-before j hj ne e =
      let zero_now = inv.clear_writers j hj e in
      elim (dec_lt s.mem.writers (advance (s.phase i) s.mem).0.writers) [
        | yes more ↦
            absurd (ne (alone n s i j inv h hj (effect.more_writers more).1 (no_writer-in_lk _ e)))
        | no le ↦ omega arith
      ]

  readers-before :
      (j : ℕ)
      → j < n
      → i ≢ j
      → no_reader (s.phase j) ≡ true
      → (advance (s.phase i) s.mem).0.readers ≡ 0
  readers-before j hj ne e =
      let zero_now = inv.clear_readers j hj e in
      elim (dec_lt s.mem.readers (advance (s.phase i) s.mem).0.readers) [
        | yes more ↦
            let clear = effect.more_readers more in
            elim (no_reader-cases _ e) [
              | inl locked ↦ absurd (ne (alone n s i j inv h hj (no_writer-in_lk _ clear) locked))
              | inr counted ↦ absurd (
                  omega (
                    arith,
                    inv.clear_writers i h clear,
                    inv.writers,
                    count-pos counts_writer n s.phase j hj counted,
                  ))
            ]
        | no le ↦ omega arith
      ]

  one_writer-after : (advance (s.phase i) s.mem).0.writers ≤ 1
  one_writer-after = elim (dec_lt s.mem.writers (advance (s.phase i) s.mem).0.writers) [
    | yes more ↦ omega (
      arith,
      inv.clear_writers i h (effect.more_writers more).0,
      effect.writers,
      one_if-le (counts_writer (advance (s.phase i) s.mem).1),
    )
    | no le ↦ omega (arith, inv.one_writer)
  ]

  advances-IsSystem : IsSystem n (record {
    mem = (advance (s.phase i) s.mem).0;
    phase = update s.phase i (advance (s.phase i) s.mem).1;
  })
  advances-IsSystem =
      let x = (advance (s.phase i) s.mem).1 in
      record {
        taken = omega (arith, inv.taken, effect.taken, count-update in_lk n s.phase i x h);
        readers =
            omega (arith, inv.readers, effect.readers, count-update counts_reader n s.phase i x h);
        writers =
            omega (arith, inv.writers, effect.writers, count-update counts_writer n s.phase i x h);
        one_writer = one_writer-after;
        clear_writers = λ j hj e. elim (ℕ_discrete i j) [
          | yes same ↦
              let self : (i == j) ≡ true = ground arith in
              effect.clear_writers (ground (arith, e, self))
          | no ne ↦
              let other : (i == j) ≡ false = ground arith in
              writers-before j hj ne (ground (arith, e, other))
        ];
        clear_readers = λ j hj e. elim (ℕ_discrete i j) [
          | yes same ↦
              let self : (i == j) ≡ true = ground arith in
              effect.clear_readers (ground (arith, e, self))
          | no ne ↦
              let other : (i == j) ≡ false = ground arith in
              readers-before j hj ne (ground (arith, e, other))
        ];
      }

  -- A CPU that begins to wait changes nothing that is counted.
  asks-IsSystem :
      (x : Phase)
      → s.phase i ≡ idle
      → in_lk x ≡ false
      → counts_reader x ≡ false
      → counts_writer x ≡ false
      → no_writer x ≡ false
      → no_reader x ≡ false
      → IsSystem n (record s { phase = update s.phase i x })
  asks-IsSystem x at a b c d e = record {
    taken = ground (arith, inv.taken, at, a, count-update in_lk n s.phase i x h);
    readers = ground (arith, inv.readers, at, b, count-update counts_reader n s.phase i x h);
    writers = ground (arith, inv.writers, at, c, count-update counts_writer n s.phase i x h);
    one_writer = inv.one_writer;
    clear_writers = λ j hj k. ground (arith, d, inv.clear_writers j);
    clear_readers = λ j hj k. ground (arith, e, inv.clear_readers j);
  }

count-idle : (p : Phase → Bool) (n : ℕ) → p idle ≡ false → count p n (λ i. idle) ≡ 0
count-idle p zero e = refl
count-idle p (suc n) e = rw e (omega (arith, count-idle p n e))

Reach-IsSystem : (n : ℕ) (s : System) → n + 1 < 2 ^ 32 → Reach n s → IsSystem n s
Reach-IsSystem n s few start = record {
  taken = omega (arith, count-idle in_lk n refl);
  readers = omega (arith, count-idle counts_reader n refl);
  writers = omega (arith, count-idle counts_writer n refl);
  one_writer = omega arith;
  clear_writers = λ i h e. refl;
  clear_readers = λ i h e. refl;
}
Reach-IsSystem n t few (later {s} r (asks_r i h at)) =
    asks-IsSystem few s (Reach-IsSystem n s few r) i h r_wait at refl refl refl refl refl
Reach-IsSystem n t few (later {s} r (asks_w i h at)) =
    asks-IsSystem few s (Reach-IsSystem n s few r) i h w_wait at refl refl refl refl refl
Reach-IsSystem n t few (later {s} r (asks_b i h at)) =
    asks-IsSystem few s (Reach-IsSystem n s few r) i h b_wait at refl refl refl refl refl
Reach-IsSystem n t few (later {s} r (advances i h)) =
    advances-IsSystem few s (Reach-IsSystem n s few r) i h

-- However fewer than 2^32 - 1 CPUs interleave from rwlock_init on, two CPUs that have the lock for
-- writing are the same.
pub Reach-writing :
    (n : ℕ) (s : System) (i j : ℕ)
    → n + 1 < 2 ^ 32
    → Reach n s
    → i < n
    → j < n
    → s.phase i ≡ writing
    → s.phase j ≡ writing
    → i ≡ j
Reach-writing n s i j few r hi hj at at' =
    let inv = Reach-IsSystem n s few r in
    count_unique counts_writer n s.phase i j (omega (arith, inv.writers, inv.one_writer)) hi hj
      (ap counts_writer at) (ap counts_writer at')

-- While a CPU has the lock for writing, no CPU has it for reading.
pub Reach-no_reader :
    (n : ℕ) (s : System) (i j : ℕ)
    → n + 1 < 2 ^ 32
    → Reach n s
    → i < n
    → j < n
    → s.phase i ≡ writing
    → s.phase j ≢ reading
Reach-no_reader n s i j few r hi hj at reads =
    let inv = Reach-IsSystem n s few r in
    absurd (
      omega (
        arith,
        inv.clear_readers i hi (ap no_reader at),
        inv.readers,
        count-pos counts_reader n s.phase j hj (ap counts_reader reads),
      ))

-- The two counters say how many CPUs have the lock or are about to leave the inner spinlock with it.
pub Reach-readers :
    (n : ℕ) (s : System)
    → n + 1 < 2 ^ 32
    → Reach n s
    → (s.mem.readers ≡ count counts_reader n s.phase)
      × (s.mem.writers ≡ count counts_writer n s.phase)
Reach-readers n s few r = let inv = Reach-IsSystem n s few r in (inv.readers, inv.writers)
