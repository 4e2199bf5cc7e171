-- ===== src/Startup/Logged.antt =====
-- The init functions with a log of their calls: which have run on which CPU, and with what result, in
-- the states that the CPUs can reach.
use aco_os.Base.{
  ℕ, zero, suc, ◌+◌, ◌^◌, ◌<◌, ◌≡◌, ◌≢◌, inl, inr, refl, ap, ◌∙◌, subst, true, false, List, [], ◌∷◌,
  ◌++◌, length, ◌==◌, if◌then◌else◌, arith, Bool-cases,
}
use aco_os.Base.Int.{ℤ, pos, is_zero}
use aco_os.Base.Run.{Run, ok, panic, out_of_fuel, ◌>>=◌}
use aco_os.Startup.{
  InitFunc, Stage, asleep, announcing, counting, waiting, checking, done, failed, rejected, initing,
  Shared, System, Image, after_init, start_kernel, step, entry, Reach, enters, later,
}
use aco_os.Startup.Order.{Reach-ordered}

-- A call of an init function that has returned: the CPU, the place of the function in the section, and
-- the error.
pub record Call : Type 0 where
  pub cpu : ℕ
  pub place : ℕ
  pub error : ℤ

module _ {World : Type 0} where
  -- `f`, with the log kept beside its memory.
  unfoldable pub logs : ℕ → InitFunc World → InitFunc (World × List Call)
  logs k f i w = do
    (error, w') ← f i w.0
    ok (error, (w', w.1 ++ (record { cpu = i; place = k; error = error } ∷ [])))

  unfoldable pub logs_from : ℕ → List (InitFunc World) → List (InitFunc (World × List Call))
  logs_from k [] = []
  logs_from k (f ∷ fs) = logs k f ∷ logs_from (k + 1) fs

  unfoldable pub logged : Image World → Image (World × List Call)
  logged image = record {
    inits = logs_from 0 image.inits;
    pages_slfcheck = λ w. image.pages_slfcheck w.0;
    cpu_boot = image.cpu_boot;
    cpus = image.cpus;
  }

-- The states that are reached with an empty log at first.
pub data Runs {World : Type 0} (image : Image World) : System (World × List Call) → Type 0 where
  starts : (w : World) → Runs image (entry (logged image) (w, []))
  goes_on :
      {s : System (World × List Call)}
      → Runs image s
      → (i : ℕ) → i < image.cpus
      → Runs image (step (logged image) i s)

-- The calls of one CPU, in order.
unfoldable pub calls_of : ℕ → List Call → List (ℕ × ℤ)
calls_of i [] = []
calls_of i (c ∷ log) = if c.cpu == i then (c.place, c.error) ∷ calls_of i log else calls_of i log

-- The first `n` functions, each once and without error.
unfoldable pub passed : ℕ → List (ℕ × ℤ)
passed zero = []
passed (suc n) = passed n ++ ((n, pos 0) ∷ [])

passed_next : (k : ℕ) → passed (k + 1) ≡ passed k ++ ((k, pos 0) ∷ [])
unfolding passed
passed_next k = let e : k + 1 ≡ suc k = omega arith in rw e refl

calls_of-append :
    (i : ℕ) (log : List Call) (c : Call)
    → calls_of i (log ++ (c ∷ []))
      ≡ (if c.cpu == i then calls_of i log ++ ((c.place, c.error) ∷ []) else calls_of i log)
unfolding calls_of
calls_of-append i [] c = ground arith
calls_of-append i (d ∷ log) c =
    let rest = calls_of-append i log c in
    elim (Bool-cases (d.cpu == i)) [
      | inl e ↦ ground (arith, e, rest)
      | inr e ↦ ground (arith, e, rest)
    ]

is_zero-pos : (error : ℤ) → is_zero error ≡ true → error ≡ pos 0
is_zero-pos error z = ground (arith, z)

module _ {World : Type 0} where
  -- What a CPU at that stage has called, of `n` functions.
  abbrev Called : ℕ → Stage (World × List Call) → List (ℕ × ℤ) → Type 0
  Called n asleep calls = calls ≡ []
  Called n (initing fs) calls =
      (k : ℕ) × (gs : List (InitFunc World)) × (logs_from k gs ≡ fs)
      × (k + length gs ≡ n)
      × (calls ≡ passed k)
  Called n announcing calls = calls ≡ passed n
  Called n counting calls = calls ≡ passed n
  Called n waiting calls = calls ≡ passed n
  Called n checking calls = calls ≡ passed n
  Called n done calls = calls ≡ passed n
  Called n failed calls = Unit
  Called n rejected calls = calls ≡ passed n

  -- After a step of the CPU `j`, whose memory was `log`.
  abbrev Kept : ℕ → ℕ → List Call → Stage (World × List Call) × Shared (World × List Call) → Type 0
  Kept n j log (p, m) =
      Called n p (calls_of j m.world.1)
      × ((i : ℕ) → (j == i) ≡ false → calls_of i m.world.1 ≡ calls_of i log)

  after_init-Kept :
      (n j k : ℕ) (gs : List (InitFunc World)) (r : Run (ℤ × World))
      (m : Shared (World × List Call))
      → k + 1 + length gs ≡ n
      → calls_of j m.world.1 ≡ passed k
      → Kept n j m.world.1 (
          after_init
            (logs_from (k + 1) gs)
            (r >>= λ (error, w).
              ok (error, (w, m.world.1 ++ (record { cpu = j; place = k; error = error } ∷ []))))
            m)
  unfolding after_init
  after_init-Kept n j k gs panic m len calls = (tt, λ i e. refl)
  after_init-Kept n j k gs out_of_fuel m len calls = (tt, λ i e. refl)
  after_init-Kept n j k gs (ok (error, w)) m len calls =
      let c : Call = record { cpu = j; place = k; error = error } in
      let self : (j == j) ≡ true = ground arith in
      let others : (i : ℕ)
          → (j == i) ≡ false
          → calls_of i (m.world.1 ++ (c ∷ [])) ≡ calls_of i m.world.1 =
        λ i e. ground (arith, calls_of-append i m.world.1 c, e) in
      elim (Bool-cases (is_zero error)) [
        | inr z ↦ rw z (tt, others)
        | inl z ↦
            let none : error ≡ pos 0 = is_zero-pos error z in
            let more : calls_of j (m.world.1 ++ (c ∷ [])) ≡ passed (k + 1) =
              calls_of-append j m.world.1 c ∙ rw (self, calls, none, passed_next k) refl in
            rw z ((k + 1, gs, refl, len, more), others)
      ]

  initing-Kept :
      (image : Image World) (j k : ℕ) (gs : List (InitFunc World)) (m : Shared (World × List Call))
      → k + length gs ≡ length image.inits
      → calls_of j m.world.1 ≡ passed k
      → Kept
          (length image.inits)
          j
          m.world.1
          (start_kernel (logged image) j (initing (logs_from k gs)) m)
  unfolding start_kernel logs_from logs logged calls_of
  initing-Kept image j k [] m len calls =
      let all : k ≡ length image.inits = omega (arith, len) in
      let through : calls_of j m.world.1 ≡ passed (length image.inits) = calls ∙ ap passed all in
      elim (Bool-cases (j == image.cpu_boot)) [
        | inl e ↦ rw e (through, λ i f. refl)
        | inr e ↦ rw e (through, λ i f. refl)
      ]
  initing-Kept image j k (g ∷ gs) m len calls =
      after_init-Kept (length image.inits) j k gs (g j m.world.0) m (omega (arith, len)) calls

  start_kernel-Kept :
      (image : Image World) (j : ℕ) (p : Stage (World × List Call)) (m : Shared (World × List Call))
      → Called (length image.inits) p (calls_of j m.world.1)
      → Kept (length image.inits) j m.world.1 (start_kernel (logged image) j p m)
  unfolding start_kernel logged logs_from passed
  start_kernel-Kept image j asleep m h = elim (Bool-cases (m.module_inited == 0)) [
    | inl e ↦ rw e (h, λ i f. refl)
    | inr e ↦ rw e ((0, image.inits, refl, omega arith, h), λ i f. refl)
  ]
  start_kernel-Kept image j (initing fs) m (k, gs, e, len, calls) =
      subst
        (λ (x : List (InitFunc (World × List Call))).
          Kept (length image.inits) j m.world.1 (start_kernel (logged image) j (initing x) m))
        e (initing-Kept image j k gs m len calls)
  start_kernel-Kept image j announcing m h = (h, λ i e. refl)
  start_kernel-Kept image j counting m h = elim (Bool-cases (j == image.cpu_boot)) [
    | inl e ↦ rw e (h, λ i f. refl)
    | inr e ↦ rw e (h, λ i f. refl)
  ]
  start_kernel-Kept image j waiting m h = elim (Bool-cases (m.bootdone_cpus == image.cpus)) [
    | inl e ↦ rw e (h, λ i f. refl)
    | inr e ↦ rw e (h, λ i f. refl)
  ]
  start_kernel-Kept image j checking m h =
      elim (Bool-cases (is_zero (image.pages_slfcheck m.world.0))) [
        | inl e ↦ rw e (h, λ i f. refl)
        | inr e ↦ rw e (h, λ i f. refl)
      ]
  start_kernel-Kept image j done m h = (h, λ i e. refl)
  start_kernel-Kept image j failed m h = (h, λ i e. refl)
  start_kernel-Kept image j rejected m h = (h, λ i e. refl)

  -- All CPUs have called what their stages say.
  abbrev AllCalled : Image World → System (World × List Call) → Type 0
  AllCalled image s =
      (i : ℕ) → Called (length image.inits) (s.stages i) (calls_of i s.shared.world.1)

  step-AllCalled :
      (image : Image World) (s : System (World × List Call)) (j : ℕ)
      → AllCalled image s
      → AllCalled image (step (logged image) j s)
  unfolding step
  step-AllCalled image s j h i =
      let k = start_kernel-Kept image j (s.stages j) s.shared (h j) in
      elim (Bool-cases (j == i)) [
        | inl e ↦
            let at : j ≡ i = ground (arith, e) in
            rw e (
              subst
                (λ (x : ℕ).
                  Called (length image.inits)
                    (start_kernel (logged image) j (s.stages j) s.shared).0
                    (calls_of x (start_kernel (logged image) j (s.stages j) s.shared).1.world.1))
                at k.0)
        | inr e ↦ rw (e, k.1 i e) (h i)
      ]

  entry-AllCalled :
      (image : Image World) (w : World) → AllCalled image (entry (logged image) (w, []))
  unfolding entry logged passed calls_of
  entry-AllCalled image w i = elim (Bool-cases (i == image.cpu_boot)) [
    | inl e ↦ rw e (0, image.inits, refl, omega arith, refl)
    | inr e ↦ rw e refl
  ]

  Runs-AllCalled :
      (image : Image World) {s : System (World × List Call)} → Runs image s → AllCalled image s
  Runs-AllCalled image (starts w) = entry-AllCalled image w
  Runs-AllCalled image (goes_on {s} r i small) = step-AllCalled image s i (Runs-AllCalled image r)

  Runs-Reach :
      (image : Image World) {s : System (World × List Call)} → Runs image s → Reach (logged image) s
  unfolding logged
  Runs-Reach image (starts w) = enters (w, [])
  Runs-Reach image (goes_on r i small) = later (Runs-Reach image r) i small

  -- The boot CPU with its functions behind it.
  through :
      (n : ℕ) (p : Stage (World × List Call)) (calls : List (ℕ × ℤ))
      → Called n p calls
      → p ≢ asleep
      → ((fs : List (InitFunc (World × List Call))) → p ≢ initing fs)
      → p ≢ failed
      → calls ≡ passed n
  through n asleep calls h up on fine = absurd (up refl)
  through n (initing fs) calls h up on fine = absurd (on fs refl)
  through n announcing calls h up on fine = h
  through n counting calls h up on fine = h
  through n waiting calls h up on fine = h
  through n checking calls h up on fine = h
  through n done calls h up on fine = h
  through n failed calls h up on fine = absurd (fine refl)
  through n rejected calls h up on fine = h

  -- With fewer than 2^32 CPUs, the boot CPU among them, whatever the order of their steps: where
  -- another CPU is past the loop on module_inited, the boot CPU has called every init function, once
  -- and in the order of the section, and each returned 0; a CPU that is still in that loop has called
  -- none. Where the boot CPU is before pages_slfcheck, each other CPU is at its end and has also called
  -- every function, once, in order and with 0.
  pub Runs-ordered :
      (image : Image World)
      → image.cpus < 2 ^ 32
      → image.cpu_boot < image.cpus
      → (s : System (World × List Call)) → Runs image s
      → (i : ℕ) → i < image.cpus
      → i ≢ image.cpu_boot
      → (s.stages i ≡ asleep → calls_of i s.shared.world.1 ≡ [])
        × (s.stages i ≢ asleep
            → calls_of image.cpu_boot s.shared.world.1 ≡ passed (length image.inits))
        × (s.stages image.cpu_boot ≡ checking
            → (s.stages i ≡ done) × (calls_of i s.shared.world.1 ≡ passed (length image.inits)))
  unfolding logged
  Runs-ordered image few boot s r i small ne =
      let all = Runs-AllCalled image r in
      let reach : Reach (logged image) s = Runs-Reach image r in
      let order = Reach-ordered (logged image) few boot s reach i small ne in
      let called : Stage (World × List Call) → Type 0 =
        λ p. Called (length image.inits) p (calls_of i s.shared.world.1) in
      (
        λ e. subst called e (all i),
        λ up.
            through (length image.inits) (s.stages image.cpu_boot)
              (calls_of image.cpu_boot s.shared.world.1) (all image.cpu_boot) (order.0 up).2
              (order.0 up).0 (order.0 up).3,
        λ e. (order.1 e, subst called (order.1 e) (all i)),
      )
