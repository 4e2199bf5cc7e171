-- ===== src/Startup/Order.antt =====
-- The order in which the CPUs run the modules' init functions and the boot CPU its check.
use aco_os.Base.{
  ℕ, ◌+◌, ◌%◌, ◌^◌, ◌≤◌, ◌<◌, ◌≡◌, ◌≢◌, ◌⊎◌, inl, inr, refl, sym, ap, Bool, true, false, List, [],
  ◌∷◌, leb, ◌==◌, ◌&&◌, not, if◌then◌else◌, arith, Bool-cases, update,
}
use aco_os.Base.Int.{ℤ, is_zero}
use aco_os.Base.Run.{Run, ok, panic, out_of_fuel}
use aco_os.Base.Count.{count, count-update, count-le, count-all, count-none}
use aco_os.Startup.{
  InitFunc, Stage, asleep, announcing, counting, waiting, checking, done, failed, rejected, initing,
  Shared, System, Image, after_init, start_kernel, step, entry, Reach, enters, later,
}

module _ {World : Type 0} where
  abbrev number : Stage World → ℕ
  number asleep = 0
  number (initing _) = 1
  number announcing = 2
  number counting = 3
  number waiting = 4
  number checking = 5
  number done = 6
  number failed = 7
  number rejected = 8

  abbrev counted : Stage World → Bool
  counted p = leb 4 (number p) && not (number p == 7)

  -- What a step does, by the numbers of the stages before and after.
  abbrev Moves : Image World → ℕ → ℕ → ℕ → ℕ → ℕ → Type 0
  Moves image i inited bootdone n n' =
      (n ≡ 0 → (n' ≡ 0) ⊎ ((n' ≡ 1) × (inited ≢ 0)))
      × (n ≡ 1 → (n' ≡ 1) ⊎ ((n' ≡ 7) ⊎ (n' ≡ (if i == image.cpu_boot then 2 else 3))))
      × (n ≡ 2 → n' ≡ 3)
      × (n ≡ 3 → n' ≡ (if i == image.cpu_boot then 4 else 6))
      × (n ≡ 4 → (n' ≡ 4) ⊎ ((n' ≡ 5) × (bootdone ≡ image.cpus)))
      × (n ≡ 5 → (n' ≡ 6) ⊎ (n' ≡ 8))
      × (6 ≤ n → n' ≡ n)

  record Effect (image : Image World) (i : ℕ) (p : Stage World) (m : Shared World) : Type 0 where
    moves :
        Moves image i m.module_inited m.bootdone_cpus
          (number p)
          (number (start_kernel image i p m).0)
    inited :
        (start_kernel image i p m).1.module_inited
        ≡ (if number p == 2 then (m.module_inited + 1) % 2 ^ 32 else m.module_inited)
    bootdone :
        (start_kernel image i p m).1.bootdone_cpus
        ≡ (if number p == 3 then (m.bootdone_cpus + 1) % 2 ^ 32 else m.bootdone_cpus)

  abbrev Kept : Shared World → Stage World × Shared World → Type 0
  Kept m (p, m') =
      ((number p ≡ 1) ⊎ (number p ≡ 7))
      × (m'.module_inited ≡ m.module_inited)
      × (m'.bootdone_cpus ≡ m.bootdone_cpus)

  after_init-Kept :
      (fs : List (InitFunc World)) (r : Run (ℤ × World)) (m : Shared World)
      → Kept m (after_init fs r m)
  unfolding after_init
  after_init-Kept fs (ok (error, w)) m = elim (Bool-cases (is_zero error)) [
    | inl z ↦ rw z (inl refl, refl, refl)
    | inr z ↦ rw z (inr refl, refl, refl)
  ]
  after_init-Kept fs panic m = (inr refl, refl, refl)
  after_init-Kept fs out_of_fuel m = (inr refl, refl, refl)

  start_kernel-Effect :
      (image : Image World) (i : ℕ) (p : Stage World) (m : Shared World)
      → m.module_inited < 2 ^ 32
      → m.bootdone_cpus < 2 ^ 32
      → Effect image i p m
  unfolding start_kernel
  start_kernel-Effect image i asleep m small small' = record {
    moves = ground arith;
    inited = refl;
    bootdone = refl;
  }
  start_kernel-Effect image i (initing []) m small small' = record {
    moves = ground arith;
    inited = refl;
    bootdone = refl;
  }
  start_kernel-Effect image i (initing (f ∷ fs)) m small small' =
      let k = after_init-Kept fs (f i m.world) m in
      record { moves = ground (arith, k); inited = k.1; bootdone = k.2 }
  start_kernel-Effect image i announcing m small small' = record {
    moves = ground arith;
    inited = refl;
    bootdone = refl;
  }
  start_kernel-Effect image i counting m small small' = record {
    moves = ground arith;
    inited = refl;
    bootdone = refl;
  }
  start_kernel-Effect image i waiting m small small' = record {
    moves = ground arith;
    inited = refl;
    bootdone = refl;
  }
  start_kernel-Effect image i checking m small small' = record {
    moves = ground arith;
    inited = refl;
    bootdone = refl;
  }
  start_kernel-Effect image i done m small small' = record {
    moves = ground arith;
    inited = refl;
    bootdone = refl;
  }
  start_kernel-Effect image i failed m small small' = record {
    moves = ground arith;
    inited = refl;
    bootdone = refl;
  }
  start_kernel-Effect image i rejected m small small' = record {
    moves = ground arith;
    inited = refl;
    bootdone = refl;
  }

  -- What holds of the CPUs: the boot CPU comes first, and the counters are right.
  record IsStartup (image : Image World) (s : System World) : Type 0 where
    others :
        (i : ℕ)
        → i ≢ image.cpu_boot
        → (number (s.stages i) ≡ 0)
          ⊎ ((number (s.stages i) ≡ 1)
              ⊎ ((number (s.stages i) ≡ 3)
                  ⊎ ((number (s.stages i) ≡ 6) ⊎ (number (s.stages i) ≡ 7))))
    inited :
        ((s.shared.module_inited ≡ 0)
          × ((number (s.stages image.cpu_boot) ≡ 1)
              ⊎ ((number (s.stages image.cpu_boot) ≡ 2) ⊎ (number (s.stages image.cpu_boot) ≡ 7)))
          × ((i : ℕ) → i ≢ image.cpu_boot → number (s.stages i) ≡ 0))
        ⊎ ((s.shared.module_inited ≡ 1)
            × (3 ≤ number (s.stages image.cpu_boot))
            × (number (s.stages image.cpu_boot) ≢ 7))
    counts : s.shared.bootdone_cpus ≡ count counted image.cpus s.stages
    checked :
        (number (s.stages image.cpu_boot) ≡ 5) ⊎ (number (s.stages image.cpu_boot) ≡ 6)
        → (i : ℕ) → i < image.cpus
        → i ≢ image.cpu_boot
        → number (s.stages i) ≡ 6

  number-done : (p : Stage World) → number p ≡ 6 → p ≡ done
  number-done asleep e = absurd (omega (arith, e))
  number-done (initing fs) e = absurd (omega (arith, e))
  number-done announcing e = absurd (omega (arith, e))
  number-done counting e = absurd (omega (arith, e))
  number-done waiting e = absurd (omega (arith, e))
  number-done checking e = absurd (omega (arith, e))
  number-done done e = refl
  number-done failed e = absurd (omega (arith, e))
  number-done rejected e = absurd (omega (arith, e))

  number-asleep : (p : Stage World) → number p ≡ 0 → p ≡ asleep
  number-asleep asleep e = refl
  number-asleep (initing fs) e = absurd (omega (arith, e))
  number-asleep announcing e = absurd (omega (arith, e))
  number-asleep counting e = absurd (omega (arith, e))
  number-asleep waiting e = absurd (omega (arith, e))
  number-asleep checking e = absurd (omega (arith, e))
  number-asleep done e = absurd (omega (arith, e))
  number-asleep failed e = absurd (omega (arith, e))
  number-asleep rejected e = absurd (omega (arith, e))

  module _ (image : Image World) (few : image.cpus < 2 ^ 32)
      (boot : image.cpu_boot < image.cpus) where
    step-IsStartup :
        (s : System World) (i : ℕ)
        → i < image.cpus
        → IsStartup image s
        → IsStartup image (step image i s)
    unfolding step
    step-IsStartup s i here h =
        let bounded = count-le counted image.cpus s.stages in
        let e =
          start_kernel-Effect image i (s.stages i) s.shared (ground (arith, h.inited))
            (omega (arith, h.counts, bounded, few)) in
        let p = (start_kernel image i (s.stages i) s.shared).0 in
        let total = count-update counted image.cpus s.stages i p here in
        let bounded' = count-le counted image.cpus (update s.stages i p) in
        record {
          others = λ j ne. ground (arith, h.others j, h.others i, e.moves);
          inited = elim (Bool-cases (i == image.cpu_boot)) [
            | inl b ↦
                let same : i ≡ image.cpu_boot = ground (arith, b) in
                let self : (i == i) ≡ true = ground arith in
                elim h.inited [
                  | inl (z, early, sleep) ↦ elim (Bool-cases (number (s.stages i) == 2)) [
                    | inl two ↦ inr (
                      ground (arith, e.inited, two, z),
                      ground (arith, same, e.moves, two),
                      λ k. ground (arith, same, e.moves, two, k),
                    )
                    | inr other ↦ inl (
                      ground (arith, e.inited, other, z),
                      ground (arith, same, b, early, e.moves, other),
                      λ j ne. ground (arith, sleep j, same, ne),
                    )
                  ]
                  | inr (one, late, fine) ↦ inr (
                    ground (arith, e.inited, same, late, one),
                    ground (arith, same, e.moves, late, fine, b),
                    λ k. ground (arith, same, e.moves, late, fine, b, k),
                  )
                ]
            | inr b ↦ ground (arith, h.inited, h.others i, e.inited, e.moves, b)
          ];
          counts = ground (arith, total, e.bootdone, e.moves, h.counts, bounded', few);
          checked = λ at j j_small ne. elim (Bool-cases (i == image.cpu_boot)) [
            | inr b ↦
                let at_boot : (number (s.stages image.cpu_boot) ≡ 5)
                    ⊎ (number (s.stages image.cpu_boot) ≡ 6) =
                  ground (arith, at, b) in
                ground (arith, h.checked at_boot j j_small ne, e.moves)
            | inl b ↦
                let same : i ≡ image.cpu_boot = ground (arith, b) in
                let self : (i == i) ≡ true = ground arith in
                let away : (i == j) ≡ false = ground (arith, same, ne) in
                let was : ((number (s.stages i) ≡ 4) × (s.shared.bootdone_cpus ≡ image.cpus))
                    ⊎ ((number (s.stages i) ≡ 5) ⊎ (number (s.stages i) ≡ 6)) =
                  ground (arith, at, b, same, e.moves) in
                elim was [
                  | inl (four, full) ↦
                      let c =
                        count-all counted image.cpus s.stages j (omega (arith, h.counts, full))
                          j_small in
                      ground (arith, c, h.others j ne, away)
                  | inr late ↦
                      let at_boot : (number (s.stages image.cpu_boot) ≡ 5)
                          ⊎ (number (s.stages image.cpu_boot) ≡ 6) =
                        ground (arith, late, same) in
                      ground (arith, h.checked at_boot j j_small ne, away)
                ]
          ];
        }

    entry-IsStartup : (w : World) → IsStartup image (entry image w)
    unfolding entry
    entry-IsStartup w =
        let asleep_all =
          count-none counted image.cpus (entry image w).stages (λ j h. ground arith) in
        record {
          others = λ j ne. ground arith;
          inited = inl (refl, ground arith, λ j ne. ground arith);
          counts = sym asleep_all;
          checked = λ at j j_small ne. absurd (ground (arith, at));
        }

    Reach-IsStartup : {s : System World} → Reach image s → IsStartup image s
    Reach-IsStartup (enters w) = entry-IsStartup w
    Reach-IsStartup (later {s} r i small) = step-IsStartup s i small (Reach-IsStartup r)

    -- The stages at which the boot CPU can be while another CPU is past the loop on module_inited; and
    -- that the others are at their ends when it is before pages_slfcheck.
    pub Reach-ordered :
        (s : System World)
        → Reach image s
        → (i : ℕ) → i < image.cpus
        → i ≢ image.cpu_boot
        → (s.stages i ≢ asleep
            → ((fs : List (InitFunc World)) → s.stages image.cpu_boot ≢ initing fs)
              × (s.stages image.cpu_boot ≢ announcing)
              × (s.stages image.cpu_boot ≢ asleep)
              × (s.stages image.cpu_boot ≢ failed))
          × (s.stages image.cpu_boot ≡ checking → s.stages i ≡ done)
    Reach-ordered s r i small ne =
        let h = Reach-IsStartup r in
        let first : s.stages i ≢ asleep
            → (3 ≤ number (s.stages image.cpu_boot)) × (number (s.stages image.cpu_boot) ≢ 7) =
          λ up. elim h.inited [
            | inl (z, early, sleep) ↦ absurd (up (number-asleep (s.stages i) (sleep i ne)))
            | inr (one, late, fine) ↦ (late, fine)
          ] in
        (
          (λ up. (
            (λ fs e. absurd (omega (arith, (first up).0, ap number e))),
            (λ e. absurd (omega (arith, (first up).0, ap number e))),
            (λ e. absurd (omega (arith, (first up).0, ap number e))),
            (λ e. absurd ((first up).1 (ap number e))),
          )),
          (λ e. number-done (s.stages i) (h.checked (inl (ap number e)) i small ne)),
        )
