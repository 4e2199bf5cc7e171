-- ===== src/Startup/Loop.antt =====
-- The loop of aco_module_init, which a CPU takes in steps.
use aco_os.Base.{
  ℕ, zero, suc, ◌≡◌, refl, Bool, List, [], ◌∷◌, length, if◌then◌else◌, inl, inr, Bool-cases, ap,
  ◌∙◌, subst, arith,
}
use aco_os.Base.Int.{ℤ, is_zero}
use aco_os.Base.Run.{Run, ok, panic, out_of_fuel, ◌>>=◌}
use aco_os.Startup.{
  InitFunc, Stage, failed, initing, Shared, Image, after_init, start_kernel, aco_module_init,
}

module _ {World : Type 0} (image : Image World) (i : ℕ) where
  -- Steps of one CPU with none of another in between.
  abbrev pub alone : ℕ → Stage World × Shared World → Stage World × Shared World
  alone zero x = x
  alone (suc k) x = alone k (start_kernel image i x.0 x.1)

  alone-failed : (k : ℕ) (m : Shared World) → alone k (failed, m) ≡ (failed, m)
  unfolding start_kernel
  alone-failed zero m = refl
  alone-failed (suc k) m = alone-failed k m

  ok-injective : {A : Type 0} {a b : A} → ◌≡◌ {A = Run A} (ok a) (ok b) → a ≡ b
  ok-injective {A} {a} e = ap (λ (r : Run A). elim r [ ok x ↦ x | panic ↦ a | out_of_fuel ↦ a ]) e

  -- After one function, if the claim holds of the others.
  after :
      (fs : List (InitFunc World)) (error : ℤ) (w : World)
      → ((m : Shared World)
          → aco_module_init fs i m.world ≡ ok (error, w)
          → alone (length fs) (initing fs, m)
            ≡ (if is_zero error then initing [] else failed, record m { world = w }))
      → (r : Run (ℤ × World)) (m : Shared World)
      → (r >>= λ (error', w'). if is_zero error' then aco_module_init fs i w' else ok (error', w'))
        ≡ ok (error, w)
      → alone (length fs) (after_init fs r m)
        ≡ (if is_zero error then initing [] else failed, record m { world = w })
  unfolding after_init
  after fs error w ih panic m h = absurd (ground (arith, h))
  after fs error w ih out_of_fuel m h = absurd (ground (arith, h))
  after fs error w ih (ok (error', w')) m h = elim (Bool-cases (is_zero error')) [
    | inl z ↦ rw z (
        ih (record m { world = w' })
          (subst
            (λ (b : Bool). (if b then aco_module_init fs i w' else ok (error', w')) ≡ ok (error, w))
            z h))
    | inr z ↦
        let q = ok-injective (
          subst
            (λ (b : Bool). (if b then aco_module_init fs i w' else ok (error', w')) ≡ ok (error, w))
            z h) in
        rw z (
          alone-failed (length fs) (record m { world = w' })
          ∙ subst
              (λ (x : ℤ × World).
                ◌≡◌ {A = Stage World × Shared World} (failed, record m { world = w' })
                  (if is_zero x.0 then initing [] else failed, record m { world = x.1 }))
              q (rw z refl))
  ]

  -- Where aco_module_init returns, a CPU that takes as many steps as there are functions, with none of
  -- another CPU in between, is at the end of the list if the result is 0, and at the failed ASSERT if
  -- it is not, and has done to memory what aco_module_init does.
  pub alone-aco_module_init :
      (fs : List (InitFunc World)) (m : Shared World) (error : ℤ) (w : World)
      → aco_module_init fs i m.world ≡ ok (error, w)
      → alone (length fs) (initing fs, m)
        ≡ (if is_zero error then initing [] else failed, record m { world = w })
  unfolding aco_module_init start_kernel
  alone-aco_module_init [] m error w e =
      subst
        (λ (x : ℤ × World).
          ◌≡◌ {A = Stage World × Shared World} (initing [], m)
            (if is_zero x.0 then initing [] else failed, record m { world = x.1 }))
        (ok-injective e) refl
  alone-aco_module_init (f ∷ fs) m error w e =
      after fs error w (λ m' h. alone-aco_module_init fs m' error w h) (f i m.world) m e
