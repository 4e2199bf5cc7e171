-- ===== src/Base/Run.antt =====
-- The outcome of kernel code: a value, or a failed ASSERT, after which the CPU spins for ever
-- (include/aco/assert.h, arch/riscv/include/asm/assert.h). A loop that runs on fuel may use it up.
use mathlib.Core.Bool.{Bool, true, false}

pub data Run {ℓ} (A : Type ℓ) : Type ℓ where
  panic : Run A
  out_of_fuel : Run A
  ok : A → Run A

infixl 5 ◌>>=◌ ◌>>◌
abbrev pub ◌>>=◌ {ℓ κ} : {A : Type ℓ} {B : Type κ} → Run A → (A → Run B) → Run B
panic >>= next = panic
out_of_fuel >>= next = out_of_fuel
ok value >>= next = next value

abbrev pub ◌>>◌ {ℓ} : {B : Type ℓ} → Run (Unit {0}) → Run B → Run B
m >> k = m >>= λ _. k

-- ASSERT(condition)
abbrev pub assert : Bool → Run (Unit {0})
assert true = ok tt
assert false = panic

-- The run ends without a failed ASSERT and within its fuel, and its value has the property.
pub data Returns {ℓ} {A : Type ℓ} (P : A → Type 0) : Run A → Type ℓ where
  returns : {value : A} → P value → Returns P (ok value)

module _ {ℓ} {A : Type ℓ} {P : A → Type 0} where
  pub Returns-mono :
      {Q : A → Type 0} {r : Run A} → Returns P r → ((x : A) → P x → Q x) → Returns Q r
  Returns-mono (returns h) weaken = returns (weaken _ h)

  pub Returns-bind {κ} :
      {B : Type κ} {f : A → Run B} {Q : B → Type 0} {r : Run A}
      → Returns P r
      → ((x : A) → P x → Returns Q (f x))
      → Returns Q (r >>= f)
  Returns-bind (returns h) next = next _ h

  pub Returns-bind_bind {κ μ} :
      {B : Type κ} {C : Type μ} (f : A → Run B) (g : B → Run C) {Q : C → Type 0} {r : Run A}
      → Returns P r
      → ((x : A) → P x → Returns Q (f x >>= g))
      → Returns Q ((r >>= f) >>= g)
  Returns-bind_bind f g (returns h) next = next _ h
