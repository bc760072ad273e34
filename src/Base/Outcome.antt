-- ===== src/Base/Outcome.antt =====
-- The outcome of a C function. `exited e` is a call of `SysExit` with error code `e`, which ends the
-- process; `fault` is undefined behaviour, such as a read outside an array; `out_of_fuel` says that a
-- loop was given too few rounds.
use google_test_c_programs.Base.{◌≡◌, Bool, true, false, Option, none, some}
use google_test_c_programs.ErrCodes.{ErrCode}

pub data Outcome {ℓ} (A : Type ℓ) : Type ℓ where
  ok : A → Outcome A
  exited : ErrCode → Outcome A
  fault : Outcome A
  out_of_fuel : Outcome A

infixl 5 ◌>>=◌ ◌>>◌
abbrev pub ◌>>=◌ {ℓ κ} : {A : Type ℓ} {B : Type κ} → Outcome A → (A → Outcome B) → Outcome B
ok a >>= f = f a
exited e >>= f = exited e
fault >>= f = fault
out_of_fuel >>= f = out_of_fuel

abbrev pub ◌>>◌ {ℓ} : {B : Type ℓ} → Outcome (Unit {0}) → Outcome B → Outcome B
m >> k = m >>= λ _. k

-- The process ends with `e` if the test holds.
abbrev pub exit_if : Bool → ErrCode → Outcome (Unit {0})
exit_if true e = exited e
exit_if false e = ok tt

abbrev pub fault_if : Bool → Outcome (Unit {0})
fault_if true = fault
fault_if false = ok tt

-- A pointer that must not be NULL.
abbrev pub deref {ℓ} : {A : Type ℓ} → Option A → Outcome A
deref none = fault
deref (some a) = ok a

pub ok-injective {ℓ} : {A : Type ℓ} {a b : A} → ok a ≡ ok b → a ≡ b
ok-injective h = cc
