-- ===== src/Prelude/Outcomes.antt =====
-- How a call ends: with a value, by a failed `assert`, by `exit`, or by a fault of the machine
-- (a division by zero, a null pointer). A loop of the model that is given too little fuel ends
-- with `out_of_fuel`.
use Prim.Native.Nat.{ℕ}
use mathlib.Core.Bool.{Bool, true, false}

pub data Outcome {ℓ} (A : Type ℓ) : Type ℓ where
  done : A → Outcome A
  aborted : Outcome A
  exited : ℕ → Outcome A
  crashed : Outcome A
  out_of_fuel : Outcome A

infixl 5 ◌>>=◌ ◌>>◌
abbrev pub ◌>>=◌ {ℓ κ} : {A : Type ℓ} {B : Type κ} → Outcome A → (A → Outcome B) → Outcome B
done a >>= f = f a
aborted >>= f = aborted
exited s >>= f = exited s
crashed >>= f = crashed
out_of_fuel >>= f = out_of_fuel

abbrev pub ◌>>◌ {ℓ} : {B : Type ℓ} → Outcome (Unit {0}) → Outcome B → Outcome B
m >> k = m >>= λ _. k

-- `assert(b)`
abbrev pub assert : Bool → Outcome (Unit {0})
assert true = done tt
assert false = aborted

-- `if (b) exit(status)`
abbrev pub exit_if : Bool → ℕ → Outcome (Unit {0})
exit_if true status = exited status
exit_if false status = done tt
