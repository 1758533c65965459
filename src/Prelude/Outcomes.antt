-- ===== src/Prelude/Outcomes.antt =====
-- What a run of C code comes to: a value, a failed `assert`, or an access outside of an array.

use mathlib.Core.Bool.{Bool, true, false}
use mathlib.Core.Option.{Option, none, some}

pub data Exec {ℓ} (A : Type ℓ) : Type ℓ where
  done : A → Exec A
  abort : Exec A
  fault : Exec A

infixl 5 ◌>>=◌ ◌>>◌
abbrev pub ◌>>=◌ {ℓ κ} : {A : Type ℓ} {B : Type κ} → Exec A → (A → Exec B) → Exec B
done a >>= f = f a
abort >>= f = abort
fault >>= f = fault

abbrev pub ◌>>◌ {ℓ} : {B : Type ℓ} → Exec (Unit {0}) → Exec B → Exec B
m >> k = m >>= λ _. k

-- `assert (b)`.
abbrev pub assert : Bool → Exec (Unit {0})
assert true = done tt
assert false = abort

-- An array access: `none` is an index out of range.
abbrev pub access {ℓ} : {A : Type ℓ} → Option A → Exec A
access none = fault
access (some a) = done a
