-- ===== src/Prelude/Checks.antt =====
-- Chains of checks: the `do` notation of plain results.
use mathlib.Core.Bool.{Bool, true, false}
use cross_border_logistics.Prelude.Actions.{Result, ok, err}

module _ {ℓ} {E A B : Type ℓ} where
  infixl 5 ◌>>=◌
  abbrev pub ◌>>=◌ : Result E A → (A → Result E B) → Result E B
  ok a >>= f = f a
  err e >>= f = err e

module _ {E B : Type 0} where
  infixl 5 ◌>>◌
  abbrev pub ◌>>◌ : Result E (Unit {0}) → Result E B → Result E B
  m >> k = m >>= λ _. k

module _ {E : Type 0} where
  -- An early return with an error, where a test holds.
  abbrev pub fail_if : Bool → E → Result E (Unit {0})
  fail_if true e = err e
  fail_if false e = ok tt
