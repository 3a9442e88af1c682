-- ===== src/Prelude/Actions.antt =====
-- Results with an error, and the steps of a database transaction.
-- A transaction works on its own copy of the tables: an error gives the copy up (`defer
-- tx.Rollback`), so an action returns its value with the tables, or an error alone.
use mathlib.Core.Path.{◌≡◌, refl}
use mathlib.Core.Bool.{Bool, true, false}
use mathlib.Core.Option.{Option, none, some}

pub data Result {ℓ} (E A : Type ℓ) : Type ℓ where
  ok : A → Result E A
  err : E → Result E A

module _ {ℓ} {E A : Type ℓ} where
  abbrev pub or_error : Option A → E → Result E A
  or_error none e = err e
  or_error (some a) e = ok a

abbrev pub Tx {ℓ} : (S E A : Type ℓ) → Type ℓ
Tx S E A = S → Result E (A × S)

module _ {ℓ} {S E A : Type ℓ} where
  abbrev pub pure : A → Tx S E A
  pure a s = ok (a, s)

  abbrev pub raise : E → Tx S E A
  raise e s = err e

  abbrev pub gets : (S → A) → Tx S E A
  gets f s = ok (f s, s)

module _ {ℓ} {S E A B : Type ℓ} where
  infixl 5 ◌>>=◌
  abbrev pub ◌>>=◌ : Tx S E A → (A → Tx S E B) → Tx S E B
  ◌>>=◌ m f s = elim (m s) [ ok (a, s') ↦ f a s' | err e ↦ err e ]

module _ {S E B : Type 0} where
  infixl 5 ◌>>◌
  abbrev pub ◌>>◌ : Tx S E (Unit {0}) → Tx S E B → Tx S E B
  m >> k = m >>= λ _. k

module _ {S E : Type 0} where
  -- An early return with an error, where a test holds.
  abbrev pub raise_if : Bool → E → Tx S E (Unit {0})
  raise_if true e s = err e
  raise_if false e s = ok (tt, s)

  abbrev pub modify : (S → S) → Tx S E (Unit {0})
  modify f s = ok (tt, f s)

-- What a caller of a transaction sees: its result, and the tables, which only a commit changes.
abbrev pub run_tx {ℓ} : {S E A : Type ℓ} → Tx S E A → S → Result E A × S
run_tx m s = elim (m s) [ ok (a, s') ↦ (ok a, s') | err e ↦ (err e, s) ]

module _ {ℓ} {S E A B : Type ℓ} where
  -- A chain that succeeds is a first step that succeeds and a rest that does.
  pub >>=-ok :
      (m : Tx S E A) (f : A → Tx S E B) (s : S) (r : B × S)
      → (m >>= f) s ≡ ok r
      → (a : A) × (s' : S) × (m s ≡ ok (a, s')) × (f a s' ≡ ok r)
  >>=-ok m f s r h = go (m s) refl h
    where
      go :
          (x : Result E (A × S))
          → m s ≡ x
          → ◌≡◌ {A = Result E (B × S)} (elim x [ ok (a, s') ↦ f a s' | err e ↦ err e ]) (ok r)
          → (a : A) × (s' : S) × (m s ≡ ok (a, s')) × (f a s' ≡ ok r)
      go (ok (a, s')) e k = (a, s', e, k)
      go (err x) e k = cc
