-- ===== src/Prelude/Fallible.antt =====
-- The monad of functions that return `(value, error)` and change no state.
use mathlib.Core.Option.{Option, none, some}
use babylontower.Prelude.Results.{Result, ok, err}

module _ {E : Type 0} where
  infixl 5 ◌>>=◌ ◌>>◌
  abbrev pub ◌>>=◌ : {A B : Type 0} → Result E A → (A → Result E B) → Result E B
  ok a >>= f = f a
  err e >>= f = err e

  abbrev pub ◌>>◌ : {B : Type 0} → Result E (Unit {0}) → Result E B → Result E B
  m >> k = m >>= λ _. k

  abbrev pub or_fail : {A : Type 0} → Option A → E → Result E A
  or_fail none e = err e
  or_fail (some a) e = ok a
