-- ===== src/Prelude/Results.antt =====
-- Go's `(value, error)` results, and the state monad of the methods that mutate their receiver and
-- return such a result. An error keeps what the method had changed before it returned.
use mathlib.Core.Path.{◌≡◌, refl}
use mathlib.Core.Logic.{◌⊎◌, inl, inr}
use mathlib.Core.Option.{Option, none, some}

pub data Result (E A : Type 0) : Type 0 where
  ok : A → Result E A
  err : E → Result E A

pub Result-cases :
    {E A : Type 0} (r : Result E A) → ((a : A) × (r ≡ ok a)) ⊎ ((e : E) × (r ≡ err e))
Result-cases (ok a) = inl (a, refl)
Result-cases (err e) = inr (e, refl)

abbrev pub Action : (S E A : Type 0) → Type 0
Action S E A = S → S × Result E A

module _ {S E : Type 0} where
  infixl 5 ◌>>=◌ ◌>>◌
  abbrev pub continue : {A B : Type 0} → S × Result E A → (A → Action S E B) → S × Result E B
  continue (s, ok a) f = f a s
  continue (s, err e) f = (s, err e)

  abbrev pub ◌>>=◌ : {A B : Type 0} → Action S E A → (A → Action S E B) → Action S E B
  ◌>>=◌ m f s = continue (m s) f

  abbrev pub ◌>>◌ : {B : Type 0} → Action S E (Unit {0}) → Action S E B → Action S E B
  ◌>>◌ m k s = continue (m s) λ _. k

  abbrev pub give : {A : Type 0} → A → Action S E A
  give a s = (s, ok a)

  abbrev pub fail : {A : Type 0} → E → Action S E A
  fail e s = (s, err e)

  abbrev pub get : Action S E S
  get s = (s, ok s)

  abbrev pub put : S → Action S E (Unit {0})
  put s _ = (s, ok tt)

  -- `if err != nil { return err }` after a call that leaves the receiver alone.
  abbrev pub or_fail : {A : Type 0} → Option A → E → Action S E A
  or_fail none e s = (s, err e)
  or_fail (some a) e s = (s, ok a)
