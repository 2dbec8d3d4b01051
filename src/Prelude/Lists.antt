-- ===== src/Prelude/Lists.antt =====
-- Lists over the native numbers, byte strings, and the predicate that holds of every element.
use Prim.Native.Nat.{ℕ, zero, suc, ◌+◌, ◌/◌, ◌%◌}
use mathlib.Core.Path.{◌≡◌, refl, sym, ap₂}
use mathlib.Core.List.{List, [], ◌∷◌, ◌++◌, map, cons≢nil, head-eq_of_cons-eq, tail-eq_of_cons-eq}
use Prim.Native.Char.{code}
use Prim.Native.String.{String}
use mathlib.Core.Logic.{◌≢◌}
use native.Mathlib.Omega.{arith}
use native.Mathlib.Decide.{ℕ_discrete}

module _ {ℓ} {A : Type ℓ} where
  abbrev pub length : List A → ℕ
  length [] = 0
  length (x ∷ xs) = suc (length xs)

  pub length-append : (xs ys : List A) → length (xs ++ ys) ≡ length xs + length ys
  length-append [] ys = omega arith
  length-append (x ∷ xs) ys = omega (arith, length-append xs ys)

-- A byte slice, and a fixed-size byte array.
abbrev pub Bytes : Type 0
Bytes = List ℕ

cons_dec :
    {x y : ℕ} {xs ys : Bytes}
    → Dec (x ≡ y)
    → Dec (xs ≡ ys)
    → Dec (◌≡◌ {A = Bytes} (x ∷ xs) (y ∷ ys))
cons_dec (yes p) (yes q) = yes (ap₂ ◌∷◌ p q)
cons_dec (yes p) (no n) = no (λ e. n (tail-eq_of_cons-eq e))
cons_dec (no n) q = no (λ e. n (head-eq_of_cons-eq e))

-- Equality of byte slices: `string(a) == string(b)`, `hex(a) == hex(b)` and `hmac.Equal(a, b)`.
unfoldable pub bytes_dec : Discrete Bytes
unfolding cons_dec ℕ_discrete
bytes_dec [] [] = yes refl
bytes_dec [] (y ∷ ys) = no (λ e. cons≢nil (sym e))
bytes_dec (x ∷ xs) [] = no cons≢nil
bytes_dec (x ∷ xs) (y ∷ ys) = cons_dec (ℕ_discrete x y) (bytes_dec xs ys)

-- `[]byte("...")` for an ASCII text.
abbrev pub codes : String → Bytes
codes String.[] = []
codes (String.◌∷◌ c s) = code c ∷ codes s

-- `binary.LittleEndian.PutUint32` and `PutUint64`: `k` bytes, the lowest first.
unfoldable pub le_bytes : ℕ → ℕ → Bytes
le_bytes zero n = []
le_bytes (suc k) n = n % 256 ∷ le_bytes k (n / 256)

-- A predicate that holds of every element.
abbrev pub All {ℓ κ} : {A : Type ℓ} → (A → Type κ) → List A → Type κ
All P [] = Unit
All P (x ∷ xs) = P x × All P xs

module _ {ℓ} {A : Type ℓ} where
  abbrev pub take : ℕ → List A → List A
  take zero xs = []
  take (suc n) [] = []
  take (suc n) (x ∷ xs) = x ∷ take n xs

  abbrev pub drop : ℕ → List A → List A
  drop zero xs = xs
  drop (suc n) [] = []
  drop (suc n) (x ∷ xs) = drop n xs

  abbrev pub replicate : ℕ → A → List A
  replicate zero a = []
  replicate (suc n) a = a ∷ replicate n a

  abbrev pub get_or : List A → ℕ → A → A
  get_or [] i d = d
  get_or (x ∷ xs) zero d = x
  get_or (x ∷ xs) (suc i) d = get_or xs i d

  -- No element occurs twice.
  abbrev pub Distinct : List A → Type ℓ
  Distinct [] = Unit
  Distinct (x ∷ xs) = All (λ y. y ≢ x) xs × Distinct xs

pub take_append {ℓ} : {A : Type ℓ} → (a b : List A) → take (length a) (a ++ b) ≡ a
take_append [] b = refl
take_append (x ∷ a) b = rw (take_append a b) refl

pub drop_append {ℓ} : {A : Type ℓ} → (a b : List A) → drop (length a) (a ++ b) ≡ b
drop_append [] b = refl
drop_append (x ∷ a) b = drop_append a b

-- The elements at the given places.
abbrev pub pick {ℓ} : {A : Type ℓ} → A → List A → List ℕ → List A
pick d xs = map (λ i. get_or xs i d)

pub All-map {ℓ κ ν} :
    {A : Type ℓ} {P : A → Type κ} {Q : A → Type ν} (xs : List A)
    → ((x : A) → P x → Q x)
    → All P xs
    → All Q xs
All-map [] f h = tt
All-map (x ∷ xs) f h = (f x h.0, All-map xs f h.1)

pub All-zip {ℓ κ ν ω} :
    {A : Type ℓ} {P : A → Type κ} {Q : A → Type ν} {R : A → Type ω} (xs : List A)
    → ((x : A) → P x → Q x → R x)
    → All P xs
    → All Q xs
    → All R xs
All-zip [] f h k = tt
All-zip (x ∷ xs) f h k = (f x h.0 k.0, All-zip xs f h.1 k.1)
