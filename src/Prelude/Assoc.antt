-- ===== src/Prelude/Assoc.antt =====
-- A Go map as an association list. A range over the map runs through the list in order.
use Prim.Native.Nat.{◌+◌, ◌≤◌}
use mathlib.Core.Path.{◌≡◌, refl, sym, subst}
use mathlib.Core.Logic.{◌≢◌, ite, if_pos, if_neg}
use mathlib.Core.List.{List, [], ◌∷◌}
use mathlib.Core.Option.{Option, none, some}
use native.Mathlib.Omega.{arith}
use babylontower.Prelude.Lists.{length, All, Distinct}

abbrev pub Assoc {ℓ} : (K V : Type ℓ) → Type ℓ
Assoc K V = List (K × V)

-- The values, in the order of a range over the map.
abbrev pub values {ℓ} : {K V : Type ℓ} → Assoc K V → List V
values [] = []
values ((k, v) ∷ m) = v ∷ values m

module _ {ℓ} {K V : Type ℓ} (dec : Discrete K) where
  -- `v, ok := m[k]`
  unfoldable pub lookup : K → Assoc K V → Option V
  lookup k [] = none
  lookup k ((j, v) ∷ m) = ite (dec j k) (some v) (lookup k m)

  -- `m[k] = v`
  unfoldable pub insert : K → V → Assoc K V → Assoc K V
  insert k v [] = (k, v) ∷ []
  insert k v ((j, w) ∷ m) = ite (dec j k) ((k, v) ∷ m) ((j, w) ∷ insert k v m)

  -- `delete(m, k)`
  unfoldable pub delete : K → Assoc K V → Assoc K V
  delete k [] = []
  delete k ((j, w) ∷ m) = let rest = delete k m in ite (dec j k) rest ((j, w) ∷ rest)

  pub lookup-insert :
      (k j : K) (v : V) (m : Assoc K V)
      → lookup j (insert k v m) ≡ ite (dec k j) (some v) (lookup j m)
  unfolding lookup insert
  lookup-insert k j v [] = refl
  lookup-insert k j v ((i, w) ∷ m) = ground (arith, lookup-insert k j v m)

  pub lookup-insert_same : (k : K) (v : V) (m : Assoc K V) → lookup k (insert k v m) ≡ some v
  lookup-insert_same k v m = ground (arith, lookup-insert k k v m)

  pub lookup-insert_other :
      (k j : K) (v : V) (m : Assoc K V) → k ≢ j → lookup j (insert k v m) ≡ lookup j m
  lookup-insert_other k j v m n = ground (arith, lookup-insert k j v m)

  pub lookup-delete :
      (k j : K) (m : Assoc K V) → lookup j (delete k m) ≡ ite (dec k j) none (lookup j m)
  unfolding lookup delete
  lookup-delete k j [] = ground arith
  lookup-delete k j ((i, w) ∷ m) = ground (arith, lookup-delete k j m)

  pub lookup-delete_same : (k : K) (m : Assoc K V) → lookup k (delete k m) ≡ none
  lookup-delete_same k m = ground (arith, lookup-delete k k m)

  pub lookup-delete_other : (k j : K) (m : Assoc K V) → k ≢ j → lookup j (delete k m) ≡ lookup j m
  lookup-delete_other k j m n = ground (arith, lookup-delete k j m)

  pub length-insert-le : (k : K) (v : V) (m : Assoc K V) → length (insert k v m) ≤ length m + 1
  unfolding insert
  length-insert-le k v [] = omega arith
  length-insert-le k v ((i, w) ∷ m) = ground (arith, length-insert-le k v m)

  pub length-delete-le : (k : K) (m : Assoc K V) → length (delete k m) ≤ length m
  unfolding delete
  length-delete-le k [] = omega arith
  length-delete-le k ((i, w) ∷ m) = ground (arith, length-delete-le k m)

  pub insert_same : (k : K) (v : V) (m : Assoc K V) → lookup k m ≡ some v → insert k v m ≡ m
  unfolding lookup insert
  insert_same k v [] h = cc
  insert_same k v ((i, w) ∷ m) h = ground (arith, insert_same k v m)

  pub insert_twice : (k : K) (v w : V) (m : Assoc K V) → insert k v (insert k w m) ≡ insert k v m
  unfolding insert
  insert_twice k v w [] = ground arith
  insert_twice k v w ((i, x) ∷ m) = ground (arith, insert_twice k v w m)

  abbrev pub keys : Assoc K V → List K
  keys [] = []
  keys ((k, v) ∷ m) = k ∷ keys m

  -- The predicate holds of every value.
  abbrev pub Values {κ} : (V → Type κ) → Assoc K V → Type κ
  Values P [] = Unit
  Values P ((k, v) ∷ m) = P v × Values P m

  pub Values-lookup {κ} :
      (P : V → Type κ) (k : K) (v : V) (m : Assoc K V) → Values P m → lookup k m ≡ some v → P v
  unfolding lookup
  Values-lookup P k v [] h e = absurd (ground arith)
  Values-lookup P k v ((j, w) ∷ m) h e = elim (dec j k) [
    | yes p ↦ let q : w ≡ v = ground arith in subst P q h.0
    | no n ↦ Values-lookup P k v m h.1 (ground arith)
  ]

  pub Values-insert {κ} :
      (P : V → Type κ) (k : K) (v : V) (m : Assoc K V) → P v → Values P m → Values P (insert k v m)
  unfolding insert
  Values-insert P k v [] p h = (p, tt)
  Values-insert P k v ((j, w) ∷ m) p h = elim (dec j k) [
    | yes e ↦ rw (if_pos _ e) (p, h.1)
    | no n ↦ rw (if_neg _ n) (h.0, Values-insert P k v m p h.1)
  ]

  pub Values-delete {κ} :
      (P : V → Type κ) (k : K) (m : Assoc K V) → Values P m → Values P (delete k m)
  unfolding delete
  Values-delete P k [] h = tt
  Values-delete P k ((j, w) ∷ m) h = elim (dec j k) [
    | yes e ↦ rw (if_pos _ e) (Values-delete P k m h.1)
    | no n ↦ rw (if_neg _ n) (h.0, Values-delete P k m h.1)
  ]

  absent-insert :
      (k j : K) (v : V) (m : Assoc K V)
      → j ≢ k
      → All (λ i. i ≢ j) (keys m)
      → All (λ i. i ≢ j) (keys (insert k v m))
  unfolding insert
  absent-insert k j v [] n h = (λ e. n (sym e), tt)
  absent-insert k j v ((i, w) ∷ m) n h = elim (dec i k) [
    | yes e ↦ rw (if_pos _ e) ((λ f. n (sym f)), h.1)
    | no d ↦ rw (if_neg _ d) (h.0, absent-insert k j v m n h.1)
  ]

  pub Distinct-insert :
      (k : K) (v : V) (m : Assoc K V) → Distinct (keys m) → Distinct (keys (insert k v m))
  unfolding insert
  Distinct-insert k v [] d = (tt, tt)
  Distinct-insert k v ((i, w) ∷ m) d = elim (dec i k) [
    | yes e ↦ rw (if_pos _ e, ← e) d
    | no n ↦ rw (if_neg _ n) (absent-insert k i v m n d.0, Distinct-insert k v m d.1)
  ]

  absent-delete :
      (k j : K) (m : Assoc K V) → All (λ i. i ≢ j) (keys m) → All (λ i. i ≢ j) (keys (delete k m))
  unfolding delete
  absent-delete k j [] h = tt
  absent-delete k j ((i, w) ∷ m) h = elim (dec i k) [
    | yes e ↦ rw (if_pos _ e) (absent-delete k j m h.1)
    | no n ↦ rw (if_neg _ n) (h.0, absent-delete k j m h.1)
  ]

  pub Distinct-delete : (k : K) (m : Assoc K V) → Distinct (keys m) → Distinct (keys (delete k m))
  unfolding delete
  Distinct-delete k [] d = tt
  Distinct-delete k ((i, w) ∷ m) d = elim (dec i k) [
    | yes e ↦ rw (if_pos _ e) (Distinct-delete k m d.1)
    | no n ↦ rw (if_neg _ n) (absent-delete k i m d.0, Distinct-delete k m d.1)
  ]

  pub lookup_absent : (k : K) (m : Assoc K V) → All (λ i. i ≢ k) (keys m) → lookup k m ≡ none
  unfolding lookup
  lookup_absent k [] h = refl
  lookup_absent k ((i, w) ∷ m) h = rw (if_neg _ h.0) (lookup_absent k m h.1)
