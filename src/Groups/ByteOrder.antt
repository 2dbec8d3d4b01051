-- ===== src/Groups/ByteOrder.antt =====
-- The order of byte sequences that `ResolveSplitBrain` of pkg/groups/state.go compares with.
use babylontower.Prelude.{
  ℕ, ◌<◌, ◌≡◌, ◌⊎◌, refl, [], ◌∷◌, Bytes, Bool, true, false, if◌then◌else◌, ltb, arith, inl, inr,
}

-- `string(a) < string(b)`: lexicographic by bytes.
unfoldable pub bytes_ltb : Bytes → Bytes → Bool
bytes_ltb [] [] = false
bytes_ltb [] (y ∷ ys) = true
bytes_ltb (x ∷ xs) [] = false
bytes_ltb (x ∷ xs) (y ∷ ys) =
    let rest = bytes_ltb xs ys in if ltb x y then true else if ltb y x then false else rest

-- The lexicographic order: a prefix comes first, and else the first difference decides.
pub data IsLexLe : Bytes → Bytes → Type 0 where
  prefix : (ys : Bytes) → IsLexLe [] ys
  smaller : {x y : ℕ} {xs ys : Bytes} → x < y → IsLexLe (x ∷ xs) (y ∷ ys)
  same : {x y : ℕ} {xs ys : Bytes} → x ≡ y → IsLexLe xs ys → IsLexLe (x ∷ xs) (y ∷ ys)

heads :
    (x y : ℕ) (xs ys : Bytes)
    → bytes_ltb (y ∷ ys) (x ∷ xs) ≡ false
    → (x < y) ⊎ ((x ≡ y) × (bytes_ltb ys xs ≡ false))
unfolding bytes_ltb
heads x y xs ys h = ground arith

-- What is not greater is at most.
pub IsLexLe-of_bytes_ltb : (a b : Bytes) → bytes_ltb b a ≡ false → IsLexLe a b
unfolding bytes_ltb
IsLexLe-of_bytes_ltb [] b h = prefix b
IsLexLe-of_bytes_ltb (x ∷ a) [] h = absurd (ground arith)
IsLexLe-of_bytes_ltb (x ∷ a) (y ∷ b) h = elim (heads x y a b h) [
  | inl l ↦ smaller l
  | inr (e, rest) ↦ same e (IsLexLe-of_bytes_ltb a b rest)
]

-- Not to be less is transitive, and not to be less either way is equality.
pub bytes_ltb_trans :
    (a b d : Bytes) → bytes_ltb b a ≡ false → bytes_ltb d b ≡ false → bytes_ltb d a ≡ false
unfolding bytes_ltb
bytes_ltb_trans [] [] d h k = k
bytes_ltb_trans [] (y ∷ b) [] h k = refl
bytes_ltb_trans [] (y ∷ b) (z ∷ d) h k = refl
bytes_ltb_trans (x ∷ a) [] d h k = cc
bytes_ltb_trans (x ∷ a) (y ∷ b) [] h k = cc
bytes_ltb_trans (x ∷ a) (y ∷ b) (z ∷ d) h k = ground (arith, bytes_ltb_trans a b d)

pub bytes_ltb_antisymm : (a b : Bytes) → bytes_ltb a b ≡ false → bytes_ltb b a ≡ false → a ≡ b
unfolding bytes_ltb
bytes_ltb_antisymm [] [] h k = refl
bytes_ltb_antisymm [] (y ∷ b) h k = cc
bytes_ltb_antisymm (x ∷ a) [] h k = cc
bytes_ltb_antisymm (x ∷ a) (y ∷ b) h k = ground (arith, bytes_ltb_antisymm a b)

pub bytes_ltb_irrefl : (a : Bytes) → bytes_ltb a a ≡ false
unfolding bytes_ltb
bytes_ltb_irrefl [] = refl
bytes_ltb_irrefl (x ∷ a) = ground (arith, bytes_ltb_irrefl a)

pub bytes_ltb_asymm : (a b : Bytes) → bytes_ltb a b ≡ true → bytes_ltb b a ≡ false
unfolding bytes_ltb
bytes_ltb_asymm [] [] h = cc
bytes_ltb_asymm [] (y ∷ b) h = refl
bytes_ltb_asymm (x ∷ a) [] h = cc
bytes_ltb_asymm (x ∷ a) (y ∷ b) h = ground (arith, bytes_ltb_asymm a b)
