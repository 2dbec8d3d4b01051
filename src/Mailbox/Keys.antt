-- ===== src/Mailbox/Keys.antt =====
-- The keys of pkg/mailbox/storage.go, and that no two entries share one.
use mathlib.Core.Path.{ap₂}
use mathlib.Core.List.{head-eq_of_cons-eq, tail-eq_of_cons-eq}
use babylontower.Prelude.{
  ℕ, zero, suc, ◌+◌, ◌/◌, ◌%◌, ◌<◌, ◌≡◌, ◌≢◌, refl, ap, [], ◌∷◌, ◌++◌, Bytes, if◌then◌else◌, ltb,
  codes, All, arith, drop, sym,
}

-- `%x` of a byte slice, and `%d` of a number.
abbrev pub hex_digit : ℕ → ℕ
hex_digit d = if ltb d 10 then 48 + d else 87 + d

unfoldable pub hex : Bytes → Bytes
hex [] = []
hex (b ∷ bs) = hex_digit (b / 16) ∷ hex_digit (b % 16) ∷ hex bs

-- The digits of a number below 10 ^ `k`.
unfoldable pub decimal_digits : ℕ → ℕ → Bytes
decimal_digits zero n = []
decimal_digits (suc k) n =
    let rest = decimal_digits k (n / 10) in
    if ltb n 10 then (48 + n) ∷ [] else rest ++ (48 + n % 10) ∷ []

unfoldable pub mailbox_prefix : Bytes → Bytes
mailbox_prefix target = codes "mbx:" ++ hex target ++ codes ":"

unfoldable pub message_key : Bytes → Bytes → Bytes
message_key target message_id = codes "mbx:" ++ hex target ++ codes ":" ++ hex message_id

unfoldable pub meta_key : Bytes → Bytes
meta_key target = codes "mbxmeta:" ++ hex target

-- The hour is an `int64`, which has at most 19 digits.
unfoldable pub rate_key : Bytes → Bytes → ℕ → Bytes
rate_key sender target hour =
    codes "mbxrate:" ++ hex sender ++ codes ":" ++ hex target ++ codes ":" ++ decimal_digits 19 hour

abbrev pub IsByte : ℕ → Type 0
IsByte b = b < 256

hex_digit-inj : (x y : ℕ) → x < 16 → y < 16 → hex_digit x ≡ hex_digit y → x ≡ y
hex_digit-inj x y p q e = ground arith

hex_digit-ne : (x : ℕ) → hex_digit x ≢ 58
hex_digit-ne x e = ground arith

byte-inj : (x y : ℕ) → x < 256 → y < 256 → x / 16 ≡ y / 16 → x % 16 ≡ y % 16 → x ≡ y
byte-inj x y p q e f = omega arith

hex-inj : (a b : Bytes) → All IsByte a → All IsByte b → hex a ≡ hex b → a ≡ b
unfolding hex
hex-inj [] [] p q e = refl
hex-inj [] (y ∷ b) p q e = cc
hex-inj (x ∷ a) [] p q e = cc
hex-inj (x ∷ a) (y ∷ b) p q e =
    let high =
      hex_digit-inj (x / 16) (y / 16) (omega (arith, p.0)) (omega (arith, q.0))
        (head-eq_of_cons-eq e) in
    let low =
      hex_digit-inj (x % 16) (y % 16) (omega arith) (omega arith)
        (head-eq_of_cons-eq (tail-eq_of_cons-eq e)) in
    ap₂ ◌∷◌ (byte-inj x y p.0 q.0 high low)
      (hex-inj a b p.1 q.1 (tail-eq_of_cons-eq (tail-eq_of_cons-eq e)))

-- Where the hex texts before a colon and the rest agree, so do the texts.
hex-split :
    (a b x y : Bytes)
    → hex a ++ codes ":" ++ x ≡ hex b ++ codes ":" ++ y
    → (hex a ≡ hex b) × (x ≡ y)
unfolding hex
hex-split [] [] x y e = (refl, tail-eq_of_cons-eq e)
hex-split [] (d ∷ b) x y e = absurd (hex_digit-ne (d / 16) (sym (head-eq_of_cons-eq e)))
hex-split (d ∷ a) [] x y e = absurd (hex_digit-ne (d / 16) (head-eq_of_cons-eq e))
hex-split (d ∷ a) (f ∷ b) x y e =
    let (same, rest) = hex-split a b x y (tail-eq_of_cons-eq (tail-eq_of_cons-eq e)) in
    (
      ap₂ ◌∷◌ (head-eq_of_cons-eq e) (ap₂ ◌∷◌ (head-eq_of_cons-eq (tail-eq_of_cons-eq e)) same),
      rest,
    )

-- Two messages under one key have the same target and the same id.
pub message_key-inj :
    (t t' i i' : Bytes)
    → All IsByte t
    → All IsByte t'
    → All IsByte i
    → All IsByte i'
    → message_key t i ≡ message_key t' i'
    → (t ≡ t') × (i ≡ i')
unfolding message_key
message_key-inj t t' i i' bt bt' bi bi' e =
    let rest =
      tail-eq_of_cons-eq (tail-eq_of_cons-eq (tail-eq_of_cons-eq (tail-eq_of_cons-eq e))) in
    let (target, id) = hex-split t t' (hex i) (hex i') rest in
    (hex-inj t t' bt bt' target, hex-inj i i' bi bi' id)

pub fourth-eq :
    {a b d x a' b' d' x' : ℕ} {xs ys : Bytes}
    → ◌≡◌ {A = Bytes} (a ∷ b ∷ d ∷ x ∷ xs) (a' ∷ b' ∷ d' ∷ x' ∷ ys)
    → x ≡ x'
fourth-eq e = head-eq_of_cons-eq (tail-eq_of_cons-eq (tail-eq_of_cons-eq (tail-eq_of_cons-eq e)))

pub message_key-meta_key : (t i t' : Bytes) → message_key t i ≢ meta_key t'
unfolding message_key meta_key
message_key-meta_key t i t' e = absurd (let z = fourth-eq e in ground arith)

pub meta_key-inj : (t t' : Bytes) → All IsByte t → All IsByte t' → meta_key t ≡ meta_key t' → t ≡ t'
unfolding meta_key
meta_key-inj t t' b b' e = hex-inj t t' b b' (ap (drop 8) e)
