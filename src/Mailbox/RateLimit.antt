-- ===== src/Mailbox/RateLimit.antt =====
-- The rate limits of pkg/mailbox/storage.go: a counter for a sender, a target and an hour.
use babylontower.Prelude.{
  ℕ, ◌+◌, ◌/◌, ◌%◌, ◌^◌, ◌<◌, ◌≡◌, ap, subst, sym, ◌⊎◌, All, List, Option, none, some, [], ◌∷◌,
  Bytes, Bool, if◌then◌else◌, ltb, leb, le_bytes, length, take, Result, ok, err, arith, inl, inr,
  ◌∙◌,
}
use babylontower.Mailbox.Database.{Database, IsDatabase, get-set_same}
use babylontower.Mailbox.Keys.{rate_key}
use babylontower.Mailbox.Metadata.{le_value, le_value-le_bytes}
use babylontower.Mailbox.Storage.{MailboxConfig, Error, index_out_of_range, second}

abbrev pub hour_of : ℕ → ℕ
hour_of now = now / second / 3600

module _ (d : Database) where
  -- `CheckRateLimit`: true where the limit is reached. `Uint32` panics on less than four bytes.
  unfoldable pub check_rate_limit : MailboxConfig → ℕ → Bytes → Bytes → d.Store → Result Error Bool
  check_rate_limit cfg now sender target s = elim (d.get (rate_key sender target (hour_of now)) s) [
    | none ↦ ok (leb cfg.deposit_rate_limit 0)
    | some b ↦
        if ltb (length b) 4
        then err index_out_of_range
        else ok (leb cfg.deposit_rate_limit (le_value (take 4 b)))
  ]

  unfoldable pub count_of : Option Bytes → ℕ
  count_of none = 0
  count_of (some b) = if ltb (length b) 4 then 0 else le_value (take 4 b)

  -- `IncrementRateLimit`
  unfoldable pub increment_rate_limit : ℕ → Bytes → Bytes → d.Store → d.Store
  increment_rate_limit now sender target s =
      let key = rate_key sender target (hour_of now) in
      d.set key (le_bytes 4 ((count_of (d.get key s) + 1) % 2 ^ 32)) s

  unfoldable pub increment_all : List ℕ → Bytes → Bytes → d.Store → d.Store
  unfolding increment_rate_limit
  increment_all [] sender target s = s
  increment_all (now ∷ times) sender target s =
      increment_all times sender target (increment_rate_limit now sender target s)

count_of-le_bytes : (n : ℕ) → n < 2 ^ 32 → (d : Database) → count_of d (some (le_bytes 4 n)) ≡ n
unfolding count_of le_bytes
count_of-le_bytes n h d = le_value-le_bytes 4 n h

module _ (d : Database) (laws : IsDatabase d) (sender target : Bytes) (hour : ℕ) where
  -- The counter of the hour is `n`, and has its four bytes unless nothing was counted.
  abbrev Counts : ℕ → d.Store → Type 0
  Counts n s =
      (count_of d (d.get (rate_key sender target hour) s) ≡ n)
      × ((d.get (rate_key sender target hour) s ≡ none)
          ⊎ (d.get (rate_key sender target hour) s ≡ some (le_bytes 4 n)))

  increment_rate_limit-Counts :
      (now n : ℕ) (s : d.Store)
      → hour_of now ≡ hour
      → n + 1 < 2 ^ 32
      → Counts n s
      → Counts (n + 1) (increment_rate_limit d now sender target s)
  unfolding increment_rate_limit
  increment_rate_limit-Counts now n s same fits (c, form) =
      let written : d.get (rate_key sender target hour) (increment_rate_limit d now sender target s)
          ≡ some (le_bytes 4 (n + 1)) =
        ap (λ h. d.get (rate_key sender target h) (increment_rate_limit d now sender target s))
          (sym same)
        ∙ get-set_same d laws (rate_key sender target (hour_of now)) _ s
        ∙ ap
            (λ h.
              some (le_bytes 4 ((count_of d (d.get (rate_key sender target h) s) + 1) % 2 ^ 32)))
            same
        ∙ ap (λ m. some (le_bytes 4 m)) (omega (arith, c)) in
      (ap (count_of d) written ∙ count_of-le_bytes (n + 1) fits d, inr written)

  increment_all-Counts :
      (times : List ℕ) (n : ℕ) (s : d.Store)
      → All (λ t. hour_of t ≡ hour) times
      → n + length times < 2 ^ 32
      → Counts n s
      → Counts (n + length times) (increment_all d times sender target s)
  unfolding increment_all
  increment_all-Counts [] n s h fits c = subst (λ k. Counts k s) (omega arith) c
  increment_all-Counts (t ∷ times) n s h fits c =
      subst (λ k. Counts k (increment_all d (t ∷ times) sender target s)) (omega arith)
        (increment_all-Counts times (n + 1) (increment_rate_limit d t sender target s) h.1
          (omega arith) (increment_rate_limit-Counts t n s h.0 (omega arith) c))

  -- Where an hour has no counter yet and less than 2 ^ 32 deposits are counted in it, `CheckRateLimit`
  -- in this hour says that the limit is reached if and only if as many deposits were counted.
  pub check_rate_limit-increment_all :
      (cfg : MailboxConfig) (now : ℕ) (times : List ℕ) (s : d.Store)
      → hour_of now ≡ hour
      → All (λ t. hour_of t ≡ hour) times
      → length times < 2 ^ 32
      → d.get (rate_key sender target hour) s ≡ none
      → check_rate_limit d cfg now sender target (increment_all d times sender target s)
        ≡ ok (leb cfg.deposit_rate_limit (length times))
  unfolding check_rate_limit count_of le_bytes
  check_rate_limit-increment_all cfg now times s same h fits fresh =
      let start : Counts 0 s = (ap (count_of d) fresh, inl fresh) in
      let (c, form) = increment_all-Counts times 0 s h (omega arith) start in ground arith
