-- ===== src/Ratchet/Chain.antt =====
-- The symmetric ratchet as a function of the message number, and what the skipped-key cache holds
-- (ratchet.go).
use native.Mathlib.Numerals.{add-one}
use native.Mathlib.Nat.{add-zero, add-suc, suc-add}
use babylontower.Prelude.{
  ℕ, zero, suc, ◌+◌, ◌≤◌, ◌<◌, ◌≡◌, refl, ap, sym, ◌∙◌, Option, some, Bytes, arith, length,
  ℕ_discrete, subst,
}
use babylontower.Prelude.Assoc.{Assoc, lookup, lookup-insert, insert_same}
use babylontower.Ratchet.Crypto.{Crypto, kdf_ck}
use babylontower.Ratchet.State.{DoubleRatchetState, SkippedName, max_skipped_keys}
use babylontower.Ratchet.Skipped.{name_dec, put_skipped, skip_rounds, advance_once, advance_rounds}
use babylontower.Ratchet.Bounds.{length-put_skipped}

-- The chain key after `n` messages, and the key of message `n`, of the chain that starts at `start`.
unfoldable pub chain_at : Crypto → Bytes → ℕ → Bytes
chain_at c start zero = start
chain_at c start (suc n) = (kdf_ck c (chain_at c start n)).0

unfoldable pub message_key_at : Crypto → Bytes → ℕ → Bytes
message_key_at c start n = (kdf_ck c (chain_at c start n)).1

module _ (c : Crypto) (start : Bytes) (dh_pub : Option Bytes) where
  -- The cache has the key of message `n`.
  abbrev pub Holds : ℕ → Assoc SkippedName Bytes → Type 0
  Holds n m = lookup name_dec (dh_pub, n) m ≡ some (message_key_at c start n)

  put_skipped-Holds :
      (i n : ℕ) (m : Assoc SkippedName Bytes)
      → Holds i m
      → Holds i (put_skipped (dh_pub, n) (message_key_at c start n) m)
  unfolding put_skipped
  put_skipped-Holds i n m h =
      ground (arith, lookup-insert name_dec (dh_pub, n) (dh_pub, i) (message_key_at c start n) m)

  put_skipped-Holds_self :
      (n : ℕ) (m : Assoc SkippedName Bytes)
      → length m < max_skipped_keys
      → Holds n (put_skipped (dh_pub, n) (message_key_at c start n) m)
  unfolding put_skipped
  put_skipped-Holds_self n m h =
      ground (arith, lookup-insert name_dec (dh_pub, n) (dh_pub, n) (message_key_at c start n) m)

  abbrev pub skipped : ℕ → ℕ → Assoc SkippedName Bytes → Assoc SkippedName Bytes
  skipped k n m = skip_rounds c k (chain_at c start n) dh_pub n m

  pub skip_rounds-suc :
      (k n : ℕ) (m : Assoc SkippedName Bytes)
      → skipped (suc k) n m
        ≡ skipped k (suc n) (put_skipped (dh_pub, n) (message_key_at c start n) m)
  unfolding skip_rounds chain_at message_key_at
  skip_rounds-suc k n m = rw add-one

  pub skip_rounds-Holds_old :
      (k n i : ℕ) (m : Assoc SkippedName Bytes) → Holds i m → Holds i (skipped k n m)
  unfolding skip_rounds
  skip_rounds-Holds_old zero n i m h = h
  skip_rounds-Holds_old (suc k) n i m h =
      rw (skip_rounds-suc k n m) (skip_rounds-Holds_old k (suc n) i _ (put_skipped-Holds i n m h))

  -- While there is room, every message that is skipped has its key cached.
  pub skip_rounds-Holds :
      (k n i : ℕ) (m : Assoc SkippedName Bytes)
      → length m + k ≤ max_skipped_keys
      → n ≤ i
      → i < n + k
      → Holds i (skipped k n m)
  skip_rounds-Holds zero n i m room lo hi = absurd (omega arith)
  skip_rounds-Holds (suc k) n i m room lo hi = rw (skip_rounds-suc k n m) (elim (ℕ_discrete n i) [
    | yes e ↦ skip_rounds-Holds_old k (suc n) i _ (
        subst (λ j. Holds j (put_skipped (dh_pub, n) (message_key_at c start n) m)) e
          (put_skipped-Holds_self n m (omega arith)))
    | no e ↦
        skip_rounds-Holds k (suc n) i _
          (omega (arith, length-put_skipped (dh_pub, n) (message_key_at c start n) m)) (omega arith)
          (omega arith)
  ])

  pub length-skip_rounds :
      (k n : ℕ) (m : Assoc SkippedName Bytes) → length (skipped k n m) ≤ length m + k
  unfolding skip_rounds
  length-skip_rounds zero n m = omega arith
  length-skip_rounds (suc k) n m = rw (skip_rounds-suc k n m) (
      omega (
        arith,
        length-skip_rounds k (suc n) (put_skipped (dh_pub, n) (message_key_at c start n) m),
        length-put_skipped (dh_pub, n) (message_key_at c start n) m,
      ))

  put_skipped_same :
      (n : ℕ) (m : Assoc SkippedName Bytes)
      → Holds n m
      → put_skipped (dh_pub, n) (message_key_at c start n) m ≡ m
  unfolding put_skipped
  put_skipped_same n m h =
      ground (arith, insert_same name_dec (dh_pub, n) (message_key_at c start n) m)

  skip_rounds_same :
      (k n : ℕ) (m : Assoc SkippedName Bytes)
      → ((i : ℕ) → n ≤ i → i < n + k → Holds i m)
      → skipped k n m ≡ m
  unfolding skip_rounds
  skip_rounds_same zero n m h = refl
  skip_rounds_same (suc k) n m h =
      skip_rounds-suc k n m
      ∙ ap (skipped k (suc n)) (put_skipped_same n m (h n (omega arith) (omega arith)))
      ∙ skip_rounds_same k (suc n) m (λ i lo hi. h i (omega arith) (omega arith))

  -- To cache the keys of the same messages again changes nothing: `skipMessages` before
  -- `advanceReceivingChain` costs time only.
  pub skip_rounds_twice :
      (k n : ℕ) (m : Assoc SkippedName Bytes)
      → length m + k ≤ max_skipped_keys
      → skipped k n (skipped k n m) ≡ skipped k n m
  skip_rounds_twice k n m room =
      skip_rounds_same k n (skipped k n m) λ i lo hi. skip_rounds-Holds k n i m room lo hi

  -- The receiving chain of `s` stands at message `n` of the chain from `start`.
  pub record IsAt (n : ℕ) (s : DoubleRatchetState) : Type 0 where
    pub receiving_key : s.receiving_chain_key ≡ some (chain_at c start n)
    pub count : s.receiving_chain_count ≡ n
    pub remote : s.dh_receiving_key_pub ≡ dh_pub

  advance_once-IsAt :
      (n : ℕ) (s : DoubleRatchetState)
      → IsAt n s
      → IsAt (suc n) (advance_once c s)
        × ((advance_once c s).skipped_keys
            ≡ put_skipped (dh_pub, n) (message_key_at c start n) s.skipped_keys)
  unfolding advance_once chain_at message_key_at
  advance_once-IsAt n s a = (
    record { receiving_key = rw a.receiving_key; count = omega arith; remote = a.remote },
    rw (a.receiving_key, a.count, a.remote),
  )

  -- `advanceReceivingChain` moves the chain as many messages on, and caches what `skipMessages` does.
  pub advance_rounds-IsAt :
      (k n : ℕ) (s : DoubleRatchetState)
      → IsAt n s
      → IsAt (n + k) (advance_rounds c k s)
        × ((advance_rounds c k s).skipped_keys ≡ skipped k n s.skipped_keys)
  unfolding advance_rounds skip_rounds
  advance_rounds-IsAt zero n s a = (rw add-zero a, refl)
  advance_rounds-IsAt (suc k) n s a =
      let (once, cached) = advance_once-IsAt n s a in
      let (at, rest) = advance_rounds-IsAt k (suc n) (advance_once c s) once in
      (
        rw (add-suc, ← suc-add) at,
        rest ∙ ap (skipped k (suc n)) cached ∙ sym (skip_rounds-suc k n s.skipped_keys),
      )
