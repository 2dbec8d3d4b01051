-- ===== src/Ratchet/Advance.antt =====
-- How `Decrypt` moves the receiving chain to a message that is not yet reached (ratchet.go).
use babylontower.Prelude.{
  ℕ, zero, suc, ◌+◌, ◌-◌, ◌≤◌, ◌<◌, ◌^◌, ◌≡◌, refl, Option, none, some, Bytes, arith, ok,
  ℕ_discrete,
}
use babylontower.Prelude.Assoc.{Assoc, lookup, lookup-insert}
use babylontower.Ratchet.Crypto.{Crypto, decrypt_with_key}
use babylontower.Ratchet.State.{DoubleRatchetState, RatchetHeader, SkippedName}
use babylontower.Ratchet.Skipped.{
  name_dec, put_skipped, skip_rounds, skip_messages, advance_rounds, advance_receiving_chain,
}
use babylontower.Ratchet.Cipher.{switch_key, follow_header, skip_ahead, decrypt_next}
use babylontower.Ratchet.Chain.{
  chain_at, message_key_at, IsAt, skipped, skip_rounds-suc, advance_rounds-IsAt,
}

module _ (c : Crypto) where
  -- A header with the receiving key that is set changes nothing.
  pub follow_header_same :
      (seed : Option Bytes) (h : RatchetHeader) (p : Bytes) (s : DoubleRatchetState)
      → h.dh_ratchet_pub ≡ some p
      → s.dh_receiving_key_pub ≡ some p
      → follow_header c seed h s ≡ (s, ok tt)
  unfolding follow_header switch_key
  follow_header_same seed h p s e f = rw (e, follow_header, f) (ground arith)

module _ (c : Crypto) (start p : Bytes) where
  put_skipped_other :
      (n i : ℕ) (m : Assoc SkippedName Bytes)
      → n < i
      → lookup name_dec (some p, i) m ≡ none
      → lookup name_dec (some p, i) (put_skipped (some p, n) (message_key_at c start n) m) ≡ none
  unfolding put_skipped
  put_skipped_other n i m h e =
      ground (arith, lookup-insert name_dec (some p, n) (some p, i) (message_key_at c start n) m)

  pub skip_rounds_fresh :
      (k n i : ℕ) (m : Assoc SkippedName Bytes)
      → n + k ≤ i
      → lookup name_dec (some p, i) m ≡ none
      → lookup name_dec (some p, i) (skipped c start (some p) k n m) ≡ none
  unfolding skip_rounds
  skip_rounds_fresh zero n i m h e = e
  skip_rounds_fresh (suc k) n i m h e =
      rw (skip_rounds-suc c start (some p) k n m)
        (skip_rounds_fresh k (suc n) i _ (omega arith) (put_skipped_other n i m (omega arith) e))

  pub skip_ahead_lem :
      (n : ℕ) (h : RatchetHeader) (s : DoubleRatchetState)
      → IsAt c start (some p) n s
      → n ≤ h.message_number
      → skip_ahead c h s ≡ (
        record s {
          skipped_keys = skipped c start (some p) (h.message_number - n) n s.skipped_keys;
        },
        ok tt,
      )
  unfolding skip_ahead skip_messages skip_rounds
  skip_ahead_lem n h s a le = elim (ℕ_discrete n h.message_number) [
    | yes e ↦ let z : h.message_number - n ≡ 0 = omega arith in rw z (ground arith)
    | no e ↦ ground arith
  ]

  -- What `Decrypt` leaves behind when message `i` opens by the chain itself: the chain stands
  -- behind it, and the keys of the messages that were skipped are cached.
  pub record Advanced (n i : ℕ) (s s' : DoubleRatchetState) : Type 0 where
    pub at : IsAt c start (some p) (suc i) s'
    pub cached :
        s'.skipped_keys
        ≡ skipped c start (some p) (i - n) n (skipped c start (some p) (i - n) n s.skipped_keys)

  pub decrypt_next_lem :
      (now n : ℕ) (h : RatchetHeader) (ct ad text : Bytes) (s : DoubleRatchetState)
      → IsAt c start (some p) n s
      → n ≤ h.message_number
      → h.message_number + 1 < 2 ^ 32
      → decrypt_with_key c (message_key_at c start h.message_number) h.message_number ct ad
        ≡ some text
      → (s' : DoubleRatchetState) × (decrypt_next c now h ct ad s ≡ (s', ok text))
        × Advanced n h.message_number s s'
  unfolding decrypt_next advance_receiving_chain message_key_at chain_at
  decrypt_next_lem now n h ct ad text s a le word opens =
      let i = h.message_number in
      let m = skipped c start (some p) (i - n) n s.skipped_keys in
      let s₁ : DoubleRatchetState = record s { skipped_keys = m } in
      let a₁ : IsAt c start (some p) n s₁ = record {
        receiving_key = a.receiving_key;
        count = a.count;
        remote = a.remote;
      } in
      let (at, rest) = advance_rounds-IsAt c start (some p) (i - n) n s₁ a₁ in
      let s₂ = advance_rounds c (i - n) s₁ in
      let e : n + (i - n) ≡ i = omega arith in
      (
        record s₂ {
          receiving_chain_key = some (chain_at c start (suc i));
          receiving_chain_count = i + 1;
          last_used_at = now;
        },
        ground (arith, skip_ahead_lem n h s a le, at.receiving_key, at.count, a.count),
        record {
          at = record { receiving_key = refl; count = omega arith; remote = at.remote };
          cached = rest;
        },
      )
