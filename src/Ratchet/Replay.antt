-- ===== src/Ratchet/Replay.antt =====
-- `Decrypt` on a message number that the chain has passed and that has no cached key (ratchet.go).
use babylontower.Prelude.{
  ℕ, suc, ◌+◌, ◌-◌, ◌<◌, ◌^◌, ◌≡◌, refl, ap, ◌∙◌, Option, none, some, Bytes, arith, Result, ok, err,
}
use babylontower.Prelude.Assoc.{lookup}
use babylontower.Ratchet.Crypto.{Crypto, decrypt_with_key}
use babylontower.Ratchet.State.{DoubleRatchetState, RatchetHeader, Error, decryption_failed}
use babylontower.Ratchet.Skipped.{
  name_dec, advance_receiving_chain, advance_rounds, get_skipped_key,
}
use babylontower.Ratchet.Cipher.{skip_ahead, decrypt_next, decrypt_cached, decrypt}
use babylontower.Ratchet.Chain.{chain_at, message_key_at, IsAt}
use babylontower.Ratchet.Advance.{follow_header_same}

abbrev pub opened : Option Bytes → Result Error Bytes
opened none = err decryption_failed
opened (some text) = ok text

module _ (c : Crypto) (start p : Bytes) (seed : Option Bytes) (now : ℕ) (h : RatchetHeader)
    (ct ad : Bytes) where
  passed : ℕ → DoubleRatchetState → DoubleRatchetState
  passed n s = record s {
    receiving_chain_key = some (chain_at c start (suc n));
    receiving_chain_count = suc n;
    last_used_at = now;
  }

  decrypt-passed :
      (n : ℕ) (s : DoubleRatchetState)
      → IsAt c start (some p) n s
      → h.dh_ratchet_pub ≡ some p
      → h.message_number < n
      → n + 1 < 2 ^ 32
      → lookup name_dec (some p, h.message_number) s.skipped_keys ≡ none
      → decrypt c seed now h ct ad s ≡ (
        passed n s,
        opened (decrypt_with_key c (message_key_at c start n) h.message_number ct ad),
      )
  unfolding decrypt decrypt_cached decrypt_next skip_ahead advance_receiving_chain advance_rounds
      get_skipped_key chain_at message_key_at passed
  decrypt-passed n s a sender lt word absent =
      let z : h.message_number - n ≡ 0 = omega arith in
      ground (
        arith,
        follow_header_same c seed h p s sender a.remote,
        a.receiving_key,
        a.count,
        ap (λ k. advance_rounds c k s) z,
      )

  -- A message number below the receiver's count with no cached key: whether the ciphertext
  -- authenticates or not, `Decrypt` tries the key of the message that the chain expects next, and the
  -- chain has moved past that message afterwards, while the cache is as it was.
  pub decrypt_passed :
      (n : ℕ) (s : DoubleRatchetState)
      → IsAt c start (some p) n s
      → h.dh_ratchet_pub ≡ some p
      → h.message_number < n
      → n + 1 < 2 ^ 32
      → lookup name_dec (some p, h.message_number) s.skipped_keys ≡ none
      → let (s', result) = decrypt c seed now h ct ad s in
        (result ≡ opened (decrypt_with_key c (message_key_at c start n) h.message_number ct ad))
        × IsAt c start (some p) (suc n) s'
        × (s'.skipped_keys ≡ s.skipped_keys)
  unfolding passed
  decrypt_passed n s a sender lt word absent =
      rw (decrypt-passed n s a sender lt word absent) (refl, at, refl)
    where
      at : IsAt c start (some p) (suc n) (passed n s)
      at = record { receiving_key = refl; count = refl; remote = a.remote }

-- After `Decrypt` of a message, forged or replayed, whose number is below the receiver's count and
-- has no cached key, the message that the chain expected (`m`, number `n`, not cached) is opened with
-- the key of message `n + 1`, and the chain moves on again.
pub decrypt_passed_loses_next :
    (c : Crypto) (start p : Bytes) (seed : Option Bytes) (now : ℕ) (h m : RatchetHeader)
    (ct ad ct' ad' : Bytes) (n : ℕ) (s : DoubleRatchetState)
    → IsAt c start (some p) n s
    → h.dh_ratchet_pub ≡ some p
    → m.dh_ratchet_pub ≡ some p
    → h.message_number < n
    → m.message_number ≡ n
    → n + 2 < 2 ^ 32
    → lookup name_dec (some p, h.message_number) s.skipped_keys ≡ none
    → lookup name_dec (some p, n) s.skipped_keys ≡ none
    → (decrypt c seed now m ct' ad' (decrypt c seed now h ct ad s).0).1
      ≡ opened (decrypt_with_key c (message_key_at c start (suc n)) n ct' ad')
decrypt_passed_loses_next c start p seed now h m ct ad ct' ad' n s a sh sm lt e word absent
      absent' =
    let (_, at, same) =
      decrypt_passed c start p seed now h ct ad n s a sh lt (omega arith) absent in
    (decrypt_passed c start p seed now m ct' ad' (suc n) (decrypt c seed now h ct ad s).0 at sm
      (omega arith) (omega arith) (rw (same, e) absent')).0
    ∙ ap (λ k. opened (decrypt_with_key c (message_key_at c start (suc n)) k ct' ad')) e
