-- ===== src/Ratchet/Bounds.antt =====
-- The size of the cache of skipped keys, and the counters, over every call (ratchet.go, x3dh.go).
use babylontower.Prelude.{
  ℕ, zero, suc, ◌+◌, ◌-◌, ◌≤◌, ◌≡◌, ap, Option, none, some, Bytes, inl, inr, arith, length, List,
  [], ◌∷◌, Option-cases, ok, String,
}
use babylontower.Prelude.Assoc.{Assoc, length-insert-le, length-delete-le}
use babylontower.Ratchet.Crypto.{Crypto, kdf_ck}
use babylontower.Ratchet.State.{
  DoubleRatchetState, RatchetHeader, SkippedName, max_skipped_keys, new_initiator, new_responder,
}
use babylontower.Ratchet.Skipped.{
  name_dec, put_skipped, skip_rounds, skip_messages, advance_once, advance_rounds,
  advance_receiving_chain, cache_skipped_keys, get_skipped_key,
}
use babylontower.Ratchet.Cipher.{
  dh_ratchet_send, dh_ratchet_receive, start_sending, encrypt, first_receive, switch_key,
  follow_header, skip_ahead, decrypt_next, decrypt_cached, decrypt,
}

abbrev pub IsBounded : DoubleRatchetState → Type 0
IsBounded s = length s.skipped_keys ≤ max_skipped_keys

pub length-put_skipped :
    (key : SkippedName) (k : Bytes) (m : Assoc SkippedName Bytes)
    → length (put_skipped key k m) ≤ length m + 1
unfolding put_skipped
length-put_skipped key k m = ground (arith, length-insert-le name_dec key k m)

put_skipped_bound :
    (key : SkippedName) (k : Bytes) (m : Assoc SkippedName Bytes)
    → length m ≤ max_skipped_keys
    → length (put_skipped key k m) ≤ max_skipped_keys
unfolding put_skipped
put_skipped_bound key k m h = ground (arith, length-insert-le name_dec key k m)

module _ (c : Crypto) where
  skip_rounds_bound :
      (k : ℕ) (ck : Bytes) (p : Option Bytes) (n : ℕ) (m : Assoc SkippedName Bytes)
      → length m ≤ max_skipped_keys
      → length (skip_rounds c k ck p n m) ≤ max_skipped_keys
  unfolding skip_rounds
  skip_rounds_bound zero ck p n m h = h
  skip_rounds_bound (suc k) ck p n m h =
      skip_rounds_bound k _ p (n + 1) _ (put_skipped_bound (p, n) (kdf_ck c ck).1 m h)

  advance_rounds_bound :
      (k : ℕ) (s : DoubleRatchetState) → IsBounded s → IsBounded (advance_rounds c k s)
  unfolding advance_rounds advance_once
  advance_rounds_bound zero s h = h
  advance_rounds_bound (suc k) s h =
      advance_rounds_bound k (advance_once c s) (put_skipped_bound _ _ s.skipped_keys h)

  cache_skipped_keys-IsBounded :
      (n : ℕ) (s : DoubleRatchetState) → IsBounded s → IsBounded (cache_skipped_keys c n s)
  unfolding cache_skipped_keys
  cache_skipped_keys-IsBounded n s h =
      ground (arith, advance_rounds_bound (n - s.receiving_chain_count) s h)

  get_skipped_key-IsBounded :
      (h : RatchetHeader) (s : DoubleRatchetState) → IsBounded s → IsBounded (get_skipped_key h s).0
  unfolding get_skipped_key
  get_skipped_key-IsBounded h s b =
      ground (arith, length-delete-le name_dec (h.dh_ratchet_pub, h.message_number) s.skipped_keys)

  dh_ratchet_send-skipped_keys :
      (seed : Option Bytes) (s : DoubleRatchetState)
      → (dh_ratchet_send c seed s).0.skipped_keys ≡ s.skipped_keys
  unfolding dh_ratchet_send
  dh_ratchet_send-skipped_keys seed s = ground arith

  dh_ratchet_receive-IsBounded :
      (seed : Option Bytes) (h : RatchetHeader) (remote : Bytes) (s : DoubleRatchetState)
      → IsBounded s
      → IsBounded (dh_ratchet_receive c seed h remote s).0
  unfolding dh_ratchet_receive
  dh_ratchet_receive-IsBounded seed h remote s b =
      grind
        (arith, cache_skipped_keys-IsBounded h.previous_chain_len s b, dh_ratchet_send-skipped_keys)

  -- `Encrypt` caches no key.
  pub encrypt-skipped_keys :
      (seed : Option Bytes) (now : ℕ) (text ad : Bytes) (s : DoubleRatchetState)
      → (encrypt c seed now text ad s).0.skipped_keys ≡ s.skipped_keys
  unfolding encrypt start_sending dh_ratchet_send
  encrypt-skipped_keys seed now text ad s = ground arith

  first_receive-skipped_keys :
      (remote : Bytes) (s : DoubleRatchetState)
      → (first_receive c remote s).0.skipped_keys ≡ s.skipped_keys
  unfolding first_receive
  first_receive-skipped_keys remote s = ground arith

  switch_key-IsBounded :
      (seed : Option Bytes) (h : RatchetHeader) (remote : Bytes) (o : Option Bytes)
      (s : DoubleRatchetState)
      → IsBounded s
      → IsBounded (switch_key c seed h remote o s).0
  unfolding switch_key
  switch_key-IsBounded seed h remote none s b =
      omega (arith, ap length (first_receive-skipped_keys remote s))
  switch_key-IsBounded seed h remote (some q) s b =
      ground (arith, dh_ratchet_receive-IsBounded seed h remote s b)

  follow_header-IsBounded :
      (seed : Option Bytes) (h : RatchetHeader) (s : DoubleRatchetState)
      → IsBounded s
      → IsBounded (follow_header c seed h s).0
  unfolding follow_header
  follow_header-IsBounded seed h s b = elim (Option-cases h.dh_ratchet_pub) [
    | inl e ↦ rw (e, follow_header) b
    | inr (p, e) ↦ rw (e, follow_header) (switch_key-IsBounded seed h p s.dh_receiving_key_pub s b)
  ]

  skip_ahead-IsBounded :
      (h : RatchetHeader) (s : DoubleRatchetState) → IsBounded s → IsBounded (skip_ahead c h s).0
  unfolding skip_ahead skip_messages
  skip_ahead-IsBounded h s b = grind (arith, skip_rounds_bound)

  decrypt_next-IsBounded :
      (now : ℕ) (h : RatchetHeader) (text ad : Bytes) (s : DoubleRatchetState)
      → IsBounded s
      → IsBounded (decrypt_next c now h text ad s).0
  unfolding decrypt_next advance_receiving_chain
  decrypt_next-IsBounded now h text ad s b =
      grind (arith, skip_ahead-IsBounded h s b, advance_rounds_bound)

  decrypt_cached-IsBounded :
      (now : ℕ) (h : RatchetHeader) (text ad : Bytes) (o : Option Bytes) (s : DoubleRatchetState)
      → IsBounded s
      → IsBounded (decrypt_cached c now h text ad o s).0
  unfolding decrypt_cached
  decrypt_cached-IsBounded now h text ad none s b = decrypt_next-IsBounded now h text ad s b
  decrypt_cached-IsBounded now h text ad (some k) s b =
      ground (arith, decrypt_next-IsBounded now h text ad s b)

  -- Whatever header and ciphertext `Decrypt` is given, and whether it succeeds or fails, a cache of at
  -- most `MaxSkippedKeys` keys has at most so many afterwards.
  pub decrypt-IsBounded :
      (seed : Option Bytes) (now : ℕ) (h : RatchetHeader) (text ad : Bytes) (s : DoubleRatchetState)
      → IsBounded s
      → IsBounded (decrypt c seed now h text ad s).0
  unfolding decrypt
  decrypt-IsBounded seed now h text ad s b = grind (
    arith,
    follow_header-IsBounded seed h s b,
    get_skipped_key-IsBounded,
    decrypt_cached-IsBounded,
  )

-- The calls of a session's owner, with what the random reader and the clock yield at each.
pub data Call : Type 0 where
  encrypts : Option Bytes → ℕ → Bytes → Bytes → Call
  decrypts : Option Bytes → ℕ → RatchetHeader → Bytes → Bytes → Call

unfoldable pub call : Crypto → Call → DoubleRatchetState → DoubleRatchetState
call c (encrypts seed now text ad) s = (encrypt c seed now text ad s).0
call c (decrypts seed now h text ad) s = (decrypt c seed now h text ad s).0

unfoldable pub calls : Crypto → List Call → DoubleRatchetState → DoubleRatchetState
unfolding call
calls c [] s = s
calls c (x ∷ xs) s = calls c xs (call c x s)

call-IsBounded :
    (c : Crypto) (x : Call) (s : DoubleRatchetState) → IsBounded s → IsBounded (call c x s)
unfolding call
call-IsBounded c (encrypts seed now text ad) s b =
    omega (arith, ap length (encrypt-skipped_keys c seed now text ad s))
call-IsBounded c (decrypts seed now h text ad) s b = decrypt-IsBounded c seed now h text ad s b

pub calls-IsBounded :
    (c : Crypto) (xs : List Call) (s : DoubleRatchetState) → IsBounded s → IsBounded (calls c xs s)
unfolding calls
calls-IsBounded c [] s b = b
calls-IsBounded c (x ∷ xs) s b = calls-IsBounded c xs (call c x s) (call-IsBounded c x s b)

-- From the responder's constructor on, no sequence of `Encrypt` and `Decrypt` calls, with any headers,
-- ciphertexts and failures, lets the cache of skipped keys grow past `MaxSkippedKeys`.
pub calls-new_responder-IsBounded :
    (c : Crypto) (xs : List Call) (now : ℕ) (id : String) (local remote secret priv spk : Bytes)
    → IsBounded (calls c xs (new_responder now id local remote secret priv spk))
unfolding new_responder
calls-new_responder-IsBounded c xs now id local remote secret priv spk =
    calls-IsBounded c xs _ (omega arith)

-- The same from the initiator's constructor on, where it succeeds.
pub calls-new_initiator-IsBounded :
    (c : Crypto) (xs : List Call) (seed : Option Bytes) (now : ℕ) (id : String)
    (local remote secret spk : Bytes) (s : DoubleRatchetState)
    → new_initiator c seed now id local remote secret spk ≡ ok s
    → IsBounded (calls c xs s)
unfolding new_initiator
calls-new_initiator-IsBounded c xs seed now id local remote secret spk s e =
    calls-IsBounded c xs s (ground arith)
