-- ===== src/Ratchet/Skipped.antt =====
-- The cache of skipped message keys: pkg/ratchet/ratchet.go, `advanceReceivingChain`, `skipMessages`,
-- `cacheSkippedKeys` and `getSkippedKey`. A loop `for count < target` takes `target - count` rounds.
-- A nil chain key is the empty key of the HMAC.
use babylontower.Prelude.{
  ℕ, zero, suc, ◌+◌, ◌-◌, Option, none, some, Bytes, [], if◌then◌else◌, ltb, length, bytes_dec,
  ℕ_discrete, err, ok,
}
use babylontower.Prelude.Assoc.{Assoc, lookup, insert, delete}
use babylontower.Ratchet.Crypto.{Crypto, kdf_ck}
use babylontower.Ratchet.State.{
  DoubleRatchetState, RatchetHeader, SkippedName, Method, max_skipped_keys, chain_not_initialized,
}

unfoldable pub name_dec : Discrete SkippedName
unfolding bytes_dec
name_dec = hlevel (bytes_dec, ℕ_discrete)

abbrev pub bytes_of : Option Bytes → Bytes
bytes_of none = []
bytes_of (some b) = b

-- `skippedKeyString`
abbrev pub skipped_key_string : Option Bytes → ℕ → SkippedName
skipped_key_string dh_pub counter = (dh_pub, counter)

-- `if len(s.SkippedKeys) < MaxSkippedKeys { s.SkippedKeys[key] = skippedKey }`
unfoldable pub put_skipped : SkippedName → Bytes → Assoc SkippedName Bytes → Assoc SkippedName Bytes
put_skipped key skipped_key m =
    if ltb (length m) max_skipped_keys then insert name_dec key skipped_key m else m

module _ (c : Crypto) where
  -- The loop of `skipMessages`, over its own copies of the chain key and the count.
  unfoldable pub skip_rounds :
      ℕ → Bytes → Option Bytes → ℕ → Assoc SkippedName Bytes → Assoc SkippedName Bytes
  skip_rounds zero chain_key dh_pub count m = m
  skip_rounds (suc k) chain_key dh_pub count m =
      let (new_chain_key, skipped_key) = kdf_ck c chain_key in
      skip_rounds k new_chain_key dh_pub (count + 1)
        (put_skipped (skipped_key_string dh_pub count) skipped_key m)

  unfoldable pub skip_messages : RatchetHeader → Method (Unit {0})
  skip_messages header s = elim s.receiving_chain_key [
    | none ↦ (s, err chain_not_initialized)
    | some chain_key ↦
        let rounds = header.message_number - s.receiving_chain_count in
        (
          record s {
            skipped_keys =
                skip_rounds rounds chain_key s.dh_receiving_key_pub s.receiving_chain_count
                  s.skipped_keys;
          },
          ok tt,
        )
  ]

  -- One round of the loops of `advanceReceivingChain` and `cacheSkippedKeys`. The count is below a
  -- uint32 when it is incremented.
  unfoldable pub advance_once : DoubleRatchetState → DoubleRatchetState
  advance_once s =
      let (new_chain_key, skipped_key) = kdf_ck c (bytes_of s.receiving_chain_key) in
      record s {
        receiving_chain_key = some new_chain_key;
        skipped_keys =
            put_skipped (skipped_key_string s.dh_receiving_key_pub s.receiving_chain_count)
              skipped_key s.skipped_keys;
        receiving_chain_count = s.receiving_chain_count + 1;
      }

  unfoldable pub advance_rounds : ℕ → DoubleRatchetState → DoubleRatchetState
  advance_rounds zero s = s
  advance_rounds (suc k) s = advance_rounds k (advance_once s)

  unfoldable pub advance_receiving_chain : ℕ → Method (Unit {0})
  advance_receiving_chain target s = (advance_rounds (target - s.receiving_chain_count) s, ok tt)

  unfoldable pub cache_skipped_keys : ℕ → DoubleRatchetState → DoubleRatchetState
  cache_skipped_keys prev_chain_len s = elim s.receiving_chain_key [
    | none ↦ s
    | some _ ↦ advance_rounds (prev_chain_len - s.receiving_chain_count) s
  ]

-- `getSkippedKey`: a key that is found is removed.
unfoldable pub get_skipped_key : RatchetHeader → Method (Option Bytes)
get_skipped_key header s =
    let key = skipped_key_string header.dh_ratchet_pub header.message_number in
    elim (lookup name_dec key s.skipped_keys) [
      | none ↦ (s, ok none)
      | some skipped_key ↦
          (record s { skipped_keys = delete name_dec key s.skipped_keys }, ok (some skipped_key))
    ]
