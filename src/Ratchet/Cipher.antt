-- ===== src/Ratchet/Cipher.antt =====
-- `Encrypt` and `Decrypt` with the DH ratchet steps: pkg/ratchet/ratchet.go. `seed` is what the random
-- reader yields and `now` the clock.
use babylontower.Prelude.{
  ℕ, ◌+◌, ◌%◌, ◌^◌, Option, none, some, Bytes, if◌then◌else◌, ltb, ite, bytes_dec, ok, ◌>>=◌, ◌>>◌,
  give, get, put, or_fail,
}
use babylontower.Ratchet.Crypto.{
  Crypto, kdf_rk, kdf_ck, derive_nonce, generate_x25519_key_pair, decrypt_with_key,
}
use babylontower.Ratchet.State.{
  RatchetHeader, EncryptedMessage, Method, no_receiving_key, key_generation_failed, x25519_failed,
  nonce_failed, aead_failed, decryption_failed, nil_dereference,
}
use babylontower.Ratchet.Skipped.{
  bytes_of, skip_messages, advance_receiving_chain, cache_skipped_keys, get_skipped_key,
}

abbrev pub u32 : ℕ → ℕ
u32 n = n % 2 ^ 32

module _ (c : Crypto) where
  unfoldable pub dh_ratchet_send : Option Bytes → Method (Unit {0})
  dh_ratchet_send seed = do
    s ← get
    remote ← or_fail s.dh_receiving_key_pub no_receiving_key
    (private, public) ← or_fail (generate_x25519_key_pair c seed) key_generation_failed
    dh_output ← or_fail (c.x25519 private remote) x25519_failed
    let (new_root_key, new_chain_key) = kdf_rk c s.root_key dh_output
    put (record s {
      previous_sending_chain_len = s.sending_chain_count;
      dh_sending_key_priv = some private;
      dh_sending_key_pub = some public;
      root_key = new_root_key;
      sending_chain_key = some new_chain_key;
      sending_chain_count = 0;
    })

  unfoldable pub dh_ratchet_receive : Option Bytes → RatchetHeader → Bytes → Method (Unit {0})
  dh_ratchet_receive seed header remote = do
    s₀ ← get
    put (cache_skipped_keys c header.previous_chain_len s₀)
    s ← get
    private ← or_fail s.dh_sending_key_priv nil_dereference
    dh_output ← or_fail (c.x25519 private remote) x25519_failed
    let (new_root_key, new_chain_key) = kdf_rk c s.root_key dh_output
    put (record s {
      root_key = new_root_key;
      receiving_chain_key = some new_chain_key;
      receiving_chain_count = 0;
      dh_receiving_key_pub = some remote;
    })
    dh_ratchet_send seed

  -- The first step of `Encrypt`.
  unfoldable pub start_sending : Option Bytes → Method (Unit {0})
  start_sending seed s = elim s.sending_chain_key [
    | none ↦ dh_ratchet_send seed s
    | some _ ↦ (s, ok tt)
  ]

  unfoldable pub encrypt : Option Bytes → ℕ → Bytes → Bytes → Method EncryptedMessage
  encrypt seed now plaintext associated_data = do
    start_sending seed
    s ← get
    let (new_chain_key, message_key) = kdf_ck c (bytes_of s.sending_chain_key)
    put (record s { sending_chain_key = some new_chain_key })
    nonce ← or_fail (derive_nonce c message_key s.sending_chain_count) nonce_failed
    aead ← or_fail (c.new_aead message_key) aead_failed
    put (record s {
      sending_chain_key = some new_chain_key;
      sending_chain_count = u32 (s.sending_chain_count + 1);
      last_used_at = now;
    })
    give (record {
      header = record {
        dh_ratchet_pub = s.dh_sending_key_pub;
        previous_chain_len = s.previous_sending_chain_len;
        message_number = s.sending_chain_count;
      };
      ciphertext = c.seal aead nonce plaintext associated_data;
      nonce = nonce;
    })

  -- The first message from the sender: no receiving key is set yet.
  unfoldable pub first_receive : Bytes → Method (Unit {0})
  first_receive remote = do
    s₀ ← get
    put (record s₀ { dh_receiving_key_pub = some remote })
    s ← get
    private ← or_fail s.dh_sending_key_priv nil_dereference
    dh_output ← or_fail (c.x25519 private remote) x25519_failed
    let (new_root_key, new_chain_key) = kdf_rk c s.root_key dh_output
    put (record s {
      root_key = new_root_key;
      receiving_chain_key = some new_chain_key;
      receiving_chain_count = 0;
    })

  unfoldable pub switch_key :
      Option Bytes → RatchetHeader → Bytes → Option Bytes → Method (Unit {0})
  switch_key seed header remote none = first_receive remote
  switch_key seed header remote (some current) =
      ite (bytes_dec remote current) (give tt) (dh_ratchet_receive seed header remote)

  -- The first `if` of `Decrypt`: a DH ratchet step if the header has a new public key.
  unfoldable pub follow_header : Option Bytes → RatchetHeader → Method (Unit {0})
  follow_header seed header s = elim header.dh_ratchet_pub [
    | none ↦ (s, ok tt)
    | some remote ↦ switch_key seed header remote s.dh_receiving_key_pub s
  ]

  unfoldable pub skip_ahead : RatchetHeader → Method (Unit {0})
  skip_ahead header s =
      if ltb s.receiving_chain_count header.message_number
      then skip_messages c header s
      else (s, ok tt)

  -- `Decrypt` from the comment "Check if message is out of order" on.
  unfoldable pub decrypt_next : ℕ → RatchetHeader → Bytes → Bytes → Method Bytes
  decrypt_next now header ciphertext associated_data = do
    skip_ahead header
    advance_receiving_chain c header.message_number
    s ← get
    let (new_chain_key, message_key) = kdf_ck c (bytes_of s.receiving_chain_key)
    put (record s {
      receiving_chain_key = some new_chain_key;
      receiving_chain_count = u32 (s.receiving_chain_count + 1);
      last_used_at = now;
    })
    or_fail (decrypt_with_key c message_key header.message_number ciphertext associated_data)
        decryption_failed

  -- The use of a skipped key, if there is one; where it does not fit, `Decrypt` goes on.
  unfoldable pub decrypt_cached : ℕ → RatchetHeader → Bytes → Bytes → Option Bytes → Method Bytes
  decrypt_cached now header ciphertext associated_data none =
      decrypt_next now header ciphertext associated_data
  decrypt_cached now header ciphertext associated_data (some key) =
      elim (decrypt_with_key c key header.message_number ciphertext associated_data) [
        | none ↦ decrypt_next now header ciphertext associated_data
        | some plaintext ↦ give plaintext
      ]

  unfoldable pub decrypt : Option Bytes → ℕ → RatchetHeader → Bytes → Bytes → Method Bytes
  decrypt seed now header ciphertext associated_data = do
    follow_header seed header
    skipped_key ← get_skipped_key header
    decrypt_cached now header ciphertext associated_data skipped_key
