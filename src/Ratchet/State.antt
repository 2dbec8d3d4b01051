-- ===== src/Ratchet/State.antt =====
-- `DoubleRatchetState`, the headers and messages, and the two constructors (x3dh.go, ratchet.go).
-- A nil pointer or slice is `none`. What `zeroBytes` wipes is never read again, and is left out.
use babylontower.Prelude.{
  ℕ, Bool, true, false, Option, none, some, [], String, Bytes, Result, ok, err, Action,
}
use babylontower.Prelude.Assoc.{Assoc}
use babylontower.Ratchet.Crypto.{Crypto, kdf_rk, generate_x25519_key_pair}

pub data Error : Type 0 where
  no_receiving_key key_generation_failed x25519_failed derivation_failed : Error
  chain_not_initialized nonce_failed aead_failed decryption_failed : Error
  -- the panic of `p[:]` at a nil `p`
  nil_dereference : Error

-- `fmt.Sprintf("%x:%d", pub, n)` or `fmt.Sprintf("nil:%d", n)`: the text determines the key and the
-- number, as no hexadecimal text has a colon or is "nil".
abbrev pub SkippedName : Type 0
SkippedName = Option Bytes × ℕ

pub record DoubleRatchetState : Type 0 where
  pub session_id : String
  pub local_identity_pub : Bytes
  pub remote_identity_pub : Bytes
  pub dh_sending_key_priv : Option Bytes
  pub dh_sending_key_pub : Option Bytes
  pub dh_receiving_key_pub : Option Bytes
  pub root_key : Bytes
  pub sending_chain_key : Option Bytes
  pub sending_chain_count : ℕ  -- uint32
  pub previous_sending_chain_len : ℕ  -- uint32
  pub receiving_chain_key : Option Bytes
  pub receiving_chain_count : ℕ  -- uint32
  pub skipped_keys : Assoc SkippedName Bytes
  pub created_at : ℕ
  pub last_used_at : ℕ
  pub cipher_suite_id : ℕ
  pub is_initiator : Bool

pub record RatchetHeader : Type 0 where
  pub dh_ratchet_pub : Option Bytes
  pub previous_chain_len : ℕ  -- uint32
  pub message_number : ℕ  -- uint32

pub record EncryptedMessage : Type 0 where
  pub header : RatchetHeader
  pub ciphertext : Bytes
  pub nonce : Bytes

abbrev pub Method : Type 0 → Type 0
Method = Action DoubleRatchetState Error

abbrev pub cipher_suite_xchacha20_poly1305 : ℕ
cipher_suite_xchacha20_poly1305 = 1

abbrev pub max_skipped_keys : ℕ
max_skipped_keys = 256

-- `NewDoubleRatchetStateInitiator`; `seed` is what the random reader yields.
unfoldable pub new_initiator :
    Crypto
    → Option Bytes
    → ℕ
    → String
    → Bytes
    → Bytes
    → Bytes
    → Bytes
    → Result Error DoubleRatchetState
new_initiator c seed now session_id local remote shared_secret remote_spk_pub =
    elim (generate_x25519_key_pair c seed) [
      | none ↦ err key_generation_failed
      | some (private, public) ↦ elim (c.x25519 private remote_spk_pub) [
        | none ↦ err x25519_failed
        | some dh_output ↦
            let (new_root_key, new_chain_key) = kdf_rk c shared_secret dh_output in
            ok (record {
              session_id = session_id;
              local_identity_pub = local;
              remote_identity_pub = remote;
              dh_sending_key_priv = some private;
              dh_sending_key_pub = some public;
              dh_receiving_key_pub = some remote_spk_pub;
              root_key = new_root_key;
              sending_chain_key = some new_chain_key;
              sending_chain_count = 0;
              previous_sending_chain_len = 0;
              receiving_chain_key = none;
              receiving_chain_count = 0;
              skipped_keys = [];
              created_at = now;
              last_used_at = now;
              cipher_suite_id = cipher_suite_xchacha20_poly1305;
              is_initiator = true;
            })
      ]
    ]

-- `NewDoubleRatchetStateResponder`. The private key is a value here; the source keeps the caller's array and
-- wipes it at the first turn of the ratchet.
unfoldable pub new_responder :
    ℕ → String → Bytes → Bytes → Bytes → Bytes → Bytes → DoubleRatchetState
new_responder now session_id local remote shared_secret local_spk_priv local_spk_pub = record {
  session_id = session_id;
  local_identity_pub = local;
  remote_identity_pub = remote;
  dh_sending_key_priv = some local_spk_priv;
  dh_sending_key_pub = some local_spk_pub;
  dh_receiving_key_pub = none;
  root_key = shared_secret;
  sending_chain_key = none;
  sending_chain_count = 0;
  previous_sending_chain_len = 0;
  receiving_chain_key = none;
  receiving_chain_count = 0;
  skipped_keys = [];
  created_at = now;
  last_used_at = now;
  cipher_suite_id = cipher_suite_xchacha20_poly1305;
  is_initiator = false;
}
