-- ===== src/SenderKeys/Messages.antt =====
-- The group messages of pkg/groups/service.go. The read lock is held throughout, and the sender key
-- that a map holds by pointer is changed in place: the new maps are part of every result.
use babylontower.Prelude.{
  ℕ, zero, suc, ◌+◌, ◌-◌, ◌%◌, ◌^◌, Option, none, some, [], ◌++◌, Bytes, codes, Bool, true, false,
  if◌then◌else◌, ltb, leb, ◌==◌, not, bytes_dec, Result, ok, err,
}
use babylontower.Prelude.Assoc.{Assoc, lookup, insert}
use babylontower.Groups.State.{GroupState}
use babylontower.SenderKeys.Key.{
  SenderCrypto, SenderKey, SenderKeyDistribution, to_distribution, sender_key_from_proto, be_bytes,
  message_key_of, advance, derive_message_key,
}

pub data Error : Type 0 where
  group_not_found sender_key_not_found invalid_epoch skipped_not_implemented out_of_order
        nonce_failed cipher_failed no_ciphertext decryption_failed signature_failed store_failed
        wrong_key_length :
      Error

pub record GroupPayload : Type 0 where
  pub epoch : ℕ
  pub chain_index : ℕ
  pub ciphertext : Bytes
  pub sender_group_signature : Bytes

-- `Service`, less its storage: whether a write to that succeeds is an argument of the methods.
pub record Service : Type 0 where
  pub identity_sign_pub : Bytes
  pub identity_sign_priv : Bytes
  pub identity_x25519_pub : Bytes
  pub groups : Assoc Bytes GroupState
  pub sender_keys : Assoc Bytes (Assoc Bytes SenderKey)

-- A nil slice and an empty one have no bytes.
abbrev is_empty : Bytes → Bool
is_empty [] = true
is_empty _ = false

module _ (c : SenderCrypto) where
  -- `EncryptGroupMessage` from the derivation on; `saved` is whether the storage takes the sender key.
  unfoldable pub encrypt_with :
      Bool → Bytes → Bytes → SenderKey → SenderKey × Result Error GroupPayload
  encrypt_with saved group_id plaintext k =
      let (message_key, k') = derive_message_key c k in
      elim (c.hkdf message_key (codes "nonce") [] 24) [
        | none ↦ (k', err nonce_failed)
        | some nonce ↦ elim (c.new_x message_key) [
          | none ↦ (k', err cipher_failed)
          | some aead ↦
              let ciphertext = c.seal aead nonce plaintext group_id in
              elim (c.sign k'.signing_key_priv (group_id ++ ciphertext)) [
                | none ↦ (k', err wrong_key_length)
                | some signature ↦
                    if saved
                    then (
                      k',
                      ok (record {
                        epoch = k'.epoch;
                        chain_index = (k'.chain_index + (2 ^ 32 - 1)) % 2 ^ 32;
                        ciphertext = ciphertext;
                        sender_group_signature = signature;
                      }),
                    )
                    else (k', err store_failed)
              ]
        ]
      ]

  -- The loop of `DecryptGroupMessage`: `none` is a loop that runs on after `fuel` tests.
  unfoldable pub advance_to : ℕ → ℕ → SenderKey → Option SenderKey
  advance_to zero target k = none
  advance_to (suc fuel) target k =
      let rest = advance_to fuel target (advance c k) in
      if leb k.chain_index target then rest else some k

  -- `deriveMessageKeyAtIndex`
  unfoldable pub derive_message_key_at_index : SenderKey → ℕ → Result Error Bytes
  derive_message_key_at_index k target =
      if target == (k.chain_index + (2 ^ 32 - 1)) % 2 ^ 32
      then ok (message_key_of c k.chain_key target)
      else err out_of_order

  -- `DecryptGroupMessage` from the nonce on.
  unfoldable pub open_with : Bytes → GroupPayload → SenderKey → Bytes → Result Error Bytes
  open_with group_id payload k message_key =
      elim (c.hkdf message_key (codes "nonce") (be_bytes payload.chain_index) 24) [
        | none ↦ err nonce_failed
        | some nonce ↦ elim (c.new_x message_key) [
          | none ↦ err cipher_failed
          | some aead ↦
              if is_empty payload.ciphertext
              then err no_ciphertext
              else elim (c.open_sealed aead nonce payload.ciphertext group_id) [
                | none ↦ err decryption_failed
                | some plaintext ↦
                    elim (c.verify k.signing_key (group_id ++ payload.ciphertext)
                      payload.sender_group_signature) [
                        | none ↦ err wrong_key_length
                        | some valid ↦ if valid then ok plaintext else err signature_failed
                      ]
              ]
        ]
      ]

  -- `DecryptGroupMessage` on the sender key it found.
  unfoldable pub decrypt_with :
      ℕ → Bytes → GroupPayload → SenderKey → Option (SenderKey × Result Error Bytes)
  decrypt_with fuel group_id payload k =
      if not (payload.epoch == k.epoch)
      then some (k, err invalid_epoch)
      else if ltb payload.chain_index k.chain_index
      then some (k, err skipped_not_implemented)
      else elim (advance_to fuel payload.chain_index k) [
        | none ↦ none
        | some k' ↦ elim (derive_message_key_at_index k' payload.chain_index) [
          | err e ↦ some (k', err e)
          | ok message_key ↦ some (k', open_with group_id payload k' message_key)
        ]
      ]

-- The sender key of a member, and the maps with another one.
abbrev pub group_keys : Bytes → Service → Option (Assoc Bytes SenderKey)
group_keys group_id s = lookup bytes_dec group_id s.sender_keys

unfoldable pub store_key : Bytes → Bytes → SenderKey → Assoc Bytes SenderKey → Service → Service
store_key group_id pubkey k keys s = record s {
  sender_keys = insert bytes_dec group_id (insert bytes_dec pubkey k keys) s.sender_keys;
}

module _ (c : SenderCrypto) where
  -- `EncryptGroupMessage`
  unfoldable pub encrypt_group_message :
      Bool → Bytes → Bytes → Service → Service × Result Error GroupPayload
  encrypt_group_message saved group_id plaintext s = elim (group_keys group_id s) [
    | none ↦ (s, err group_not_found)
    | some keys ↦ elim (lookup bytes_dec s.identity_sign_pub keys) [
      | none ↦ (s, err sender_key_not_found)
      | some k ↦
          let (k', result) = encrypt_with c saved group_id plaintext k in
          (store_key group_id s.identity_sign_pub k' keys s, result)
    ]
  ]

  -- `DecryptGroupMessage`
  unfoldable pub decrypt_group_message :
      ℕ → Bytes → Bytes → GroupPayload → Service → Option (Service × Result Error Bytes)
  decrypt_group_message fuel group_id sender payload s = elim (group_keys group_id s) [
    | none ↦ some (s, err group_not_found)
    | some keys ↦ elim (lookup bytes_dec sender keys) [
      | none ↦ some (s, err sender_key_not_found)
      | some k ↦ elim (decrypt_with c fuel group_id payload k) [
        | none ↦ none
        | some (k', result) ↦ some (store_key group_id sender k' keys s, result)
      ]
    ]
  ]

-- `GetSenderKeyDistributionMessage` and `ImportSenderKey`
unfoldable pub get_sender_key_distribution_message :
    Bytes → Service → Result Error SenderKeyDistribution
get_sender_key_distribution_message group_id s = elim (group_keys group_id s) [
  | none ↦ err group_not_found
  | some keys ↦ elim (lookup bytes_dec s.identity_sign_pub keys) [
    | none ↦ err sender_key_not_found
    | some k ↦ ok (to_distribution k)
  ]
]

abbrev pub keys_or_empty : Option (Assoc Bytes SenderKey) → Assoc Bytes SenderKey
keys_or_empty none = []
keys_or_empty (some keys) = keys

unfoldable pub import_sender_key : SenderKeyDistribution → Bytes → Service → Service
import_sender_key p signing_key_priv s =
    let k = sender_key_from_proto p signing_key_priv in
    store_key k.group_id k.sender_pubkey k (keys_or_empty (group_keys k.group_id s)) s
