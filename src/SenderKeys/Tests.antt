-- ===== src/SenderKeys/Tests.antt =====
-- Sender keys over a simple cipher.
use babylontower.Prelude.{
  ℕ, ◌+◌, ◌^◌, ◌-◌, ◌<◌, ◌≡◌, ◌≢◌, ◌⊎◌, ◌↔◌, Result, err, refl, Option, none, some, [], ◌∷◌, ◌++◌,
  Bytes, true, ite, length, take, drop, ok, arith, bytes_dec, codes,
}
use babylontower.Prelude.Assoc.{Assoc, lookup}
use babylontower.SenderKeys.Key.{
  SenderCrypto, SenderKey, to_distribution, message_key_of, next_chain_key, derive_message_key,
  advance,
}
use babylontower.SenderKeys.Messages.{
  Service, Error, GroupPayload, decryption_failed, advance_to, derive_message_key_at_index,
  open_with, encrypt_with, decrypt_with, group_keys, get_sender_key_distribution_message,
  import_sender_key,
}
use babylontower.SenderKeys.Advance.{advance_by, decrypt_with_returns}
use babylontower.SenderKeys.Distribution.{import_sender_key-distribution}
use babylontower.SenderKeys.Mismatch.{IsSealed, IsOpened, decrypt_with-encrypt_with}

abbrev open_toy : Bytes → Bytes → Bytes → Bytes → Option Bytes
open_toy key nonce [] ad = none
open_toy key nonce (n ∷ text) ad = ite (bytes_dec (take n text) key) (some (drop n text)) none

abbrev toy : SenderCrypto
toy = record {
  sha256 = λ b. b;
  generate_key = λ seed. some (seed, seed);
  sign = λ key text. some key;
  verify = λ key text signature. some true;
  hkdf = λ secret salt info n. some [];
  new_x = λ key. some key;
  seal = λ key nonce text ad. length key ∷ (key ++ text);
  open_sealed = open_toy;
}

abbrev group : Bytes
group = 3 ∷ []

abbrev own : Bytes
own = 9 ∷ []

abbrev own_key : SenderKey
own_key = record {
  group_id = group;
  sender_pubkey = own;
  chain_key = 5 ∷ [];
  signing_key = 1 ∷ [];
  signing_key_priv = 1 ∷ [];
  chain_index = 0;
  epoch = 1;
}

abbrev sender : Service
sender = record {
  identity_sign_pub = own;
  identity_sign_priv = own;
  identity_x25519_pub = [];
  groups = [];
  sender_keys = (group, (own, own_key) ∷ []) ∷ [];
}

abbrev receiver : Service
receiver = record sender { identity_sign_pub = 8 ∷ []; sender_keys = [] }

abbrev received_key : SenderKey
received_key = record own_key { signing_key_priv = [] }

abbrev sent : GroupPayload
sent = record {
  epoch = 1;
  chain_index = 0;
  ciphertext = 14 ∷ ((5 ∷ []) ++ codes "bt-sk-msg" ++ (0 ∷ 0 ∷ 0 ∷ 0 ∷ []) ++ codes "hi");
  sender_group_signature = 1 ∷ [];
}

sent_lem : encrypt_with toy true group (codes "hi") own_key ≡ (advance toy own_key, ok sent)
unfolding encrypt_with derive_message_key advance message_key_of next_chain_key
sent_lem = refl

decrypt_with-encrypt_with_example :
    IsSealed toy group (codes "hi") (message_key_of toy (5 ∷ []) 0) sent.ciphertext
    × (sent.chain_index ≡ 0)
    × (result : Result Error Bytes) × (decrypt_with toy 4 group sent received_key
        ≡ some (advance toy received_key, result))
    × ((plaintext : Bytes)
        → (result ≡ ok plaintext)
          ↔ IsOpened toy group plaintext
              (message_key_of toy (next_chain_key toy (5 ∷ [])) 0)
              sent
              (1 ∷ []))
decrypt_with-encrypt_with_example =
    decrypt_with-encrypt_with toy true group (codes "hi") own_key (advance toy own_key) received_key
      sent 4 sent_lem refl refl refl (omega arith) (omega arith)

-- Over the toy cipher, the receiver does not get the text.
not_decrypted :
    decrypt_with toy 4 group sent received_key
    ≡ some (advance toy received_key, err decryption_failed)
unfolding decrypt_with advance_to derive_message_key_at_index open_with advance message_key_of
    next_chain_key bytes_dec
not_decrypted = refl

abbrev endless : GroupPayload
endless = record sent { chain_index = 2 ^ 32 - 1 }

decrypt_with_returns_example :
    ((endless.epoch ≡ received_key.epoch)
      × (endless.chain_index ≡ 2 ^ 32 - 1)
      × ((fuel : ℕ) → decrypt_with toy fuel group endless received_key ≡ none))
    ⊎ ((fuel : ℕ)
        → endless.chain_index + 2 < fuel
        → decrypt_with toy fuel group endless received_key ≢ none)
decrypt_with_returns_example =
    decrypt_with_returns toy group endless received_key (omega arith) (omega arith)

distributed : get_sender_key_distribution_message group sender ≡ ok (to_distribution own_key)
unfolding get_sender_key_distribution_message lookup bytes_dec
distributed = refl

import_sender_key-distribution_example :
    (keys : Assoc Bytes SenderKey) × (k : SenderKey) × (imported : Assoc Bytes SenderKey)
    × (r : SenderKey) × (group_keys group sender ≡ some keys)
    × (lookup bytes_dec own keys ≡ some k)
    × (group_keys k.group_id (import_sender_key (to_distribution own_key) [] receiver)
        ≡ some imported)
    × (lookup bytes_dec k.sender_pubkey imported ≡ some r)
    × ((n : ℕ)
        → (derive_message_key toy (advance_by toy n r)).0
          ≡ (derive_message_key toy (advance_by toy n k)).0)
import_sender_key-distribution_example =
    import_sender_key-distribution toy group [] sender receiver (to_distribution own_key)
      distributed
