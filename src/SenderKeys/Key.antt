-- ===== src/SenderKeys/Key.antt =====
-- `SenderKey` of pkg/groups/state.go: the chain of message keys of one member.
use babylontower.Prelude.{
  ℕ, ◌+◌, ◌/◌, ◌%◌, ◌^◌, Option, none, some, [], ◌∷◌, ◌++◌, Bytes, codes, Bool,
}

-- What the code takes from crypto/sha256, crypto/ed25519 and golang.org/x/crypto. `sign` and
-- `verify` are `none` where they panic, on a key of another length.
pub record SenderCrypto : Type 0 where
  pub sha256 : Bytes → Bytes
  -- `ed25519.GenerateKey(nil)` for the random bytes: the public and the private key.
  pub generate_key : Bytes → Option (Bytes × Bytes)
  pub sign : Bytes → Bytes → Option Bytes
  pub verify : Bytes → Bytes → Bytes → Option Bool
  pub hkdf : Bytes → Bytes → Bytes → ℕ → Option Bytes
  pub new_x : Bytes → Option Bytes
  pub seal : Bytes → Bytes → Bytes → Bytes → Bytes
  pub open_sealed : Bytes → Bytes → Bytes → Bytes → Option Bytes

pub record SenderKey : Type 0 where
  pub group_id : Bytes
  pub sender_pubkey : Bytes
  pub chain_key : Bytes
  pub signing_key : Bytes
  pub signing_key_priv : Bytes
  pub chain_index : ℕ
  pub epoch : ℕ

-- The protobuf form, without the private key.
pub record SenderKeyDistribution : Type 0 where
  pub group_id : Bytes
  pub epoch : ℕ
  pub sender_pub : Bytes
  pub chain_key : Bytes
  pub signing_key : Bytes
  pub chain_index : ℕ

unfoldable pub to_distribution : SenderKey → SenderKeyDistribution
to_distribution k = record {
  group_id = k.group_id;
  epoch = k.epoch;
  sender_pub = k.sender_pubkey;
  chain_key = k.chain_key;
  signing_key = k.signing_key;
  chain_index = k.chain_index;
}

unfoldable pub sender_key_from_proto : SenderKeyDistribution → Bytes → SenderKey
sender_key_from_proto p signing_key_priv = record {
  group_id = p.group_id;
  epoch = p.epoch;
  sender_pubkey = p.sender_pub;
  chain_key = p.chain_key;
  signing_key = p.signing_key;
  signing_key_priv = signing_key_priv;
  chain_index = p.chain_index;
}

-- `binary.BigEndian.PutUint32`
abbrev pub be_bytes : ℕ → Bytes
be_bytes n = n / 2 ^ 24 % 256 ∷ n / 2 ^ 16 % 256 ∷ n / 2 ^ 8 % 256 ∷ n % 256 ∷ []

module _ (c : SenderCrypto) where
  -- `sha256.Sum256` of the chain key, the text "bt-sk-msg" and the index.
  unfoldable pub message_key_of : Bytes → ℕ → Bytes
  message_key_of chain_key index = c.sha256 (chain_key ++ codes "bt-sk-msg" ++ be_bytes index)

  unfoldable pub next_chain_key : Bytes → Bytes
  next_chain_key chain_key = c.sha256 (chain_key ++ codes "bt-sk-chain" ++ codes "advance")

  -- `DeriveMessageKey`: the message key and the advanced sender key.
  unfoldable pub advance : SenderKey → SenderKey
  advance k = record k {
    chain_key = next_chain_key k.chain_key;
    chain_index = (k.chain_index + 1) % 2 ^ 32;
  }

  unfoldable pub derive_message_key : SenderKey → Bytes × SenderKey
  derive_message_key k = (message_key_of k.chain_key k.chain_index, advance k)

  -- `GenerateSenderKey`; the two arguments are what the random readers yield.
  unfoldable pub generate_sender_key : Option Bytes → Bytes → Bytes → Bytes → Option SenderKey
  generate_sender_key chain_key seed group_id sender_pubkey = elim chain_key [
    | none ↦ none
    | some key ↦ elim (c.generate_key seed) [
      | none ↦ none
      | some (public, private) ↦ some (record {
        group_id = group_id;
        sender_pubkey = sender_pubkey;
        chain_key = key;
        signing_key = public;
        signing_key_priv = private;
        chain_index = 0;
        epoch = 1;
      })
    ]
  ]
