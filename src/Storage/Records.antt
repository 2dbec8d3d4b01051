-- ===== src/Storage/Records.antt =====
-- The records of pkg/storage/storage.go and of the protobuf messages that it stores. Texts are byte
-- sequences; a `time.Time` is a number of nanoseconds, and `none` is the zero time.
use babylontower.Prelude.{ℕ, Option, none, some, List, Bytes, Bool, false, ltb}
use babylontower.Prelude.Int.{ℤ}

pub record Contact : Type 0 where
  pub public_key : Bytes
  pub display_name : Bytes
  pub created_at : ℕ
  pub x25519_public_key : Bytes
  pub peer_id : Bytes
  pub multiaddrs : List Bytes
  pub last_seen : ℕ

pub record SignedEnvelope : Type 0 where
  pub envelope : Bytes
  pub signature : Bytes
  pub sender_pubkey : Bytes
  pub encrypted_ephemeral_priv : Bytes

pub record MessageWithKey : Type 0 where
  pub envelope : SignedEnvelope
  pub timestamp : ℕ
  pub nonce : Bytes

pub record PeerRecord : Type 0 where
  pub peer_id : Bytes
  pub multiaddrs : List Bytes
  pub first_seen : ℕ
  pub last_seen : ℕ
  pub last_connected : ℕ
  pub connect_count : ℤ
  pub fail_count : ℤ
  pub source : Bytes
  pub protocols : List Bytes
  pub latency_ms : ℤ

pub record BlacklistEntry : Type 0 where
  pub peer_id : Bytes
  pub reason : Bytes
  pub blacklisted_at : ℕ
  pub expires_at : Option ℕ

-- `IsExpired`
unfoldable pub is_expired : ℕ → BlacklistEntry → Bool
is_expired now entry = elim entry.expires_at [ none ↦ false | some t ↦ ltb t now ]

pub record ChannelState : Type 0 where
  pub channel_id : Bytes
  pub name : Bytes
  pub description : Bytes
  pub avatar_cid : Bytes
  pub channel_type : ℤ
  pub owner_pubkey : Bytes
  pub created_at : ℕ
  pub updated_at : ℕ
  pub latest_post_cid : Bytes
  pub subscriber_count : ℕ
  pub state_signature : Bytes

-- The `oneof` of a post. Of the messages other than a text the bytes are kept.
pub data PbContent : Type 0 where
  no_content : PbContent
  text : Bytes → Bytes → PbContent  -- the text and its language
  media edit delete_msg : Bytes → PbContent

pub record ChannelPost : Type 0 where
  pub post_id : Bytes
  pub channel_id : Bytes
  pub author_pubkey : Bytes
  pub timestamp : ℕ
  pub content : PbContent
  pub previous_post_cid : Bytes
  pub signature : Bytes

pub data Error : Type 0 where
  group_not_found sender_key_not_found contact_not_found no_x25519_key bad_base58 : Error
  -- the panics of a write to a nil map and of a slice out of its bounds
  nil_map slice_out_of_range : Error
