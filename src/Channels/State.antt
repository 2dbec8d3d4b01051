-- ===== src/Channels/State.antt =====
-- The types of pkg/groups/channel.go, their protobuf form and their signatures.
use babylontower.Prelude.{
  ℕ, Option, none, some, [], ◌∷◌, ◌++◌, Bytes, Bool, false, if◌then◌else◌, ◌==◌, length, take,
  codes, Result, ok, err,
}
use babylontower.Prelude.Fallible.{◌>>=◌, or_fail}
use babylontower.Prelude.Int.{ℤ, pos}
use babylontower.Mailbox.Keys.{hex}
use babylontower.Storage.Records.{PbContent, no_content, text, media, edit, delete_msg}
use babylontower.Storage.Records as Pb

abbrev pub private_channel : ℤ
private_channel = pos 2

abbrev pub public_channel : ℤ
public_channel = pos 3

pub record ChannelState : Type 0 where
  pub channel_id : Bytes
  pub name : Bytes
  pub description : Bytes
  pub avatar_cid : Bytes
  pub channel_type : ℤ
  pub owner_pubkey : Bytes
  pub created_at : ℕ
  pub updated_at : ℕ
  pub latest_post_cid : Bytes
  pub subscriber_count : ℕ
  pub state_signature : Bytes

-- The dynamic types of the content that the code tells apart. Of any other value, `other` has what
-- `json.Marshal` makes of it.
pub data Content : Type 0 where
  text_message : Bytes → Bytes → Content
  media_message edit_message delete_message raw : Bytes → Content
  other : Option Bytes → Content

pub record ChannelPost : Type 0 where
  pub post_id : Bytes
  pub channel_id : Bytes
  pub author_pubkey : Bytes
  pub timestamp : ℕ
  pub content : Content
  pub previous_post_cid : Bytes
  pub signature : Bytes

pub data Error : Type 0 where
  not_channel_owner channel_not_found invalid_channel_type marshal_failed unsupported_content :
      Error
  save_failed : Error
  -- the panics of a slice out of its bounds, and of `ed25519.Sign` at a private key that has not 64 bytes
  slice_out_of_range bad_key_length : Error

-- The serialiser of google.golang.org/protobuf and the primitives of the Go library.
pub record ChannelCrypto : Type 0 where
  pub marshal_channel : Pb.ChannelState → Option Bytes
  pub marshal_post : Pb.ChannelPost → Option Bytes
  pub sha256 : Bytes → Bytes
  pub sign : Bytes → Bytes → Bytes
  pub verify : Bytes → Bytes → Bytes → Bool

-- `ChannelState.ToProto`
unfoldable pub to_proto : ChannelState → Pb.ChannelState
to_proto c = record {
  channel_id = c.channel_id;
  name = c.name;
  description = c.description;
  avatar_cid = c.avatar_cid;
  channel_type = c.channel_type;
  owner_pubkey = c.owner_pubkey;
  created_at = c.created_at;
  updated_at = c.updated_at;
  latest_post_cid = c.latest_post_cid;
  subscriber_count = c.subscriber_count;
  state_signature = c.state_signature;
}

-- `ChannelStateFromProto`
unfoldable pub channel_state_from_proto : Pb.ChannelState → ChannelState
channel_state_from_proto c = record {
  channel_id = c.channel_id;
  name = c.name;
  description = c.description;
  avatar_cid = c.avatar_cid;
  channel_type = c.channel_type;
  owner_pubkey = c.owner_pubkey;
  created_at = c.created_at;
  updated_at = c.updated_at;
  latest_post_cid = c.latest_post_cid;
  subscriber_count = c.subscriber_count;
  state_signature = c.state_signature;
}

unfoldable pub content_to_proto : Content → Result Error PbContent
content_to_proto (text_message t language) = ok (text t language)
content_to_proto (media_message b) = ok (media b)
content_to_proto (edit_message b) = ok (edit b)
content_to_proto (delete_message b) = ok (delete_msg b)
content_to_proto (raw b) = ok (text b [])
content_to_proto (other none) = err unsupported_content
content_to_proto (other (some json)) = ok (text json [])

unfoldable pub content_from_proto : PbContent → Content
content_from_proto no_content = raw []
content_from_proto (text t language) = text_message t language
content_from_proto (media b) = media_message b
content_from_proto (edit b) = edit_message b
content_from_proto (delete_msg b) = delete_message b

-- `ChannelPost.ToProto`
unfoldable pub post_to_proto : ChannelPost → Result Error Pb.ChannelPost
unfolding content_to_proto
post_to_proto p = do
  content ← content_to_proto p.content
  ok (record {
    post_id = p.post_id;
    channel_id = p.channel_id;
    author_pubkey = p.author_pubkey;
    timestamp = p.timestamp;
    content = content;
    previous_post_cid = p.previous_post_cid;
    signature = p.signature;
  })

-- `ChannelPostFromProto`
unfoldable pub channel_post_from_proto : Pb.ChannelPost → ChannelPost
unfolding content_from_proto
channel_post_from_proto p = record {
  post_id = p.post_id;
  channel_id = p.channel_id;
  author_pubkey = p.author_pubkey;
  timestamp = p.timestamp;
  content = content_from_proto p.content;
  previous_post_cid = p.previous_post_cid;
  signature = p.signature;
}

module _ (c : ChannelCrypto) where
  -- `ed25519.Verify`, `none` where it panics.
  unfoldable pub ed25519_verify : Bytes → Bytes → Bytes → Option Bool
  ed25519_verify public body signature =
      if length public == 32 then some (c.verify public body signature) else none

  -- `ed25519.Sign`, likewise.
  unfoldable pub ed25519_sign : Bytes → Bytes → Option Bytes
  ed25519_sign priv body = if length priv == 64 then some (c.sign priv body) else none

  -- `ChannelState.Serialize`, without the signature.
  unfoldable pub serialize : ChannelState → Option Bytes
  unfolding to_proto
  serialize s = c.marshal_channel (record (to_proto s) { state_signature = [] })

  -- `ChannelState.Sign`
  unfoldable pub sign : Bytes → ChannelState → Result Error ChannelState
  unfolding serialize
  sign priv s = do
    body ← or_fail (serialize s) marshal_failed
    signature ← or_fail (ed25519_sign priv body) bad_key_length
    ok (record s { state_signature = signature })

  -- `ChannelState.Verify`
  unfoldable pub verify : Bytes → ChannelState → Option Bool
  unfolding serialize ed25519_verify
  verify public s = elim s.state_signature [
    | [] ↦ some false
    | b ∷ bs ↦ elim (serialize s) [
      | none ↦ some false
      | some body ↦ ed25519_verify public body s.state_signature
    ]
  ]

  -- `ChannelPost.Serialize`, without the signature.
  unfoldable pub serialize_post : ChannelPost → Result Error Bytes
  unfolding post_to_proto
  serialize_post p = do
    pb ← post_to_proto p
    or_fail (c.marshal_post (record pb { signature = [] })) marshal_failed

  -- `ChannelPost.Sign`
  unfoldable pub sign_post : Bytes → ChannelPost → Result Error ChannelPost
  unfolding serialize_post
  sign_post priv p = do
    body ← serialize_post p
    signature ← or_fail (ed25519_sign priv body) bad_key_length
    ok (record p { signature = signature })

  -- `ChannelPost.Verify`
  unfoldable pub verify_post : Bytes → ChannelPost → Option Bool
  unfolding serialize_post ed25519_verify
  verify_post public p = elim p.signature [
    | [] ↦ some false
    | b ∷ bs ↦ elim (serialize_post p) [
      | err e ↦ some false
      | ok body ↦ ed25519_verify public body p.signature
    ]
  ]

  unfoldable pub compute_channel_id : Bytes → Bytes
  compute_channel_id name = take 16 (c.sha256 name)

  unfoldable pub get_channel_topic : Bytes → Bytes
  unfolding hex
  get_channel_topic channel_id = codes "babylon-ch-" ++ hex (take 8 (c.sha256 channel_id))
