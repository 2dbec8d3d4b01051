-- ===== src/Channels/Tests.antt =====
-- A service over the store in memory.
use babylontower.Prelude.{
  ◌≡◌, refl, some, [], ◌∷◌, ◌++◌, Bytes, true, false, bytes_dec, ite, if_pos, replicate, take,
  codes, ok, err, arith,
}
use babylontower.Prelude.Int.{ℤ_discrete}
use babylontower.Prelude.Assoc.{lookup, insert}
use babylontower.Storage.Memory.{new_memory_storage, save_channel, save_channel_post, touch_channel}
use babylontower.Channels.State.{
  private_channel, public_channel, ChannelState, ChannelCrypto, raw, to_proto, sign, verify,
  serialize, sign_post, serialize_post, post_to_proto, content_to_proto, ed25519_verify,
  ed25519_sign,
}
use babylontower.Channels.Store.{memory_channels, memory_stored, memory_channels-IsChannelStore}
use babylontower.Channels.Service.{
  ChannelService, new_channel_service, create_channel, get_channel, publish_channel, new_channel,
  store_channel,
}
use babylontower.Channels.Posting.{create_post, new_post, store_post, update_latest}
use babylontower.Channels.Subscriptions.{subscribe, store_count}
use babylontower.Channels.Sync.{IsKeyPair, IsSynced}
use babylontower.Channels.Runs.{Reached, started, created, posted, get_channel-IsSynced}

-- The signature is the public key, half of the private one, with the text.
abbrev tagged : ChannelCrypto
tagged = record {
  marshal_channel = λ s. some (s.subscriber_count ∷ s.latest_post_cid);
  marshal_post = λ p. some p.post_id;
  sha256 = λ b. b;
  sign = λ key body. 9 ∷ take 32 key ++ body;
  verify = λ key body signature. ite (bytes_dec (9 ∷ key ++ body) signature) true false;
}

abbrev me : Bytes
me = replicate 32 5

abbrev mine : Bytes
mine = me ++ me

tagged-IsKeyPair : IsKeyPair tagged mine me
tagged-IsKeyPair = record {
  verifies = λ body. if_pos (bytes_dec (9 ∷ me ++ body) (9 ∷ me ++ body)) refl true false;
  is_signature = λ body. omega arith;
  is_key = refl;
}

abbrev Service : Type 0
Service = ChannelService tagged memory_channels

abbrev id : Bytes
id = 1 ∷ []

abbrev empty : Service
empty = new_channel_service tagged memory_channels new_memory_storage me mine

abbrev with_channel : Service
with_channel =
    (create_channel tagged memory_channels (some []) (some id) 7 (codes "news") [] private_channel
      empty).0

abbrev with_post : Service
with_post =
    (create_post tagged memory_channels (some (2 ∷ [])) 8 id (raw (codes "hi")) with_channel).0

abbrev found : ChannelState
found = elim (get_channel tagged memory_channels id with_post) [
  | ok x ↦ x
  | err e ↦ new_channel tagged memory_channels id 0 [] [] private_channel me
]

reached : Reached tagged memory_channels me mine with_post
unfolding create_channel create_post publish_channel store_channel new_channel sign serialize
    to_proto save_channel new_channel_service new_memory_storage new_post sign_post serialize_post
    post_to_proto content_to_proto store_post update_latest save_channel_post touch_channel
    get_channel lookup insert bytes_dec ℤ_discrete verify ed25519_verify ed25519_sign subscribe
    store_count
reached =
    posted
      (created (started new_memory_storage) (some []) (some id) 7 (codes "news") [] private_channel
        refl refl)
      (some (2 ∷ [])) 8 id (raw (codes "hi")) refl

is_found : get_channel tagged memory_channels id with_post ≡ ok found
unfolding create_channel create_post publish_channel store_channel new_channel sign serialize
    to_proto save_channel new_channel_service new_memory_storage new_post sign_post serialize_post
    post_to_proto content_to_proto store_post update_latest save_channel_post touch_channel
    get_channel lookup insert bytes_dec ℤ_discrete verify ed25519_verify ed25519_sign subscribe
    store_count
is_found = refl

get_channel-IsSynced_example :
    IsSynced tagged me (memory_stored with_post.storage) with_post.subscribers id found
get_channel-IsSynced_example =
    get_channel-IsSynced tagged memory_channels me mine with_post id found
      memory_channels-IsChannelStore tagged-IsKeyPair reached is_found

abbrev open_channel : Service
open_channel =
    (create_channel tagged memory_channels (some []) (some id) 7 (codes "news") [] public_channel
      empty).0

abbrev joined : Service
joined = (subscribe tagged memory_channels 9 id (3 ∷ []) open_channel).0

-- Subscribe changes the count, which is signed, and does not sign again: the channel that it stores does
-- not verify.
joined_channel_fails :
    (x : ChannelState) × (get_channel tagged memory_channels id joined ≡ ok x)
    × (verify tagged me x ≡ some false)
unfolding create_channel create_post publish_channel store_channel new_channel sign serialize
    to_proto save_channel new_channel_service new_memory_storage new_post sign_post serialize_post
    post_to_proto content_to_proto store_post update_latest save_channel_post touch_channel
    get_channel lookup insert bytes_dec ℤ_discrete verify ed25519_verify ed25519_sign subscribe
    store_count
joined_channel_fails = (
  record (new_channel tagged memory_channels id 7 (codes "news") [] public_channel me) {
    subscriber_count = 1;
    state_signature = 9 ∷ me ++ 0 ∷ [];
  },
  refl,
  refl,
)
