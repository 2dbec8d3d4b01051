-- ===== src/Storage/Spec.antt =====
-- What pkg/storage promises, without maps: a store answers each key by itself.
use babylontower.Prelude.{ℕ, Option, none, some, List, [], ◌∷◌, ◌++◌, Bytes, ite, bytes_dec}
use babylontower.Groups.State.{PbGroupState}
use babylontower.SenderKeys.Key.{SenderKeyDistribution}
use babylontower.Storage.Records.{
  Contact, SignedEnvelope, PeerRecord, BlacklistEntry, ChannelState, ChannelPost,
}

-- What a store is asked for.
pub record View : Type 0 where
  pub contact : Bytes → Option Contact
  pub messages : Bytes → List SignedEnvelope
  pub peer : Bytes → Option PeerRecord
  pub config : Bytes → Option Bytes
  pub blacklisted : Bytes → Option BlacklistEntry
  pub group : Bytes → Option PbGroupState
  pub sender_key : Bytes → Bytes → Option SenderKeyDistribution
  pub channel : Bytes → Option ChannelState
  pub post : Bytes → Bytes → Option ChannelPost

-- The writes of the interface `Storage`.
pub data Op : Type 0 where
  contact_added : Contact → Op
  message_added : Bytes → SignedEnvelope → Op
  peer_added : PeerRecord → Op
  config_set : Bytes → Bytes → Op
  peer_blacklisted : ℕ → Bytes → Bytes → Op
  group_saved : PbGroupState → Op
  sender_key_saved : SenderKeyDistribution → Op
  channel_saved : ChannelState → Op
  post_saved : ChannelPost → Op
  contact_deleted messages_deleted peer_deleted config_deleted unblacklisted : Bytes → Op
  group_deleted sender_keys_deleted channel_deleted : Bytes → Op
  sender_key_deleted : Bytes → Bytes → Op

-- `f` with another value at one key.
abbrev pub update {ℓ} : {V : Type ℓ} → Bytes → V → (Bytes → V) → Bytes → V
update k v f j = ite (bytes_dec k j) v (f j)

-- A channel without the content id of its latest post, of which nothing is promised.
abbrev pub unlinked : ChannelState → ChannelState
unlinked c = record c { latest_post_cid = [] }

-- A channel, if it is there, has the time of the latest post.
abbrev pub dated : ℕ → Option ChannelState → Option ChannelState
dated time none = none
dated time (some c) = some (record c { updated_at = time })

unfoldable pub step : Op → View → View
step (contact_added c) v = record v { contact = update c.public_key (some c) v.contact }
step (message_added k e) v = record v { messages = update k (v.messages k ++ e ∷ []) v.messages }
step (peer_added p) v = record v { peer = update p.peer_id (some p) v.peer }
step (config_set k x) v = record v { config = update k (some x) v.config }
step (peer_blacklisted now k reason) v = record v {
  blacklisted =
      update k
        (some (record { peer_id = k; reason = reason; blacklisted_at = now; expires_at = none }))
        v.blacklisted;
}
step (group_saved g) v = record v { group = update g.group_id (some g) v.group }
step (sender_key_saved k) v = record v {
  sender_key =
      update k.group_id (update k.sender_pub (some k) (v.sender_key k.group_id)) v.sender_key;
}
step (channel_saved c) v = record v { channel = update c.channel_id (some (unlinked c)) v.channel }
step (post_saved p) v = record v {
  post = update p.channel_id (update p.post_id (some p) (v.post p.channel_id)) v.post;
  channel = update p.channel_id (dated p.timestamp (v.channel p.channel_id)) v.channel;
}
step (contact_deleted k) v = record v { contact = update k none v.contact }
step (messages_deleted k) v = record v { messages = update k [] v.messages }
step (peer_deleted k) v = record v { peer = update k none v.peer }
step (config_deleted k) v = record v { config = update k none v.config }
step (unblacklisted k) v = record v { blacklisted = update k none v.blacklisted }
step (group_deleted k) v = record v { group = update k none v.group }
step (sender_keys_deleted k) v = record v { sender_key = update k (λ j. none) v.sender_key }
step (channel_deleted k) v = record v { channel = update k none v.channel }
step (sender_key_deleted g k) v = record v {
  sender_key = update g (update k none (v.sender_key g)) v.sender_key;
}

unfoldable pub steps : List Op → View → View
steps [] v = v
steps (op ∷ ops) v = steps ops (step op v)

unfoldable pub empty_view : View
empty_view = record {
  contact = λ k. none;
  messages = λ k. [];
  peer = λ k. none;
  config = λ k. none;
  blacklisted = λ k. none;
  group = λ k. none;
  sender_key = λ g k. none;
  channel = λ k. none;
  post = λ g k. none;
}
