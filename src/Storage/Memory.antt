-- ===== src/Storage/Memory.antt =====
-- `MemoryStorage` of pkg/storage/memory.go: the methods that write. Each holds the lock. The maps that
-- `Clone` leaves out are nil in the clone: `none`, which reads as an empty map and cannot be written.
use babylontower.Prelude.{
  ℕ, Option, none, some, List, [], ◌∷◌, ◌++◌, Bytes, bytes_dec, Result, ok, err,
}
use babylontower.Prelude.Assoc.{Assoc, lookup, insert, delete}
use babylontower.Groups.State.{PbGroupState}
use babylontower.SenderKeys.Key.{SenderKeyDistribution}
use babylontower.Storage.Records.{
  Contact, SignedEnvelope, PeerRecord, BlacklistEntry, ChannelState, ChannelPost, Error, nil_map,
}

-- A map that may be nil.
abbrev pub NilMap : (V : Type 0) → Type 0
NilMap V = Option (Assoc Bytes V)

pub record MemoryStorage : Type 0 where
  pub contacts : Assoc Bytes Contact
  pub messages : Assoc Bytes (List SignedEnvelope)
  pub peers : Assoc Bytes PeerRecord
  pub configs : Assoc Bytes Bytes
  pub blacklist : Assoc Bytes BlacklistEntry
  pub groups : NilMap PbGroupState
  pub sender_keys : NilMap (Assoc Bytes SenderKeyDistribution)
  pub channels : NilMap ChannelState
  pub channel_posts : NilMap (Assoc Bytes ChannelPost)

abbrev pub Write : Type 0
Write = MemoryStorage → MemoryStorage × Result Error (Unit {0})

abbrev pub entries : {V : Type 0} → Option (Assoc Bytes V) → Assoc Bytes V
entries none = []
entries (some m) = m

-- Reading and deleting in a map that may be nil.
unfoldable pub lookup_nil : {V : Type 0} → Bytes → NilMap V → Option V
lookup_nil k none = none
lookup_nil k (some m) = lookup bytes_dec k m

unfoldable pub delete_nil : {V : Type 0} → Bytes → NilMap V → NilMap V
delete_nil k none = none
delete_nil k (some m) = some (delete bytes_dec k m)

unfoldable pub new_memory_storage : MemoryStorage
new_memory_storage = record {
  contacts = [];
  messages = [];
  peers = [];
  configs = [];
  blacklist = [];
  groups = some [];
  sender_keys = some [];
  channels = some [];
  channel_posts = some [];
}

unfoldable pub add_contact : Contact → Write
add_contact c s = (record s { contacts = insert bytes_dec c.public_key c s.contacts }, ok tt)

unfoldable pub delete_contact : Bytes → Write
delete_contact k s = (record s { contacts = delete bytes_dec k s.contacts }, ok tt)

abbrev pub messages_of : Option (List SignedEnvelope) → List SignedEnvelope
messages_of none = []
messages_of (some ms) = ms

unfoldable pub add_message : Bytes → SignedEnvelope → Write
add_message k e s =
    let old = messages_of (lookup bytes_dec k s.messages) in
    (record s { messages = insert bytes_dec k (old ++ e ∷ []) s.messages }, ok tt)

unfoldable pub delete_messages : Bytes → Write
delete_messages k s = (record s { messages = delete bytes_dec k s.messages }, ok tt)

unfoldable pub add_peer : PeerRecord → Write
add_peer p s = (record s { peers = insert bytes_dec p.peer_id p s.peers }, ok tt)

unfoldable pub delete_peer : Bytes → Write
delete_peer k s = (record s { peers = delete bytes_dec k s.peers }, ok tt)

-- `PrunePeers` does nothing here.
unfoldable pub prune_peers : ℕ → ℕ → Write
prune_peers max_age_days keep_count s = (s, ok tt)

unfoldable pub set_config : Bytes → Bytes → Write
set_config k v s = (record s { configs = insert bytes_dec k v s.configs }, ok tt)

unfoldable pub delete_config : Bytes → Write
delete_config k s = (record s { configs = delete bytes_dec k s.configs }, ok tt)

unfoldable pub blacklist_peer : ℕ → Bytes → Bytes → Write
blacklist_peer now k reason s =
    let entry : BlacklistEntry = record {
      peer_id = k;
      reason = reason;
      blacklisted_at = now;
      expires_at = none;
    } in
    (record s { blacklist = insert bytes_dec k entry s.blacklist }, ok tt)

unfoldable pub remove_from_blacklist : Bytes → Write
remove_from_blacklist k s = (record s { blacklist = delete bytes_dec k s.blacklist }, ok tt)

unfoldable pub save_group : PbGroupState → Write
save_group g s = elim s.groups [
  | none ↦ (s, err nil_map)
  | some m ↦ (record s { groups = some (insert bytes_dec g.group_id g m) }, ok tt)
]

unfoldable pub delete_group : Bytes → Write
unfolding delete_nil
delete_group k s = (record s { groups = delete_nil k s.groups }, ok tt)

unfoldable pub save_sender_key : SenderKeyDistribution → Write
save_sender_key k s = elim s.sender_keys [
  | none ↦ (s, err nil_map)
  | some m ↦
      let keys = insert bytes_dec k.sender_pub k (entries (lookup bytes_dec k.group_id m)) in
      (record s { sender_keys = some (insert bytes_dec k.group_id keys m) }, ok tt)
]

-- A missing group has a nil map of keys, in which `delete` does nothing.
unfoldable pub delete_sender_key : Bytes → Bytes → Write
unfolding lookup_nil
delete_sender_key group_id sender s = elim s.sender_keys [
  | none ↦ (s, ok tt)
  | some m ↦ elim (lookup bytes_dec group_id m) [
    | none ↦ (s, ok tt)
    | some keys ↦ (
      record s { sender_keys = some (insert bytes_dec group_id (delete bytes_dec sender keys) m) },
      ok tt,
    )
  ]
]

unfoldable pub delete_all_sender_keys : Bytes → Write
unfolding delete_nil
delete_all_sender_keys k s = (record s { sender_keys = delete_nil k s.sender_keys }, ok tt)

unfoldable pub save_channel : ChannelState → Write
save_channel c s = elim s.channels [
  | none ↦ (s, err nil_map)
  | some m ↦ (record s { channels = some (insert bytes_dec c.channel_id c m) }, ok tt)
]

unfoldable pub delete_channel : Bytes → Write
unfolding delete_nil
delete_channel k s = (record s { channels = delete_nil k s.channels }, ok tt)

-- The channel that a map holds by pointer is changed in place, if it is there.
unfoldable pub touch_channel : ChannelPost → NilMap ChannelState → NilMap ChannelState
touch_channel p none = none
touch_channel p (some m) = elim (lookup bytes_dec p.channel_id m) [
  | none ↦ some m
  | some c ↦
      let c' = record c { latest_post_cid = p.previous_post_cid; updated_at = p.timestamp } in
      some (insert bytes_dec p.channel_id c' m)
]

unfoldable pub save_channel_post : ChannelPost → Write
unfolding touch_channel
save_channel_post p s = elim s.channel_posts [
  | none ↦ (s, err nil_map)
  | some m ↦
      let posts = insert bytes_dec p.post_id p (entries (lookup bytes_dec p.channel_id m)) in
      (
        record s {
          channel_posts = some (insert bytes_dec p.channel_id posts m);
          channels = touch_channel p s.channels;
        },
        ok tt,
      )
]

-- `Clear` renews two of the maps.
unfoldable pub clear : MemoryStorage → MemoryStorage
clear s = record s { contacts = []; messages = [] }

-- `Clone`; the copies of the records are equal values.
unfoldable pub clone : MemoryStorage → MemoryStorage
clone s = record s { groups = none; sender_keys = none; channels = none; channel_posts = none }
