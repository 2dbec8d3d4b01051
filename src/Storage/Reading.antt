-- ===== src/Storage/Reading.antt =====
-- `MemoryStorage` of pkg/storage/memory.go: the methods that read. A range over a Go map has an order
-- that may differ from call to call: a listing has that of the association list, and where an offset
-- selects from it, `order` is the order that this call sees. An `int` is of 64 bits.
use babylontower.Prelude.{
  ℕ, ◌+◌, ◌^◌, Option, none, some, List, [], ◌∷◌, Bytes, Bool, false, not, if◌then◌else◌, leb, ite,
  bytes_dec, map, take, drop, length, Result, ok, err,
}
use babylontower.Prelude.Int.{ℤ, pos, negsuc}
use babylontower.Prelude.Assoc.{lookup, values}
use babylontower.Groups.State.{PbGroupState}
use babylontower.SenderKeys.Key.{SenderKeyDistribution}
use babylontower.Storage.Records.{
  Contact, SignedEnvelope, MessageWithKey, PeerRecord, BlacklistEntry, ChannelState, ChannelPost,
  Error, is_expired, group_not_found, sender_key_not_found, contact_not_found, no_x25519_key,
  bad_base58, slice_out_of_range,
}
use babylontower.Storage.Memory.{MemoryStorage, entries, messages_of, lookup_nil}

unfoldable pub get_contact : Bytes → MemoryStorage → Option Contact
get_contact k s = lookup bytes_dec k s.contacts

-- `base58.Decode` is of the library base58.
unfoldable pub get_contact_by_base58 :
    (Bytes → Option Bytes) → Bytes → MemoryStorage → Result Error (Option Contact)
unfolding get_contact
get_contact_by_base58 decode text s = elim (decode text) [
  | none ↦ err bad_base58
  | some k ↦ ok (get_contact k s)
]

unfoldable pub get_contact_x25519_key : Bytes → MemoryStorage → Result Error Bytes
unfolding get_contact
get_contact_x25519_key k s = elim (get_contact k s) [
  | none ↦ err contact_not_found
  | some c ↦ elim c.x25519_public_key [ [] ↦ err no_x25519_key | b ∷ bs ↦ ok (b ∷ bs) ]
]

unfoldable pub list_contacts : MemoryStorage → List Contact
list_contacts s = values s.contacts

unfoldable pub contact_count : MemoryStorage → ℕ
contact_count s = length s.contacts

unfoldable pub message_count : Bytes → MemoryStorage → ℕ
message_count k s = length (messages_of (lookup bytes_dec k s.messages))

-- `start+limit < end` and `end = start + limit`: a sum that wraps around is negative, and `make`
-- panics.
abbrev pub limited : {A : Type 0} → ℕ → ℕ → List A → Result Error (List A)
limited limit start rest =
    if leb limit 0
    then ok rest
    else if leb (2 ^ 63) (start + limit)
    then err slice_out_of_range
    else ok (take limit rest)

-- A negative offset is below the length, and the slice panics.
abbrev pub window : {A : Type 0} → ℤ → ℤ → List A → Result Error (List A)
window limit (negsuc n) all = err slice_out_of_range
window (negsuc n) (pos start) all = if leb (length all) start then ok [] else ok (drop start all)
window (pos limit) (pos start) all =
    if leb (length all) start then ok [] else limited limit start (drop start all)

unfoldable pub get_messages : Bytes → ℤ → ℤ → MemoryStorage → Result Error (List SignedEnvelope)
get_messages k limit offset s = elim (lookup bytes_dec k s.messages) [
  | none ↦ ok []
  | some all ↦ window limit offset all
]

unfoldable pub get_messages_with_timestamps :
    Bytes → ℤ → ℤ → MemoryStorage → Result Error (List MessageWithKey)
unfolding get_messages
get_messages_with_timestamps k limit offset s = elim (get_messages k limit offset s) [
  | err e ↦ err e
  | ok envelopes ↦ ok (map (λ e. record { envelope = e; timestamp = 0; nonce = [] }) envelopes)
]

unfoldable pub get_peer : Bytes → MemoryStorage → Option PeerRecord
get_peer k s = lookup bytes_dec k s.peers

-- The range stops when `limit` peers are there.
unfoldable pub list_peers : ℤ → MemoryStorage → List PeerRecord
list_peers (negsuc n) s = values s.peers
list_peers (pos limit) s = if leb limit 0 then values s.peers else take limit (values s.peers)

abbrev pub from_source : Bytes → List PeerRecord → List PeerRecord
from_source source [] = []
from_source source (p ∷ ps) =
    let rest = from_source source ps in ite (bytes_dec p.source source) (p ∷ rest) rest

unfoldable pub list_peers_by_source : Bytes → MemoryStorage → List PeerRecord
list_peers_by_source source s = from_source source (values s.peers)

-- A missing key reads as the empty text.
unfoldable pub get_config : Bytes → MemoryStorage → Bytes
get_config k s = elim (lookup bytes_dec k s.configs) [ none ↦ [] | some v ↦ v ]

unfoldable pub is_blacklisted : ℕ → Bytes → MemoryStorage → Bool
unfolding is_expired
is_blacklisted now k s = elim (lookup bytes_dec k s.blacklist) [
  | none ↦ false
  | some entry ↦ not (is_expired now entry)
]

abbrev pub unexpired : ℕ → List BlacklistEntry → List BlacklistEntry
unexpired now [] = []
unexpired now (e ∷ es) = let rest = unexpired now es in if is_expired now e then rest else e ∷ rest

unfoldable pub list_blacklisted : ℕ → MemoryStorage → List BlacklistEntry
list_blacklisted now s = unexpired now (values s.blacklist)

unfoldable pub get_group : Bytes → MemoryStorage → Result Error PbGroupState
unfolding lookup_nil
get_group k s = elim (lookup_nil k s.groups) [ none ↦ err group_not_found | some g ↦ ok g ]

unfoldable pub list_groups : MemoryStorage → List PbGroupState
list_groups s = values (entries s.groups)

unfoldable pub get_sender_key : Bytes → Bytes → MemoryStorage → Result Error SenderKeyDistribution
unfolding lookup_nil
get_sender_key group_id sender s = elim (lookup_nil group_id s.sender_keys) [
  | none ↦ err sender_key_not_found
  | some keys ↦ elim (lookup bytes_dec sender keys) [
    | none ↦ err sender_key_not_found
    | some k ↦ ok k
  ]
]

unfoldable pub list_sender_keys : Bytes → MemoryStorage → List SenderKeyDistribution
unfolding lookup_nil
list_sender_keys group_id s = values (entries (lookup_nil group_id s.sender_keys))

-- `ErrGroupNotFound` is what the source returns here, too.
unfoldable pub get_channel : Bytes → MemoryStorage → Result Error ChannelState
unfolding lookup_nil
get_channel k s = elim (lookup_nil k s.channels) [ none ↦ err group_not_found | some c ↦ ok c ]

unfoldable pub list_channels : MemoryStorage → List ChannelState
list_channels s = values (entries s.channels)

-- The slices `posts[offset:]` and `posts[:limit]`; here no sum can wrap around.
abbrev pub posts_window : {A : Type 0} → ℤ → ℤ → List A → Result Error (List A)
posts_window limit (negsuc n) all = err slice_out_of_range
posts_window (negsuc n) (pos start) all =
    if leb (length all) start then ok [] else ok (drop start all)
posts_window (pos limit) (pos start) all =
    if leb (length all) start
    then ok []
    else if leb limit 0
    then ok (drop start all)
    else ok (take limit (drop start all))

unfoldable pub get_channel_posts :
    (List ChannelPost → List ChannelPost)
    → Bytes
    → ℤ
    → ℤ
    → MemoryStorage
    → Result Error (List ChannelPost)
unfolding lookup_nil
get_channel_posts order k limit offset s = elim (lookup_nil k s.channel_posts) [
  | none ↦ ok []
  | some posts ↦ posts_window limit offset (order (values posts))
]

unfoldable pub get_latest_channel_post_cid : Bytes → MemoryStorage → Option Bytes
unfolding lookup_nil
get_latest_channel_post_cid k s = elim (lookup_nil k s.channels) [
  | none ↦ none
  | some c ↦ some c.latest_post_cid
]
