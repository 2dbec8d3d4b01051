-- ===== src/Storage/Refinement.antt =====
-- The store in memory keeps the promise (pkg/storage/memory.go).
use mathlib.Core.Path.{fun_ext}
use babylontower.Prelude.{
  ◌≡◌, ap, Option, none, some, Bytes, bytes_dec, arith, Option-cases, inl, inr,
}
use babylontower.Prelude.Assoc.{Assoc, lookup, insert, delete, lookup-insert, lookup-delete}
use babylontower.Storage.Records.{ChannelState, ChannelPost}
use babylontower.Storage.Memory.{
  MemoryStorage, Write, lookup_nil, entries, messages_of, add_contact, delete_contact, add_message,
  delete_messages, add_peer, delete_peer, set_config, delete_config, blacklist_peer,
  remove_from_blacklist, save_group, delete_group, save_sender_key, delete_sender_key,
  delete_all_sender_keys, save_channel, delete_channel, touch_channel, save_channel_post,
}
use babylontower.Storage.Spec.{
  View, Op, contact_added, message_added, peer_added, config_set, peer_blacklisted, group_saved,
  sender_key_saved, channel_saved, post_saved, contact_deleted, messages_deleted, peer_deleted,
  config_deleted, unblacklisted, group_deleted, sender_keys_deleted, channel_deleted,
  sender_key_deleted, update, unlinked, dated,
}

unfoldable pub write : Op → Write
write (contact_added c) = add_contact c
write (message_added k e) = add_message k e
write (peer_added p) = add_peer p
write (config_set k x) = set_config k x
write (peer_blacklisted now k reason) = blacklist_peer now k reason
write (group_saved g) = save_group g
write (sender_key_saved k) = save_sender_key k
write (channel_saved c) = save_channel c
write (post_saved p) = save_channel_post p
write (contact_deleted k) = delete_contact k
write (messages_deleted k) = delete_messages k
write (peer_deleted k) = delete_peer k
write (config_deleted k) = delete_config k
write (unblacklisted k) = remove_from_blacklist k
write (group_deleted k) = delete_group k
write (sender_keys_deleted k) = delete_all_sender_keys k
write (channel_deleted k) = delete_channel k
write (sender_key_deleted g k) = delete_sender_key g k

-- A lookup in two steps.
abbrev pub lookup_in : {V : Type 0} → Bytes → Option (Assoc Bytes V) → Option V
lookup_in k none = none
lookup_in k (some m) = lookup bytes_dec k m

-- The channels of a map, without their links.
abbrev pub unlinked_of : Option ChannelState → Option ChannelState
unlinked_of none = none
unlinked_of (some c) = some (unlinked c)

abbrev pub channels_of : Assoc Bytes ChannelState → Bytes → Option ChannelState
channels_of m k = unlinked_of (lookup bytes_dec k m)

unfoldable pub view : MemoryStorage → View
view s = record {
  contact = λ k. lookup bytes_dec k s.contacts;
  messages = λ k. messages_of (lookup bytes_dec k s.messages);
  peer = λ k. lookup bytes_dec k s.peers;
  config = λ k. lookup bytes_dec k s.configs;
  blacklisted = λ k. lookup bytes_dec k s.blacklist;
  group = λ k. lookup_nil k s.groups;
  sender_key = λ g k. lookup_in k (lookup_nil g s.sender_keys);
  channel = λ k. unlinked_of (lookup_nil k s.channels);
  post = λ g k. lookup_in k (lookup_nil g s.channel_posts);
}

pub insert-update :
    {V : Type 0} (k : Bytes) (v : V) (m : Assoc Bytes V)
    → (λ j. lookup bytes_dec j (insert bytes_dec k v m))
      ≡ update k (some v) (λ j. lookup bytes_dec j m)
insert-update k v m = fun_ext λ j. lookup-insert bytes_dec k j v m

pub delete-update :
    {V : Type 0} (k : Bytes) (m : Assoc Bytes V)
    → (λ j. lookup bytes_dec j (delete bytes_dec k m)) ≡ update k none (λ j. lookup bytes_dec j m)
delete-update k m = fun_ext λ j. lookup-delete bytes_dec k j m

abbrev pub two_keys : {V : Type 0} → Assoc Bytes (Assoc Bytes V) → Bytes → Bytes → Option V
two_keys m g k = lookup_in k (lookup bytes_dec g m)

pub insert-two_keys :
    {V : Type 0} (g k : Bytes) (v : V) (m : Assoc Bytes (Assoc Bytes V))
    → two_keys (insert bytes_dec g (insert bytes_dec k v (entries (lookup bytes_dec g m))) m)
      ≡ update g (update k (some v) (two_keys m g)) (two_keys m)
unfolding lookup
insert-two_keys g k v m = fun_ext λ g'. fun_ext λ k'.
    let outer =
      lookup-insert bytes_dec g g' (insert bytes_dec k v (entries (lookup bytes_dec g m))) m in
    let inner = lookup-insert bytes_dec k k' v (entries (lookup bytes_dec g m)) in
    elim (Option-cases (lookup bytes_dec g m)) [
      | inl e ↦ ground arith
      | inr (keys, e) ↦ ground arith
    ]

pub delete-two_keys :
    {V : Type 0} (g k : Bytes) (keys : Assoc Bytes V) (m : Assoc Bytes (Assoc Bytes V))
    → lookup bytes_dec g m ≡ some keys
    → two_keys (insert bytes_dec g (delete bytes_dec k keys) m)
      ≡ update g (update k none (two_keys m g)) (two_keys m)
delete-two_keys g k keys m e = fun_ext λ g'. fun_ext λ k'. ground (
  arith,
  lookup-insert bytes_dec g g' (delete bytes_dec k keys) m,
  lookup-delete bytes_dec k k' keys,
)

pub absent-two_keys :
    {V : Type 0} (g k : Bytes) (m : Assoc Bytes (Assoc Bytes V))
    → lookup bytes_dec g m ≡ none
    → two_keys m ≡ update g (update k none (two_keys m g)) (two_keys m)
absent-two_keys g k m e = fun_ext λ g'. fun_ext λ k'. elim (bytes_dec g g') [
  | yes p ↦ let same = ap (λ x. lookup bytes_dec x m) p in ground arith
  | no n ↦ ground arith
]

pub delete-group-two_keys :
    {V : Type 0} (g : Bytes) (m : Assoc Bytes (Assoc Bytes V))
    → two_keys (delete bytes_dec g m) ≡ update g (λ k. none) (two_keys m)
delete-group-two_keys g m =
    fun_ext λ g'. fun_ext λ k'. ground (arith, lookup-delete bytes_dec g g' m)

pub insert-unlinked :
    (c : ChannelState) (m : Assoc Bytes ChannelState)
    → channels_of (insert bytes_dec c.channel_id c m)
      ≡ update c.channel_id (some (unlinked c)) (channels_of m)
insert-unlinked c m = fun_ext λ j. ground (arith, lookup-insert bytes_dec c.channel_id j c m)

pub delete-unlinked :
    (k : Bytes) (m : Assoc Bytes ChannelState)
    → channels_of (delete bytes_dec k m) ≡ update k none (channels_of m)
delete-unlinked k m = fun_ext λ j. ground (arith, lookup-delete bytes_dec k j m)

-- A post dates the channel that is there, and changes no other.
pub touch_channel-dated :
    (p : ChannelPost) (m : Assoc Bytes ChannelState)
    → (m' : Assoc Bytes ChannelState) × (touch_channel p (some m) ≡ some m')
      × (channels_of m'
          ≡ update p.channel_id (dated p.timestamp (channels_of m p.channel_id)) (channels_of m))
unfolding touch_channel
touch_channel-dated p m = elim (Option-cases (lookup bytes_dec p.channel_id m)) [
  | inl e ↦ (
    m,
    rw (e, touch_channel),
    fun_ext λ k. elim (bytes_dec p.channel_id k) [
      | yes q ↦ let eq = ap (λ x. lookup bytes_dec x m) q in ground arith
      | no n ↦ ground arith
    ],
  )
  | inr (c, e) ↦
      let c' = record c { latest_post_cid = p.previous_post_cid; updated_at = p.timestamp } in
      (
        insert bytes_dec p.channel_id c' m,
        rw (e, touch_channel),
        fun_ext λ k. ground (arith, lookup-insert bytes_dec p.channel_id k c' m),
      )
]
