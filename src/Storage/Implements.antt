-- ===== src/Storage/Implements.antt =====
-- Each write to the store in memory does what the promise says (pkg/storage/memory.go).
use mathlib.Core.Path.{fun_ext}
use babylontower.Prelude.{
  ◌≡◌, refl, ap, ◌∙◌, none, some, List, [], ◌∷◌, ◌++◌, Bytes, bytes_dec, ok, arith, Option-cases,
  inl, inr,
}
use babylontower.Prelude.Assoc.{Assoc, lookup, insert, delete, lookup-insert, lookup-delete}
use babylontower.Groups.State.{PbGroupState}
use babylontower.SenderKeys.Key.{SenderKeyDistribution}
use babylontower.Storage.Records.{
  Contact, SignedEnvelope, PeerRecord, BlacklistEntry, ChannelState, ChannelPost,
}
use babylontower.Storage.Memory.{
  MemoryStorage, lookup_nil, delete_nil, entries, messages_of, add_contact, delete_contact,
  add_message, delete_messages, add_peer, delete_peer, set_config, delete_config, blacklist_peer,
  remove_from_blacklist, save_group, delete_group, save_sender_key, delete_sender_key,
  delete_all_sender_keys, save_channel, delete_channel, save_channel_post,
}
use babylontower.Storage.Spec.{
  Op, contact_added, message_added, peer_added, config_set, peer_blacklisted, group_saved,
  sender_key_saved, channel_saved, post_saved, contact_deleted, messages_deleted, peer_deleted,
  config_deleted, unblacklisted, group_deleted, sender_keys_deleted, channel_deleted,
  sender_key_deleted, update, step,
}
use babylontower.Storage.Refinement.{
  write, view, insert-update, delete-update, insert-two_keys, delete-two_keys, absent-two_keys,
  delete-group-two_keys, insert-unlinked, delete-unlinked, channels_of, touch_channel-dated,
}

-- The contents of a store none of whose maps is nil.
pub record Maps : Type 0 where
  pub contacts : Assoc Bytes Contact
  pub messages : Assoc Bytes (List SignedEnvelope)
  pub peers : Assoc Bytes PeerRecord
  pub configs : Assoc Bytes Bytes
  pub blacklist : Assoc Bytes BlacklistEntry
  pub groups : Assoc Bytes PbGroupState
  pub sender_keys : Assoc Bytes (Assoc Bytes SenderKeyDistribution)
  pub channels : Assoc Bytes ChannelState
  pub channel_posts : Assoc Bytes (Assoc Bytes ChannelPost)

abbrev pub store : Maps → MemoryStorage
store m = record {
  contacts = m.contacts;
  messages = m.messages;
  peers = m.peers;
  configs = m.configs;
  blacklist = m.blacklist;
  groups = some m.groups;
  sender_keys = some m.sender_keys;
  channels = some m.channels;
  channel_posts = some m.channel_posts;
}

abbrev pub Implements : Op → Maps → Type 0
Implements op m =
    (m' : Maps) × (write op (store m) ≡ (store m', ok tt))
    × (view (store m') ≡ step op (view (store m)))

insert-messages :
    (k : Bytes) (e : SignedEnvelope) (m : Assoc Bytes (List SignedEnvelope))
    → (λ j.
        messages_of (
          lookup bytes_dec j (insert bytes_dec k (messages_of (lookup bytes_dec k m) ++ e ∷ []) m)))
      ≡ update k
          (messages_of (lookup bytes_dec k m) ++ e ∷ [])
          (λ j. messages_of (lookup bytes_dec j m))
insert-messages k e m = fun_ext λ j.
    ground (arith, lookup-insert bytes_dec k j (messages_of (lookup bytes_dec k m) ++ e ∷ []) m)

delete-messages :
    (k : Bytes) (m : Assoc Bytes (List SignedEnvelope))
    → (λ j. messages_of (lookup bytes_dec j (delete bytes_dec k m)))
      ≡ update k [] (λ j. messages_of (lookup bytes_dec j m))
delete-messages k m = fun_ext λ j. ground (arith, lookup-delete bytes_dec k j m)

pub write-Implements : (op : Op) (m : Maps) → Implements op m
unfolding write step view add_contact delete_contact add_message delete_messages add_peer
    delete_peer set_config delete_config blacklist_peer remove_from_blacklist save_group
    delete_group save_sender_key delete_sender_key delete_all_sender_keys save_channel
    delete_channel save_channel_post lookup_nil delete_nil
write-Implements (contact_added c) m = (
  record m { contacts = insert bytes_dec c.public_key c m.contacts },
  refl,
  ap (λ f. record (view (store m)) { contact = f }) (insert-update c.public_key c m.contacts),
)
write-Implements (message_added k e) m = (
  record m {
    messages =
        insert bytes_dec k (messages_of (lookup bytes_dec k m.messages) ++ e ∷ []) m.messages;
  },
  refl,
  ap (λ f. record (view (store m)) { messages = f }) (insert-messages k e m.messages),
)
write-Implements (peer_added p) m = (
  record m { peers = insert bytes_dec p.peer_id p m.peers },
  refl,
  ap (λ f. record (view (store m)) { peer = f }) (insert-update p.peer_id p m.peers),
)
write-Implements (config_set k x) m = (
  record m { configs = insert bytes_dec k x m.configs },
  refl,
  ap (λ f. record (view (store m)) { config = f }) (insert-update k x m.configs),
)
write-Implements (peer_blacklisted now k reason) m =
    let entry : BlacklistEntry = record {
      peer_id = k;
      reason = reason;
      blacklisted_at = now;
      expires_at = none;
    } in
    (
      record m { blacklist = insert bytes_dec k entry m.blacklist },
      refl,
      ap (λ f. record (view (store m)) { blacklisted = f }) (insert-update k entry m.blacklist),
    )
write-Implements (group_saved g) m = (
  record m { groups = insert bytes_dec g.group_id g m.groups },
  refl,
  ap (λ f. record (view (store m)) { group = f }) (insert-update g.group_id g m.groups),
)
write-Implements (sender_key_saved k) m = (
  record m {
    sender_keys =
        insert bytes_dec k.group_id
          (insert bytes_dec k.sender_pub k (entries (lookup bytes_dec k.group_id m.sender_keys)))
          m.sender_keys;
  },
  refl,
  ap (λ f. record (view (store m)) { sender_key = f })
      (insert-two_keys k.group_id k.sender_pub k m.sender_keys),
)
write-Implements (channel_saved c) m = (
  record m { channels = insert bytes_dec c.channel_id c m.channels },
  refl,
  ap (λ f. record (view (store m)) { channel = f }) (insert-unlinked c m.channels),
)
write-Implements (post_saved p) m =
    let (channels, e, touch) = touch_channel-dated p m.channels in
    (
      record m {
        channel_posts =
            insert bytes_dec p.channel_id
              (insert bytes_dec p.post_id p
                (entries (lookup bytes_dec p.channel_id m.channel_posts)))
              m.channel_posts;
        channels = channels;
      },
      rw e,
      ap (λ f. record (view (store m)) { post = f; channel = channels_of channels })
            (insert-two_keys p.channel_id p.post_id p m.channel_posts)
          ∙ ap (λ f. record (step (post_saved p) (view (store m))) { channel = f }) touch,
    )
write-Implements (contact_deleted k) m = (
  record m { contacts = delete bytes_dec k m.contacts },
  refl,
  ap (λ f. record (view (store m)) { contact = f }) (delete-update k m.contacts),
)
write-Implements (messages_deleted k) m = (
  record m { messages = delete bytes_dec k m.messages },
  refl,
  ap (λ f. record (view (store m)) { messages = f }) (delete-messages k m.messages),
)
write-Implements (peer_deleted k) m = (
  record m { peers = delete bytes_dec k m.peers },
  refl,
  ap (λ f. record (view (store m)) { peer = f }) (delete-update k m.peers),
)
write-Implements (config_deleted k) m = (
  record m { configs = delete bytes_dec k m.configs },
  refl,
  ap (λ f. record (view (store m)) { config = f }) (delete-update k m.configs),
)
write-Implements (unblacklisted k) m = (
  record m { blacklist = delete bytes_dec k m.blacklist },
  refl,
  ap (λ f. record (view (store m)) { blacklisted = f }) (delete-update k m.blacklist),
)
write-Implements (group_deleted k) m = (
  record m { groups = delete bytes_dec k m.groups },
  refl,
  ap (λ f. record (view (store m)) { group = f }) (delete-update k m.groups),
)
write-Implements (sender_keys_deleted k) m = (
  record m { sender_keys = delete bytes_dec k m.sender_keys },
  refl,
  ap (λ f. record (view (store m)) { sender_key = f }) (delete-group-two_keys k m.sender_keys),
)
write-Implements (channel_deleted k) m = (
  record m { channels = delete bytes_dec k m.channels },
  refl,
  ap (λ f. record (view (store m)) { channel = f }) (delete-unlinked k m.channels),
)
write-Implements (sender_key_deleted g k) m =
    elim (Option-cases (lookup bytes_dec g m.sender_keys)) [
      | inl e ↦ (
        m,
        rw (e, delete_sender_key),
        ap (λ f. record (view (store m)) { sender_key = f }) (absent-two_keys g k m.sender_keys e),
      )
      | inr (keys, e) ↦ (
        record m { sender_keys = insert bytes_dec g (delete bytes_dec k keys) m.sender_keys },
        rw (e, delete_sender_key),
        ap (λ f. record (view (store m)) { sender_key = f })
            (delete-two_keys g k keys m.sender_keys e),
      )
    ]
