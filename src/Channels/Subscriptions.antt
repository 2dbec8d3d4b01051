-- ===== src/Channels/Subscriptions.antt =====
-- `Subscribe`, `Unsubscribe` and `IsSubscribed` of pkg/groups/channel.go.
use babylontower.Prelude.{
  ℕ, Option, none, some, [], Bytes, Bool, true, false, if◌then◌else◌, length, bytes_dec, ok, err,
}
use babylontower.Prelude.Assoc.{Assoc, lookup, insert, delete}
use babylontower.Channels.State.{
  public_channel, ChannelState, ChannelCrypto, channel_not_found, invalid_channel_type, save_failed,
}
use babylontower.Channels.Store.{ChannelStore}
use babylontower.Channels.Service.{ChannelService, Method, put_channel, store_channel, is_type}

module _ (c : ChannelCrypto) (st : ChannelStore) where
  abbrev pub subscribers_or_nil : Option (Assoc Bytes ℕ) → Assoc Bytes ℕ
  subscribers_or_nil none = []
  subscribers_or_nil (some m) = m

  -- The count of the subscribers, and the channel stored with it; its signature stays.
  unfoldable pub store_count : ChannelState → Assoc Bytes ℕ → Method c st (Unit {0})
  unfolding store_channel
  store_count state m s =
      let counted = record state { subscriber_count = length m } in
      let (s', done) = store_channel c st counted (put_channel c st counted s) in
      (s', if done then ok tt else err save_failed)

  unfoldable pub subscribe : ℕ → Bytes → Bytes → Method c st (Unit {0})
  unfolding store_count
  subscribe now channel_id subscriber s = elim (lookup bytes_dec channel_id s.channels) [
    | none ↦ (s, err channel_not_found)
    | some state ↦
        let m =
          insert bytes_dec subscriber now
            (subscribers_or_nil (lookup bytes_dec channel_id s.subscribers)) in
        if is_type c st public_channel state
        then store_count state m
            (record s { subscribers = insert bytes_dec channel_id m s.subscribers })
        else (s, err invalid_channel_type)
  ]

  -- A channel without a map of subscribers has a nil map, in which `delete` does nothing.
  abbrev pub unsubscribed : Bytes → Bytes → ChannelService c st → ChannelService c st
  unsubscribed channel_id subscriber s = elim (lookup bytes_dec channel_id s.subscribers) [
    | none ↦ s
    | some m ↦ record s {
      subscribers = insert bytes_dec channel_id (delete bytes_dec subscriber m) s.subscribers;
    }
  ]

  unfoldable pub unsubscribe : Bytes → Bytes → Method c st (Unit {0})
  unfolding store_count
  unsubscribe channel_id subscriber s = elim (lookup bytes_dec channel_id s.channels) [
    | none ↦ (s, err channel_not_found)
    | some state ↦
        let s' = unsubscribed channel_id subscriber s in
        store_count state (subscribers_or_nil (lookup bytes_dec channel_id s'.subscribers)) s'
  ]

  unfoldable pub is_subscribed : Bytes → Bytes → ChannelService c st → Bool
  is_subscribed channel_id subscriber s =
      elim (lookup bytes_dec subscriber
        (subscribers_or_nil (lookup bytes_dec channel_id s.subscribers))) [
          | none ↦ false
          | some t ↦ true
        ]
