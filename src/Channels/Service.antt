-- ===== src/Channels/Service.antt =====
-- `ChannelService` of pkg/groups/channel.go over a store. A method holds the lock, so it is one step; an
-- error keeps what was changed before it. The cache holds channels by pointer: a change of a channel is
-- a change of its entry, which stands under the id of the channel. Maps keyed by the hex text of an id are keyed by the id. The clock and what the
-- random reader yields are arguments.
use babylontower.Prelude.{
  ℕ, Option, none, some, List, [], Bytes, Bool, true, false, ◌||◌, if◌then◌else◌, ltb, length,
  replicate, ite, bytes_dec, Result, ok, err, Action,
}
use babylontower.Prelude.Int.{ℤ, ℤ_discrete}
use babylontower.Prelude.Assoc.{Assoc, lookup, insert, delete, values}
use babylontower.Prelude.Sorting.{swap_sort}
use babylontower.Storage.Reading.{posts_window}
use babylontower.Channels.State.{
  private_channel, public_channel, ChannelState, ChannelPost, Error, ChannelCrypto,
  not_channel_owner, channel_not_found, invalid_channel_type, save_failed, slice_out_of_range,
  to_proto, sign,
}
use babylontower.Channels.Store.{ChannelStore}

module _ (c : ChannelCrypto) (st : ChannelStore) where
  pub record ChannelService : Type 0 where
    pub storage : st.State
    pub identity_sign_pub : Bytes
    pub identity_sign_priv : Bytes
    pub channels : Assoc Bytes ChannelState
    pub posts : Assoc Bytes (Assoc Bytes ChannelPost)
    pub subscribers : Assoc Bytes (Assoc Bytes ℕ)

  abbrev pub Method : (A : Type 0) → Type 0
  Method A = Action ChannelService Error A

  -- `NewChannelService`
  unfoldable pub new_channel_service : st.State → Bytes → Bytes → ChannelService
  new_channel_service storage public priv = record {
    storage = storage;
    identity_sign_pub = public;
    identity_sign_priv = priv;
    channels = [];
    posts = [];
    subscribers = [];
  }

  abbrev pub put_channel : ChannelState → ChannelService → ChannelService
  put_channel state s = record s { channels = insert bytes_dec state.channel_id state s.channels }

  -- `storeChannel`: the store afterwards, and whether it took the channel.
  unfoldable pub store_channel : ChannelState → ChannelService → ChannelService × Bool
  unfolding to_proto
  store_channel state s =
      let (storage, done) = st.save (to_proto state) s.storage in
      (record s { storage = storage }, done)

  -- An id of random bytes, or of zeros where the reader fails.
  abbrev pub id_or_zeros : ℕ → Option Bytes → Bytes
  id_or_zeros size none = replicate size 0
  id_or_zeros size (some id) = id

  -- `CreateChannel` reads two random ids and takes the second.
  abbrev pub channel_id_of : Option Bytes → Option Bytes → Bytes
  channel_id_of none second = replicate 32 0
  channel_id_of (some first) second = id_or_zeros 32 second

  abbrev pub is_type : ℤ → ChannelState → Bool
  is_type kind state = ite (ℤ_discrete state.channel_type kind) true false

  unfoldable pub new_channel : Bytes → ℕ → Bytes → Bytes → ℤ → Bytes → ChannelState
  new_channel channel_id now name description channel_type owner = record {
    channel_id = channel_id;
    name = name;
    description = description;
    avatar_cid = [];
    channel_type = channel_type;
    owner_pubkey = owner;
    created_at = now;
    updated_at = now;
    latest_post_cid = [];
    subscriber_count = 0;
    state_signature = [];
  }

  -- The caches of a new channel.
  abbrev pub cache_channel : ChannelState → ChannelService → ChannelService
  cache_channel state s = record (put_channel state s) {
    posts = insert bytes_dec state.channel_id [] s.posts;
    subscribers =
        if is_type public_channel state
        then insert bytes_dec state.channel_id [] s.subscribers
        else s.subscribers;
  }

  -- Signing, storing and caching a new channel.
  unfoldable pub publish_channel : ChannelState → Method ChannelState
  unfolding sign store_channel
  publish_channel state s = elim (sign c s.identity_sign_priv state) [
    | err e ↦ (s, err e)
    | ok signed ↦
        let (s', done) = store_channel signed s in
        if done then (cache_channel signed s', ok signed) else (s', err save_failed)
  ]

  unfoldable pub create_channel :
      Option Bytes → Option Bytes → ℕ → Bytes → Bytes → ℤ → Method ChannelState
  unfolding new_channel publish_channel
  create_channel first second now name description channel_type s =
      let state =
        new_channel (channel_id_of first second) now name description channel_type
          s.identity_sign_pub in
      if is_type private_channel state || is_type public_channel state
      then publish_channel state s
      else (s, err invalid_channel_type)

  -- Removing a channel from the store and the caches.
  unfoldable pub remove_channel : Bytes → Method (Unit {0})
  remove_channel channel_id s =
      let (storage, done) = st.remove channel_id s.storage in
      let s' = record s { storage = storage } in
      if done
      then (
        record s' {
          channels = delete bytes_dec channel_id s.channels;
          posts = delete bytes_dec channel_id s.posts;
          subscribers = delete bytes_dec channel_id s.subscribers;
        },
        ok tt,
      )
      else (s', err save_failed)

  unfoldable pub delete_channel : Bytes → Method (Unit {0})
  unfolding remove_channel
  delete_channel channel_id s = elim (lookup bytes_dec channel_id s.channels) [
    | none ↦ (s, err channel_not_found)
    | some state ↦
        ite (bytes_dec state.owner_pubkey s.identity_sign_pub) (remove_channel channel_id s)
          (s, err not_channel_owner)
  ]

  unfoldable pub get_channel : Bytes → ChannelService → Result Error ChannelState
  get_channel channel_id s = elim (lookup bytes_dec channel_id s.channels) [
    | none ↦ err channel_not_found
    | some state ↦ ok state
  ]

  unfoldable pub list_channels : ChannelService → List ChannelState
  list_channels s = values s.channels

  -- `posts[i].Timestamp < posts[j].Timestamp`
  abbrev pub is_older : ChannelPost → ChannelPost → Bool
  is_older p q = ltb p.timestamp q.timestamp

  -- `order` is the order in which the call ranges over the map.
  unfoldable pub get_posts :
      (List ChannelPost → List ChannelPost)
      → Bytes
      → ℤ
      → ℤ
      → ChannelService
      → Result Error (List ChannelPost)
  unfolding swap_sort
  get_posts order channel_id limit offset s = elim (lookup bytes_dec channel_id s.posts) [
    | none ↦ ok []
    | some m ↦
        let posts = order (values m) in
        elim (posts_window limit offset (swap_sort is_older (length posts) posts)) [
          | ok page ↦ ok page
          | err e ↦ err slice_out_of_range
        ]
  ]
