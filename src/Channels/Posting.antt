-- ===== src/Channels/Posting.antt =====
-- `CreatePost` of pkg/groups/channel.go, and what it does with the store and the caches.
use babylontower.Prelude.{
  ℕ, ◌+◌, ◌%◌, ◌^◌, Option, none, some, [], Bytes, Bool, true, false, if◌then◌else◌, ite, bytes_dec,
  ok, err,
}
use babylontower.Prelude.Assoc.{Assoc, lookup, insert}
use babylontower.Channels.State.{
  private_channel, public_channel, ChannelState, Content, ChannelPost, ChannelCrypto,
  not_channel_owner, channel_not_found, save_failed, sign, post_to_proto, sign_post,
}
use babylontower.Channels.Store.{ChannelStore}
use babylontower.Channels.Service.{
  ChannelService, Method, put_channel, store_channel, is_type, id_or_zeros,
}

module _ (c : ChannelCrypto) (st : ChannelStore) where
  unfoldable pub new_post : Bytes → ℕ → Content → ChannelState → Bytes → ChannelPost
  new_post post_id now content state author = record {
    post_id = post_id;
    channel_id = state.channel_id;
    author_pubkey = author;
    timestamp = now;
    content = content;
    previous_post_cid = state.latest_post_cid;
    signature = [];
  }

  abbrev pub posts_or_empty : Option (Assoc Bytes ChannelPost) → Assoc Bytes ChannelPost
  posts_or_empty none = []
  posts_or_empty (some m) = m

  -- The posts that are cached, and for a public channel a subscriber more.
  abbrev pub cache_post : ChannelPost → ChannelState → ChannelService c st → ChannelService c st
  cache_post post state s =
      let cached =
        insert bytes_dec post.post_id post
          (posts_or_empty (lookup bytes_dec state.channel_id s.posts)) in
      let counted = record state { subscriber_count = (state.subscriber_count + 1) % 2 ^ 64 } in
      record (if is_type c st public_channel state then put_channel c st counted s else s) {
        posts = insert bytes_dec state.channel_id cached s.posts;
      }

  -- The channel after a post was stored.
  abbrev pub with_latest : ChannelPost → ChannelState → ChannelState
  with_latest post state = record state {
    latest_post_cid = post.post_id;
    updated_at = post.timestamp;
  }

  unfoldable pub update_latest : ChannelPost → ChannelState → Method c st ChannelPost
  unfolding sign store_channel
  update_latest post state s = elim (sign c s.identity_sign_priv (with_latest post state)) [
    | err e ↦ (put_channel c st (with_latest post state) s, err e)
    | ok signed ↦
        let (s', done) = store_channel c st signed (put_channel c st signed s) in
        if done then (cache_post post signed s', ok post) else (s', err save_failed)
  ]

  -- `storePost`
  unfoldable pub store_post : ChannelPost → ChannelState → Method c st ChannelPost
  unfolding post_to_proto update_latest
  store_post post state s = elim (post_to_proto post) [
    | err e ↦ (s, err e)
    | ok pb ↦
        let (storage, done) = st.save_post pb s.storage in
        let s' = record s { storage = storage } in
        if done then update_latest post state s' else (s', err save_failed)
  ]

  abbrev pub is_strangers : ChannelState → ChannelService c st → Bool
  is_strangers state s =
      if is_type c st private_channel state
      then ite (bytes_dec state.owner_pubkey s.identity_sign_pub) false true
      else false

  unfoldable pub create_post : Option Bytes → ℕ → Bytes → Content → Method c st ChannelPost
  unfolding new_post sign_post store_post
  create_post random now channel_id content s = elim (lookup bytes_dec channel_id s.channels) [
    | none ↦ (s, err channel_not_found)
    | some state ↦
        let unsigned =
          new_post (id_or_zeros c st 16 random) now content state s.identity_sign_pub in
        if is_strangers state s
        then (s, err not_channel_owner)
        else elim (sign_post c s.identity_sign_priv unsigned) [
          | err e ↦ (s, err e)
          | ok post ↦ store_post post state s
        ]
  ]
