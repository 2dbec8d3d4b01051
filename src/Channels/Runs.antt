-- ===== src/Channels/Runs.antt =====
-- Runs of pkg/groups/channel.go whose calls report no error.
use babylontower.Prelude.{
  ℕ, ◌≡◌, refl, sym, ap, subst, ◌∙◌, Option, none, some, Bytes, bytes_dec, ok, arith, Option-cases,
  inl, inr,
}
use babylontower.Prelude.Int.{ℤ}
use babylontower.Prelude.Assoc.{lookup}
use babylontower.Channels.State.{ChannelState, ChannelPost, Content, ChannelCrypto}
use babylontower.Channels.Store.{ChannelStore, IsChannelStore}
use babylontower.Channels.Service.{
  store_channel, publish_channel, create_channel, channel_id_of, delete_channel,
}
use babylontower.Channels.Posting.{create_post, store_post, update_latest}
use babylontower.Channels.Subscriptions.{store_count, subscribe, unsubscribe}
use babylontower.Channels.Sync.{IsKeyPair, IsSynced}
use babylontower.Channels.Service.{remove_channel}
use babylontower.Channels.Steps.{Service, InStep}
use babylontower.Channels.Service.{new_channel_service, get_channel}
use babylontower.Channels.Steps.{create_channel-InStep}
use babylontower.Channels.Posts.{create_post-InStep}
use babylontower.Channels.Counts.{subscribe-InStep, unsubscribe-InStep, delete_channel-InStep}

module _ (c : ChannelCrypto) (st : ChannelStore) where
  abbrev keys : Service c st → Bytes × Bytes
  keys s = (s.identity_sign_priv, s.identity_sign_pub)

  create_channel-keys :
      (first second : Option Bytes) (now : ℕ) (name description : Bytes) (kind : ℤ)
      (s : Service c st)
      → keys (create_channel c st first second now name description kind s).0 ≡ keys s
  unfolding create_channel publish_channel store_channel
  create_channel-keys first second now name description kind s = ground arith

  create_post-keys :
      (random : Option Bytes) (now : ℕ) (channel_id : Bytes) (content : Content) (s : Service c st)
      → keys (create_post c st random now channel_id content s).0 ≡ keys s
  unfolding create_post store_post update_latest store_channel
  create_post-keys random now channel_id content s = ground arith

  subscribe-keys :
      (now : ℕ) (channel_id subscriber : Bytes) (s : Service c st)
      → keys (subscribe c st now channel_id subscriber s).0 ≡ keys s
  unfolding subscribe store_count store_channel
  subscribe-keys now channel_id subscriber s = ground arith

  unsubscribe-keys :
      (channel_id subscriber : Bytes) (s : Service c st)
      → keys (unsubscribe c st channel_id subscriber s).0 ≡ keys s
  unfolding unsubscribe store_count store_channel
  unsubscribe-keys channel_id subscriber s = ground arith

  delete_channel-keys :
      (channel_id : Bytes) (s : Service c st) → keys (delete_channel c st channel_id s).0 ≡ keys s
  unfolding delete_channel remove_channel
  delete_channel-keys channel_id s = ground arith

  -- The services that a run of calls without an error leads to, from a new service over any store.
  pub data Reached (public priv : Bytes) : Service c st → Type 0 where
    started :
        (storage : st.State) → Reached public priv (new_channel_service c st storage public priv)
    created :
        {s : Service c st} {y : ChannelState}
        → Reached public priv s
        → (first second : Option Bytes) (now : ℕ) (name description : Bytes) (kind : ℤ)
        → lookup bytes_dec (channel_id_of c st first second) s.channels ≡ none
        → (create_channel c st first second now name description kind s).1 ≡ ok y
        → Reached public priv (create_channel c st first second now name description kind s).0
    posted :
        {s : Service c st} {p : ChannelPost}
        → Reached public priv s
        → (random : Option Bytes) (now : ℕ) (channel_id : Bytes) (content : Content)
        → (create_post c st random now channel_id content s).1 ≡ ok p
        → Reached public priv (create_post c st random now channel_id content s).0
    subscribed :
        {s : Service c st}
        → Reached public priv s
        → (now : ℕ) (channel_id subscriber : Bytes)
        → (subscribe c st now channel_id subscriber s).1 ≡ ok tt
        → Reached public priv (subscribe c st now channel_id subscriber s).0
    left :
        {s : Service c st}
        → Reached public priv s
        → (channel_id subscriber : Bytes) → (unsubscribe c st channel_id subscriber s).1 ≡ ok tt
        → Reached public priv (unsubscribe c st channel_id subscriber s).0
    deleted :
        {s : Service c st}
        → Reached public priv s
        → (channel_id : Bytes) → (delete_channel c st channel_id s).1 ≡ ok tt
        → Reached public priv (delete_channel c st channel_id s).0

  Reached-keys :
      (public priv : Bytes) (s : Service c st) → Reached public priv s → keys s ≡ (priv, public)
  unfolding new_channel_service
  Reached-keys public priv s (started storage) = refl
  Reached-keys public priv s (created {s = t} r a b n x y k f e) =
      create_channel-keys a b n x y k t ∙ Reached-keys public priv t r
  Reached-keys public priv s (posted {s = t} r a n k x e) =
      create_post-keys a n k x t ∙ Reached-keys public priv t r
  Reached-keys public priv s (subscribed {s = t} r n k x e) =
      subscribe-keys n k x t ∙ Reached-keys public priv t r
  Reached-keys public priv s (left {s = t} r k x e) =
      unsubscribe-keys k x t ∙ Reached-keys public priv t r
  Reached-keys public priv s (deleted {s = t} r k e) =
      delete_channel-keys k t ∙ Reached-keys public priv t r

  Reached-IsKeyPair :
      (public priv : Bytes) (s : Service c st)
      → IsKeyPair c priv public
      → Reached public priv s
      → IsKeyPair c s.identity_sign_priv s.identity_sign_pub
  Reached-IsKeyPair public priv s k r =
      subst (λ p. IsKeyPair c p.0 p.1) (sym (Reached-keys public priv s r)) k

  Reached-InStep :
      (public priv : Bytes) (s : Service c st)
      → IsChannelStore st
      → IsKeyPair c priv public
      → Reached public priv s
      → InStep c st s
  unfolding new_channel_service lookup
  Reached-InStep public priv s l k (started storage) = record {
    synced = λ j x e. absurd (ground arith);
    no_orphans = λ j e. refl;
  }
  Reached-InStep public priv s l k (created {s = t} {y = y} r a b n x d kind f e) =
      create_channel-InStep c st a b n x d kind y t l (Reached-IsKeyPair public priv t k r)
        (Reached-InStep public priv t l k r) f e
  Reached-InStep public priv s l k (posted {s = t} {p = p} r a n id x e) =
      create_post-InStep c st a n id x p t l (Reached-IsKeyPair public priv t k r)
        (Reached-InStep public priv t l k r) e
  Reached-InStep public priv s l k (subscribed {s = t} r n id x e) =
      subscribe-InStep c st n id x t l (Reached-InStep public priv t l k r) e
  Reached-InStep public priv s l k (left {s = t} r id x e) =
      unsubscribe-InStep c st id x t l (Reached-InStep public priv t l k r) e
  Reached-InStep public priv s l k (deleted {s = t} r id e) =
      delete_channel-InStep c st id t l (Reached-InStep public priv t l k r) e

  -- After any sequence of calls of CreateChannel with an id that is not in use, CreatePost, Subscribe,
  -- Unsubscribe and DeleteChannel on a new service, none of which reports an error, over a store that
  -- keeps its promise and with a key pair that signs and verifies: every channel that GetChannel finds
  -- has the id it was asked for, and the store has it with the same fields, the count of subscribers
  -- aside; if it is private, it has no subscribers in either place and its signature verifies.
  pub get_channel-IsSynced :
      (public priv : Bytes) (s : Service c st) (k : Bytes) (x : ChannelState)
      → IsChannelStore st
      → IsKeyPair c priv public
      → Reached public priv s
      → get_channel c st k s ≡ ok x
      → IsSynced c public (st.stored s.storage) s.subscribers k x
  unfolding get_channel
  get_channel-IsSynced public priv s k x l p r e =
      elim (Option-cases (lookup bytes_dec k s.channels)) [
        | inl none_there ↦ absurd (ground arith)
        | inr (y, found) ↦
            let same : y ≡ x = ground arith in
            subst (λ z. IsSynced c z (st.stored s.storage) s.subscribers k x)
              (ap (λ z. z.1) (Reached-keys public priv s r))
              ((Reached-InStep public priv s l p r).synced k x (found ∙ ap (λ z. some z) same))
      ]
