-- ===== src/Channels/Steps.antt =====
-- Every method of pkg/groups/channel.go that reports no error keeps the cache and the store in step.
use babylontower.Prelude.{
  ℕ, ◌≡◌, ◌≢◌, refl, ap, subst, ◌∙◌, Option, none, some, [], Bytes, true, false, bytes_dec, ok,
  arith, Result-cases, Bool-cases, inl, inr, ◌||◌, if◌then◌else◌,
}
use babylontower.Prelude.Int.{ℤ, ℤ_discrete}
use babylontower.Prelude.Assoc.{Assoc, lookup, insert, lookup-insert_other}
use babylontower.Storage.Spec.{update}
use babylontower.Channels.State.{
  private_channel, public_channel, ChannelState, ChannelCrypto, to_proto, sign,
}
use babylontower.Channels.Store.{ChannelStore, IsChannelStore}
use babylontower.Channels.Service.{
  ChannelService, store_channel, publish_channel, create_channel, new_channel, channel_id_of,
  is_type, cache_channel,
}
use babylontower.Channels.Sync.{IsKeyPair, Valid, Valid-insert, sign-ok, verify-sign}

module _ (c : ChannelCrypto) (st : ChannelStore) where
  abbrev pub Service : Type 0
  Service = ChannelService c st

  -- The cache of a service agrees with its store.
  abbrev pub InStep : Service → Type 0
  InStep s = Valid c s.identity_sign_pub (st.stored s.storage) s.subscribers s.channels

  pub update_other :
      {V : Type 0} (k j : Bytes) (v : V) (f : Bytes → V) → k ≢ j → update k v f j ≡ f j
  update_other k j v f n = ground arith

  pub update_same : {V : Type 0} (k : Bytes) (v : V) (f : Bytes → V) → update k v f k ≡ v
  update_same k v f = ground arith

  pub stored-store_channel :
      (x : ChannelState) (s : Service)
      → IsChannelStore st
      → (store_channel c st x s).1 ≡ true
      → st.stored (store_channel c st x s).0.storage
        ≡ update x.channel_id (some (to_proto x)) (st.stored s.storage)
  unfolding store_channel to_proto
  stored-store_channel x s l e =
      l.stored-save (to_proto x) s.storage (st.save (to_proto x) s.storage).0
        (ap (λ b. ((st.save (to_proto x) s.storage).0, b)) e)

  pub stored_same :
      (x : ChannelState) (s : Service)
      → IsChannelStore st
      → (store_channel c st x s).1 ≡ true
      → st.stored (store_channel c st x s).0.storage x.channel_id ≡ some (to_proto x)
  stored_same x s l e =
      ap (λ f. f x.channel_id) (stored-store_channel x s l e)
      ∙ update_same x.channel_id (some (to_proto x)) (st.stored s.storage)

  pub stored_other :
      (x : ChannelState) (s : Service) (j : Bytes)
      → IsChannelStore st
      → (store_channel c st x s).1 ≡ true
      → x.channel_id ≢ j
      → st.stored (store_channel c st x s).0.storage j ≡ st.stored s.storage j
  stored_other x s j l e n =
      ap (λ f. f j) (stored-store_channel x s l e)
      ∙ update_other x.channel_id j (some (to_proto x)) (st.stored s.storage) n

  pub private_not_public :
      (x : ChannelState) → x.channel_type ≡ private_channel → is_type c st public_channel x ≡ false
  unfolding ℤ_discrete
  private_not_public x e = rw (e, is_type) refl

  abbrev new_map : ChannelState → Service → Assoc Bytes (Assoc Bytes ℕ)
  new_map x s =
      if is_type c st public_channel x
      then insert bytes_dec x.channel_id [] s.subscribers
      else s.subscribers

  new_map_other :
      (x : ChannelState) (s : Service) (j : Bytes)
      → x.channel_id ≢ j
      → lookup bytes_dec j (new_map x s) ≡ lookup bytes_dec j s.subscribers
  new_map_other x s j n = elim (Bool-cases (is_type c st public_channel x)) [
    | inl t ↦ rw (t, new_map) (lookup-insert_other bytes_dec x.channel_id j [] s.subscribers n)
    | inr t ↦ rw (t, new_map) refl
  ]

  new_map_private :
      (x : ChannelState) (s : Service)
      → x.channel_type ≡ private_channel
      → new_map x s ≡ s.subscribers
  new_map_private x s t = rw (private_not_public x t, new_map) refl

  cache_channel-InStep :
      (x y : ChannelState) (s : Service)
      → IsChannelStore st
      → IsKeyPair c s.identity_sign_priv s.identity_sign_pub
      → InStep s
      → lookup bytes_dec y.channel_id s.channels ≡ none
      → y.subscriber_count ≡ 0
      → sign c s.identity_sign_priv x ≡ ok y
      → (store_channel c st y s).1 ≡ true
      → InStep (cache_channel c st y (store_channel c st y s).0)
  unfolding store_channel to_proto
  cache_channel-InStep x y s l k v fresh zero q e =
      Valid-insert c s.identity_sign_pub (st.stored s.storage)
        (st.stored (store_channel c st y s).0.storage) s.subscribers (new_map y s) s.channels
        y.channel_id y v (λ j n. stored_other y s j l e n) (λ j n. new_map_other y s j n)
        (record {
          channel_id = refl;
          count = y.subscriber_count;
          stored_state = stored_same y s l e;
          private_count = λ t. (zero, zero);
          private_map = λ t.
              ap (lookup bytes_dec y.channel_id) (new_map_private y s t)
              ∙ v.no_orphans y.channel_id fresh;
          private_verify = λ t. verify-sign c s.identity_sign_priv s.identity_sign_pub x y k q;
        })

  pub publish_channel-InStep :
      (x y : ChannelState) (s : Service)
      → IsChannelStore st
      → IsKeyPair c s.identity_sign_priv s.identity_sign_pub
      → InStep s
      → lookup bytes_dec x.channel_id s.channels ≡ none
      → x.subscriber_count ≡ 0
      → (publish_channel c st x s).1 ≡ ok y
      → InStep (publish_channel c st x s).0
  unfolding publish_channel
  publish_channel-InStep x y s l k v fresh zero e =
      elim (Result-cases (sign c s.identity_sign_priv x)) [
        | inr (bad, q) ↦ absurd (ground arith)
        | inl (signed, q) ↦
            let (body, b, p) = sign-ok c s.identity_sign_priv x signed q in
            elim (Bool-cases (store_channel c st signed s).1) [
              | inr fails ↦ absurd (ground arith)
              | inl done ↦
                  rw (q, done, publish_channel)
                    (cache_channel-InStep x signed s l k v
                      (subst (λ z. lookup bytes_dec z.channel_id s.channels ≡ none) p fresh)
                      (subst (λ z. z.subscriber_count ≡ 0) p zero) q done)
            ]
      ]

  pub create_channel-InStep :
      (first second : Option Bytes) (now : ℕ) (name description : Bytes) (kind : ℤ)
      (y : ChannelState) (s : Service)
      → IsChannelStore st
      → IsKeyPair c s.identity_sign_priv s.identity_sign_pub
      → InStep s
      → lookup bytes_dec (channel_id_of c st first second) s.channels ≡ none
      → (create_channel c st first second now name description kind s).1 ≡ ok y
      → InStep (create_channel c st first second now name description kind s).0
  unfolding create_channel new_channel
  create_channel-InStep first second now name description kind y s l k v fresh e =
      let x =
        new_channel c st (channel_id_of c st first second) now name description kind
          s.identity_sign_pub in
      elim (Bool-cases (is_type c st private_channel x || is_type c st public_channel x)) [
        | inr no_type ↦ absurd (ground arith)
        | inl a_type ↦
            rw (a_type, create_channel)
              (publish_channel-InStep x y s l k v fresh refl (rw (a_type, create_channel) at e))
      ]
