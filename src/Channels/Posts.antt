-- ===== src/Channels/Posts.antt =====
-- A post that `CreatePost` of pkg/groups/channel.go takes keeps the cache and the store in step.
use babylontower.Prelude.{
  ℕ, ◌+◌, ◌%◌, ◌^◌, ◌≡◌, ◌≢◌, refl, sym, ap, subst, ◌∙◌, Option, none, some, Bytes, true, bytes_dec,
  ok, arith, Option-cases, Result-cases, Bool-cases, inl, inr, if◌then◌else◌,
}
use babylontower.Prelude.Assoc.{Assoc, lookup, insert}
use babylontower.Storage.Records as Pb
use babylontower.Channels.State.{
  private_channel, public_channel, ChannelState, ChannelPost, Content, ChannelCrypto, to_proto,
  sign, verify, sign_post, post_to_proto, content_to_proto, serialize_post,
}
use babylontower.Channels.Store.{ChannelStore, IsChannelStore}
use babylontower.Channels.Service.{store_channel, is_type, put_channel, id_or_zeros}
use babylontower.Channels.Posting.{
  create_post, new_post, store_post, update_latest, with_latest, cache_post, is_strangers,
}
use babylontower.Channels.Sync.{IsKeyPair, IsSynced, Valid, Valid-insert, sign-ok, verify-sign}
use babylontower.Prelude.Assoc.{insert_twice}
use babylontower.Channels.Steps.{Service, InStep, stored_same, stored_other, private_not_public}

module _ (c : ChannelCrypto) (st : ChannelStore) where
  -- The channel of the cache after a post: a public channel counts a subscriber more.
  abbrev settled : ChannelState → ChannelState
  settled x =
      if is_type c st public_channel x
      then record x { subscriber_count = (x.subscriber_count + 1) % 2 ^ 64 }
      else x

  cache_post-channels :
      (p : ChannelPost) (x : ChannelState) (m : Assoc Bytes ChannelState) (s : Service c st)
      → s.channels ≡ insert bytes_dec x.channel_id x m
      → (cache_post c st p x s).channels ≡ insert bytes_dec x.channel_id (settled x) m
  cache_post-channels p x m s e = elim (Bool-cases (is_type c st public_channel x)) [
    | inl t ↦
        rw (t, cache_post, settled)
          (ap
              (insert bytes_dec x.channel_id
                (record x { subscriber_count = (x.subscriber_count + 1) % 2 ^ 64 }))
              e
            ∙ insert_twice bytes_dec x.channel_id _ x m)
    | inr t ↦ rw (t, cache_post, settled) e
  ]

  -- The other fields that matter stay.
  cache_post_keeps :
      (p : ChannelPost) (x : ChannelState) (s : Service c st)
      → ((cache_post c st p x s).storage ≡ s.storage)
        × ((cache_post c st p x s).subscribers ≡ s.subscribers)
        × ((cache_post c st p x s).identity_sign_pub ≡ s.identity_sign_pub)
  cache_post_keeps p x s = elim (Bool-cases (is_type c st public_channel x)) [
    | inl t ↦ rw (t, cache_post) (refl, refl, refl)
    | inr t ↦ rw (t, cache_post) (refl, refl, refl)
  ]

  Bool_contradiction :
      (x : ChannelState)
      → x.channel_type ≡ private_channel
      → is_type c st public_channel x ≡ true
      → ⊥
  Bool_contradiction x r t = let f = private_not_public c st x r in ground arith

  settled-IsSynced :
      (public : Bytes) (f : Bytes → Option Pb.ChannelState) (subs : Assoc Bytes (Assoc Bytes ℕ))
      (k : Bytes) (x : ChannelState)
      → x.channel_id ≡ k
      → f k ≡ some (to_proto x)
      → (x.channel_type ≡ private_channel → x.subscriber_count ≡ 0)
      → (x.channel_type ≡ private_channel → lookup bytes_dec k subs ≡ none)
      → (x.channel_type ≡ private_channel → verify c public x ≡ some true)
      → IsSynced c public f subs k (settled x)
  unfolding to_proto
  settled-IsSynced public f subs k x id e zero map sig =
      elim (Bool-cases (is_type c st public_channel x)) [
        | inl t ↦
            rw (t, settled)
              (record {
                channel_id = id;
                count = x.subscriber_count;
                stored_state = e;
                private_count = λ r. absurd (Bool_contradiction x r t);
                private_map = map;
                private_verify = λ r. absurd (Bool_contradiction x r t);
              })
        | inr t ↦
            rw (t, settled)
              (record {
                channel_id = id;
                count = x.subscriber_count;
                stored_state = e;
                private_count = λ r. (zero r, zero r);
                private_map = map;
                private_verify = sig;
              })
      ]

  cache_post-InStep :
      (p : ChannelPost) (x : ChannelState) (m : Assoc Bytes ChannelState) (s : Service c st)
      → s.channels ≡ insert bytes_dec x.channel_id x m
      → Valid c s.identity_sign_pub
          (st.stored s.storage)
          s.subscribers
          (insert bytes_dec x.channel_id (settled x) m)
      → InStep c st (cache_post c st p x s)
  cache_post-InStep p x m s e v =
      let keeps = cache_post_keeps p x s in
      rw (keeps.0, keeps.1, keeps.2, cache_post-channels p x m s e) v

  update_latest-InStep :
      (p q : ChannelPost) (x : ChannelState) (f : Bytes → Option Pb.ChannelState) (s : Service c st)
      → IsChannelStore st
      → IsKeyPair c s.identity_sign_priv s.identity_sign_pub
      → Valid c s.identity_sign_pub f s.subscribers s.channels
      → IsSynced c s.identity_sign_pub f s.subscribers x.channel_id x
      → ((j : Bytes) → x.channel_id ≢ j → st.stored s.storage j ≡ f j)
      → (update_latest c st p x s).1 ≡ ok q
      → InStep c st (update_latest c st p x s).0
  unfolding update_latest store_channel to_proto
  update_latest-InStep p q x f s l k v i hf e =
      elim (Result-cases (sign c s.identity_sign_priv (with_latest c st p x))) [
        | inr (bad, b) ↦ absurd (ground arith)
        | inl (y, b) ↦ elim (Bool-cases (store_channel c st y (put_channel c st y s)).1) [
          | inr fails ↦ absurd (ground arith)
          | inl done ↦
              let s' = (store_channel c st y (put_channel c st y s)).0 in
              let (body, b', same) = sign-ok c s.identity_sign_priv (with_latest c st p x) y b in
              let id : y.channel_id ≡ x.channel_id = ap (λ z. z.channel_id) (sym same) in
              let kind : y.channel_type ≡ x.channel_type = ap (λ z. z.channel_type) (sym same) in
              let count : y.subscriber_count ≡ x.subscriber_count =
                ap (λ z. z.subscriber_count) (sym same) in
              rw (b, done, update_latest)
                (cache_post-InStep p y s.channels s' refl (
                  Valid-insert c s.identity_sign_pub f (st.stored s'.storage) s.subscribers
                    s.subscribers s.channels y.channel_id (settled y) v
                    (λ j n.
                      stored_other c st y (put_channel c st y s) j l done n
                      ∙ hf j (λ r. n (id ∙ r)))
                    (λ j n. refl)
                    (settled-IsSynced s.identity_sign_pub (st.stored s'.storage) s.subscribers
                      y.channel_id y refl (stored_same c st y (put_channel c st y s) l done)
                      (λ t. count ∙ (i.private_count (sym kind ∙ t)).0)
                      (λ t.
                        ap (λ z. lookup bytes_dec z s.subscribers) id
                        ∙ i.private_map (sym kind ∙ t))
                      (λ t.
                        verify-sign c s.identity_sign_priv s.identity_sign_pub
                          (with_latest c st p x) y k b))))
        ]
      ]

  post_to_proto-channel_id :
      (p : ChannelPost) (pb : Pb.ChannelPost)
      → post_to_proto p ≡ ok pb
      → pb.channel_id ≡ p.channel_id
  unfolding post_to_proto
  post_to_proto-channel_id p pb e = elim (Result-cases (content_to_proto p.content)) [
    | inl (x, b) ↦ ground arith
    | inr (bad, b) ↦ absurd (ground arith)
  ]

  store_post-InStep :
      (p q : ChannelPost) (x : ChannelState) (s : Service c st)
      → IsChannelStore st
      → IsKeyPair c s.identity_sign_priv s.identity_sign_pub
      → InStep c st s
      → IsSynced c s.identity_sign_pub (st.stored s.storage) s.subscribers x.channel_id x
      → p.channel_id ≡ x.channel_id
      → (store_post c st p x s).1 ≡ ok q
      → InStep c st (store_post c st p x s).0
  unfolding store_post
  store_post-InStep p q x s l k v i same e = elim (Result-cases (post_to_proto p)) [
    | inr (bad, b) ↦ absurd (ground arith)
    | inl (pb, b) ↦ elim (Bool-cases (st.save_post pb s.storage).1) [
      | inr fails ↦ absurd (ground arith)
      | inl done ↦
          let s' = record s { storage = (st.save_post pb s.storage).0 } in
          let eq =
            l.stored-save_post pb s.storage (st.save_post pb s.storage).0
              (ap (λ r. ((st.save_post pb s.storage).0, r)) done) in
          rw (b, done, store_post)
            (update_latest-InStep p q x (st.stored s.storage) s' l k v i
              (λ j n. eq j (λ r. n (sym (post_to_proto-channel_id p pb b ∙ same) ∙ r)))
              (rw (b, done, store_post) at e))
    ]
  ]

  sign_post-channel_id :
      (priv : Bytes) (p q : ChannelPost) → sign_post c priv p ≡ ok q → q.channel_id ≡ p.channel_id
  unfolding sign_post
  sign_post-channel_id priv p q e = elim (Result-cases (serialize_post c p)) [
    | inl (body, b) ↦ ground arith
    | inr (bad, b) ↦ absurd (ground arith)
  ]

  pub create_post-InStep :
      (random : Option Bytes) (now : ℕ) (channel_id : Bytes) (content : Content) (q : ChannelPost)
      (s : Service c st)
      → IsChannelStore st
      → IsKeyPair c s.identity_sign_priv s.identity_sign_pub
      → InStep c st s
      → (create_post c st random now channel_id content s).1 ≡ ok q
      → InStep c st (create_post c st random now channel_id content s).0
  unfolding create_post new_post
  create_post-InStep random now channel_id content q s l k v e =
      elim (Option-cases (lookup bytes_dec channel_id s.channels)) [
        | inl none_there ↦ absurd (ground arith)
        | inr (x, found) ↦ elim (Bool-cases (is_strangers c st x s)) [
          | inl stranger ↦ absurd (ground arith)
          | inr own ↦
              let p =
                new_post c st (id_or_zeros c st 16 random) now content x s.identity_sign_pub in
              elim (Result-cases (sign_post c s.identity_sign_priv p)) [
                | inr (bad, b) ↦ absurd (ground arith)
                | inl (signed, b) ↦
                    let i = v.synced channel_id x found in
                    rw (found, own, b, create_post)
                      (store_post-InStep signed q x s l k v
                        (subst
                          (λ z.
                            IsSynced c s.identity_sign_pub (st.stored s.storage) s.subscribers z x)
                          (sym i.channel_id) i)
                        (sign_post-channel_id s.identity_sign_priv p signed b)
                        (rw (found, own, b, create_post) at e))
              ]
        ]
      ]
