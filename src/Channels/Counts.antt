-- ===== src/Channels/Counts.antt =====
-- Subscriptions and deletions in pkg/groups/channel.go keep the cache and the store in step.
use babylontower.Prelude.{
  ℕ, ◌≡◌, ◌≢◌, refl, sym, ap, subst, ◌∙◌, none, Bytes, bytes_dec, if_pos, length, Result, ok, arith,
  Option-cases, Bool-cases, inl, inr,
}
use babylontower.Prelude.Assoc.{Assoc, lookup, insert, delete, lookup-insert_other}
use babylontower.Channels.State.{
  private_channel, public_channel, ChannelState, Error, ChannelCrypto, to_proto, verify,
}
use babylontower.Channels.Store.{ChannelStore, IsChannelStore}
use babylontower.Channels.Service.{store_channel, delete_channel, is_type, put_channel}
use babylontower.Channels.Subscriptions.{store_count, subscribe, unsubscribe}
use babylontower.Channels.Sync.{IsSynced, Valid, Valid-insert, Valid-delete}
use babylontower.Channels.Service.{remove_channel}
use babylontower.Channels.Subscriptions.{subscribers_or_nil, unsubscribed}
use babylontower.Channels.Steps.{
  Service, InStep, update_other, stored_same, stored_other, private_not_public,
}

module _ (c : ChannelCrypto) (st : ChannelStore) where
  abbrev counted : ChannelState → Assoc Bytes ℕ → ChannelState
  counted x m = record x { subscriber_count = length m }

  store_count-InStep :
      (x : ChannelState) (m : Assoc Bytes ℕ) (subs : Assoc Bytes (Assoc Bytes ℕ)) (s : Service c st)
      → IsChannelStore st
      → Valid c s.identity_sign_pub (st.stored s.storage) subs s.channels
      → IsSynced c s.identity_sign_pub (st.stored s.storage) subs x.channel_id x
      → ((j : Bytes)
          → x.channel_id ≢ j
          → lookup bytes_dec j s.subscribers ≡ lookup bytes_dec j subs)
      → (x.channel_type ≡ private_channel
          → (length m ≡ 0) × (lookup bytes_dec x.channel_id s.subscribers ≡ none))
      → (store_count c st x m s).1 ≡ ok tt
      → InStep c st (store_count c st x m s).0
  unfolding store_count store_channel to_proto
  store_count-InStep x m subs s l v i hs hp e =
      let y = counted x m in
      elim (Bool-cases (store_channel c st y (put_channel c st y s)).1) [
        | inr fails ↦ absurd (ground arith)
        | inl done ↦
            let s' = (store_channel c st y (put_channel c st y s)).0 in
            Valid-insert c s.identity_sign_pub (st.stored s.storage) (st.stored s'.storage) subs
              s.subscribers s.channels x.channel_id y v
              (λ j n. stored_other c st y (put_channel c st y s) j l done n) hs
              (record {
                channel_id = refl;
                count = length m;
                stored_state = stored_same c st y (put_channel c st y s) l done;
                private_count = λ t. ((hp t).0, (hp t).0);
                private_map = λ t. (hp t).1;
                private_verify = λ t.
                    ap (λ n. verify c s.identity_sign_pub (record x { subscriber_count = n }))
                      ((hp t).0 ∙ sym (i.private_count t).0)
                    ∙ i.private_verify t;
              })
      ]

  pub subscribe-InStep :
      (now : ℕ) (channel_id subscriber : Bytes) (s : Service c st)
      → IsChannelStore st
      → InStep c st s
      → (subscribe c st now channel_id subscriber s).1 ≡ ok tt
      → InStep c st (subscribe c st now channel_id subscriber s).0
  unfolding subscribe
  subscribe-InStep now channel_id subscriber s l v e =
      elim (Option-cases (lookup bytes_dec channel_id s.channels)) [
        | inl none_there ↦ absurd (ground arith)
        | inr (x, found) ↦ elim (Bool-cases (is_type c st public_channel x)) [
          | inr closed ↦ absurd (ground arith)
          | inl open_to_all ↦
              let m =
                insert bytes_dec subscriber now
                  (subscribers_or_nil c st (lookup bytes_dec channel_id s.subscribers)) in
              let i = v.synced channel_id x found in
              rw (found, open_to_all, subscribe)
                (store_count-InStep x m s.subscribers
                  (record s { subscribers = insert bytes_dec channel_id m s.subscribers }) l v
                  (subst
                    (λ z. IsSynced c s.identity_sign_pub (st.stored s.storage) s.subscribers z x)
                    (sym i.channel_id) i)
                  (λ j n.
                    lookup-insert_other bytes_dec channel_id j m s.subscribers
                      (λ r. n (i.channel_id ∙ r)))
                  (λ t. let f = private_not_public c st x t in absurd (ground arith))
                  (rw (found, open_to_all, subscribe) at e))
        ]
      ]

  abbrev map_of : Bytes → Service c st → Assoc Bytes ℕ
  map_of k z = subscribers_or_nil c st (lookup bytes_dec k z.subscribers)

  abbrev recount : ChannelState → Bytes → Service c st → Service c st × Result Error (Unit {0})
  recount x k z = store_count c st x (map_of k z) z

  pub unsubscribe-InStep :
      (channel_id subscriber : Bytes) (s : Service c st)
      → IsChannelStore st
      → InStep c st s
      → (unsubscribe c st channel_id subscriber s).1 ≡ ok tt
      → InStep c st (unsubscribe c st channel_id subscriber s).0
  unfolding unsubscribe
  unsubscribe-InStep channel_id subscriber s l v e =
      elim (Option-cases (lookup bytes_dec channel_id s.channels)) [
        | inl none_there ↦ absurd (ground arith)
        | inr (x, found) ↦
            let i = v.synced channel_id x found in
            let i' =
              subst (λ z. IsSynced c s.identity_sign_pub (st.stored s.storage) s.subscribers z x)
                (sym i.channel_id) i in
            elim (Option-cases (lookup bytes_dec channel_id s.subscribers)) [
              | inl empty ↦
                  let same : unsubscribed c st channel_id subscriber s ≡ s =
                    rw (empty, unsubscribed) refl in
                  rw (found, unsubscribe)
                    (subst (λ z. InStep c st (recount x channel_id z).0) (sym same)
                      (store_count-InStep x (map_of channel_id s) s.subscribers s l v i'
                        (λ j n. refl)
                        (λ t. (
                          rw (empty, map_of) refl,
                          ap (λ z. lookup bytes_dec z s.subscribers) i.channel_id ∙ empty,
                        ))
                        (subst (λ z. (recount x channel_id z).1 ≡ ok tt) same
                          (rw (found, unsubscribe) at e))))
              | inr (m, some_there) ↦
                  let s' = record s {
                    subscribers =
                        insert bytes_dec channel_id (delete bytes_dec subscriber m) s.subscribers;
                  } in
                  let same : unsubscribed c st channel_id subscriber s ≡ s' =
                    rw (some_there, unsubscribed) refl in
                  rw (found, unsubscribe)
                    (subst (λ z. InStep c st (recount x channel_id z).0) (sym same)
                      (store_count-InStep x (map_of channel_id s') s.subscribers s' l v i'
                        (λ j n.
                          lookup-insert_other bytes_dec channel_id j _ s.subscribers
                            (λ r. n (i.channel_id ∙ r)))
                        (λ t. let f = i.private_map t in absurd (ground arith))
                        (subst (λ z. (recount x channel_id z).1 ≡ ok tt) same
                          (rw (found, unsubscribe) at e))))
            ]
      ]

  pub delete_channel-InStep :
      (channel_id : Bytes) (s : Service c st)
      → IsChannelStore st
      → InStep c st s
      → (delete_channel c st channel_id s).1 ≡ ok tt
      → InStep c st (delete_channel c st channel_id s).0
  unfolding delete_channel remove_channel
  delete_channel-InStep channel_id s l v e =
      elim (Option-cases (lookup bytes_dec channel_id s.channels)) [
        | inl none_there ↦ absurd (ground arith)
        | inr (x, found) ↦ elim (bytes_dec x.owner_pubkey s.identity_sign_pub) [
          | no n ↦ absurd (ground arith)
          | yes p ↦ elim (Bool-cases (st.remove channel_id s.storage).1) [
            | inr fails ↦ absurd (ground arith)
            | inl done ↦
                let eq =
                  l.stored-remove channel_id s.storage (st.remove channel_id s.storage).0
                    (ap (λ r. ((st.remove channel_id s.storage).0, r)) done) in
                let owned : delete_channel c st channel_id s ≡ remove_channel c st channel_id s =
                  rw (found, delete_channel)
                    (if_pos (bytes_dec x.owner_pubkey s.identity_sign_pub) p _ _) in
                subst (λ z. InStep c st z.0) (sym owned)
                  (rw (done, remove_channel)
                    (Valid-delete c s.identity_sign_pub (st.stored s.storage)
                      (st.stored (st.remove channel_id s.storage).0) s.subscribers s.channels
                      channel_id v
                      (λ j n.
                        ap (λ f. f j) eq
                        ∙ update_other c st channel_id j none (st.stored s.storage) n)))
          ]
        ]
      ]
