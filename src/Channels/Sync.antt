-- ===== src/Channels/Sync.antt =====
-- When the cache, the store and the signatures of pkg/groups/channel.go agree.
use babylontower.Prelude.{
  ℕ, ◌<◌, ◌≡◌, ◌≢◌, refl, subst, ◌∙◌, Option, none, some, [], ◌∷◌, Bytes, Bool, true, false,
  bytes_dec, length, ok, arith, Option-cases, inl, inr,
}
use babylontower.Prelude.Assoc.{
  Assoc, lookup, insert, delete, lookup-insert, lookup-delete, lookup-delete_same,
  lookup-delete_other,
}
use babylontower.Storage.Records as Pb
use babylontower.Channels.State.{
  private_channel, ChannelState, ChannelCrypto, to_proto, serialize, sign, verify, ed25519_verify,
  ed25519_sign,
}

-- The private key makes signatures that are not empty and verify under the public key.
pub record IsKeyPair (c : ChannelCrypto) (priv public : Bytes) : Type 0 where
  pub verifies : (body : Bytes) → c.verify public body (c.sign priv body) ≡ true
  pub is_signature : (body : Bytes) → 0 < length (c.sign priv body)
  pub is_key : length public ≡ 32

nonempty_case :
    (sig : Bytes) (r : Option Bool) → 0 < length sig → elim sig [ [] ↦ some false | b ∷ bs ↦ r ] ≡ r
nonempty_case [] r h = absurd (omega arith)
nonempty_case (b ∷ bs) r h = refl

module _ (c : ChannelCrypto) where
  -- What `Sign` changes.
  pub sign-ok :
      (priv : Bytes) (x y : ChannelState)
      → sign c priv x ≡ ok y
      → (body : Bytes) × (serialize c x ≡ some body)
        × (record x { state_signature = c.sign priv body } ≡ y)
  unfolding sign ed25519_sign
  sign-ok priv x y e = elim (Option-cases (serialize c x)) [
    | inl n ↦ absurd (ground arith)
    | inr (body, q) ↦ (body, q, ground arith)
  ]

  valid_signature :
      (priv public body : Bytes)
      → IsKeyPair c priv public
      → ed25519_verify c public body (c.sign priv body) ≡ some true
  unfolding ed25519_verify
  valid_signature priv public body k = let l = k.is_key in let v = k.verifies body in ground arith

  pub verify-sign :
      (priv public : Bytes) (x y : ChannelState)
      → IsKeyPair c priv public
      → sign c priv x ≡ ok y
      → verify c public y ≡ some true
  unfolding verify serialize to_proto
  verify-sign priv public x y k e =
      let (body, q, p) = sign-ok priv x y e in
      let sig = c.sign priv body in
      subst (λ z. verify c public z ≡ some true) p
        (nonempty_case sig
            (elim (serialize c (record x { state_signature = sig })) [
              | none ↦ some false
              | some b ↦ ed25519_verify c public b sig
            ])
            (k.is_signature body)
          ∙ rw (q, serialize, to_proto) (valid_signature priv public body k))

-- What is said of a channel of the cache, under the key `k`. The store may have another count of the
-- subscribers. A private channel has none, and verifies.
module _ (c : ChannelCrypto) where
  pub record IsSynced (public : Bytes) (stored : Bytes → Option Pb.ChannelState)
      (subscribers : Assoc Bytes (Assoc Bytes ℕ)) (k : Bytes) (x : ChannelState) : Type 0 where
    pub channel_id : x.channel_id ≡ k
    pub count : ℕ
    pub stored_state : stored k ≡ some (record (to_proto x) { subscriber_count = count })
    pub private_count : x.channel_type ≡ private_channel → (x.subscriber_count ≡ 0) × (count ≡ 0)
    pub private_map : x.channel_type ≡ private_channel → lookup bytes_dec k subscribers ≡ none
    pub private_verify : x.channel_type ≡ private_channel → verify c public x ≡ some true

  pub record Valid (public : Bytes) (stored : Bytes → Option Pb.ChannelState)
      (subscribers : Assoc Bytes (Assoc Bytes ℕ)) (channels : Assoc Bytes ChannelState)
      : Type 0 where
    pub synced :
        (k : Bytes) (x : ChannelState)
        → lookup bytes_dec k channels ≡ some x
        → IsSynced public stored subscribers k x
    pub no_orphans :
        (k : Bytes) → lookup bytes_dec k channels ≡ none → lookup bytes_dec k subscribers ≡ none

  pub Valid-insert :
      (public : Bytes) (f f' : Bytes → Option Pb.ChannelState)
      (subs subs' : Assoc Bytes (Assoc Bytes ℕ)) (m : Assoc Bytes ChannelState) (k : Bytes)
      (x : ChannelState)
      → Valid public f subs m
      → ((j : Bytes) → k ≢ j → f' j ≡ f j)
      → ((j : Bytes) → k ≢ j → lookup bytes_dec j subs' ≡ lookup bytes_dec j subs)
      → IsSynced public f' subs' k x
      → Valid public f' subs' (insert bytes_dec k x m)
  Valid-insert public f f' subs subs' m k x v hf hs i = record {
    synced = λ j y e. elim (bytes_dec k j) [
      | yes p ↦
          let q : x ≡ y = ground (arith, lookup-insert bytes_dec k j x m) in
          subst (λ z. IsSynced public f' subs' j z) q
            (subst (λ z. IsSynced public f' subs' z x) p i)
      | no n ↦
          let o = v.synced j y (ground (arith, lookup-insert bytes_dec k j x m)) in
          record {
            channel_id = o.channel_id;
            count = o.count;
            stored_state = hf j n ∙ o.stored_state;
            private_count = o.private_count;
            private_map = λ t. hs j n ∙ o.private_map t;
            private_verify = o.private_verify;
          }
    ];
    no_orphans = λ j e. elim (bytes_dec k j) [
      | yes p ↦ absurd (ground (arith, lookup-insert bytes_dec k j x m))
      | no n ↦ hs j n ∙ v.no_orphans j (ground (arith, lookup-insert bytes_dec k j x m))
    ];
  }

  pub Valid-delete :
      (public : Bytes) (f f' : Bytes → Option Pb.ChannelState) (subs : Assoc Bytes (Assoc Bytes ℕ))
      (m : Assoc Bytes ChannelState) (k : Bytes)
      → Valid public f subs m
      → ((j : Bytes) → k ≢ j → f' j ≡ f j)
      → Valid public f' (delete bytes_dec k subs) (delete bytes_dec k m)
  Valid-delete public f f' subs m k v hf = record {
    synced = λ j y e. elim (bytes_dec k j) [
      | yes p ↦ absurd (ground (arith, lookup-delete bytes_dec k j m))
      | no n ↦
          let o = v.synced j y (ground (arith, lookup-delete bytes_dec k j m)) in
          let kept = lookup-delete_other bytes_dec k j subs n in
          record {
            channel_id = o.channel_id;
            count = o.count;
            stored_state = hf j n ∙ o.stored_state;
            private_count = o.private_count;
            private_map = λ t. kept ∙ o.private_map t;
            private_verify = o.private_verify;
          }
    ];
    no_orphans = λ j e. elim (bytes_dec k j) [
      | yes p ↦
          subst (λ z. lookup bytes_dec z (delete bytes_dec k subs) ≡ none) p
            (lookup-delete_same bytes_dec k subs)
      | no n ↦
          let kept = lookup-delete_other bytes_dec k j subs n in
          kept ∙ v.no_orphans j (ground (arith, lookup-delete bytes_dec k j m))
    ];
  }
