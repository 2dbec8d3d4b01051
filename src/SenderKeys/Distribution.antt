-- ===== src/SenderKeys/Distribution.antt =====
-- The distribution of sender keys (pkg/groups/service.go).
use babylontower.Prelude.{
  ℕ, zero, suc, ◌+◌, ◌%◌, ◌^◌, ◌≡◌, inl, inr, refl, some, Bytes, ok, arith, bytes_dec, Option-cases,
  ap, subst,
}
use babylontower.Prelude.Assoc.{Assoc, lookup, insert, lookup-insert_same}
use babylontower.SenderKeys.Key.{
  SenderCrypto, SenderKey, SenderKeyDistribution, to_distribution, sender_key_from_proto, advance,
  next_chain_key, derive_message_key,
}
use babylontower.SenderKeys.Messages.{
  Service, group_keys, store_key, get_sender_key_distribution_message, import_sender_key,
  keys_or_empty,
}
use babylontower.SenderKeys.Advance.{advance_by}

module _ (c : SenderCrypto) where
  -- Two sender keys at the same place of one chain give the same message keys ever after.
  derive_message_key-advance_by :
      (n : ℕ) (r k : SenderKey)
      → r.chain_key ≡ k.chain_key
      → r.chain_index ≡ k.chain_index
      → (derive_message_key c (advance_by c n r)).0 ≡ (derive_message_key c (advance_by c n k)).0
  unfolding advance_by advance derive_message_key
  derive_message_key-advance_by zero r k e f = rw (e, f) refl
  derive_message_key-advance_by (suc n) r k e f =
      derive_message_key-advance_by n (advance c r) (advance c k) (ap (next_chain_key c) e)
        (ap (λ i. (i + 1) % 2 ^ 32) f)

  -- After a member imports the distribution message of a service, it has under the sender's key a
  -- sender key that gives, however often both advance, the message keys of the service's own sender
  -- key.
  pub import_sender_key-distribution :
      (group_id signing_key_priv : Bytes) (s t : Service) (p : SenderKeyDistribution)
      → get_sender_key_distribution_message group_id s ≡ ok p
      → (keys : Assoc Bytes SenderKey) × (k : SenderKey) × (imported : Assoc Bytes SenderKey)
        × (r : SenderKey) × (group_keys group_id s ≡ some keys)
        × (lookup bytes_dec s.identity_sign_pub keys ≡ some k)
        × (group_keys k.group_id (import_sender_key p signing_key_priv t) ≡ some imported)
        × (lookup bytes_dec k.sender_pubkey imported ≡ some r)
        × ((n : ℕ)
            → (derive_message_key c (advance_by c n r)).0
              ≡ (derive_message_key c (advance_by c n k)).0)
  unfolding get_sender_key_distribution_message import_sender_key store_key sender_key_from_proto
      to_distribution
  import_sender_key-distribution group_id signing_key_priv s t p e =
      elim (Option-cases (group_keys group_id s)) [
        | inl n ↦ absurd (ground arith)
        | inr (keys, a) ↦ elim (Option-cases (lookup bytes_dec s.identity_sign_pub keys)) [
          | inl n ↦ absurd (ground arith)
          | inr (k, b) ↦
              let same : to_distribution k ≡ p = ground arith in
              let r = sender_key_from_proto (to_distribution k) signing_key_priv in
              let others = keys_or_empty (group_keys k.group_id t) in
              (
                keys,
                k,
                insert bytes_dec k.sender_pubkey r others,
                r,
                a,
                b,
                subst
                    (λ q.
                      group_keys k.group_id (import_sender_key q signing_key_priv t)
                      ≡ some (insert bytes_dec k.sender_pubkey r others))
                    same
                    (lookup-insert_same bytes_dec k.group_id
                      (insert bytes_dec k.sender_pubkey r others) t.sender_keys),
                lookup-insert_same bytes_dec k.sender_pubkey r others,
                λ n. derive_message_key-advance_by n r k refl refl,
              )
        ]
      ]
