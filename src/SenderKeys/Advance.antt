-- ===== src/SenderKeys/Advance.antt =====
-- The loop of `DecryptGroupMessage` that advances the chain (pkg/groups/service.go).
use babylontower.Prelude.{
  ℕ, zero, suc, ◌+◌, ◌-◌, ◌^◌, ◌<◌, ◌≡◌, ◌≢◌, ◌⊎◌, inl, inr, refl, ◌∙◌, none, some, Bytes, Result,
  ok, err, arith, ℕ_discrete, dec_lt,
}
use babylontower.SenderKeys.Key.{SenderCrypto, SenderKey, advance}
use babylontower.SenderKeys.Messages.{
  Error, GroupPayload, advance_to, decrypt_with, derive_message_key_at_index,
}

module _ (c : SenderCrypto) where
  unfoldable pub advance_by : ℕ → SenderKey → SenderKey
  advance_by zero k = k
  advance_by (suc n) k = advance_by n (advance c k)

  pub chain_index-advance_by :
      (n : ℕ) (k : SenderKey)
      → k.chain_index + n < 2 ^ 32
      → (advance_by n k).chain_index ≡ k.chain_index + n
  unfolding advance_by advance
  chain_index-advance_by zero k h = omega arith
  chain_index-advance_by (suc n) k h =
      let next : (advance c k).chain_index ≡ k.chain_index + 1 = omega arith in
      chain_index-advance_by n (advance c k) (omega (arith, next)) ∙ omega (arith, next)

  pub advance_to-advance_by :
      (n fuel target : ℕ) (k : SenderKey)
      → k.chain_index + n ≡ target + 1
      → target + 1 < 2 ^ 32
      → n < fuel
      → advance_to c fuel target k ≡ some (advance_by n k)
  unfolding advance_to advance_by advance
  advance_to-advance_by n zero target k e h f = absurd (omega arith)
  advance_to-advance_by zero (suc fuel) target k e h f = ground arith
  advance_to-advance_by (suc n) (suc fuel) target k e h f =
      let next : (advance c k).chain_index ≡ k.chain_index + 1 = omega arith in
      let rest =
        advance_to-advance_by n fuel target (advance c k) (omega (arith, next)) h (omega arith) in
      ground arith

  advance_to_past :
      (fuel target : ℕ) (k : SenderKey)
      → target < k.chain_index
      → 0 < fuel
      → advance_to c fuel target k ≡ some k
  unfolding advance_to
  advance_to_past zero target k h f = absurd (omega arith)
  advance_to_past (suc fuel) target k h f = ground arith

  advance_to_forever :
      (fuel : ℕ) (k : SenderKey) → k.chain_index < 2 ^ 32 → advance_to c fuel (2 ^ 32 - 1) k ≡ none
  unfolding advance_to advance
  advance_to_forever zero k h = refl
  advance_to_forever (suc fuel) k h =
      let rest = advance_to_forever fuel (advance c k) (omega arith) in ground arith

  module _ (group_id : Bytes) (payload : GroupPayload) (k : SenderKey)
      (index_fits : k.chain_index < 2 ^ 32) (target_fits : payload.chain_index < 2 ^ 32) where
    decrypt_with_found :
        (fuel : ℕ) (k' : SenderKey)
        → advance_to c fuel payload.chain_index k ≡ some k'
        → decrypt_with c fuel group_id payload k ≢ none
    unfolding decrypt_with
    decrypt_with_found fuel k' e = go (derive_message_key_at_index c k' payload.chain_index) refl
      where
        go :
            (r : Result Error Bytes)
            → derive_message_key_at_index c k' payload.chain_index ≡ r
            → decrypt_with c fuel group_id payload k ≢ none
        go (err x) same n = ground arith
        go (ok x) same n = ground arith

    -- `DecryptGroupMessage` returns within as many rounds as the payload's chain index needs,
    -- unless that is 2 ^ 32 - 1 in a payload of the right epoch: then the loop never ends.
    pub decrypt_with_returns :
        ((payload.epoch ≡ k.epoch)
          × (payload.chain_index ≡ 2 ^ 32 - 1)
          × ((fuel : ℕ) → decrypt_with c fuel group_id payload k ≡ none))
        ⊎ ((fuel : ℕ)
            → payload.chain_index + 2 < fuel
            → decrypt_with c fuel group_id payload k ≢ none)
    unfolding decrypt_with
    decrypt_with_returns = elim (ℕ_discrete payload.epoch k.epoch) [
      | no n ↦ inr (λ fuel h. ground arith)
      | yes same ↦ elim (ℕ_discrete payload.chain_index (2 ^ 32 - 1)) [
        | yes last ↦ inl (
          same,
          last,
          λ fuel.
              let r : advance_to c fuel payload.chain_index k ≡ none =
                rw last (advance_to_forever fuel k index_fits) in
              ground arith,
        )
        | no n ↦ inr (λ fuel h. elim (dec_lt payload.chain_index k.chain_index) [
          | yes less ↦ ground arith
          | no m ↦
              decrypt_with_found fuel (advance_by (payload.chain_index + 1 - k.chain_index) k) (
                advance_to-advance_by (payload.chain_index + 1 - k.chain_index) fuel
                  payload.chain_index k (omega arith) (omega arith) (omega arith))
        ])
      ]
    ]
