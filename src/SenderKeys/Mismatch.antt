-- ===== src/SenderKeys/Mismatch.antt =====
-- `DecryptGroupMessage` on what `EncryptGroupMessage` sends (pkg/groups/service.go).
use babylontower.Prelude.{
  ℕ, ◌+◌, ◌-◌, ◌%◌, ◌^◌, ◌≤◌, ◌<◌, ◌≡◌, ◌≢◌, inl, inr, some, Bytes, Bool, true, Result, ◌↔◌, ok,
  arith, Option-cases, codes, [], ◌++◌,
}
use babylontower.SenderKeys.Key.{
  SenderCrypto, SenderKey, advance, message_key_of, next_chain_key, be_bytes, derive_message_key,
}
use babylontower.SenderKeys.Messages.{
  Error, GroupPayload, encrypt_with, decrypt_with, derive_message_key_at_index, open_with,
}
use babylontower.SenderKeys.Advance.{advance_by, advance_to-advance_by}

-- The text sealed under a message key, with a nonce from that key and no info.
abbrev pub IsSealed : SenderCrypto → Bytes → Bytes → Bytes → Bytes → Type 0
IsSealed c group_id text message_key ciphertext =
    (nonce : Bytes) × (aead : Bytes) × (c.hkdf message_key (codes "nonce") [] 24 ≡ some nonce)
    × (c.new_x message_key ≡ some aead)
    × (ciphertext ≡ c.seal aead nonce text group_id)

-- The ciphertext of a payload opens to a text under a message key, with a nonce from that key and the chain
-- index as info, and the signature verifies.
abbrev pub IsOpened : SenderCrypto → Bytes → Bytes → Bytes → GroupPayload → Bytes → Type 0
IsOpened c group_id plaintext message_key payload signing_key =
    (nonce : Bytes) × (aead : Bytes) × (c.hkdf message_key (codes "nonce")
        (be_bytes payload.chain_index) 24
      ≡ some nonce)
    × (c.new_x message_key ≡ some aead)
    × (payload.ciphertext ≢ [])
    × (c.open_sealed aead nonce payload.ciphertext group_id ≡ some plaintext)
    × (c.verify signing_key (group_id ++ payload.ciphertext) payload.sender_group_signature
        ≡ some true)

-- What an accepted message is made of: the key, the nonce and the sealed text.
module _ (c : SenderCrypto) (saved : Bool) (group_id text : Bytes) (k : SenderKey) where
  pub encrypt_with-IsSealed :
      (k' : SenderKey) (payload : GroupPayload)
      → encrypt_with c saved group_id text k ≡ (k', ok payload)
      → IsSealed c group_id text (message_key_of c k.chain_key k.chain_index) payload.ciphertext
        × (payload.epoch ≡ k.epoch)
        × (payload.chain_index ≡ ((k.chain_index + 1) % 2 ^ 32 + (2 ^ 32 - 1)) % 2 ^ 32)
  unfolding encrypt_with derive_message_key advance
  encrypt_with-IsSealed k' payload e =
      let key = message_key_of c k.chain_key k.chain_index in
      elim (Option-cases (c.hkdf key (codes "nonce") [] 24)) [
        | inl n ↦ absurd (ground arith)
        | inr (nonce, a) ↦ elim (Option-cases (c.new_x key)) [
          | inl n ↦ absurd (ground arith)
          | inr (aead, b) ↦
              elim (Option-cases
                (c.sign k.signing_key_priv (group_id ++ c.seal aead nonce text group_id))) [
                  | inl n ↦ absurd (ground arith)
                  | inr (signature, d) ↦
                      ((nonce, aead, a, b, ground arith), ground arith, ground arith)
                ]
        ]
      ]

module _ (c : SenderCrypto) (group_id : Bytes) (payload : GroupPayload) (k : SenderKey) where
  IsOpened-of_ok :
      (message_key plaintext : Bytes)
      → open_with c group_id payload k message_key ≡ ok plaintext
      → IsOpened c group_id plaintext message_key payload k.signing_key
  unfolding open_with
  IsOpened-of_ok message_key plaintext e =
      elim (Option-cases (c.hkdf message_key (codes "nonce") (be_bytes payload.chain_index) 24)) [
        | inl n ↦ absurd (ground arith)
        | inr (nonce, a) ↦ elim (Option-cases (c.new_x message_key)) [
          | inl n ↦ absurd (ground arith)
          | inr (aead, b) ↦
              elim (Option-cases (c.open_sealed aead nonce payload.ciphertext group_id)) [
                | inl n ↦ absurd (ground arith)
                | inr (opened, d) ↦
                    elim (Option-cases (
                      c.verify k.signing_key (group_id ++ payload.ciphertext)
                        payload.sender_group_signature)) [
                          | inl n ↦ absurd (ground arith)
                          | inr (valid, f) ↦
                              (nonce, aead, a, b, ground arith, ground arith, ground arith)
                        ]
              ]
        ]
      ]

  ok-of_IsOpened :
      (message_key plaintext : Bytes)
      → IsOpened c group_id plaintext message_key payload k.signing_key
      → open_with c group_id payload k message_key ≡ ok plaintext
  unfolding open_with
  ok-of_IsOpened message_key plaintext (nonce, aead, a, b, e, d, f) = ground arith

-- What seals the next message and what opens it, for a receiver whose copy of the sender key agrees with the
-- sender's: `EncryptGroupMessage` seals with the message key of the chain key and the index, and a nonce from
-- that key and no info; `DecryptGroupMessage` advances the copy by one and returns a text exactly if the
-- cipher of the message key of the next chain key at the same index, with a nonce from that key and the index
-- as info, opens the sealed text, which is not empty, and the signature verifies. The index is below 2^32 - 1.
pub decrypt_with-encrypt_with :
    (c : SenderCrypto) (saved : Bool) (group_id text : Bytes) (k k' r : SenderKey)
    (payload : GroupPayload) (fuel : ℕ)
    → encrypt_with c saved group_id text k ≡ (k', ok payload)
    → r.chain_key ≡ k.chain_key
    → r.chain_index ≡ k.chain_index
    → r.epoch ≡ k.epoch
    → k.chain_index + 1 < 2 ^ 32
    → 2 ≤ fuel
    → IsSealed c group_id text (message_key_of c k.chain_key k.chain_index) payload.ciphertext
      × (payload.chain_index ≡ k.chain_index)
      × (result : Result Error Bytes) × (decrypt_with c fuel group_id payload r
          ≡ some (advance c r, result))
      × ((plaintext : Bytes)
          → (result ≡ ok plaintext)
            ↔ IsOpened c group_id plaintext
                (message_key_of c (next_chain_key c k.chain_key) k.chain_index)
                payload
                r.signing_key)
unfolding decrypt_with derive_message_key_at_index advance_by advance
decrypt_with-encrypt_with c saved group_id text k k' r payload fuel e keys indices epochs fits
      enough =
    let (sealed, epoch, index) = encrypt_with-IsSealed c saved group_id text k k' payload e in
    let at : payload.chain_index ≡ k.chain_index = omega (arith, index) in
    let moved =
      advance_to-advance_by c 1 fuel payload.chain_index r (omega (arith, at, indices))
        (omega (arith, at)) (omega arith) in
    let key = message_key_of c (next_chain_key c k.chain_key) k.chain_index in
    (
      sealed,
      at,
      open_with c group_id payload (advance c r) key,
      ground arith,
      λ plaintext. (
        IsOpened-of_ok c group_id payload (advance c r) key plaintext,
        ok-of_IsOpened c group_id payload (advance c r) key plaintext,
      ),
    )
