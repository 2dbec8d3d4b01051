-- ===== src/Membership/Rotation.antt =====
-- The sender keys after `rotateAllSenderKeys` (pkg/groups/service.go).
use babylontower.Prelude.{
  ℕ, ◌+◌, ◌≡◌, ◌≢◌, sym, ap, subst, ◌∙◌, some, List, [], ◌∷◌, Bytes, bytes_dec, All, ok, arith, inl,
  inr, Option-cases, Bool-cases,
}
use babylontower.Prelude.Assoc.{Assoc, lookup, insert, lookup-insert_same, lookup-insert_other}
use babylontower.Groups.State.{GroupMember, GroupState}
use babylontower.Groups.Members.{pubkeys}
use babylontower.SenderKeys.Key.{SenderCrypto, SenderKey, generate_sender_key}
use babylontower.Membership.Methods.{KeyInput, rotated_key, rotate_keys}

module _ (sc : SenderCrypto) (inputs : ℕ → KeyInput) (state : GroupState) where
  -- A key of the state's epoch whose chain starts from fresh random bytes.
  pub record IsRotated (k : SenderKey) : Type 0 where
    pub of_epoch : k.epoch ≡ state.epoch
    pub input : ℕ
    pub fresh : (inputs input).chain_key ≡ some k.chain_key

  abbrev pub HasRotated : Assoc Bytes SenderKey → Bytes → Type 0
  HasRotated keys j = (k : SenderKey) × (lookup bytes_dec j keys ≡ some k) × IsRotated k

  rotated_key-IsRotated :
      (i : ℕ) (pubkey : Bytes) (keys : Assoc Bytes SenderKey) (k : SenderKey)
      → rotated_key sc (inputs i) state pubkey keys ≡ some k
      → IsRotated k
  unfolding rotated_key generate_sender_key
  rotated_key-IsRotated i pubkey keys k e = record {
    of_epoch = ground arith;
    input = i;
    fresh = ground arith;
  }

  insert-HasRotated :
      (keys : Assoc Bytes SenderKey) (m j : Bytes) (k : SenderKey)
      → IsRotated k
      → HasRotated keys j
      → HasRotated (insert bytes_dec m k keys) j
  insert-HasRotated keys m j k r (old, at, o) = elim (bytes_dec m j) [
    | yes e ↦ (k, rw e (lookup-insert_same bytes_dec j k keys), r)
    | no n ↦ (old, lookup-insert_other bytes_dec m j k keys n ∙ at, o)
  ]

  -- One turn of the loop.
  rotate_keys-cons :
      (i : ℕ) (m : GroupMember) (ms : List GroupMember) (keys keys' : Assoc Bytes SenderKey)
      → rotate_keys sc inputs i state (m ∷ ms) keys ≡ (keys', ok tt)
      → (k : SenderKey) × IsRotated k
        × (rotate_keys sc inputs (i + 1) state ms (insert bytes_dec m.ed25519_pubkey k keys)
            ≡ (keys', ok tt))
  unfolding rotate_keys
  rotate_keys-cons i m ms keys keys' e =
      elim (Option-cases (rotated_key sc (inputs i) state m.ed25519_pubkey keys)) [
        | inl n ↦ absurd (ground arith)
        | inr (k, f) ↦ elim (Bool-cases ((inputs i).saved)) [
          | inr n ↦ absurd (ground arith)
          | inl g ↦ (k, rotated_key-IsRotated i m.ed25519_pubkey keys k f, ground arith)
        ]
      ]

  rotate_keys_nil :
      (i : ℕ) (keys keys' : Assoc Bytes SenderKey)
      → rotate_keys sc inputs i state [] keys ≡ (keys', ok tt)
      → keys' ≡ keys
  unfolding rotate_keys
  rotate_keys_nil i keys keys' e = ground arith

  rotate_keys-HasRotated :
      (i : ℕ) (ms : List GroupMember) (keys keys' : Assoc Bytes SenderKey) (j : Bytes)
      → rotate_keys sc inputs i state ms keys ≡ (keys', ok tt)
      → HasRotated keys j
      → HasRotated keys' j
  rotate_keys-HasRotated i [] keys keys' j e h =
      subst (λ x. HasRotated x j) (sym (rotate_keys_nil i keys keys' e)) h
  rotate_keys-HasRotated i (m ∷ ms) keys keys' j e h =
      let (k, r, rest) = rotate_keys-cons i m ms keys keys' e in
      rotate_keys-HasRotated (i + 1) ms (insert bytes_dec m.ed25519_pubkey k keys) keys' j rest
        (insert-HasRotated keys m.ed25519_pubkey j k r h)

  -- The loop gives every member a rotated key.
  pub rotate_keys-members :
      (i : ℕ) (ms : List GroupMember) (keys keys' : Assoc Bytes SenderKey)
      → rotate_keys sc inputs i state ms keys ≡ (keys', ok tt)
      → All (HasRotated keys') (pubkeys ms)
  rotate_keys-members i [] keys keys' e = tt
  rotate_keys-members i (m ∷ ms) keys keys' e =
      let (k, r, rest) = rotate_keys-cons i m ms keys keys' e in
      let stored = insert bytes_dec m.ed25519_pubkey k keys in
      (
        rotate_keys-HasRotated (i + 1) ms stored keys' m.ed25519_pubkey rest
            (k, lookup-insert_same bytes_dec m.ed25519_pubkey k keys, r),
        rotate_keys-members (i + 1) ms stored keys' rest,
      )

  -- The loop leaves the keys of all others as they were.
  pub rotate_keys_other :
      (i : ℕ) (ms : List GroupMember) (keys keys' : Assoc Bytes SenderKey) (j : Bytes)
      → rotate_keys sc inputs i state ms keys ≡ (keys', ok tt)
      → All (λ x. x ≢ j) (pubkeys ms)
      → lookup bytes_dec j keys' ≡ lookup bytes_dec j keys
  rotate_keys_other i [] keys keys' j e h = ap (lookup bytes_dec j) (rotate_keys_nil i keys keys' e)
  rotate_keys_other i (m ∷ ms) keys keys' j e h =
      let (k, r, rest) = rotate_keys-cons i m ms keys keys' e in
      rotate_keys_other (i + 1) ms (insert bytes_dec m.ed25519_pubkey k keys) keys' j rest h.1
      ∙ lookup-insert_other bytes_dec m.ed25519_pubkey j k keys h.0
