-- ===== src/Ratchet/Handshake.antt =====
-- The first chain of a session that the two constructors of x3dh.go set up.
use babylontower.Prelude.{
  ℕ, ◌≡◌, refl, ◌∙◌, ◌≤◌, ◌<◌, Option, none, some, List, [], ◌∷◌, Bytes, String, inl, inr,
  Option-cases, arith, ok, All, Distinct, length, get_or, pick,
}
use babylontower.Ratchet.Crypto.{Crypto, Laws, kdf_rk, generate_x25519_key_pair}
use babylontower.Ratchet.State.{
  DoubleRatchetState, EncryptedMessage, max_skipped_keys, new_initiator, new_responder,
}
use babylontower.Ratchet.X3dh.{IsPair}
use babylontower.Ratchet.Cipher.{first_receive, switch_key, follow_header, decrypt}
use babylontower.Ratchet.Chain.{chain_at, IsAt}
use babylontower.Ratchet.Advance.{follow_header_same}
use babylontower.Ratchet.Conversation.{
  encrypt_all, decrypt_all, blank, IsSending, encrypt_all-Sent, decrypt_all-encrypt_all,
}

module _ (c : Crypto) (laws : Laws c) (secret spk_priv spk_pub : Bytes)
    (pair : IsPair c spk_priv spk_pub) where
  -- The initiator's first sending chain and the responder's first receiving chain have one start.
  pub record Meets (s r : DoubleRatchetState) : Type 0 where
    pub start : Bytes
    pub key : Bytes
    pub sends : IsSending c start key 0 s
    pub ratcheted : DoubleRatchetState
    pub receive : first_receive c key r ≡ (ratcheted, ok tt)
    pub root : ratcheted.root_key ≡ s.root_key
    pub at : IsAt c start (some key) 0 ratcheted
    pub clean : ratcheted.skipped_keys ≡ []

  new_initiator-Meets :
      (seed : Option Bytes) (now now' : ℕ) (id id' : String) (pa pb pa' pb' : Bytes)
      (s : DoubleRatchetState)
      → new_initiator c seed now id pa pb secret spk_pub ≡ ok s
      → Meets s (new_responder now' id' pa' pb' secret spk_priv spk_pub)
  unfolding new_initiator new_responder generate_x25519_key_pair first_receive chain_at
  new_initiator-Meets none now now' id id' pa pb pa' pb' s e = absurd (ground arith)
  new_initiator-Meets (some x) now now' id id' pa pb pa' pb' s e =
      elim (Option-cases (c.x25519 x c.basepoint)) [
        | inl f ↦ absurd (ground arith)
        | inr (px, f) ↦ elim (Option-cases (c.x25519 x spk_pub)) [
          | inl g ↦ absurd (ground arith)
          | inr (dh, g) ↦
              let r = new_responder now' id' pa' pb' secret spk_priv spk_pub in
              record {
                start = (kdf_rk c secret dh).1;
                key = px;
                sends = record {
                  sending_key = ground arith;
                  count = ground arith;
                  public_key = ground arith;
                };
                ratcheted = record r {
                  dh_receiving_key_pub = some px;
                  root_key = (kdf_rk c secret dh).0;
                  receiving_chain_key = some (kdf_rk c secret dh).1;
                  receiving_chain_count = 0;
                };
                receive = ground (arith, laws.agree spk_priv x spk_pub px pair f);
                root = ground arith;
                at = record { receiving_key = refl; count = refl; remote = refl };
                clean = refl;
              }
        ]
      ]

  follow_header_first :
      (seed : Option Bytes) (m : EncryptedMessage) (p : Bytes) (r : DoubleRatchetState)
      → m.header.dh_ratchet_pub ≡ some p
      → r.dh_receiving_key_pub ≡ none
      → follow_header c seed m.header r ≡ first_receive c p r
  unfolding follow_header switch_key
  follow_header_first seed m p r sender unset = rw (sender, follow_header, unset, switch_key)

  -- The first message that arrives sets the receiving chain up; `Decrypt` then goes on as if it had
  -- been.
  decrypt-first_receive :
      (seed : Option Bytes) (now : ℕ) (m : EncryptedMessage) (ad p : Bytes)
      (r r₁ : DoubleRatchetState)
      → m.header.dh_ratchet_pub ≡ some p
      → r.dh_receiving_key_pub ≡ none
      → r₁.dh_receiving_key_pub ≡ some p
      → first_receive c p r ≡ (r₁, ok tt)
      → decrypt c seed now m.header m.ciphertext ad r
        ≡ decrypt c seed now m.header m.ciphertext ad r₁
  unfolding decrypt
  decrypt-first_receive seed now m ad p r r₁ sender unset set e =
      rw (follow_header_same c seed m.header p r₁ sender set)
        (rw (follow_header_first seed m p r sender unset ∙ e) refl)

  decrypt_all-first_receive :
      (seed : Option Bytes) (now : ℕ) (ad p : Bytes) (ms : List EncryptedMessage) (i : ℕ)
      (order : List ℕ) (r r₁ : DoubleRatchetState)
      → (get_or ms i blank).header.dh_ratchet_pub ≡ some p
      → r.dh_receiving_key_pub ≡ none
      → r₁.dh_receiving_key_pub ≡ some p
      → first_receive c p r ≡ (r₁, ok tt)
      → decrypt_all c seed now ad (pick blank ms (i ∷ order)) r
        ≡ decrypt_all c seed now ad (pick blank ms (i ∷ order)) r₁
  unfolding decrypt_all
  decrypt_all-first_receive seed now ad p ms i order r r₁ sender unset set e =
      rw (decrypt-first_receive seed now (get_or ms i blank) ad p r r₁ sender unset set e)

  module _ (seed : Option Bytes) (now now' : ℕ) (ad : Bytes) where
    arrive :
        (texts : List Bytes) (order : List ℕ) (s r : DoubleRatchetState)
        → Meets s r
        → r.dh_receiving_key_pub ≡ none
        → length texts ≤ max_skipped_keys
        → All (λ i. i < length texts) order
        → Distinct order
        → (ms : List EncryptedMessage) × (s' r' : DoubleRatchetState) × (encrypt_all c seed now ad
              texts s
            ≡ (s', ok ms))
          × (decrypt_all c seed now ad (pick blank ms order) r ≡ (r', ok (pick [] texts order)))
    unfolding decrypt_all
    arrive texts [] s r meets unset few below apart =
        let (ms, s', e, sent) =
          encrypt_all-Sent c meets.start meets.key laws seed now ad 0 texts s meets.sends
            (omega arith) in
        (ms, s', r, e, refl)
    arrive texts (i ∷ order) s r meets unset few below apart =
        let (ms, s', r', e, d, sent) =
          decrypt_all-encrypt_all c meets.start meets.key laws seed now ad texts (i ∷ order) s
            meets.ratcheted few below apart meets.sends meets.at meets.clean in
        let o = sent.1 i below.0 in
        let first =
          decrypt_all-first_receive seed now ad meets.key ms i order r meets.ratcheted o.sender
            unset meets.at.remote meets.receive in
        (ms, s', r', e, first ∙ d)

    -- A session from the shared secret of X3DH on: the initiator's constructor succeeded, and the
    -- responder's was given the prekey pair that the initiator used. The initiator encrypts up to
    -- `MaxSkippedKeys` texts; the messages arrive in any order, some perhaps not at all, none
    -- twice. Every `Encrypt` succeeds, and the responder's `Decrypt` returns exactly the texts of
    -- those that arrive.
    pub session_delivers :
        (id id' : String) (pa pb pa' pb' : Bytes) (texts : List Bytes) (order : List ℕ)
        {s : DoubleRatchetState}
        → new_initiator c seed now id pa pb secret spk_pub ≡ ok s
        → length texts ≤ max_skipped_keys
        → All (λ i. i < length texts) order
        → Distinct order
        → (ms : List EncryptedMessage) × (s' r' : DoubleRatchetState) × (encrypt_all c seed now ad
              texts s
            ≡ (s', ok ms))
          × (decrypt_all c seed now ad
                (pick blank ms order)
                (new_responder now' id' pa' pb' secret spk_priv spk_pub)
              ≡ (r', ok (pick [] texts order)))
    unfolding new_responder
    session_delivers id id' pa pb pa' pb' texts order {s} e few below apart =
        arrive texts order s (new_responder now' id' pa' pb' secret spk_priv spk_pub)
          (new_initiator-Meets seed now now' id id' pa pb pa' pb' s e) refl few below apart
