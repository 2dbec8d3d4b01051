-- ===== src/Ratchet/Conversation.antt =====
-- A chain of messages from `Encrypt` to `Decrypt`, in any order of arrival, and the first chain of a
-- session that X3DH set up (ratchet.go, x3dh.go).
use native.Mathlib.Nat.{add-zero, add-suc, suc-add, zero-add}
use babylontower.Prelude.{
  ℕ, zero, suc, ◌+◌, ◌≤◌, ◌<◌, ◌^◌, ◌≡◌, refl, subst, Option, none, some, List, [], ◌∷◌, Bytes, inl,
  arith, length, codes, le_bytes, ok, give, ◌>>=◌, All, All-map, All-zip, Distinct, get_or, pick,
}
use babylontower.Prelude.Assoc.{lookup}
use babylontower.Ratchet.Crypto.{Crypto, Laws, kdf_ck, derive_nonce, decrypt_with_key}
use babylontower.Ratchet.State.{
  DoubleRatchetState, EncryptedMessage, SkippedName, Method, max_skipped_keys,
}
use babylontower.Ratchet.Skipped.{name_dec}
use babylontower.Ratchet.Cipher.{start_sending, encrypt, decrypt}
use babylontower.Ratchet.Chain.{chain_at, message_key_at, IsAt}
use babylontower.Ratchet.Delivery.{Receives, IsPending, Delivers, decrypt-Delivers}

module _ (c : Crypto) (seed : Option Bytes) (now : ℕ) (ad : Bytes) where
  -- `Encrypt` on each text, and `Decrypt` on each message, until one fails.
  unfoldable pub encrypt_all : List Bytes → Method (List EncryptedMessage)
  encrypt_all [] = give []
  encrypt_all (text ∷ texts) = do
    m ← encrypt c seed now text ad
    ms ← encrypt_all texts
    give (m ∷ ms)

  unfoldable pub decrypt_all : List EncryptedMessage → Method (List Bytes)
  decrypt_all [] = give []
  decrypt_all (m ∷ ms) = do
    text ← decrypt c seed now m.header m.ciphertext ad
    texts ← decrypt_all ms
    give (text ∷ texts)

lookup-nil : (key : SkippedName) → lookup {V = Bytes} name_dec key [] ≡ none
unfolding lookup
lookup-nil key = refl

abbrev pub blank : EncryptedMessage
blank = record {
  header = record { dh_ratchet_pub = none; previous_chain_len = 0; message_number = 0 };
  ciphertext = [];
  nonce = [];
}

module _ (c : Crypto) (start p : Bytes) where
  -- The sending chain stands at message `n` of the chain from `start`, under the public key `p`.
  pub record IsSending (n : ℕ) (s : DoubleRatchetState) : Type 0 where
    pub sending_key : s.sending_chain_key ≡ some (chain_at c start n)
    pub count : s.sending_chain_count ≡ n
    pub public_key : s.dh_sending_key_pub ≡ some p

  -- `m` is message `n` of the chain, and its key opens it as `text`.
  pub record Opens (ad : Bytes) (n : ℕ) (text : Bytes) (m : EncryptedMessage) : Type 0 where
    pub sender : m.header.dh_ratchet_pub ≡ some p
    pub number : m.header.message_number ≡ n
    pub opens : decrypt_with_key c (message_key_at c start n) n m.ciphertext ad ≡ some text

  module _ (laws : Laws c) (seed : Option Bytes) (now : ℕ) (ad : Bytes) where
    encrypt-Opens :
        (n : ℕ) (text : Bytes) (s : DoubleRatchetState)
        → IsSending n s
        → suc n < 2 ^ 32
        → (m : EncryptedMessage) × (s' : DoubleRatchetState) × (encrypt c seed now text ad s
            ≡ (s', ok m))
          × IsSending (suc n) s'
          × Opens ad n text m
    unfolding encrypt start_sending chain_at message_key_at decrypt_with_key derive_nonce kdf_ck
    encrypt-Opens n text s v word =
        let (nonce, en) =
          laws.nonce_read (message_key_at c start n) (codes "nonce") (le_bytes 4 n) in
        let (aead, ea) = laws.aead_accepts (chain_at c start n) (2 ∷ []) in
        let m : EncryptedMessage = record {
          header = record {
            dh_ratchet_pub = some p;
            previous_chain_len = s.previous_sending_chain_len;
            message_number = n;
          };
          ciphertext = c.seal aead nonce text ad;
          nonce = nonce;
        } in
        let s' : DoubleRatchetState = record s {
          sending_chain_key = some (chain_at c start (suc n));
          sending_chain_count = suc n;
          last_used_at = now;
        } in
        (
          m,
          s',
          ground (arith, en, ea, v.sending_key, v.count, v.public_key),
          record { sending_key = refl; count = refl; public_key = v.public_key },
          record {
            sender = refl;
            number = refl;
            opens = ground (arith, en, ea, laws.open-seal aead nonce text ad);
          },
        )

    -- The messages are those of the texts, from message `n` on.
    abbrev pub Sent : ℕ → List Bytes → List EncryptedMessage → Type 0
    Sent n texts ms =
        (length ms ≡ length texts)
        × ((i : ℕ) → i < length texts → Opens ad (n + i) (get_or texts i []) (get_or ms i blank))

    Sent-cons :
        (n : ℕ) (text : Bytes) (texts : List Bytes) (m : EncryptedMessage)
        (ms : List EncryptedMessage)
        → Opens ad n text m
        → Sent (suc n) texts ms
        → Sent n (text ∷ texts) (m ∷ ms)
    Sent-cons n text texts m ms o s = (omega (arith, s.0), at)
      where
        at :
            (i : ℕ)
            → i < length (text ∷ texts)
            → Opens ad (n + i) (get_or (text ∷ texts) i []) (get_or (m ∷ ms) i blank)
        at zero h = rw add-zero o
        at (suc i) h = rw (add-suc, ← suc-add) (s.1 i (omega arith))

    pub encrypt_all-Sent :
        (n : ℕ) (texts : List Bytes) (s : DoubleRatchetState)
        → IsSending n s
        → n + length texts < 2 ^ 32
        → (ms : List EncryptedMessage) × (s' : DoubleRatchetState) × (encrypt_all c seed now ad
              texts s
            ≡ (s', ok ms))
          × Sent n texts ms
    unfolding encrypt_all
    encrypt_all-Sent n [] s v word = ([], s, refl, (refl, λ i h. absurd (omega arith)))
    encrypt_all-Sent n (text ∷ texts) s v word =
        let (m, s₁, e, v₁, o) = encrypt-Opens n text s v (omega arith) in
        let (ms, s₂, es, sent) = encrypt_all-Sent (suc n) texts s₁ v₁ (omega arith) in
        (m ∷ ms, s₂, rw (e, es), Sent-cons n text texts m ms o sent)

    -- `m` decrypts to `text`, as message `i`.
    abbrev pub Decrypts : (top n i : ℕ) → Bytes → EncryptedMessage → DoubleRatchetState → Type 0
    Decrypts top n i text m r =
        (r' : DoubleRatchetState) × (decrypt c seed now m.header m.ciphertext ad r ≡ (r', ok text))
        × Delivers c start p top n i r r'

    decrypt-Opens :
        (top n i : ℕ) (text : Bytes) (m : EncryptedMessage) (r : DoubleRatchetState)
        → Opens ad i text m
        → top < 2 ^ 32
        → i < top
        → Receives c start p top n r
        → IsPending c start p top n i r
        → Decrypts top n i text m r
    decrypt-Opens top n i text m r o word below v pending =
        subst (λ j. Decrypts top n j text m r) o.number
          (decrypt-Delivers c start p top seed now m.header m.ciphertext ad text o.sender word
            (rw o.number below) (rw o.number o.opens) n r v (rw o.number pending))

    module _ (texts : List Bytes) (ms : List EncryptedMessage) (sent : Sent 0 texts ms)
        (word : length texts < 2 ^ 32) where
      pub decrypt_all_lem :
          (order : List ℕ) (n : ℕ) (r : DoubleRatchetState)
          → Receives c start p (length texts) n r
          → All (λ i. i < length texts) order
          → All (λ i. IsPending c start p (length texts) n i r) order
          → Distinct order
          → (r' : DoubleRatchetState) × (decrypt_all c seed now ad (pick blank ms order) r
              ≡ (r', ok (pick [] texts order)))
      unfolding decrypt_all
      decrypt_all_lem [] n r v below pending apart = (r, refl)
      decrypt_all_lem (i ∷ order) n r v below pending apart =
          let o = rw zero-add at (sent.1 i below.0) in
          let (r₁, e, d) =
            decrypt-Opens (length texts) n i _ (get_or ms i blank) r o word below.0 v pending.0 in
          let (r₂, es) =
            decrypt_all_lem order d.next r₁ d.receives below.1
              (All-zip order d.others apart.0 pending.1) apart.1 in
          (r₂, rw (e, es))

    -- The texts of one sending chain, at most `MaxSkippedKeys` of them, arrive in any order and
    -- with any of them lost, each at most once: `Encrypt` succeeds on each, and `Decrypt` returns
    -- exactly the texts of the messages that arrive. The receiver's chain starts where the sender's
    -- does, with an empty cache. Message `i` carries the sender's public key and the number `i`,
    -- and its key opens it as text `i`.
    pub decrypt_all-encrypt_all :
        (texts : List Bytes) (order : List ℕ) (s r : DoubleRatchetState)
        → length texts ≤ max_skipped_keys
        → All (λ i. i < length texts) order
        → Distinct order
        → IsSending 0 s
        → IsAt c start (some p) 0 r
        → r.skipped_keys ≡ []
        → (ms : List EncryptedMessage) × (s' r' : DoubleRatchetState) × (encrypt_all c seed now ad
              texts s
            ≡ (s', ok ms))
          × (decrypt_all c seed now ad (pick blank ms order) r ≡ (r', ok (pick [] texts order)))
          × Sent 0 texts ms
    decrypt_all-encrypt_all texts order s r few below apart v at clean =
        let (ms, s', e, sent) = encrypt_all-Sent 0 texts s v (omega arith) in
        let (r', d) =
          decrypt_all_lem texts ms sent (omega arith) order 0 r receives below
            (All-map order (λ i h. inl (omega arith)) below) apart in
        (ms, s', r', e, d, sent)
      where
        receives : Receives c start p (length texts) 0 r
        receives = record {
          at = at;
          fresh = λ i h. rw clean (lookup-nil (some p, i));
          room = rw clean (omega arith);
        }
