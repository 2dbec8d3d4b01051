-- ===== src/Ratchet/Tests.antt =====
-- A toy instance of the primitives, with runs of pkg/ratchet over it, and the theorems at concrete
-- inputs.
use babylontower.Prelude.{
  ℕ, ◌+◌, ◌*◌, ◌≡◌, refl, Option, none, some, List, [], ◌∷◌, ◌++◌, Bytes, inl, arith, true, ok,
  pick, ite, ℕ_discrete, codes, replicate,
}
use babylontower.Prelude.Assoc.{lookup}
use babylontower.Ratchet.Crypto.{
  Crypto, Laws, kdf_rk, derive_nonce, decrypt_with_key, generate_x25519_key_pair,
}
use babylontower.Ratchet.State.{
  DoubleRatchetState, RatchetHeader, EncryptedMessage, new_initiator, new_responder,
}
use babylontower.Ratchet.Chain.{chain_at, message_key_at, IsAt}
use babylontower.Ratchet.Cipher.{decrypt}
use babylontower.Ratchet.Bounds.{IsBounded, decrypts, calls, calls-new_responder-IsBounded}
use babylontower.Ratchet.Delivery.{Receives, Delivers, decrypt-Delivers}
use babylontower.Ratchet.Conversation.{
  encrypt_all, decrypt_all, blank, IsSending, Sent, decrypt_all-encrypt_all,
}
use babylontower.Ratchet.Handshake.{session_delivers}
use babylontower.Ratchet.Replay.{opened, decrypt_passed_loses_next}
use babylontower.Ratchet.X3dh.{
  dh4_initiator, derive_shared_secret, x3dh_initiator, x3dh_responder, X3dhResult,
  x3dh_responder-x3dh_initiator,
}

abbrev toy_head : Bytes → ℕ
toy_head [] = 0
toy_head (x ∷ _) = x

abbrev toy_sum : Bytes → ℕ
toy_sum [] = 0
toy_sum (x ∷ xs) = x + toy_sum xs

-- `text` without its first part `k`.
toy_strip : Bytes → Bytes → Option Bytes
toy_strip [] text = some text
toy_strip (x ∷ k) [] = none
toy_strip (x ∷ k) (y ∷ text) = ite (ℕ_discrete x y) (toy_strip k text) none

abbrev toy : Crypto
toy = record {
  x25519 = λ a b. some ((toy_head a * toy_head b) ∷ []);
  basepoint = 1 ∷ [];
  hkdf = λ secret salt info n. some (replicate n (toy_sum secret + toy_sum salt));
  hmac_sha256 = λ k d. (3 * toy_head k + toy_head d) ∷ [];
  new_aead = λ k. some k;
  seal = λ k n text ad. k ++ text;
  open_sealed = λ k n text ad. toy_strip k text;
}

toy_strip-append : (k text : Bytes) → toy_strip k (k ++ text) ≡ some text
unfolding toy_strip
toy_strip-append [] text = refl
toy_strip-append (x ∷ k) text = ground (arith, toy_strip-append k text)

toy_agree :
    (a b pa pb : Bytes)
    → toy.x25519 a toy.basepoint ≡ some pa
    → toy.x25519 b toy.basepoint ≡ some pb
    → toy.x25519 a pb ≡ toy.x25519 b pa
toy_agree a b pa pb ha hb = grind arith

toy-Laws : Laws toy
toy-Laws = record {
  open-seal = λ k n text ad. toy_strip-append k text;
  aead_accepts = λ k d. (_, refl);
  nonce_read = λ secret salt info. (_, refl);
  agree = toy_agree;
}

abbrev alice : DoubleRatchetState
alice = record {
  session_id = "s";
  local_identity_pub = 1 ∷ [];
  remote_identity_pub = 2 ∷ [];
  dh_sending_key_priv = some (5 ∷ []);
  dh_sending_key_pub = some (5 ∷ []);
  dh_receiving_key_pub = some (7 ∷ []);
  root_key = replicate 32 37;
  sending_chain_key = some (replicate 32 37);
  sending_chain_count = 0;
  previous_sending_chain_len = 0;
  receiving_chain_key = none;
  receiving_chain_count = 0;
  skipped_keys = [];
  created_at = 100;
  last_used_at = 100;
  cipher_suite_id = 1;
  is_initiator = true;
}

new_initiator-alice :
    new_initiator toy (some (5 ∷ [])) 100 "s" (1 ∷ []) (2 ∷ []) (2 ∷ []) (7 ∷ []) ≡ ok alice
unfolding new_initiator generate_x25519_key_pair kdf_rk
new_initiator-alice = refl

abbrev bob : DoubleRatchetState
bob = record alice {
  dh_receiving_key_pub = some (5 ∷ []);
  sending_chain_key = none;
  receiving_chain_key = some (replicate 32 37);
}

abbrev texts : List Bytes
texts = codes "hi" ∷ codes "you" ∷ codes "there" ∷ []

alice-IsSending : IsSending toy (replicate 32 37) (5 ∷ []) 0 alice
unfolding chain_at
alice-IsSending = record { sending_key = refl; count = refl; public_key = refl }

bob-IsAt : IsAt toy (replicate 32 37) (some (5 ∷ [])) 0 bob
unfolding chain_at
bob-IsAt = record { receiving_key = refl; count = refl; remote = refl }

session_delivers_example :
    (ms : List EncryptedMessage) × (s' r' : DoubleRatchetState) × (encrypt_all toy
        (some (5 ∷ []))
        100
        []
        texts
        alice
      ≡ (s', ok ms))
    × (decrypt_all toy
          (some (5 ∷ []))
          100
          []
          (pick blank ms (2 ∷ 0 ∷ []))
          (new_responder 101 "r" (2 ∷ []) (1 ∷ []) (2 ∷ []) (7 ∷ []) (7 ∷ []))
        ≡ (r', ok (codes "there" ∷ codes "hi" ∷ [])))
session_delivers_example =
    session_delivers toy toy-Laws (2 ∷ []) (7 ∷ []) (7 ∷ []) refl (some (5 ∷ [])) 100 101 [] "s" "r"
      (1 ∷ []) (2 ∷ []) (2 ∷ []) (1 ∷ []) texts (2 ∷ 0 ∷ []) new_initiator-alice (omega arith)
      (omega arith) (omega arith)

decrypt_all-encrypt_all_example :
    (ms : List EncryptedMessage) × (s' r' : DoubleRatchetState) × (encrypt_all toy none 100 [] texts
        alice
      ≡ (s', ok ms))
    × (decrypt_all toy none 100 [] (pick blank ms (1 ∷ 2 ∷ 0 ∷ [])) bob
        ≡ (r', ok (codes "you" ∷ codes "there" ∷ codes "hi" ∷ [])))
    × Sent toy (replicate 32 37) (5 ∷ []) toy-Laws none 100 [] 0 texts ms
decrypt_all-encrypt_all_example =
    decrypt_all-encrypt_all toy (replicate 32 37) (5 ∷ []) toy-Laws none 100 [] texts
      (1 ∷ 2 ∷ 0 ∷ []) alice bob (omega arith) (omega arith) (omega arith) alice-IsSending bob-IsAt
      refl

-- Message 1 of the chain, with a text that its key opens.
abbrev late : RatchetHeader
late = record { dh_ratchet_pub = some (5 ∷ []); previous_chain_len = 0; message_number = 1 }

abbrev late_text : Bytes
late_text = message_key_at toy (replicate 32 37) 1 ++ codes "you"

late_opens :
    decrypt_with_key toy (message_key_at toy (replicate 32 37) 1) 1 late_text []
    ≡ some (codes "you")
unfolding decrypt_with_key derive_nonce
late_opens = toy_strip-append (message_key_at toy (replicate 32 37) 1) (codes "you")

bob-Receives : Receives toy (replicate 32 37) (5 ∷ []) 3 0 bob
unfolding lookup
bob-Receives = record { at = bob-IsAt; fresh = λ i h. refl; room = omega arith }

decrypt-Delivers_example :
    (s' : DoubleRatchetState) × (decrypt toy none 100 late late_text [] bob
      ≡ (s', ok (codes "you")))
    × Delivers toy (replicate 32 37) (5 ∷ []) 3 0 1 bob s'
decrypt-Delivers_example =
    decrypt-Delivers toy (replicate 32 37) (5 ∷ []) 3 none 100 late late_text [] (codes "you") refl
      (omega arith) (omega arith) late_opens 0 bob bob-Receives (inl (omega arith))

calls-new_responder-IsBounded_example : IsBounded (
    calls toy
      (decrypts none 100 late late_text [] ∷ [])
      (new_responder 101 "r" (2 ∷ []) (1 ∷ []) (2 ∷ []) (7 ∷ []) (7 ∷ [])))
calls-new_responder-IsBounded_example =
    calls-new_responder-IsBounded toy (decrypts none 100 late late_text [] ∷ []) 101 "r" (2 ∷ [])
      (1 ∷ []) (2 ∷ []) (7 ∷ []) (7 ∷ [])

abbrev agreed : X3dhResult
agreed = record {
  shared_secret = replicate 32 (21 + 20 + 35 + 55);
  authenticated_data = 3 ∷ 4 ∷ [];
  used_opk_id = 0;
  cipher_suite = 1;
  ephemeral_pub = some (5 ∷ []);
}

x3dh_initiator-agreed :
    x3dh_initiator toy (some (5 ∷ [])) (3 ∷ []) (3 ∷ []) (4 ∷ []) (7 ∷ []) (some (11 ∷ []))
    ≡ ok agreed
unfolding x3dh_initiator generate_x25519_key_pair dh4_initiator derive_shared_secret
x3dh_initiator-agreed = refl

x3dh_responder-x3dh_initiator_example :
    (ek : Bytes) × (agreed.ephemeral_pub ≡ some ek)
    × (x3dh_responder toy (4 ∷ []) (4 ∷ []) (7 ∷ []) (some (11 ∷ [])) (3 ∷ []) ek
        ≡ ok (record agreed { ephemeral_pub = none }))
x3dh_responder-x3dh_initiator_example =
    x3dh_responder-x3dh_initiator toy toy-Laws (some (5 ∷ [])) (3 ∷ []) (3 ∷ []) (4 ∷ []) (4 ∷ [])
      (7 ∷ []) (7 ∷ []) (some (11 ∷ [])) (some (11 ∷ [])) refl refl refl refl x3dh_initiator-agreed

-- Bob has decrypted messages 0 and 1.
abbrev bob₂ : DoubleRatchetState
bob₂ = record bob {
  receiving_chain_key = some (chain_at toy (replicate 32 37) 2);
  receiving_chain_count = 2;
}

bob₂-IsAt : IsAt toy (replicate 32 37) (some (5 ∷ [])) 2 bob₂
bob₂-IsAt = record { receiving_key = refl; count = refl; remote = refl }

decrypt_passed_loses_next_example :
    (decrypt toy none 100
      (record late { message_number = 2 })
      (codes "x")
      []
      (decrypt toy none 100 late [] [] bob₂).0).1
    ≡ opened (decrypt_with_key toy (message_key_at toy (replicate 32 37) 3) 2 (codes "x") [])
unfolding lookup
decrypt_passed_loses_next_example =
    decrypt_passed_loses_next toy (replicate 32 37) (5 ∷ []) none 100 late
      (record late { message_number = 2 }) [] [] (codes "x") [] 2 bob₂ bob₂-IsAt refl refl
      (omega arith) refl (omega arith) refl refl
