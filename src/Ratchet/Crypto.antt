-- ===== src/Ratchet/Crypto.antt =====
-- The primitives that pkg/ratchet takes from golang.org/x/crypto and the Go library, as a parameter,
-- and the key derivations of pkg/ratchet/x3dh.go and `decryptWithKey` of ratchet.go over them.
use babylontower.Prelude.{
  ℕ, ◌≡◌, Option, none, some, Bytes, codes, le_bytes, take, drop, replicate, [], ◌∷◌,
}

pub record Crypto : Type 0 where
  -- `curve25519.X25519(scalar, point)`, `none` where it returns an error.
  pub x25519 : Bytes → Bytes → Option Bytes
  pub basepoint : Bytes
  -- `io.ReadFull(hkdf.New(sha256.New, secret, salt, info), buf)` for a buffer of the given length.
  pub hkdf : Bytes → Bytes → Bytes → ℕ → Option Bytes
  pub hmac_sha256 : Bytes → Bytes → Bytes
  -- `chacha20poly1305.New(key)`, `aead.Seal(nil, nonce, text, ad)` and `aead.Open(nil, nonce, text,
  -- ad)`.
  pub new_aead : Bytes → Option Bytes
  pub seal : Bytes → Bytes → Bytes → Bytes → Bytes
  pub open_sealed : Bytes → Bytes → Bytes → Bytes → Option Bytes

-- What the packages document: an opened seal is the text, an HMAC-SHA256 has the key length of the
-- AEAD, HKDF-SHA256 yields up to 255 blocks, and Diffie-Hellman agrees.
pub record Laws (c : Crypto) : Type 0 where
  pub open-seal : (k n text ad : Bytes) → c.open_sealed k n (c.seal k n text ad) ad ≡ some text
  pub aead_accepts : (k d : Bytes) → (a : Bytes) × (c.new_aead (c.hmac_sha256 k d) ≡ some a)
  pub nonce_read : (secret salt info : Bytes) → (n : Bytes) × (c.hkdf secret salt info 12 ≡ some n)
  pub agree :
      (a b pa pb : Bytes)
      → c.x25519 a c.basepoint ≡ some pa
      → c.x25519 b c.basepoint ≡ some pb
      → c.x25519 a pb ≡ c.x25519 b pa

module _ (c : Crypto) where
  -- `KDF_RK`: the new root key and the new chain key.
  unfoldable pub kdf_rk : Bytes → Bytes → Bytes × Bytes
  kdf_rk root_key dh_output = elim (c.hkdf dh_output root_key (codes "BabylonTowerRatchet") 64) [
    | none ↦ (replicate 32 0, replicate 32 0)
    | some output ↦ (take 32 output, take 32 (drop 32 output))
  ]

  -- `KDF_CK`: the new chain key and the message key.
  unfoldable pub kdf_ck : Bytes → Bytes × Bytes
  kdf_ck chain_key = (c.hmac_sha256 chain_key (1 ∷ []), c.hmac_sha256 chain_key (2 ∷ []))

  unfoldable pub derive_nonce : Bytes → ℕ → Option Bytes
  derive_nonce message_key counter = c.hkdf message_key (codes "nonce") (le_bytes 4 counter) 12

  -- `generateX25519KeyPair`: the private and the public key, from what the random reader yields.
  unfoldable pub generate_x25519_key_pair : Option Bytes → Option (Bytes × Bytes)
  generate_x25519_key_pair none = none
  generate_x25519_key_pair (some private) = elim (c.x25519 private c.basepoint) [
    | none ↦ none
    | some public ↦ some (private, public)
  ]

  unfoldable pub decrypt_with_key : Bytes → ℕ → Bytes → Bytes → Option Bytes
  decrypt_with_key message_key counter ciphertext associated_data =
      elim (derive_nonce message_key counter) [
        | none ↦ none
        | some nonce ↦ elim (c.new_aead message_key) [
          | none ↦ none
          | some aead ↦ c.open_sealed aead nonce ciphertext associated_data
        ]
      ]
