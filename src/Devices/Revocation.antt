-- ===== src/Devices/Revocation.antt =====
-- Revocation certificates and the devices that they leave (pkg/multidevice/revocation.go).
use babylontower.Prelude.{
  ℕ, ◌/◌, ◌%◌, ◌^◌, ◌≡◌, Option, none, some, List, [], ◌∷◌, ◌++◌, Bytes, Bool, true, false,
  if◌then◌else◌, ite, bytes_dec, codes, Result, ok, err,
}
use babylontower.Prelude.Assoc.{Assoc, lookup, insert}

-- `ed25519.Sign` and `ed25519.Verify`, `none` where they panic, on a key of another length.
pub record Signatures : Type 0 where
  pub sign : Bytes → Bytes → Option Bytes
  pub verify : Bytes → Bytes → Bytes → Option Bool

-- A signature of a key pair verifies.
pub record IsKeyPair (c : Signatures) (private public : Bytes) : Type 0 where
  pub signs :
      (text : Bytes)
      → (s : Bytes) × (c.sign private text ≡ some s) × (c.verify public text s ≡ some true)

pub record RevocationCertificate : Type 0 where
  pub revoked_key : Bytes
  pub revocation_type : Bytes
  pub reason : Bytes
  pub revoked_at : ℕ
  pub signature : Bytes

pub record DeviceCertificate : Type 0 where
  pub device_id : Bytes
  pub device_sign_pub : Bytes
  pub device_dh_pub : Bytes
  pub device_name : Bytes
  pub created_at : ℕ
  pub expires_at : ℕ
  pub identity_pub : Bytes
  pub signature : Bytes

-- The fields of the identity document that this code reads.
pub record IdentityDocument : Type 0 where
  pub devices : List DeviceCertificate
  pub revocations : List RevocationCertificate

pub data Error : Type 0 where
  invalid_signature wrong_key_length : Error

-- The loop that writes a `uint64` with its highest byte first.
abbrev pub timestamp_bytes : ℕ → Bytes
timestamp_bytes t =
    t / 2 ^ 56 % 256
    ∷ t / 2 ^ 48 % 256
    ∷ t / 2 ^ 40 % 256
    ∷ t / 2 ^ 32 % 256
    ∷ t / 2 ^ 24 % 256
    ∷ t / 2 ^ 16 % 256
    ∷ t / 2 ^ 8 % 256
    ∷ t % 256
    ∷ []

unfoldable pub signed_text : RevocationCertificate → Bytes
signed_text cert =
    cert.revoked_key ++ cert.revocation_type ++ cert.reason ++ timestamp_bytes cert.revoked_at

-- The text that `VerifyRevocation` builds again.
unfoldable pub checked_text : RevocationCertificate → Bytes
checked_text cert =
    cert.revoked_key ++ cert.revocation_type ++ cert.reason ++ timestamp_bytes cert.revoked_at

module _ (c : Signatures) where
  -- `signRevocation` and `RevokeDevice`; `now` is the clock in Unix seconds.
  unfoldable pub sign_revocation : Bytes → RevocationCertificate → Option Bytes
  sign_revocation private cert = c.sign private (signed_text cert)

  unfoldable pub revoke_device : Bytes → ℕ → Bytes → Bytes → Result Error RevocationCertificate
  revoke_device private now device_id reason =
      let cert : RevocationCertificate = record {
        revoked_key = device_id;
        revocation_type = codes "device";
        reason = reason;
        revoked_at = now;
        signature = [];
      } in
      elim (sign_revocation private cert) [
        | none ↦ err wrong_key_length
        | some signature ↦ ok (record cert { signature = signature })
      ]

  -- `VerifyRevocation`
  unfoldable pub verify_revocation : RevocationCertificate → Bytes → Result Error (Unit {0})
  verify_revocation cert identity_pub =
      elim (c.verify identity_pub (checked_text cert) cert.signature) [
        | none ↦ err wrong_key_length
        | some valid ↦ if valid then ok tt else err invalid_signature
      ]

  -- `HandleRevocation`, which only verifies so far.
  unfoldable pub handle_revocation : RevocationCertificate → Bytes → Result Error (Unit {0})
  unfolding verify_revocation
  handle_revocation cert identity_pub = verify_revocation cert identity_pub

-- The loops over the revocations and over the devices.
unfoldable pub has_revocation : Bytes → List RevocationCertificate → Bool
has_revocation id [] = false
has_revocation id (r ∷ rs) = ite (bytes_dec r.revoked_key id) true (has_revocation id rs)

unfoldable pub has_device : Bytes → List DeviceCertificate → Bool
has_device id [] = false
has_device id (d ∷ ds) = ite (bytes_dec d.device_id id) true (has_device id ds)

-- `IsDeviceRevoked`
unfoldable pub is_device_revoked : IdentityDocument → Bytes → Bool
is_device_revoked doc id =
    if has_revocation id doc.revocations
    then true
    else if has_device id doc.devices
    then false
    else true

-- `GetActiveDevices`
unfoldable pub not_revoked :
    List RevocationCertificate → List DeviceCertificate → List DeviceCertificate
not_revoked revocations [] = []
not_revoked revocations (d ∷ ds) =
    let rest = not_revoked revocations ds in
    if has_revocation d.device_id revocations then rest else d ∷ rest

unfoldable pub get_active_devices : IdentityDocument → List DeviceCertificate
unfolding not_revoked
get_active_devices doc = not_revoked doc.revocations doc.devices

-- `DeviceSession` of pkg/multidevice/fanout.go.
pub record DeviceSession : Type 0 where
  pub device_id : Bytes
  pub device_sign_pub : Bytes
  pub device_dh_pub : Bytes
  pub session_key : Bytes
  pub chain_key : Bytes
  pub dh_ratchet : Bytes
  pub created_at : ℕ
  pub last_used_at : ℕ
  pub message_counter : ℕ

-- The last loop of `CleanupRevokedDevices`, with the set of active ids as a test.
unfoldable pub keep_active :
    List DeviceCertificate → Assoc Bytes DeviceSession → Assoc Bytes DeviceSession
keep_active active [] = []
keep_active active ((id, s) ∷ m) =
    let rest = keep_active active m in
    if has_device s.device_id active then (id, s) ∷ rest else rest

-- `CleanupRevokedDevices` on the sessions of all identities.
unfoldable pub cleanup_revoked_devices :
    Bytes
    → IdentityDocument
    → Assoc Bytes (Assoc Bytes DeviceSession)
    → Assoc Bytes (Assoc Bytes DeviceSession)
cleanup_revoked_devices identity_pub doc sessions = elim (lookup bytes_dec identity_pub sessions) [
  | none ↦ sessions
  | some own ↦ insert bytes_dec identity_pub (keep_active (get_active_devices doc) own) sessions
]
