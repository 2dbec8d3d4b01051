-- ===== src/Devices/Tests.antt =====
-- Revocations with a toy signature.
use babylontower.Prelude.{
  ◌≡◌, refl, some, [], ◌∷◌, ◌++◌, Bytes, true, false, not, ite, bytes_dec, codes, ok, arith,
}
use babylontower.Prelude.Assoc.{Assoc, lookup, Values}
use babylontower.Devices.Revocation.{
  Signatures, IsKeyPair, RevocationCertificate, DeviceCertificate, IdentityDocument, DeviceSession,
  revoke_device, handle_revocation, is_device_revoked, has_device, get_active_devices,
  cleanup_revoked_devices, has_revocation,
}
use babylontower.Devices.Certificates.{handle_revocation-revoke_device, handle_revocation_split}
use babylontower.Devices.ActiveDevices.{
  is_device_revoked-get_active_devices, cleanup_revoked_devices-active,
}

abbrev toy : Signatures
toy = record {
  sign = λ key text. some text;
  verify = λ key text signature. some (ite (bytes_dec text signature) true false);
}

toy-IsKeyPair : IsKeyPair toy [] []
toy-IsKeyPair = record { signs = λ text. (text, refl, ground arith) }

handle_revocation-revoke_device_example :
    (cert : RevocationCertificate) × (revoke_device toy [] 7 (1 ∷ 2 ∷ []) (codes "lost") ≡ ok cert)
    × (handle_revocation toy cert [] ≡ ok tt)
    × (cert.revoked_key ≡ 1 ∷ 2 ∷ [])
    × (cert.reason ≡ codes "lost")
handle_revocation-revoke_device_example =
    handle_revocation-revoke_device toy [] [] 7 (1 ∷ 2 ∷ []) (codes "lost") toy-IsKeyPair

abbrev certificate : Bytes → Bytes → RevocationCertificate
certificate key kind = record {
  revoked_key = key;
  revocation_type = kind;
  reason = codes "lost";
  revoked_at = 7;
  signature = 3 ∷ [];
}

handle_revocation_split_example :
    handle_revocation toy (certificate ((1 ∷ []) ++ (2 ∷ [])) (codes "device")) []
    ≡ handle_revocation toy (certificate (1 ∷ []) ((2 ∷ []) ++ codes "device")) []
handle_revocation_split_example =
    handle_revocation_split toy (1 ∷ []) (2 ∷ []) (codes "device") (codes "lost") 7 (3 ∷ []) []

abbrev phone : DeviceCertificate
phone = record {
  device_id = 1 ∷ [];
  device_sign_pub = [];
  device_dh_pub = [];
  device_name = codes "phone";
  created_at = 1;
  expires_at = 0;
  identity_pub = [];
  signature = [];
}

abbrev laptop : DeviceCertificate
laptop = record phone { device_id = 2 ∷ []; device_name = codes "laptop" }

abbrev doc : IdentityDocument
doc = record {
  devices = phone ∷ laptop ∷ [];
  revocations = certificate (1 ∷ []) (codes "device") ∷ [];
}

phone_revoked : is_device_revoked doc (1 ∷ []) ≡ true
unfolding is_device_revoked has_revocation bytes_dec
phone_revoked = refl

is_device_revoked-get_active_devices_example :
    is_device_revoked doc (2 ∷ []) ≡ not (has_device (2 ∷ []) (get_active_devices doc))
is_device_revoked-get_active_devices_example = is_device_revoked-get_active_devices doc (2 ∷ [])

abbrev session : Bytes → DeviceSession
session id = record {
  device_id = id;
  device_sign_pub = [];
  device_dh_pub = [];
  session_key = [];
  chain_key = [];
  dh_ratchet = [];
  created_at = 0;
  last_used_at = 0;
  message_counter = 0;
}

abbrev own_sessions : Assoc Bytes DeviceSession
own_sessions = (1 ∷ [], session (1 ∷ [])) ∷ (2 ∷ [], session (2 ∷ [])) ∷ []

abbrev sessions : Assoc Bytes (Assoc Bytes DeviceSession)
sessions = (5 ∷ [], own_sessions) ∷ []

sessions_found : lookup bytes_dec (5 ∷ []) sessions ≡ some own_sessions
unfolding lookup bytes_dec
sessions_found = refl

cleanup_revoked_devices-active_example :
    (kept : Assoc Bytes DeviceSession) × (lookup bytes_dec
        (5 ∷ [])
        (cleanup_revoked_devices (5 ∷ []) doc sessions)
      ≡ some kept)
    × Values bytes_dec (λ s. is_device_revoked doc s.device_id ≡ false) kept
    × ((id : Bytes) (s : DeviceSession)
        → lookup bytes_dec id own_sessions ≡ some s
        → is_device_revoked doc s.device_id ≡ false
        → lookup bytes_dec id kept ≡ some s)
    × ((other : Bytes)
        → ¬ (5 ∷ [] ≡ other)
        → lookup bytes_dec other (cleanup_revoked_devices (5 ∷ []) doc sessions)
          ≡ lookup bytes_dec other sessions)
cleanup_revoked_devices-active_example =
    cleanup_revoked_devices-active (5 ∷ []) doc sessions own_sessions sessions_found
