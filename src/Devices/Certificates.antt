-- ===== src/Devices/Certificates.antt =====
-- What a signature on a revocation certificate says (pkg/multidevice/revocation.go).
use babylontower.Prelude.{ℕ, ◌≡◌, refl, ap, [], ◌∷◌, ◌++◌, Bytes, codes, ok}
use babylontower.Devices.Revocation.{
  Signatures, IsKeyPair, RevocationCertificate, signed_text, checked_text, sign_revocation,
  revoke_device, verify_revocation, handle_revocation, timestamp_bytes,
}

append_assoc : (a b d : Bytes) → (a ++ b) ++ d ≡ a ++ (b ++ d)
append_assoc [] b d = refl
append_assoc (x ∷ a) b d = rw (append_assoc a b d) refl

-- With a key pair, `RevokeDevice` succeeds, and the holders of the public key accept its
-- certificate, which names the device and the reason.
pub handle_revocation-revoke_device :
    (c : Signatures) (private public : Bytes) (now : ℕ) (device_id reason : Bytes)
    → IsKeyPair c private public
    → (cert : RevocationCertificate) × (revoke_device c private now device_id reason ≡ ok cert)
      × (handle_revocation c cert public ≡ ok tt)
      × (cert.revoked_key ≡ device_id)
      × (cert.reason ≡ reason)
unfolding revoke_device handle_revocation verify_revocation sign_revocation signed_text checked_text
handle_revocation-revoke_device c private public now device_id reason pair =
    let (s, signed, valid) =
      pair.signs (device_id ++ codes "device" ++ reason ++ timestamp_bytes now) in
    (
      record {
        revoked_key = device_id;
        revocation_type = codes "device";
        reason = reason;
        revoked_at = now;
        signature = s;
      },
      rw (signed, revoke_device) refl,
      rw (valid, verify_revocation) refl,
      refl,
      refl,
    )

checked_text_split :
    (a b kind reason : Bytes) (at : ℕ) (signature : Bytes)
    → checked_text (record {
      revoked_key = a ++ b;
      revocation_type = kind;
      reason = reason;
      revoked_at = at;
      signature = signature;
    })
      ≡ checked_text (record {
        revoked_key = a;
        revocation_type = b ++ kind;
        reason = reason;
        revoked_at = at;
        signature = signature;
      })
unfolding checked_text
checked_text_split a b kind reason at signature =
    ap (λ x. (x ++ reason) ++ timestamp_bytes at) (append_assoc a b kind)

-- A signature does not fix where the revoked key ends: a certificate that revokes the key `a ++ b` is
-- accepted if and only if the one is that revokes `a` and has `b` in front of its type.
pub handle_revocation_split :
    (c : Signatures) (a b kind reason : Bytes) (at : ℕ) (signature public : Bytes)
    → handle_revocation c
        (record {
          revoked_key = a ++ b;
          revocation_type = kind;
          reason = reason;
          revoked_at = at;
          signature = signature;
        })
        public
      ≡ handle_revocation c
          (record {
            revoked_key = a;
            revocation_type = b ++ kind;
            reason = reason;
            revoked_at = at;
            signature = signature;
          })
          public
unfolding handle_revocation verify_revocation
handle_revocation_split c a b kind reason at signature public =
    rw (checked_text_split a b kind reason at signature, verify_revocation) refl
