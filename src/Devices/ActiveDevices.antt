-- ===== src/Devices/ActiveDevices.antt =====
-- The active devices and the sessions that are kept (pkg/multidevice/revocation.go).
use babylontower.Prelude.{
  ◌≡◌, ap, some, List, [], ◌∷◌, Bytes, false, if◌then◌else◌, not, bytes_dec, arith, Bool-cases, inl,
  inr,
}
use babylontower.Prelude.Assoc.{Assoc, lookup, lookup-insert_same, lookup-insert_other, Values}
use babylontower.Devices.Revocation.{
  RevocationCertificate, DeviceCertificate, IdentityDocument, DeviceSession, has_revocation,
  has_device, is_device_revoked, not_revoked, get_active_devices, keep_active,
  cleanup_revoked_devices,
}

has_device-not_revoked :
    (id : Bytes) (rs : List RevocationCertificate) (ds : List DeviceCertificate)
    → has_device id (not_revoked rs ds) ≡ (if has_revocation id rs then false else has_device id ds)
unfolding has_device not_revoked
has_device-not_revoked id rs [] = ground arith
has_device-not_revoked id rs (d ∷ ds) = elim (bytes_dec d.device_id id) [
  | yes e ↦
      let same = ap (λ i. has_revocation i rs) e in ground (arith, has_device-not_revoked id rs ds)
  | no n ↦ ground (arith, has_device-not_revoked id rs ds)
]

-- `IsDeviceRevoked` says yes to exactly the ids that no device of `GetActiveDevices` has.
pub is_device_revoked-get_active_devices :
    (doc : IdentityDocument) (id : Bytes)
    → is_device_revoked doc id ≡ not (has_device id (get_active_devices doc))
unfolding is_device_revoked get_active_devices
is_device_revoked-get_active_devices doc id =
    ground (arith, has_device-not_revoked id doc.revocations doc.devices)

keep_active-Values :
    (doc : IdentityDocument) (m : Assoc Bytes DeviceSession)
    → Values bytes_dec
        (λ s. is_device_revoked doc s.device_id ≡ false)
        (keep_active (get_active_devices doc) m)
unfolding keep_active
keep_active-Values doc [] = tt
keep_active-Values doc ((id, s) ∷ m) =
    let agree = is_device_revoked-get_active_devices doc s.device_id in
    elim (Bool-cases (has_device s.device_id (get_active_devices doc))) [
      | inl e ↦ rw e (ground arith, keep_active-Values doc m)
      | inr e ↦ rw e (keep_active-Values doc m)
    ]

lookup-keep_active :
    (doc : IdentityDocument) (id : Bytes) (s : DeviceSession) (m : Assoc Bytes DeviceSession)
    → lookup bytes_dec id m ≡ some s
    → is_device_revoked doc s.device_id ≡ false
    → lookup bytes_dec id (keep_active (get_active_devices doc) m) ≡ some s
unfolding lookup keep_active
lookup-keep_active doc id s [] h k = absurd (ground arith)
lookup-keep_active doc id s ((j, x) ∷ m) h k =
    let agree = is_device_revoked-get_active_devices doc x.device_id in
    elim (bytes_dec j id) [
      | yes e ↦
          let q : x ≡ s = ground arith in
          let live = ap (λ y. has_device y.device_id (get_active_devices doc)) q in
          let agree' = is_device_revoked-get_active_devices doc s.device_id in ground arith
      | no n ↦ ground (arith, lookup-keep_active doc id s m)
    ]

-- After `CleanupRevokedDevices` for an identity with sessions, no session of it is with a revoked
-- device, every session with a device that is not revoked is still there, and the sessions of other
-- identities are as before.
pub cleanup_revoked_devices-active :
    (identity : Bytes) (doc : IdentityDocument) (sessions : Assoc Bytes (Assoc Bytes DeviceSession))
    (own : Assoc Bytes DeviceSession)
    → lookup bytes_dec identity sessions ≡ some own
    → (kept : Assoc Bytes DeviceSession) × (lookup bytes_dec identity
          (cleanup_revoked_devices identity doc sessions)
        ≡ some kept)
      × Values bytes_dec (λ s. is_device_revoked doc s.device_id ≡ false) kept
      × ((id : Bytes) (s : DeviceSession)
          → lookup bytes_dec id own ≡ some s
          → is_device_revoked doc s.device_id ≡ false
          → lookup bytes_dec id kept ≡ some s)
      × ((other : Bytes)
          → ¬ (identity ≡ other)
          → lookup bytes_dec other (cleanup_revoked_devices identity doc sessions)
            ≡ lookup bytes_dec other sessions)
unfolding cleanup_revoked_devices
cleanup_revoked_devices-active identity doc sessions own e =
    let kept = keep_active (get_active_devices doc) own in
    (
      kept,
      rw (e, cleanup_revoked_devices) (lookup-insert_same bytes_dec identity kept sessions),
      keep_active-Values doc own,
      (λ id s h k. lookup-keep_active doc id s own h k),
      (λ other n.
          rw (e, cleanup_revoked_devices)
            (lookup-insert_other bytes_dec identity other kept sessions n)),
    )
