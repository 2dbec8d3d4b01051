-- ===== src/Calls/Expiry.antt =====
-- What a tick of `cleanupExpiredOffers` leaves in the map (pkg/rtc/session.go).
use babylontower.Prelude.{
  ℕ, ◌≡◌, ◌≢◌, ◌↔◌, subst, refl, Option, none, some, [], ◌∷◌, Bytes, false, if◌then◌else◌,
  bytes_dec, Distinct, All, arith, inl, inr, Option-cases, ok,
}
use babylontower.Prelude.Assoc.{Assoc, lookup, keys, lookup_absent}
use babylontower.Calls.Session.{CallSession, is_expired}
use babylontower.Calls.Manager.{SessionManager, get_session}
use babylontower.Calls.Cleanup.{is_stale, keep_fresh, cleanup_expired_offers}
use babylontower.Calls.Consistency.{IsConsistent}
use babylontower.Calls.Runs.{absent-keep_fresh}

abbrev pub fresh : ℕ → Option CallSession → Option CallSession
fresh now none = none
fresh now (some s) = if is_stale now s then none else some s

pub lookup-keep_fresh :
    (now : ℕ) (id : Bytes) (m : Assoc Bytes CallSession)
    → Distinct (keys bytes_dec m)
    → lookup bytes_dec id (keep_fresh now m) ≡ fresh now (lookup bytes_dec id m)
unfolding lookup keep_fresh
lookup-keep_fresh now id [] d = refl
lookup-keep_fresh now id ((j, s) ∷ m) d = elim (bytes_dec j id) [
  | yes e ↦
      let gone =
        lookup_absent bytes_dec id (keep_fresh now m)
          (absent-keep_fresh now id m (subst (λ k. All (λ i. i ≢ k) (keys bytes_dec m)) e d.0)) in
      ground (arith, gone)
  | no n ↦ ground (arith, lookup-keep_fresh now id m d.1)
]

-- After a tick of `cleanupExpiredOffers` on a consistent manager, `GetSession` finds a call if and only
-- if it found it before and the call had not expired; the call that it finds is unchanged.
pub get_session-cleanup_expired_offers :
    (now : ℕ) (id : Bytes) (sm : SessionManager) (s : CallSession)
    → IsConsistent sm
    → (get_session id (cleanup_expired_offers now sm) ≡ ok s)
      ↔ ((get_session id sm ≡ ok s) × (is_expired now s ≡ false))
unfolding get_session cleanup_expired_offers is_expired is_stale
get_session-cleanup_expired_offers now id sm s c =
    let same = lookup-keep_fresh now id sm.sessions c.distinct in
    elim (Option-cases (lookup bytes_dec id sm.sessions)) [
      | inl e ↦ ground arith
      | inr (s', e) ↦ ground arith
    ]
