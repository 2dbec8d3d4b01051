-- ===== src/Calls/Lifecycle.antt =====
-- The life of one call under the manager's methods (pkg/rtc/session.go).
use babylontower.Prelude.{
  ℕ, ◌<◌, ◌≡◌, ◌≢◌, ◌⊎◌, refl, Option, none, some, Bytes, Bool, true, false, bytes_dec, arith, inl,
  inr, Option-cases, Result, ok, err,
}
use babylontower.Prelude.Assoc.{lookup, lookup-insert_same}
use babylontower.Calls.Session.{
  CallState, idle, offered, accepted, connecting, active, ended, other, Error, CallSession,
  transition,
}
use babylontower.Calls.Manager.{SessionManager, get_session}
use babylontower.Calls.Changes.{with_session, update_session, update_state}

-- The states that a call goes through after its offer, in their order.
abbrev pub rank : CallState → ℕ
rank offered = 1
rank accepted = 2
rank connecting = 3
rank active = 4
rank ended = 5
rank _ = 0

abbrev pub is_progress : CallState → Bool
is_progress idle = false
is_progress offered = false
is_progress (other _) = false
is_progress _ = true

pub transition-rank :
    (now : ℕ) (t : CallState) (s s' : CallSession)
    → is_progress t ≡ true
    → transition now t s ≡ ok (some s')
    → (s'.state ≡ t) × (rank s.state < rank t) × (s.state ≢ ended)
unfolding transition
transition-rank now idle s s' p e = absurd (ground arith)
transition-rank now offered s s' p e = absurd (ground arith)
transition-rank now (other x) s s' p e = absurd (ground arith)
transition-rank now accepted s s' p e = ground arith
transition-rank now connecting s s' p e = ground arith
transition-rank now active s s' p e = ground arith
transition-rank now ended s s' p e = ground arith

update_session-rank :
    (later : ℕ) (id : Bytes) (now : ℕ) (t : CallState) (s : CallSession)
    (r : Result Error (Option CallSession)) (sm : SessionManager)
    → is_progress t ≡ true
    → transition now t s ≡ r
    → ((update_session id t later s r sm).0 ≡ sm)
      ⊎ ((s' : CallSession) × (lookup bytes_dec id (update_session id t later s r sm).0.sessions
            ≡ some s')
          × (s'.state ≡ t)
          × (rank s.state < rank t))
unfolding update_session
update_session-rank later id now t s (err e) sm p same = inl refl
update_session-rank later id now t s (ok none) sm p same = inl refl
update_session-rank later id now t s (ok (some s')) sm p same =
    let (state, up, _) = transition-rank now t s s' p same in
    let stored = record s' { updated_at = later } in
    inr (stored, lookup-insert_same bytes_dec id stored sm.sessions, state, up)

-- `UpdateState` to accepted, connecting, active or ended either leaves the manager as it is, or
-- moves the call to that state from an earlier one, in the order offered, accepted, connecting,
-- active, ended.
pub update_state-rank :
    (now later : ℕ) (id : Bytes) (t : CallState) (sm : SessionManager) (s : CallSession)
    → is_progress t ≡ true
    → get_session id sm ≡ ok s
    → ((update_state now later id t sm).0 ≡ sm)
      ⊎ ((s' : CallSession) × (get_session id (update_state now later id t sm).0 ≡ ok s')
          × (s'.state ≡ t)
          × (rank s.state < rank t))
unfolding get_session update_state with_session
update_state-rank now later id t sm s p g = elim (Option-cases (lookup bytes_dec id sm.sessions)) [
  | inl e ↦ absurd (ground arith)
  | inr (s', e) ↦
      let same : s' ≡ s = ground arith in
      rw (e, with_session, same)
        (elim (update_session-rank later id now t s (transition now t s) sm p refl) [
          | inl kept ↦ inl kept
          | inr (new, at, state, up) ↦ inr (new, rw at refl, state, up)
        ])
]
