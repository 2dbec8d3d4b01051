-- ===== src/Calls/Consistency.antt =====
-- What holds of every session of the manager between two calls (pkg/rtc/session.go).
use babylontower.Prelude.{
  ℕ, ◌≡◌, ◌≢◌, ◌⊎◌, refl, Option, none, some, [], Bytes, ltb, bytes_dec, Distinct, Result, ok, err,
  arith, inl, inr, Option-cases, Bool-cases, length,
}
use babylontower.Prelude.Assoc.{
  lookup, insert, keys, Values, Values-lookup, Values-insert, Values-delete, Distinct-insert,
  Distinct-delete,
}
use babylontower.Calls.Session.{
  CallState, idle, active, ended, Reason, Error, CallSession, transition, is_ended,
}
use babylontower.Calls.Manager.{
  SessionManager, create_outgoing_call, create_incoming_call, new_session, find_live, bytes_of,
}
use babylontower.Calls.Changes.{
  update_session, update_state, set_local_sdp, set_remote_sdp, add_local_ice_candidate,
  add_remote_ice_candidate, derive_media_key, end_call, delete_session, with_session,
}

-- An active call has a connection time, and an ended call an end time.
abbrev pub IsTimed : CallSession → Type 0
IsTimed s = (s.state ≡ active → s.connected_at ≢ none) × (s.state ≡ ended → s.ended_at ≢ none)

-- No call id is twice in the map, and every session is timed.
pub record IsConsistent (sm : SessionManager) : Type 0 where
  pub distinct : Distinct (keys bytes_dec sm.sessions)
  pub timed : Values bytes_dec IsTimed sm.sessions

stored-IsConsistent :
    (id : Bytes) (s : CallSession) (sm sm' : SessionManager)
    → IsConsistent sm
    → IsTimed s
    → sm'.sessions ≡ insert bytes_dec id s sm.sessions
    → IsConsistent sm'
stored-IsConsistent id s sm sm' c t e = record {
  distinct = rw e (Distinct-insert bytes_dec id s sm.sessions c.distinct);
  timed = rw e (Values-insert bytes_dec IsTimed id s sm.sessions t c.timed);
}

transition-IsTimed :
    (now : ℕ) (t : CallState) (s s' : CallSession)
    → IsTimed s
    → transition now t s ≡ ok (some s')
    → IsTimed s'
unfolding transition
transition-IsTimed now idle s s' h e = (ground arith, ground arith)
transition-IsTimed now _ s s' h e = (ground arith, ground arith)

new_session-IsTimed :
    (id local : Bytes) (remote : Option Bytes) (t : Bytes) (now : ℕ) (sdp : Bytes) (sr sl : ℕ)
    → IsTimed (new_session id local remote t now sdp sr sl)
unfolding new_session
new_session-IsTimed id local remote t now sdp sr sl = (ground arith, ground arith)

pub create_outgoing_call-IsConsistent :
    (id : Bytes) (now ssrc : ℕ) (remote : Option Bytes) (t : Bytes) (sm : SessionManager)
    → IsConsistent sm
    → IsConsistent (create_outgoing_call id now ssrc remote t sm).0
unfolding create_outgoing_call
create_outgoing_call-IsConsistent id now ssrc remote t sm c =
    elim (Option-cases (find_live (bytes_of remote) sm.sessions)) [
      | inl e ↦
          rw (e, create_outgoing_call)
            (stored-IsConsistent id _ sm _ c
              (new_session-IsTimed id sm.identity remote t now [] 0 ssrc) refl)
      | inr (s, e) ↦ rw (e, create_outgoing_call) c
    ]

pub create_incoming_call-IsConsistent :
    (now sr sl : ℕ) (id : Bytes) (remote : Option Bytes) (t sdp : Bytes) (sm : SessionManager)
    → IsConsistent sm
    → IsConsistent (create_incoming_call now sr sl id remote t sdp sm).0
unfolding create_incoming_call
create_incoming_call-IsConsistent now sr sl id remote t sdp sm c =
    let stored =
      stored-IsConsistent id (new_session id sm.identity remote t now sdp sr sl) sm _ c
        (new_session-IsTimed id sm.identity remote t now sdp sr sl) refl in
    elim (Option-cases (lookup bytes_dec id sm.sessions)) [
      | inr (s, e) ↦ rw (e, create_incoming_call) c
      | inl e ↦ elim (Bool-cases (ltb (length (bytes_of remote)) 8)) [
        | inl b ↦ rw (e, create_incoming_call, b) stored
        | inr b ↦ rw (e, create_incoming_call, b) stored
      ]
    ]

update_session-IsConsistent :
    (now later : ℕ) (id : Bytes) (t : CallState) (s : CallSession)
    (r : Result Error (Option CallSession)) (sm : SessionManager)
    → IsConsistent sm
    → IsTimed s
    → transition now t s ≡ r
    → IsConsistent (update_session id t later s r sm).0
unfolding update_session
update_session-IsConsistent now later id t s (err e) sm c h same = c
update_session-IsConsistent now later id t s (ok none) sm c h same = c
update_session-IsConsistent now later id t s (ok (some s')) sm c h same =
    stored-IsConsistent id (record s' { updated_at = later }) sm _ c
      (transition-IsTimed now t s s' h same) refl

-- A method that looks the call up is a matter of the two outcomes of the lookup.
module _ (id : Bytes) (sm : SessionManager) (c : IsConsistent sm) where
  found :
      (lookup bytes_dec id sm.sessions ≡ none)
      ⊎ ((s : CallSession) × (lookup bytes_dec id sm.sessions ≡ some s) × IsTimed s)
  found = elim (Option-cases (lookup bytes_dec id sm.sessions)) [
    | inl e ↦ inl e
    | inr (s, e) ↦ inr (s, e, Values-lookup bytes_dec IsTimed id s sm.sessions c.timed e)
  ]

  pub update_state-IsConsistent :
      (now later : ℕ) (t : CallState) → IsConsistent (update_state now later id t sm).0
  unfolding update_state with_session
  update_state-IsConsistent now later t = elim found [
    | inl e ↦ rw (e, with_session) c
    | inr (s, e, h) ↦
        rw (e, with_session)
          (update_session-IsConsistent now later id t s (transition now t s) sm c h refl)
  ]

  pub set_local_sdp-IsConsistent :
      (now : ℕ) (sdp : Bytes) → IsConsistent (set_local_sdp now id sdp sm).0
  unfolding set_local_sdp with_session
  set_local_sdp-IsConsistent now sdp = elim found [
    | inl e ↦ rw (e, with_session) c
    | inr (s, e, h) ↦ rw (e, with_session) (stored-IsConsistent id _ sm _ c h refl)
  ]

  pub set_remote_sdp-IsConsistent :
      (now : ℕ) (sdp : Bytes) → IsConsistent (set_remote_sdp now id sdp sm).0
  unfolding set_remote_sdp with_session
  set_remote_sdp-IsConsistent now sdp = elim found [
    | inl e ↦ rw (e, with_session) c
    | inr (s, e, h) ↦ rw (e, with_session) (stored-IsConsistent id _ sm _ c h refl)
  ]

  pub add_local_ice_candidate-IsConsistent :
      (now : ℕ) (x : Bytes) → IsConsistent (add_local_ice_candidate now id x sm).0
  unfolding add_local_ice_candidate with_session
  add_local_ice_candidate-IsConsistent now x = elim found [
    | inl e ↦ rw (e, with_session) c
    | inr (s, e, h) ↦ rw (e, with_session) (stored-IsConsistent id _ sm _ c h refl)
  ]

  pub add_remote_ice_candidate-IsConsistent :
      (now : ℕ) (x : Bytes) → IsConsistent (add_remote_ice_candidate now id x sm).0
  unfolding add_remote_ice_candidate with_session
  add_remote_ice_candidate-IsConsistent now x = elim found [
    | inl e ↦ rw (e, with_session) c
    | inr (s, e, h) ↦ rw (e, with_session) (stored-IsConsistent id _ sm _ c h refl)
  ]

  pub derive_media_key-IsConsistent :
      (key : Option Bytes) → IsConsistent (derive_media_key key id sm).0
  unfolding derive_media_key
  derive_media_key-IsConsistent none = elim found [
    | inl e ↦ rw (e, derive_media_key) c
    | inr (s, e, h) ↦ rw (e, derive_media_key) c
  ]
  derive_media_key-IsConsistent (some k) = elim found [
    | inl e ↦ rw (e, derive_media_key) c
    | inr (s, e, h) ↦ rw (e, derive_media_key) (stored-IsConsistent id _ sm _ c h refl)
  ]

  pub end_call-IsConsistent :
      (now : ℕ) (reason : Reason) → IsConsistent (end_call now id reason sm).0
  unfolding end_call with_session
  end_call-IsConsistent now reason = elim found [
    | inl e ↦ rw (e, with_session) c
    | inr (s, e, h) ↦ elim (Bool-cases (is_ended s.state)) [
      | inl b ↦ rw (e, with_session, b) c
      | inr b ↦
          rw (e, with_session, b)
            (stored-IsConsistent id _ sm _ c ((λ f. ground arith), (λ f. ground arith)) refl)
    ]
  ]

  pub delete_session-IsConsistent : IsConsistent (delete_session id sm).0
  unfolding delete_session with_session
  delete_session-IsConsistent = elim found [
    | inl e ↦ rw (e, with_session) c
    | inr (s, e, h) ↦
        rw (e, with_session)
          (record {
            distinct = Distinct-delete bytes_dec id sm.sessions c.distinct;
            timed = Values-delete bytes_dec IsTimed id sm.sessions c.timed;
          })
  ]
