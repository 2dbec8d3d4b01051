-- ===== src/Calls/Finality.antt =====
-- The end of a call over runs of the manager's methods (pkg/rtc/session.go).
use babylontower.Prelude.{
  ℕ, ◌≡◌, ◌≢◌, Option, some, List, [], ◌∷◌, Bytes, true, bytes_dec, All, arith,
}
use babylontower.Prelude.Assoc.{Assoc, lookup}
use babylontower.Calls.Session.{ended, Reason, CallSession}
use babylontower.Calls.Manager.{SessionManager}
use babylontower.Calls.Cleanup.{is_stale, cleanup_expired_offers, end_all, stop}
use babylontower.Calls.Consistency.{IsConsistent}
use babylontower.Calls.Lifecycle.{is_progress}
use babylontower.Calls.Expiry.{lookup-keep_fresh}
use babylontower.Calls.Runs.{
  Op, outgoing, incoming, state_update, local_sdp, remote_sdp, local_candidate, remote_candidate,
  media_key, end, deletion, cleanup, stopping, apply, apply_all, apply-IsConsistent,
}
use babylontower.Calls.Ended.{
  HasEnded, update_state-HasEnded, end_call-HasEnded, set_local_sdp-HasEnded,
  set_remote_sdp-HasEnded, add_local_ice_candidate-HasEnded, add_remote_ice_candidate-HasEnded,
  derive_media_key-HasEnded, create_outgoing_call-HasEnded, create_incoming_call-HasEnded,
  delete_session-HasEnded,
}

-- The method does not replace the call with this id, delete it, or set its state to one that is no
-- progress.
abbrev pub Spares : Bytes → Op → Type 0
Spares id (outgoing id' now ssrc remote t) = id' ≢ id
Spares id (state_update now later id' t) = is_progress t ≡ true
Spares id (deletion id') = id' ≢ id
Spares id _ = Unit

lookup-end_all :
    (now : ℕ) (id : Bytes) (s : CallSession) (m : Assoc Bytes CallSession)
    → lookup bytes_dec id m ≡ some s
    → s.state ≡ ended
    → lookup bytes_dec id (end_all now m) ≡ some s
unfolding lookup end_all
lookup-end_all now id s [] h e = absurd (ground arith)
lookup-end_all now id s ((j, x) ∷ m) h e = ground (arith, lookup-end_all now id s m)

apply-HasEnded :
    (id : Bytes) (reason : Reason) (at : Option ℕ) (op : Op) (sm : SessionManager)
    → IsConsistent sm
    → Spares id op
    → HasEnded id reason at sm.sessions
    → HasEnded id reason at (apply op sm).sessions
unfolding apply cleanup_expired_offers stop is_stale
apply-HasEnded id reason at (outgoing id' now ssrc remote t) sm c n h =
    create_outgoing_call-HasEnded id reason at sm h id' now ssrc remote t n
apply-HasEnded id reason at (incoming now sr sl id' remote t sdp) sm c n h =
    create_incoming_call-HasEnded id reason at sm h id' now sr sl remote t sdp
apply-HasEnded id reason at (state_update now later id' t) sm c n h =
    update_state-HasEnded id reason at sm h id' now later t n
apply-HasEnded id reason at (local_sdp now id' sdp) sm c n h =
    set_local_sdp-HasEnded id reason at sm h id' now sdp
apply-HasEnded id reason at (remote_sdp now id' sdp) sm c n h =
    set_remote_sdp-HasEnded id reason at sm h id' now sdp
apply-HasEnded id reason at (local_candidate now id' x) sm c n h =
    add_local_ice_candidate-HasEnded id reason at sm h id' now x
apply-HasEnded id reason at (remote_candidate now id' x) sm c n h =
    add_remote_ice_candidate-HasEnded id reason at sm h id' now x
apply-HasEnded id reason at (media_key key id') sm c n h =
    derive_media_key-HasEnded id reason at sm h id' key
apply-HasEnded id reason at (end now id' why) sm c n h =
    end_call-HasEnded id reason at sm h id' now why
apply-HasEnded id reason at (deletion id') sm c n h =
    delete_session-HasEnded id reason at sm h id' n
apply-HasEnded id reason at (cleanup now) sm c n (s, h, over) =
    let q = over.is_over in
    (s, ground (arith, lookup-keep_fresh now id sm.sessions c.distinct), over)
apply-HasEnded id reason at (stopping now) sm c n (s, h, over) =
    (s, lookup-end_all now id s sm.sessions h over.is_over, over)

-- An ended call of a consistent manager keeps its state, its hangup reason and its end time over
-- any run of the methods that neither deletes it, nor creates an outgoing call under its id, nor
-- sets a state other than accepted, connecting, active and ended.
pub apply_all-HasEnded :
    (id : Bytes) (reason : Reason) (at : Option ℕ) (ops : List Op) (sm : SessionManager)
    → IsConsistent sm
    → All (Spares id) ops
    → HasEnded id reason at sm.sessions
    → HasEnded id reason at (apply_all ops sm).sessions
unfolding apply_all
apply_all-HasEnded id reason at [] sm c n h = h
apply_all-HasEnded id reason at (op ∷ ops) sm c n h =
    apply_all-HasEnded id reason at ops (apply op sm) (apply-IsConsistent op sm c) n.1
      (apply-HasEnded id reason at op sm c n.0 h)
