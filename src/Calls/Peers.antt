-- ===== src/Calls/Peers.antt =====
-- One live call with a peer (pkg/rtc/session.go).
use babylontower.Prelude.{
  ℕ, ◌≡◌, refl, none, some, [], ◌∷◌, Bytes, true, bytes_dec, arith, inl, inr, Option-cases, ok, err,
  ◌⊎◌,
}
use babylontower.Prelude.Assoc.{Assoc, insert, lookup-insert_same}
use babylontower.Calls.Session.{CallSession, call_already_exists, call_not_found}
use babylontower.Calls.Manager.{
  SessionManager, create_outgoing_call, find_live, is_live_with, get_session,
  get_active_session_with_peer, new_session,
}

find_live-insert :
    (peer id : Bytes) (s : CallSession) (m : Assoc Bytes CallSession)
    → find_live peer m ≡ none
    → is_live_with peer s ≡ true
    → find_live peer (insert bytes_dec id s m) ≡ some s
unfolding find_live insert
find_live-insert peer id s [] h l = ground arith
find_live-insert peer id s ((j, x) ∷ m) h l = ground (arith, find_live-insert peer id s m)

-- `CreateOutgoingCall` to a peer is refused and changes nothing if `GetActiveSessionWithPeer` finds
-- a call; otherwise it succeeds, both getters then find the new call, and the next one to this peer
-- is refused.
pub create_outgoing_call-exclusive :
    (id id' : Bytes) (now now' ssrc ssrc' : ℕ) (peer t t' : Bytes) (sm : SessionManager)
    → ((s : CallSession) × (get_active_session_with_peer peer sm ≡ ok s)
        × (create_outgoing_call id now ssrc (some peer) t sm ≡ (sm, err call_already_exists)))
      ⊎ ((sm' : SessionManager) × (s : CallSession) × (get_active_session_with_peer peer sm
            ≡ err call_not_found)
          × (create_outgoing_call id now ssrc (some peer) t sm ≡ (sm', ok s))
          × (get_session id sm' ≡ ok s)
          × (get_active_session_with_peer peer sm' ≡ ok s)
          × (create_outgoing_call id' now' ssrc' (some peer) t' sm'
              ≡ (sm', err call_already_exists)))
unfolding create_outgoing_call get_active_session_with_peer get_session is_live_with new_session
create_outgoing_call-exclusive id id' now now' ssrc ssrc' peer t t' sm =
    elim (Option-cases (find_live peer sm.sessions)) [
      | inr (s, e) ↦ inl (s, rw e refl, rw (e, create_outgoing_call) refl)
      | inl e ↦
          let s = new_session id sm.identity (some peer) t now [] 0 ssrc in
          let live : is_live_with peer s ≡ true = ground arith in
          let there = find_live-insert peer id s sm.sessions e live in
          inr (
            record sm { sessions = insert bytes_dec id s sm.sessions },
            s,
            rw e refl,
            rw (e, create_outgoing_call) refl,
            rw (lookup-insert_same bytes_dec id s sm.sessions) refl,
            rw there refl,
            rw (there, create_outgoing_call) refl,
          )
    ]
