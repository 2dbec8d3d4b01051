-- ===== src/Calls/Tests.antt =====
-- Runs of the session manager on small inputs.
use babylontower.Prelude.{
  ◌≡◌, ◌<◌, ◌⊎◌, ◌↔◌, refl, some, List, [], ◌∷◌, Bytes, true, false, ok, err, bytes_dec,
}
use babylontower.Prelude.Assoc.{lookup, insert}
use babylontower.Calls.Session.{
  accepted, active, ended, normal, busy, CallSession, is_expired, call_already_exists,
  call_not_found, transition,
}
use babylontower.Calls.Manager.{
  SessionManager, create_outgoing_call, get_session, get_active_session_with_peer, new_session,
  find_live,
}
use babylontower.Calls.Changes.{update_state, update_session, with_session, end_call}
use babylontower.Calls.Cleanup.{cleanup_expired_offers}
use babylontower.Calls.Consistency.{IsConsistent}
use babylontower.Calls.Expiry.{get_session-cleanup_expired_offers}
use babylontower.Calls.Lifecycle.{update_state-rank, rank}
use babylontower.Calls.Peers.{create_outgoing_call-exclusive}
use babylontower.Calls.Ended.{HasEnded}
use babylontower.Calls.Finality.{apply_all-HasEnded}
use babylontower.Calls.Runs.{
  Op, outgoing, state_update, end, stopping, apply, apply_all, apply_all-IsConsistent,
}

abbrev empty : SessionManager
empty = record {
  sessions = [];
  identity = 1 ∷ [];
  on_ice_candidate = true;
  on_call_ended = true;
  on_state_changed = true;
  log = [];
}

empty-IsConsistent : IsConsistent empty
empty-IsConsistent = record { distinct = tt; timed = tt }

abbrev first_call : Bytes
first_call = 7 ∷ []

abbrev peer : Bytes
peer = 2 ∷ []

abbrev call_ops : List Op
call_ops =
    outgoing first_call 10 3 (some peer) []
    ∷ state_update 11 12 first_call accepted
    ∷ state_update 20 21 first_call active
    ∷ end 50 first_call normal
    ∷ []

abbrev ringing : SessionManager
ringing = apply_all (outgoing first_call 10 3 (some peer) [] ∷ []) empty

abbrev finished : SessionManager
finished = apply_all call_ops empty

apply_all-IsConsistent_example : IsConsistent finished
apply_all-IsConsistent_example = apply_all-IsConsistent call_ops empty empty-IsConsistent

abbrev first_session : CallSession
first_session = new_session first_call (1 ∷ []) (some peer) [] 10 [] 0 3

create_outgoing_call-exclusive_example :
    ((s : CallSession) × (get_active_session_with_peer peer empty ≡ ok s)
      × (create_outgoing_call first_call 10 3 (some peer) [] empty
          ≡ (empty, err call_already_exists)))
    ⊎ ((sm' : SessionManager) × (s : CallSession) × (get_active_session_with_peer peer empty
          ≡ err call_not_found)
        × (create_outgoing_call first_call 10 3 (some peer) [] empty ≡ (sm', ok s))
        × (get_session first_call sm' ≡ ok s)
        × (get_active_session_with_peer peer sm' ≡ ok s)
        × (create_outgoing_call (8 ∷ []) 11 4 (some peer) [] sm' ≡ (sm', err call_already_exists)))
create_outgoing_call-exclusive_example =
    create_outgoing_call-exclusive first_call (8 ∷ []) 10 11 3 4 peer [] [] empty

ringing_session : get_session first_call ringing ≡ ok first_session
unfolding get_session lookup insert apply_all apply create_outgoing_call find_live bytes_dec
ringing_session = refl

update_state-rank_example :
    ((update_state 11 12 first_call accepted ringing).0 ≡ ringing)
    ⊎ ((s' : CallSession) × (get_session first_call
            (update_state 11 12 first_call accepted ringing).0
          ≡ ok s')
        × (s'.state ≡ accepted)
        × (rank first_session.state < rank accepted))
update_state-rank_example =
    update_state-rank 11 12 first_call accepted ringing first_session refl ringing_session

get_session-cleanup_expired_offers_example :
    (get_session first_call (cleanup_expired_offers 60_000_000_011 ringing) ≡ ok first_session) ↔ (
      (get_session first_call ringing ≡ ok first_session)
      × (is_expired 60_000_000_011 first_session ≡ false))
get_session-cleanup_expired_offers_example =
    get_session-cleanup_expired_offers 60_000_000_011 first_call ringing first_session (
      apply_all-IsConsistent (outgoing first_call 10 3 (some peer) [] ∷ []) empty
        empty-IsConsistent)

expired : is_expired 60_000_000_011 first_session ≡ true
unfolding is_expired new_session
expired = refl

finished-HasEnded : HasEnded first_call normal (some 50) finished.sessions
unfolding lookup insert apply_all apply create_outgoing_call find_live bytes_dec update_state
    with_session update_session transition end_call new_session
finished-HasEnded = (
  record first_session {
    state = ended;
    updated_at = 50;
    connected_at = some 20;
    ended_at = some 50;
    hangup_reason = normal;
  },
  refl,
  record { is_over = refl; why = refl; when = refl },
)

apply_all-HasEnded_example :
    HasEnded first_call normal
      (some 50)
      (apply_all
        (state_update 60 60 first_call active ∷ end 61 first_call busy ∷ stopping 62 ∷ [])
        finished).sessions
apply_all-HasEnded_example =
    apply_all-HasEnded first_call normal (some 50)
      (state_update 60 60 first_call active ∷ end 61 first_call busy ∷ stopping 62 ∷ []) finished
      apply_all-IsConsistent_example (refl, (tt, (tt, tt))) finished-HasEnded
