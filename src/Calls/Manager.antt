-- ===== src/Calls/Manager.antt =====
-- `SessionManager` of pkg/rtc/session.go. Each method runs under the manager's lock, so it is a
-- function from the manager to a new manager and a result. Random values, the media key derivation
-- and the clock are arguments. The log has the callbacks that were called, the latest first.
use babylontower.Prelude.{
  ℕ, ◌+◌, Option, none, some, List, [], ◌∷◌, Bytes, Bool, true, false, if◌then◌else◌, ltb, not, ite,
  bytes_dec, length, Result, ok, err,
}
use babylontower.Prelude.Assoc.{Assoc, lookup, insert}
use babylontower.Calls.Session.{
  CallState, offered, unset, Error, call_not_found, call_already_exists, slice_out_of_range,
  CallSession, offer_timeout, is_ended,
}

pub data Event : Type 0 where
  ice_candidate : CallSession → Bytes → Event
  call_ended : CallSession → Event
  state_changed : CallSession → CallState → CallState → Event

pub record SessionManager : Type 0 where
  pub sessions : Assoc Bytes CallSession
  pub identity : Bytes
  -- Which callbacks are set.
  pub on_ice_candidate : Bool
  pub on_call_ended : Bool
  pub on_state_changed : Bool
  pub log : List Event

abbrev pub emit : Bool → Event → List Event → List Event
emit true e log = e ∷ log
emit false e log = log

abbrev pub bytes_of : Option Bytes → Bytes
bytes_of none = []
bytes_of (some b) = b

-- The test of the loops over the sessions: a live call with the peer.
unfoldable pub is_live_with : Bytes → CallSession → Bool
is_live_with peer s = elim s.remote_identity [
  | none ↦ false
  | some remote ↦ ite (bytes_dec remote peer) (not (is_ended s.state)) false
]

unfoldable pub find_live : Bytes → Assoc Bytes CallSession → Option CallSession
unfolding is_live_with
find_live peer [] = none
find_live peer ((id, s) ∷ m) = if is_live_with peer s then some s else find_live peer m

unfoldable pub new_session : Bytes → Bytes → Option Bytes → Bytes → ℕ → Bytes → ℕ → ℕ → CallSession
new_session call_id local remote call_type now remote_sdp ssrc_remote ssrc_local = record {
  call_id = call_id;
  local_identity = local;
  remote_identity = remote;
  call_type = call_type;
  state = offered;
  created_at = now;
  updated_at = now;
  expires_at = now + offer_timeout;
  local_sdp = [];
  remote_sdp = remote_sdp;
  local_ice_candidates = [];
  remote_ice_candidates = [];
  media_key = none;
  ssrc_local = ssrc_local;
  ssrc_remote = ssrc_remote;
  connected_at = none;
  ended_at = none;
  hangup_reason = unset;
}

-- `CreateOutgoingCall`; `call_id` is the new UUID.
unfoldable pub create_outgoing_call :
    Bytes
    → ℕ
    → ℕ
    → Option Bytes
    → Bytes
    → SessionManager
    → SessionManager × Result Error CallSession
create_outgoing_call call_id now ssrc remote call_type sm =
    elim (find_live (bytes_of remote) sm.sessions) [
      | some _ ↦ (sm, err call_already_exists)
      | none ↦
          let s = new_session call_id sm.identity remote call_type now [] 0 ssrc in
          (record sm { sessions = insert bytes_dec call_id s sm.sessions }, ok s)
    ]

-- `CreateIncomingCall`. The log line after the store takes 16 characters of the peer's hex text, which
-- panics on an identity of less than 8 bytes.
unfoldable pub create_incoming_call :
    ℕ
    → ℕ
    → ℕ
    → Bytes
    → Option Bytes
    → Bytes
    → Bytes
    → SessionManager
    → SessionManager × Result Error CallSession
create_incoming_call now ssrc_remote ssrc_local call_id remote call_type sdp sm =
    elim (lookup bytes_dec call_id sm.sessions) [
      | some _ ↦ (sm, err call_already_exists)
      | none ↦
          let s = new_session call_id sm.identity remote call_type now sdp ssrc_remote ssrc_local in
          let sm' = record sm { sessions = insert bytes_dec call_id s sm.sessions } in
          if ltb (length (bytes_of remote)) 8 then (sm', err slice_out_of_range) else (sm', ok s)
    ]

abbrev pub or_not_found : Option CallSession → Result Error CallSession
or_not_found none = err call_not_found
or_not_found (some s) = ok s

-- `GetSession`, `GetActiveSessionWithPeer` and `GetAllActiveSessions`
unfoldable pub get_session : Bytes → SessionManager → Result Error CallSession
get_session call_id sm = or_not_found (lookup bytes_dec call_id sm.sessions)

unfoldable pub get_active_session_with_peer : Bytes → SessionManager → Result Error CallSession
get_active_session_with_peer peer sm = or_not_found (find_live peer sm.sessions)

unfoldable pub live_sessions : Assoc Bytes CallSession → List CallSession
live_sessions [] = []
live_sessions ((id, s) ∷ m) =
    let rest = live_sessions m in if is_ended s.state then rest else s ∷ rest

unfoldable pub get_all_active_sessions : SessionManager → List CallSession
unfolding live_sessions
get_all_active_sessions sm = live_sessions sm.sessions
