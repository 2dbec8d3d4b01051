-- ===== src/Calls/Changes.antt =====
-- The methods of `SessionManager` that change one call (pkg/rtc/session.go). Each runs under the
-- manager's lock; the clock and the media key derivation are arguments.
use babylontower.Prelude.{
  ℕ, Option, none, some, [], ◌∷◌, ◌++◌, Bytes, if◌then◌else◌, bytes_dec, Result, ok, err,
}
use babylontower.Prelude.Assoc.{lookup, insert, delete}
use babylontower.Calls.Session.{
  CallState, ended, Reason, Error, call_not_found, derivation_failed, CallSession, is_ended,
  transition,
}
use babylontower.Calls.Manager.{ice_candidate, call_ended, state_changed, SessionManager, emit}

-- A method that looks the call up first and changes that session only.
unfoldable pub with_session :
    Bytes
    → (CallSession → SessionManager → SessionManager × Result Error (Unit {0}))
    → SessionManager
    → SessionManager × Result Error (Unit {0})
with_session call_id f sm = elim (lookup bytes_dec call_id sm.sessions) [
  | none ↦ (sm, err call_not_found)
  | some s ↦ f s sm
]

abbrev pub store : Bytes → CallSession → SessionManager → SessionManager
store call_id s sm = record sm { sessions = insert bytes_dec call_id s sm.sessions }

-- `UpdateState`: `now` is the clock in the `switch`, `later` after it.
unfoldable pub update_session :
    Bytes
    → CallState
    → ℕ
    → CallSession
    → Result Error (Option CallSession)
    → SessionManager
    → SessionManager × Result Error (Unit {0})
update_session call_id new_state later old (err e) sm = (sm, err e)
update_session call_id new_state later old (ok none) sm = (sm, ok tt)
update_session call_id new_state later old (ok (some changed)) sm =
    let s = record changed { updated_at = later } in
    (
      record sm {
        sessions = insert bytes_dec call_id s sm.sessions;
        log = emit sm.on_state_changed (state_changed s old.state new_state) sm.log;
      },
      ok tt,
    )

unfoldable pub update_state :
    ℕ → ℕ → Bytes → CallState → SessionManager → SessionManager × Result Error (Unit {0})
unfolding with_session update_session
update_state now later call_id new_state =
    with_session call_id λ s. update_session call_id new_state later s (transition now new_state s)

-- `SetLocalSDP`, `SetRemoteSDP`, `AddLocalICECandidate` and `AddRemoteICECandidate`
unfoldable pub set_local_sdp :
    ℕ → Bytes → Bytes → SessionManager → SessionManager × Result Error (Unit {0})
unfolding with_session
set_local_sdp now call_id sdp =
    with_session call_id
      λ s sm. (store call_id (record s { local_sdp = sdp; updated_at = now }) sm, ok tt)

unfoldable pub set_remote_sdp :
    ℕ → Bytes → Bytes → SessionManager → SessionManager × Result Error (Unit {0})
unfolding with_session
set_remote_sdp now call_id sdp =
    with_session call_id
      λ s sm. (store call_id (record s { remote_sdp = sdp; updated_at = now }) sm, ok tt)

unfoldable pub add_local_ice_candidate :
    ℕ → Bytes → Bytes → SessionManager → SessionManager × Result Error (Unit {0})
unfolding with_session
add_local_ice_candidate now call_id candidate = with_session call_id λ s sm.
    let s' = record s {
      local_ice_candidates = s.local_ice_candidates ++ candidate ∷ [];
      updated_at = now;
    } in
    (
      record sm {
        sessions = insert bytes_dec call_id s' sm.sessions;
        log = emit sm.on_ice_candidate (ice_candidate s' candidate) sm.log;
      },
      ok tt,
    )

unfoldable pub add_remote_ice_candidate :
    ℕ → Bytes → Bytes → SessionManager → SessionManager × Result Error (Unit {0})
unfolding with_session
add_remote_ice_candidate now call_id candidate = with_session call_id λ s sm. (
  store call_id
      (record s {
        remote_ice_candidates = s.remote_ice_candidates ++ candidate ∷ [];
        updated_at = now;
      })
      sm,
  ok tt,
)

-- `DeriveMediaKey`; `key` is what `crypto.DeriveKey` of the root key and the call id returns.
unfoldable pub derive_media_key :
    Option Bytes → Bytes → SessionManager → SessionManager × Result Error Bytes
derive_media_key key call_id sm = elim (lookup bytes_dec call_id sm.sessions) [
  | none ↦ (sm, err call_not_found)
  | some s ↦ elim key [
    | none ↦ (sm, err derivation_failed)
    | some k ↦ (store call_id (record s { media_key = some k }) sm, ok k)
  ]
]

-- `EndCall`
unfoldable pub end_call :
    ℕ → Bytes → Reason → SessionManager → SessionManager × Result Error (Unit {0})
unfolding with_session
end_call now call_id reason = with_session call_id λ s sm.
    if is_ended s.state
    then (sm, ok tt)
    else let s' = record s {
      ended_at = some now;
      hangup_reason = reason;
      state = ended;
      updated_at = now;
    } in
      (
        record sm {
          sessions = insert bytes_dec call_id s' sm.sessions;
          log = emit sm.on_call_ended (call_ended s') sm.log;
        },
        ok tt,
      )

-- `DeleteSession`
unfoldable pub delete_session : Bytes → SessionManager → SessionManager × Result Error (Unit {0})
unfolding with_session
delete_session call_id =
    with_session call_id
      λ s sm. (record sm { sessions = delete bytes_dec call_id sm.sessions }, ok tt)
