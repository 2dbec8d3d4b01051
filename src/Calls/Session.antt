-- ===== src/Calls/Session.antt =====
-- `CallSession` of pkg/rtc/session.go, its protobuf form, and the transitions of `UpdateState` on one
-- session. Go strings are byte sequences, times are nanoseconds, and a nil pointer or slice is `none`.
use babylontower.Prelude.{
  ℕ, ◌*◌, Option, none, some, List, Bytes, Bool, true, false, if◌then◌else◌, ltb, ◌&&◌, ◌||◌,
  Result, ok, err,
}
use babylontower.Prelude.Int.{ℤ, pos, difference}

-- The state texts: the six constants, and any other text.
pub data CallState : Type 0 where
  idle offered accepted connecting active ended : CallState
  other : Bytes → CallState

-- The hangup reasons: the five constants, and any other text.
pub data Reason : Type 0 where
  unset normal busy declined timeout error : Reason
  other_reason : Bytes → Reason

pub data Error : Type 0 where
  call_not_found call_already_exists invalid_call_state derivation_failed slice_out_of_range : Error

abbrev pub second : ℕ
second = 1_000_000_000

abbrev pub offer_timeout : ℕ
offer_timeout = 60 * second

pub record CallSession : Type 0 where
  pub call_id : Bytes
  pub local_identity : Bytes
  pub remote_identity : Option Bytes
  pub call_type : Bytes
  pub state : CallState
  pub created_at : ℕ
  pub updated_at : ℕ
  pub expires_at : ℕ
  pub local_sdp : Bytes
  pub remote_sdp : Bytes
  pub local_ice_candidates : List Bytes
  pub remote_ice_candidates : List Bytes
  pub media_key : Option Bytes
  pub ssrc_local : ℕ
  pub ssrc_remote : ℕ
  pub connected_at : Option ℕ
  pub ended_at : Option ℕ
  pub hangup_reason : Reason

abbrev pub is_offered : CallState → Bool
is_offered offered = true
is_offered _ = false

abbrev pub is_accepted : CallState → Bool
is_accepted accepted = true
is_accepted _ = false

abbrev pub is_connecting : CallState → Bool
is_connecting connecting = true
is_connecting _ = false

abbrev pub is_ended : CallState → Bool
is_ended ended = true
is_ended _ = false

-- The `switch` of `UpdateState`: an error, `none` for the return at an ended call, or the new session.
unfoldable pub transition : ℕ → CallState → CallSession → Result Error (Option CallSession)
transition now accepted s =
    if is_offered s.state then ok (some (record s { state = accepted })) else err invalid_call_state
transition now connecting s =
    if is_accepted s.state || is_offered s.state
    then ok (some (record s { state = connecting }))
    else err invalid_call_state
transition now active s =
    if is_connecting s.state || is_accepted s.state
    then ok (some (record s { connected_at = some now; state = active }))
    else err invalid_call_state
transition now ended s =
    if is_ended s.state
    then ok none
    else ok (some (record s { ended_at = some now; state = ended }))
transition now new_state s = ok (some (record s { state = new_state }))

-- `Duration`. It is below zero where a call that had ended is set back and becomes active again, as
-- `EndedAt` stays.
unfoldable pub duration : ℕ → CallSession → ℤ
duration now s = elim s.connected_at [
  | none ↦ pos 0
  | some connected ↦ elim s.ended_at [
    | none ↦ difference now connected
    | some end ↦ difference end connected
  ]
]

-- `IsExpired`
unfoldable pub is_expired : ℕ → CallSession → Bool
is_expired now s = is_offered s.state && ltb s.expires_at now
