-- ===== src/Calls/Runs.antt =====
-- Runs of the manager's methods (pkg/rtc/session.go), in any order.
use babylontower.Prelude.{
  ℕ, ◌≡◌, ◌≢◌, refl, Option, List, [], ◌∷◌, Bytes, bytes_dec, Distinct, All, arith, inl, inr,
  Bool-cases,
}
use babylontower.Prelude.Assoc.{Assoc, keys, Values}
use babylontower.Calls.Session.{CallState, Reason, CallSession, is_ended}
use babylontower.Calls.Manager.{SessionManager, create_outgoing_call, create_incoming_call}
use babylontower.Calls.Changes.{
  update_state, set_local_sdp, set_remote_sdp, add_local_ice_candidate, add_remote_ice_candidate,
  derive_media_key, end_call, delete_session,
}
use babylontower.Calls.Cleanup.{
  end_with, is_stale, keep_fresh, cleanup_expired_offers, end_all, stop,
}
use babylontower.Calls.Consistency.{
  IsTimed, IsConsistent, create_outgoing_call-IsConsistent, create_incoming_call-IsConsistent,
  update_state-IsConsistent, set_local_sdp-IsConsistent, set_remote_sdp-IsConsistent,
  add_local_ice_candidate-IsConsistent, add_remote_ice_candidate-IsConsistent,
  derive_media_key-IsConsistent, end_call-IsConsistent, delete_session-IsConsistent,
}

pub data Op : Type 0 where
  outgoing : Bytes → ℕ → ℕ → Option Bytes → Bytes → Op
  incoming : ℕ → ℕ → ℕ → Bytes → Option Bytes → Bytes → Bytes → Op
  state_update : ℕ → ℕ → Bytes → CallState → Op
  local_sdp remote_sdp local_candidate remote_candidate : ℕ → Bytes → Bytes → Op
  media_key : Option Bytes → Bytes → Op
  end : ℕ → Bytes → Reason → Op
  deletion : Bytes → Op
  cleanup stopping : ℕ → Op

-- Every method of the manager that changes it.
unfoldable pub apply : Op → SessionManager → SessionManager
apply (outgoing id now ssrc remote t) sm = (create_outgoing_call id now ssrc remote t sm).0
apply (incoming now sr sl id remote t sdp) sm =
    (create_incoming_call now sr sl id remote t sdp sm).0
apply (state_update now later id state) sm = (update_state now later id state sm).0
apply (local_sdp now id sdp) sm = (set_local_sdp now id sdp sm).0
apply (remote_sdp now id sdp) sm = (set_remote_sdp now id sdp sm).0
apply (local_candidate now id x) sm = (add_local_ice_candidate now id x sm).0
apply (remote_candidate now id x) sm = (add_remote_ice_candidate now id x sm).0
apply (media_key key id) sm = (derive_media_key key id sm).0
apply (end now id reason) sm = (end_call now id reason sm).0
apply (deletion id) sm = (delete_session id sm).0
apply (cleanup now) sm = cleanup_expired_offers now sm
apply (stopping now) sm = stop now sm

unfoldable pub apply_all : List Op → SessionManager → SessionManager
apply_all [] sm = sm
apply_all (op ∷ ops) sm = apply_all ops (apply op sm)

pub absent-keep_fresh :
    (now : ℕ) (j : Bytes) (m : Assoc Bytes CallSession)
    → All (λ i. i ≢ j) (keys bytes_dec m)
    → All (λ i. i ≢ j) (keys bytes_dec (keep_fresh now m))
unfolding keep_fresh
absent-keep_fresh now j [] h = tt
absent-keep_fresh now j ((i, s) ∷ m) h = elim (Bool-cases (is_stale now s)) [
  | inl e ↦ rw e (absent-keep_fresh now j m h.1)
  | inr e ↦ rw e (h.0, absent-keep_fresh now j m h.1)
]

keep_fresh-IsConsistent :
    (now : ℕ) (m : Assoc Bytes CallSession)
    → Distinct (keys bytes_dec m)
    → Values bytes_dec IsTimed m
    → Distinct (keys bytes_dec (keep_fresh now m)) × Values bytes_dec IsTimed (keep_fresh now m)
unfolding keep_fresh
keep_fresh-IsConsistent now [] d v = (tt, tt)
keep_fresh-IsConsistent now ((i, s) ∷ m) d v =
    let (rest, timed) = keep_fresh-IsConsistent now m d.1 v.1 in
    elim (Bool-cases (is_stale now s)) [
      | inl e ↦ rw e (rest, timed)
      | inr e ↦ rw e ((absent-keep_fresh now i m d.0, rest), (v.0, timed))
    ]

keys-end_all :
    (now : ℕ) (m : Assoc Bytes CallSession) → keys bytes_dec (end_all now m) ≡ keys bytes_dec m
unfolding end_all
keys-end_all now [] = refl
keys-end_all now ((i, s) ∷ m) = rw (keys-end_all now m)

end_all-IsTimed :
    (now : ℕ) (m : Assoc Bytes CallSession)
    → Values bytes_dec IsTimed m
    → Values bytes_dec IsTimed (end_all now m)
unfolding end_all end_with
end_all-IsTimed now [] v = tt
end_all-IsTimed now ((i, s) ∷ m) v = elim (Bool-cases (is_ended s.state)) [
  | inl e ↦ rw e (v.0, end_all-IsTimed now m v.1)
  | inr e ↦ rw e (((λ f. ground arith), (λ f. ground arith)), end_all-IsTimed now m v.1)
]

pub apply-IsConsistent :
    (op : Op) (sm : SessionManager) → IsConsistent sm → IsConsistent (apply op sm)
unfolding apply cleanup_expired_offers stop
apply-IsConsistent (outgoing id now ssrc remote t) sm c =
    create_outgoing_call-IsConsistent id now ssrc remote t sm c
apply-IsConsistent (incoming now sr sl id remote t sdp) sm c =
    create_incoming_call-IsConsistent now sr sl id remote t sdp sm c
apply-IsConsistent (state_update now later id t) sm c =
    update_state-IsConsistent id sm c now later t
apply-IsConsistent (local_sdp now id sdp) sm c = set_local_sdp-IsConsistent id sm c now sdp
apply-IsConsistent (remote_sdp now id sdp) sm c = set_remote_sdp-IsConsistent id sm c now sdp
apply-IsConsistent (local_candidate now id x) sm c =
    add_local_ice_candidate-IsConsistent id sm c now x
apply-IsConsistent (remote_candidate now id x) sm c =
    add_remote_ice_candidate-IsConsistent id sm c now x
apply-IsConsistent (media_key key id) sm c = derive_media_key-IsConsistent id sm c key
apply-IsConsistent (end now id reason) sm c = end_call-IsConsistent id sm c now reason
apply-IsConsistent (deletion id) sm c = delete_session-IsConsistent id sm c
apply-IsConsistent (cleanup now) sm c =
    let (d, v) = keep_fresh-IsConsistent now sm.sessions c.distinct c.timed in
    record { distinct = d; timed = v }
apply-IsConsistent (stopping now) sm c = record {
  distinct = rw (keys-end_all now sm.sessions) c.distinct;
  timed = end_all-IsTimed now sm.sessions c.timed;
}

-- Any run of the methods keeps each call id at most once in the map, a connection time on every
-- active call, and an end time on every ended call.
pub apply_all-IsConsistent :
    (ops : List Op) (sm : SessionManager) → IsConsistent sm → IsConsistent (apply_all ops sm)
unfolding apply_all
apply_all-IsConsistent [] sm c = c
apply_all-IsConsistent (op ∷ ops) sm c =
    apply_all-IsConsistent ops (apply op sm) (apply-IsConsistent op sm c)
