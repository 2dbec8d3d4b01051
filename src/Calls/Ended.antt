-- ===== src/Calls/Ended.antt =====
-- An ended call under the manager's methods (pkg/rtc/session.go).
use babylontower.Prelude.{
  ℕ, ◌≡◌, ◌≢◌, ◌⊎◌, subst, refl, ◌∙◌, Option, none, some, Bytes, true, bytes_dec, length, ltb, ◌∙◌,
  arith, inl, inr, Option-cases, Bool-cases, Result, ok, err,
}
use babylontower.Prelude.Assoc.{
  Assoc, lookup, insert, lookup-insert_same, lookup-insert_other, lookup-delete,
}
use babylontower.Calls.Session.{CallState, ended, Reason, Error, CallSession, is_ended, transition}
use babylontower.Calls.Manager.{
  SessionManager, create_outgoing_call, create_incoming_call, find_live, bytes_of, new_session,
}
use babylontower.Calls.Changes.{
  with_session, update_session, update_state, set_local_sdp, set_remote_sdp,
  add_local_ice_candidate, add_remote_ice_candidate, derive_media_key, end_call, delete_session,
}
use babylontower.Calls.Lifecycle.{is_progress, transition-rank}

pub record IsEndedAs (reason : Reason) (at : Option ℕ) (s : CallSession) : Type 0 where
  pub is_over : s.state ≡ ended
  pub why : s.hangup_reason ≡ reason
  pub when : s.ended_at ≡ at

-- The manager has the call, ended for this reason and at this time.
abbrev pub HasEnded : Bytes → Reason → Option ℕ → Assoc Bytes CallSession → Type 0
HasEnded id reason at m =
    (s : CallSession) × (lookup bytes_dec id m ≡ some s) × IsEndedAs reason at s

stored-HasEnded :
    (id id' : Bytes) (reason : Reason) (at : Option ℕ) (s' : CallSession)
    (m : Assoc Bytes CallSession)
    → HasEnded id reason at m
    → (id' ≡ id → IsEndedAs reason at s')
    → HasEnded id reason at (insert bytes_dec id' s' m)
stored-HasEnded id id' reason at s' m (s, h, rest) keeps = elim (bytes_dec id' id) [
  | yes p ↦ (s', rw p (lookup-insert_same bytes_dec id s' m), keeps p)
  | no n ↦ (s, rw (lookup-insert_other bytes_dec id' id s' m n) h, rest)
]

-- A method that looks `id'` up finds nothing, or a session that has ended as said if `id'` is the call.
module _ (id : Bytes) (reason : Reason) (at : Option ℕ) (sm : SessionManager)
    (h : HasEnded id reason at sm.sessions) (id' : Bytes) where
  found :
      (lookup bytes_dec id' sm.sessions ≡ none)
      ⊎ ((s : CallSession) × (lookup bytes_dec id' sm.sessions ≡ some s)
          × (id' ≡ id → IsEndedAs reason at s))
  found =
      let (s', same, rest) = h in
      elim (Option-cases (lookup bytes_dec id' sm.sessions)) [
        | inl e ↦ inl e
        | inr (s, e) ↦ inr (s, e, λ p. let q : s' ≡ s = cc in subst (IsEndedAs reason at) q rest)
      ]

  pub update_state-HasEnded :
      (now later : ℕ) (t : CallState)
      → is_progress t ≡ true
      → HasEnded id reason at (update_state now later id' t sm).0.sessions
  unfolding update_state with_session
  update_state-HasEnded now later t p = elim found [
    | inl e ↦ rw (e, with_session) h
    | inr (s, e, k) ↦ rw (e, with_session) (go s k (transition now t s) refl)
  ]
    where
      go :
          (s : CallSession)
          → (id' ≡ id → IsEndedAs reason at s)
          → (r : Result Error (Option CallSession)) → transition now t s ≡ r
          → HasEnded id reason at (update_session id' t later s r sm).0.sessions
      go s k (err e) same = h
      go s k (ok none) same = h
      go s k (ok (some s')) same =
          stored-HasEnded id id' reason at (record s' { updated_at = later }) sm.sessions h
            (λ q.
              let (_, _, live) = transition-rank now t s s' p same in absurd (live (k q).is_over))

  pub end_call-HasEnded :
      (now : ℕ) (why : Reason) → HasEnded id reason at (end_call now id' why sm).0.sessions
  unfolding end_call with_session
  end_call-HasEnded now why = elim found [
    | inl e ↦ rw (e, with_session) h
    | inr (s, e, k) ↦ elim (Bool-cases (is_ended s.state)) [
      | inl b ↦ rw (e, with_session, b) h
      | inr b ↦
          rw (e, with_session, b)
            (stored-HasEnded id id' reason at _ sm.sessions h
              (λ q. absurd (let z = (k q).is_over in ground arith)))
    ]
  ]

  -- What a method stores that keeps the end of the session.
  changed-HasEnded :
      (s s' : CallSession)
      → (id' ≡ id → IsEndedAs reason at s)
      → (s'.state ≡ s.state) × (s'.hangup_reason ≡ s.hangup_reason) × (s'.ended_at ≡ s.ended_at)
      → HasEnded id reason at (insert bytes_dec id' s' sm.sessions)
  changed-HasEnded s s' k (a, b, d) =
      stored-HasEnded id id' reason at s' sm.sessions h
        λ q. record { is_over = a ∙ (k q).is_over; why = b ∙ (k q).why; when = d ∙ (k q).when }

  pub set_local_sdp-HasEnded :
      (now : ℕ) (sdp : Bytes) → HasEnded id reason at (set_local_sdp now id' sdp sm).0.sessions
  unfolding set_local_sdp with_session
  set_local_sdp-HasEnded now sdp = elim found [
    | inl e ↦ rw (e, with_session) h
    | inr (s, e, k) ↦ rw (e, with_session) (changed-HasEnded s _ k (refl, refl, refl))
  ]

  pub set_remote_sdp-HasEnded :
      (now : ℕ) (sdp : Bytes) → HasEnded id reason at (set_remote_sdp now id' sdp sm).0.sessions
  unfolding set_remote_sdp with_session
  set_remote_sdp-HasEnded now sdp = elim found [
    | inl e ↦ rw (e, with_session) h
    | inr (s, e, k) ↦ rw (e, with_session) (changed-HasEnded s _ k (refl, refl, refl))
  ]

  pub add_local_ice_candidate-HasEnded :
      (now : ℕ) (x : Bytes)
      → HasEnded id reason at (add_local_ice_candidate now id' x sm).0.sessions
  unfolding add_local_ice_candidate with_session
  add_local_ice_candidate-HasEnded now x = elim found [
    | inl e ↦ rw (e, with_session) h
    | inr (s, e, k) ↦ rw (e, with_session) (changed-HasEnded s _ k (refl, refl, refl))
  ]

  pub add_remote_ice_candidate-HasEnded :
      (now : ℕ) (x : Bytes)
      → HasEnded id reason at (add_remote_ice_candidate now id' x sm).0.sessions
  unfolding add_remote_ice_candidate with_session
  add_remote_ice_candidate-HasEnded now x = elim found [
    | inl e ↦ rw (e, with_session) h
    | inr (s, e, k) ↦ rw (e, with_session) (changed-HasEnded s _ k (refl, refl, refl))
  ]

  pub derive_media_key-HasEnded :
      (key : Option Bytes) → HasEnded id reason at (derive_media_key key id' sm).0.sessions
  unfolding derive_media_key
  derive_media_key-HasEnded none = elim found [
    | inl e ↦ rw (e, derive_media_key) h
    | inr (s, e, k) ↦ rw (e, derive_media_key) h
  ]
  derive_media_key-HasEnded (some d) = elim found [
    | inl e ↦ rw (e, derive_media_key) h
    | inr (s, e, k) ↦ rw (e, derive_media_key) (changed-HasEnded s _ k (refl, refl, refl))
  ]

  pub create_outgoing_call-HasEnded :
      (now ssrc : ℕ) (remote : Option Bytes) (t : Bytes)
      → id' ≢ id
      → HasEnded id reason at (create_outgoing_call id' now ssrc remote t sm).0.sessions
  unfolding create_outgoing_call
  create_outgoing_call-HasEnded now ssrc remote t n =
      elim (Option-cases (find_live (bytes_of remote) sm.sessions)) [
        | inl e ↦
            rw (e, create_outgoing_call)
              (stored-HasEnded id id' reason at _ sm.sessions h λ q. absurd (n q))
        | inr (s, e) ↦ rw (e, create_outgoing_call) h
      ]

  pub create_incoming_call-HasEnded :
      (now sr sl : ℕ) (remote : Option Bytes) (t sdp : Bytes)
      → HasEnded id reason at (create_incoming_call now sr sl id' remote t sdp sm).0.sessions
  unfolding create_incoming_call
  create_incoming_call-HasEnded now sr sl remote t sdp =
      let (s, at_id, _) = h in
      elim found [
        | inr (s', e, k) ↦ rw (e, create_incoming_call) h
        | inl e ↦
            let apart : id' ≢ id = λ q. absurd (let z = e in ground (arith, q)) in
            let stored =
              stored-HasEnded id id' reason at (new_session id' sm.identity remote t now sdp sr sl)
                sm.sessions h λ q. absurd (apart q) in
            elim (Bool-cases (ltb (length (bytes_of remote)) 8)) [
              | inl b ↦ rw (e, create_incoming_call, b) stored
              | inr b ↦ rw (e, create_incoming_call, b) stored
            ]
      ]

  pub delete_session-HasEnded : id' ≢ id → HasEnded id reason at (delete_session id' sm).0.sessions
  unfolding delete_session with_session
  delete_session-HasEnded n = elim found [
    | inl e ↦ rw (e, with_session) h
    | inr (s, e, k) ↦
        rw (e, with_session)
          (let (was, at_id, over) = h in
            (was, (ground (arith, lookup-delete bytes_dec id' id sm.sessions)), over))
  ]
