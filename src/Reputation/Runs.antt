-- ===== src/Reputation/Runs.antt =====
-- Runs of the tracker of pkg/reputation/tracker.go, and what an attestation can change.
use babylontower.Prelude.{
  ℕ, ◌⊎◌, ◌≤◌, ◌^◌, ◌%◌, ◌≡◌, refl, sym, subst, some, List, [], ◌∷◌, ◌++◌, Bytes, true, bytes_dec,
  length, length-append, Option-cases, Bool-cases, inl, inr, ok, arith, leb,
}
use babylontower.Prelude.Assoc.{insert, Values-insert}
use babylontower.Reputation.Double.{Double}
use babylontower.Reputation.Records.{Metrics, Attestation, Record, Config, Tracker}
use babylontower.Reputation.Scoring.{
  fresh, rescored, update_composite_score, relay_event, uptime_observation, mailbox_event,
  dht_query, content_event, clamped, attested,
}
use babylontower.Reputation.Tracker.{
  new_tracker, get_record, get_or_create_record, observe, record_relay_event,
  record_uptime_observation, record_mailbox_event, record_dht_query, record_content_event,
  set_trust_adjustment, is_too_young, has_expired, add_attestation,
}
use babylontower.Reputation.Consistency.{
  Event, peer_looked_up, relay_recorded, uptime_recorded, mailbox_recorded, content_recorded,
  dht_recorded, trust_adjusted, attestation_added, apply, run, IsUsable, IsConsistent, Valid,
  current, current-IsConsistent, fresh-IsConsistent, change-Valid, insert-get_or_create_record,
}

module _ {W : Type 0} (d : Double W) where
  -- Scoring makes any record consistent whose counts are in their bounds.
  rescored-IsConsistent :
      (c c' : Config W) (now : ℕ) (r : Record W)
      → c' ≡ c
      → length r.attestations ≤ c.max_attestations_per_peer
      → r.metrics.hours_online_7d ≤ 168
      → IsConsistent d c (rescored d c' now r)
  unfolding rescored update_composite_score
  rescored-IsConsistent c c' now r e a h =
      subst (λ x. IsConsistent d c (rescored d x now r)) (sym e)
        (record { score = refl; tier = refl; attestations = a; hours = h })

  observe-Valid :
      (c : Config W) (now : ℕ) (pid : Bytes) (f : Metrics W → Metrics W) (t : Tracker W)
      → IsUsable d c
      → Valid d c t
      → ((m : Metrics W) → m.hours_online_7d ≤ 168 → (f m).hours_online_7d ≤ 168)
      → Valid d c (observe d now pid f t)
  unfolding observe
  observe-Valid c now pid f t u v keep =
      change-Valid d c now pid (λ r. rescored d t.config now (record r { metrics = f r.metrics })) t
        u v
        λ r k.
          rescored-IsConsistent c t.config now (record r { metrics = f r.metrics }) v.0
            k.attestations (keep r.metrics k.hours)

  attested_full :
      (c : Config W) (a : Attestation W) (old : List (Attestation W))
      → IsUsable d c
      → length old ≤ c.max_attestations_per_peer
      → leb c.max_attestations_per_peer (length old % 2 ^ 32) ≡ true
      → (kept : List (Attestation W)) × (attested d c a old ≡ ok kept)
        × (length kept ≤ c.max_attestations_per_peer)
  unfolding attested
  attested_full c a [] u h e = let allowed = u.some_allowed in absurd (ground arith)
  attested_full c a (oldest ∷ rest) u h e =
      let grown = length-append rest (a ∷ []) in
      (rest ++ a ∷ [], rw (e, attested) refl, omega arith)

  -- One more attestation is within the limit, since at the limit the oldest one goes.
  pub attested-ok :
      (c : Config W) (a : Attestation W) (old : List (Attestation W))
      → IsUsable d c
      → length old ≤ c.max_attestations_per_peer
      → (kept : List (Attestation W)) × (attested d c a old ≡ ok kept)
        × (length kept ≤ c.max_attestations_per_peer)
  unfolding attested
  attested-ok c a old u h =
      let allowed = u.some_allowed in
      let below = u.is_uint32 in
      let grown = length-append old (a ∷ []) in
      elim (Bool-cases (leb c.max_attestations_per_peer (length old % 2 ^ 32))) [
        | inr e ↦ (old ++ a ∷ [], rw (e, attested) refl, ground arith)
        | inl e ↦ attested_full c a old u h e
      ]

  -- The record of the subject with an attestation more.
  abbrev pub with_attestations :
      Config W → ℕ → Attestation W → Tracker W → List (Attestation W) → Record W
  with_attestations c now a t kept =
      rescored d c now (record (current d now a.subject_peer_id t) { attestations = kept })

  abbrev pub stored : Attestation W → Record W → Tracker W → Tracker W
  stored a r t = record t { records = insert bytes_dec a.subject_peer_id r t.records }

  pub add_attestation-cases :
      (c : Config W) (now : ℕ) (a : Attestation W) (t : Tracker W)
      → IsUsable d c
      → Valid d c t
      → ((add_attestation d now a t).0 ≡ t)
        ⊎ ((kept : List (Attestation W)) × (length kept ≤ c.max_attestations_per_peer)
            × ((add_attestation d now a t).0
                ≡ stored a (with_attestations t.config now a t kept) t))
  unfolding add_attestation
  add_attestation-cases c now a t u v =
      elim (Bool-cases (has_expired now a.timestamp t.config.attestation_expiry_hours)) [
        | inl e ↦ inl (rw (e, add_attestation) refl)
        | inr e ↦ elim (Bool-cases (is_too_young d now a.attester_peer_id t)) [
          | inl y ↦ inl (rw (e, y, add_attestation) refl)
          | inr y ↦
              let old = (current d now a.subject_peer_id t).attestations in
              let bound = (current-IsConsistent d c now a.subject_peer_id t u v).attestations in
              let (kept, k, l) = attested-ok c a old u bound in
              let k' = subst (λ x. attested d x a old ≡ ok kept) (sym v.0) k in
              inr (
                kept,
                l,
                rw (e, y, k', add_attestation)
                    (insert-get_or_create_record d now a.subject_peer_id
                      (with_attestations t.config now a t kept) t),
              )
        ]
      ]

  with_attestations-IsConsistent :
      (c : Config W) (now : ℕ) (a : Attestation W) (t : Tracker W) (kept : List (Attestation W))
      → IsUsable d c
      → Valid d c t
      → length kept ≤ c.max_attestations_per_peer
      → IsConsistent d c (with_attestations t.config now a t kept)
  with_attestations-IsConsistent c now a t kept u v l =
      let k = current-IsConsistent d c now a.subject_peer_id t u v in
      rescored-IsConsistent c t.config now
        (record (current d now a.subject_peer_id t) { attestations = kept }) v.0 l k.hours

  add_attestation-Valid :
      (c : Config W) (now : ℕ) (a : Attestation W) (t : Tracker W)
      → IsUsable d c
      → Valid d c t
      → Valid d c (add_attestation d now a t).0
  add_attestation-Valid c now a t u v = elim (add_attestation-cases c now a t u v) [
    | inl e ↦ subst (Valid d c) (sym e) v
    | inr (kept, l, e) ↦ subst (Valid d c) (sym e) (
      v.0,
      Values-insert bytes_dec (IsConsistent d c) a.subject_peer_id
          (with_attestations t.config now a t kept) t.records
          (with_attestations-IsConsistent c now a t kept u v l) v.1,
    )
  ]

  peer_looked_up-Valid :
      (c : Config W) (now : ℕ) (pid : Bytes) (t : Tracker W)
      → IsUsable d c
      → Valid d c t
      → Valid d c (get_or_create_record d now pid t).0
  unfolding get_or_create_record
  peer_looked_up-Valid c now pid t u v = elim (Option-cases (get_record d pid t)) [
    | inl e ↦
        rw (e, get_or_create_record)
          (
            v.0,
            Values-insert bytes_dec (IsConsistent d c) pid (fresh d now pid) t.records
                (fresh-IsConsistent d c now pid u) v.1,
          )
    | inr (r, e) ↦ rw (e, get_or_create_record) v
  ]

  apply-Valid :
      (c : Config W) (e : Event W) (t : Tracker W)
      → IsUsable d c
      → Valid d c t
      → Valid d c (apply d e t)
  unfolding apply record_relay_event record_uptime_observation record_mailbox_event
      record_content_event record_dht_query set_trust_adjustment relay_event uptime_observation
      mailbox_event content_event dht_query
  apply-Valid c (peer_looked_up now pid) t u v = peer_looked_up-Valid c now pid t u v
  apply-Valid c (relay_recorded now pid b) t u v =
      observe-Valid c now pid (relay_event d b) t u v λ m h. h
  apply-Valid c (uptime_recorded now pid b) t u v =
      observe-Valid c now pid (uptime_observation d now b) t u v λ m h. ground arith
  apply-Valid c (mailbox_recorded now pid b b') t u v =
      observe-Valid c now pid (mailbox_event d b b') t u v λ m h. h
  apply-Valid c (content_recorded now pid b b') t u v =
      observe-Valid c now pid (content_event d b b') t u v λ m h. h
  apply-Valid c (dht_recorded now pid x) t u v =
      observe-Valid c now pid (dht_query d x) t u v λ m h. h
  apply-Valid c (trust_adjusted now pid x) t u v =
      change-Valid d c now pid
        (λ r. rescored d t.config now (record r { trust_adjustment = clamped d x })) t u v
        λ r k.
          rescored-IsConsistent c t.config now (record r { trust_adjustment = clamped d x }) v.0
            k.attestations k.hours
  apply-Valid c (attestation_added now a) t u v = add_attestation-Valid c now a t u v

  pub run-Valid :
      (c : Config W) (es : List (Event W)) (t : Tracker W)
      → IsUsable d c
      → Valid d c t
      → Valid d c (run d es t)
  unfolding run
  run-Valid c [] t u v = v
  run-Valid c (e ∷ es) t u v = run-Valid c es (apply d e t) u (apply-Valid c e t u v)

  pub new_tracker-Valid :
      (c : Config W) (self identity : Bytes) → Valid d c (new_tracker d self identity (some c))
  unfolding new_tracker
  new_tracker-Valid c self identity = (refl, tt)
