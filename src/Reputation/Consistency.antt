-- ===== src/Reputation/Consistency.antt =====
-- Runs of the tracker of pkg/reputation/tracker.go keep every record consistent.
use babylontower.Prelude.{
  ℕ, ◌≤◌, ◌<◌, ◌^◌, ◌≡◌, refl, sym, ap, some, List, [], ◌∷◌, Bytes, Bool, bytes_dec, length,
  Option-cases, inl, inr, arith,
}
use babylontower.Prelude.Assoc.{lookup, insert, insert_twice, Values, Values-lookup, Values-insert}
use babylontower.Reputation.Double.{Double}
use babylontower.Reputation.Records.{tier_basic, Attestation, Record, Config, Tracker}
use babylontower.Reputation.Scoring.{fresh, score_of, tier_of}
use babylontower.Reputation.Tracker.{
  get_record, get_or_create_record, change, record_relay_event, record_uptime_observation,
  record_mailbox_event, record_dht_query, record_content_event, set_trust_adjustment,
  add_attestation,
}

-- The calls that change the tracker. The first number is the clock.
pub data Event (W : Type 0) : Type 0 where
  peer_looked_up : ℕ → Bytes → Event W
  relay_recorded uptime_recorded : ℕ → Bytes → Bool → Event W
  mailbox_recorded content_recorded : ℕ → Bytes → Bool → Bool → Event W
  dht_recorded trust_adjusted : ℕ → Bytes → W → Event W
  attestation_added : ℕ → Attestation W → Event W

module _ {W : Type 0} (d : Double W) where
  unfoldable pub apply : Event W → Tracker W → Tracker W
  apply (peer_looked_up now pid) t = (get_or_create_record d now pid t).0
  apply (relay_recorded now pid b) t = record_relay_event d now pid b t
  apply (uptime_recorded now pid b) t = record_uptime_observation d now pid b t
  apply (mailbox_recorded now pid b c) t = record_mailbox_event d now pid b c t
  apply (content_recorded now pid b c) t = record_content_event d now pid b c t
  apply (dht_recorded now pid x) t = record_dht_query d now pid x t
  apply (trust_adjusted now pid x) t = set_trust_adjustment d now pid x t
  apply (attestation_added now a) t = (add_attestation d now a t).0

  unfoldable pub run : List (Event W) → Tracker W → Tracker W
  run [] t = t
  run (e ∷ es) t = run es (apply e t)

  -- A configuration under which a peer that was never observed scores 0.0 and is in the lowest tier, and
  -- that allows an attestation.
  pub record IsUsable (c : Config W) : Type 0 where
    pub fresh_score :
        (now : ℕ) (pid : Bytes) → score_of d c (fresh d now pid).metrics (d.lit 0 0) ≡ d.lit 0 0
    pub fresh_tier : tier_of d c (d.lit 0 0) ≡ tier_basic
    pub some_allowed : 0 < c.max_attestations_per_peer
    pub is_uint32 : c.max_attestations_per_peer < 2 ^ 32

  pub record IsConsistent (c : Config W) (r : Record W) : Type 0 where
    pub score : r.composite_score ≡ score_of d c r.metrics r.trust_adjustment
    pub tier : r.tier ≡ tier_of d c r.composite_score
    pub attestations : length r.attestations ≤ c.max_attestations_per_peer
    pub hours : r.metrics.hours_online_7d ≤ 168

  abbrev pub Valid : Config W → Tracker W → Type 0
  Valid c t = (t.config ≡ c) × Values bytes_dec (IsConsistent c) t.records

  pub fresh-IsConsistent :
      (c : Config W) (now : ℕ) (pid : Bytes) → IsUsable c → IsConsistent c (fresh d now pid)
  unfolding fresh
  fresh-IsConsistent c now pid u = record {
    score = sym (u.fresh_score now pid);
    tier = sym u.fresh_tier;
    attestations = omega arith;
    hours = omega arith;
  }

  -- The record that an event changes.
  abbrev pub current : ℕ → Bytes → Tracker W → Record W
  current now pid t = (get_or_create_record d now pid t).1

  get_record-lookup :
      (pid : Bytes) (r : Record W) (t : Tracker W)
      → get_record d pid t ≡ some r
      → lookup bytes_dec pid t.records ≡ some r
  unfolding get_record
  get_record-lookup pid r t e = e

  pub current-IsConsistent :
      (c : Config W) (now : ℕ) (pid : Bytes) (t : Tracker W)
      → IsUsable c
      → Valid c t
      → IsConsistent c (current now pid t)
  unfolding get_or_create_record
  current-IsConsistent c now pid t u v = elim (Option-cases (get_record d pid t)) [
    | inl e ↦ rw (e, current, get_or_create_record) (fresh-IsConsistent c now pid u)
    | inr (r, e) ↦
        rw (e, current, get_or_create_record)
          (Values-lookup bytes_dec (IsConsistent c) pid r t.records v.1
            (get_record-lookup pid r t e))
  ]

  -- Storing a record in the map afterwards is the same as storing it in the map before.
  pub insert-get_or_create_record :
      (now : ℕ) (pid : Bytes) (r : Record W) (t : Tracker W)
      → record (get_or_create_record d now pid t).0 {
        records = insert bytes_dec pid r (get_or_create_record d now pid t).0.records;
      }
        ≡ record t { records = insert bytes_dec pid r t.records }
  unfolding get_or_create_record
  insert-get_or_create_record now pid r t = elim (Option-cases (get_record d pid t)) [
    | inl e ↦
        rw (e, get_or_create_record)
          (ap (λ m. record t { records = m })
            (insert_twice bytes_dec pid r (fresh d now pid) t.records))
    | inr (old, e) ↦ rw (e, get_or_create_record) refl
  ]

  pub change-insert :
      (now : ℕ) (pid : Bytes) (f : Record W → Record W) (t : Tracker W)
      → change d now pid f t
        ≡ record t { records = insert bytes_dec pid (f (current now pid t)) t.records }
  unfolding change
  change-insert now pid f t = insert-get_or_create_record now pid (f (current now pid t)) t

  pub change-Valid :
      (c : Config W) (now : ℕ) (pid : Bytes) (f : Record W → Record W) (t : Tracker W)
      → IsUsable c
      → Valid c t
      → ((r : Record W) → IsConsistent c r → IsConsistent c (f r))
      → Valid c (change d now pid f t)
  change-Valid c now pid f t u v keep = rw (change-insert now pid f t) (
    v.0,
    Values-insert bytes_dec (IsConsistent c) pid (f (current now pid t)) t.records
        (keep (current now pid t) (current-IsConsistent c now pid t u v)) v.1,
  )
