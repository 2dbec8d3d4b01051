-- ===== src/Reputation/Tracker.antt =====
-- `Tracker` of pkg/reputation/tracker.go. A method is one step of the tracker, for it holds the lock
-- of the record while it changes it; it reads the clock once. A range over the map of the records runs
-- in the order of the association list.
use babylontower.Prelude.{
  ℕ, ◌+◌, ◌-◌, ◌*◌, ◌/◌, ◌%◌, ◌^◌, Option, none, some, List, [], ◌∷◌, Bytes, Bool, false,
  if◌then◌else◌, ltb, ite, map, take, length, bytes_dec, Result, ok, err,
}
use babylontower.Prelude.Int.{ℤ, pos, negsuc, ℤ_discrete}
use babylontower.Prelude.Assoc.{Assoc, lookup, insert}
use babylontower.Prelude.Sorting.{swap_sort}
use babylontower.Reputation.Double.{Double}
use babylontower.Reputation.Records.{
  Tier, tier_basic, Metrics, Attestation, Record, Config, Tracker, Error, attestation_expired,
  attester_not_trusted, negative_capacity, default_config,
}
use babylontower.Reputation.Scoring.{
  fresh, rescored, relay_event, uptime_observation, mailbox_event, dht_query, content_event,
  clamped, attested,
}

-- `time.Unix(timestamp.Unix(), 0).Add(time.Duration(hours) * time.Hour)` is before `now`: the product
-- is an `int64`.
unfoldable pub has_expired : ℕ → ℕ → ℕ → Bool
has_expired now timestamp hours =
    let seconds = timestamp / 1_000_000_000 * 1_000_000_000 in
    let lifetime = (hours * 3_600_000_000_000) % 2 ^ 64 in
    if ltb lifetime (2 ^ 63)
    then ltb (seconds + lifetime) now
    else ltb (seconds + lifetime) (now + 2 ^ 64)

module _ {W : Type 0} (d : Double W) where
  -- `NewTracker`
  unfoldable pub new_tracker : Bytes → Bytes → Option (Config W) → Tracker W
  unfolding default_config
  new_tracker self identity config = record {
    records = [];
    config = elim config [ none ↦ default_config d | some c ↦ c ];
    self_peer_id = self;
    self_identity = identity;
  }

  unfoldable pub get_record : Bytes → Tracker W → Option (Record W)
  get_record pid t = lookup bytes_dec pid t.records

  -- `GetOrCreateRecord`: the record, which is in the map afterwards.
  unfoldable pub get_or_create_record : ℕ → Bytes → Tracker W → Tracker W × Record W
  unfolding get_record fresh
  get_or_create_record now pid t = elim (get_record pid t) [
    | some r ↦ (t, r)
    | none ↦
        (record t { records = insert bytes_dec pid (fresh d now pid) t.records }, fresh d now pid)
  ]

  -- The record of the peer, created if need be, is changed in place.
  unfoldable pub change : ℕ → Bytes → (Record W → Record W) → Tracker W → Tracker W
  unfolding get_or_create_record
  change now pid f t =
      let (t', r) = get_or_create_record now pid t in
      record t' { records = insert bytes_dec pid (f r) t'.records }

  -- An event with the metrics of a peer.
  unfoldable pub observe : ℕ → Bytes → (Metrics W → Metrics W) → Tracker W → Tracker W
  unfolding change rescored
  observe now pid f t =
      change now pid (λ r. rescored d t.config now (record r { metrics = f r.metrics })) t

  unfoldable pub record_relay_event : ℕ → Bytes → Bool → Tracker W → Tracker W
  unfolding observe
  record_relay_event now pid success = observe now pid (relay_event d success)

  unfoldable pub record_uptime_observation : ℕ → Bytes → Bool → Tracker W → Tracker W
  unfolding observe
  record_uptime_observation now pid online = observe now pid (uptime_observation d now online)

  unfoldable pub record_mailbox_event : ℕ → Bytes → Bool → Bool → Tracker W → Tracker W
  unfolding observe
  record_mailbox_event now pid deposited retrieved =
      observe now pid (mailbox_event d deposited retrieved)

  unfoldable pub record_dht_query : ℕ → Bytes → W → Tracker W → Tracker W
  unfolding observe
  record_dht_query now pid response_ms = observe now pid (dht_query d response_ms)

  unfoldable pub record_content_event : ℕ → Bytes → Bool → Bool → Tracker W → Tracker W
  unfolding observe
  record_content_event now pid served requested = observe now pid (content_event d served requested)

  unfoldable pub set_trust_adjustment : ℕ → Bytes → W → Tracker W → Tracker W
  unfolding change rescored clamped
  set_trust_adjustment now pid adjustment t =
      change now pid
        (λ r. rescored d t.config now (record r { trust_adjustment = clamped d adjustment })) t

  -- The attester is too young if it is known for fewer than the required hours.
  unfoldable pub is_too_young : ℕ → Bytes → Tracker W → Bool
  unfolding get_record
  is_too_young now attester t = elim (get_record attester t) [
    | none ↦ false
    | some r ↦ ltb (d.hours (now - r.metrics.first_observed)) t.config.min_connection_hours
  ]

  -- `AddAttestation`
  unfoldable pub add_attestation :
      ℕ → Attestation W → Tracker W → Tracker W × Result Error (Unit {0})
  unfolding has_expired is_too_young get_or_create_record attested rescored
  add_attestation now a t =
      if has_expired now a.timestamp t.config.attestation_expiry_hours
      then (t, err attestation_expired)
      else if is_too_young now a.attester_peer_id t
      then (t, err attester_not_trusted)
      else let (t', r) = get_or_create_record now a.subject_peer_id t in
        elim (attested d t.config a r.attestations) [
          | err e ↦ (t', err e)
          | ok kept ↦
              let r' = rescored d t.config now (record r { attestations = kept }) in
              (record t' { records = insert bytes_dec a.subject_peer_id r' t'.records }, ok tt)
        ]

  unfoldable pub get_composite_score : Bytes → Tracker W → W
  unfolding get_record
  get_composite_score pid t = elim (get_record pid t) [
    | none ↦ d.lit 0 0
    | some r ↦ r.composite_score
  ]

  unfoldable pub get_tier : Bytes → Tracker W → Tier
  unfolding get_record
  get_tier pid t = elim (get_record pid t) [ none ↦ tier_basic | some r ↦ r.tier ]

  abbrev in_tier : Tier → Assoc Bytes (Record W) → List Bytes
  in_tier tier [] = []
  in_tier tier ((pid, r) ∷ rs) =
      let rest = in_tier tier rs in ite (ℤ_discrete r.tier tier) (pid ∷ rest) rest

  unfoldable pub get_peers_by_tier : Tier → Tracker W → List Bytes
  get_peers_by_tier tier t = in_tier tier t.records

  abbrev pub Scored : Type 0
  Scored = Bytes × W

  abbrev pub scored : Assoc Bytes (Record W) → List Scored
  scored [] = []
  scored ((pid, r) ∷ rs) = (pid, r.composite_score) ∷ scored rs

  -- `peers[j].score > peers[i].score`
  abbrev pub scores_less : Scored → Scored → Bool
  scores_less x y = d.lt x.1 y.1

  -- The peers with the highest scores. A negative capacity makes `make` panic.
  unfoldable pub get_top_peers : ℤ → Tracker W → Result Error (List Bytes)
  unfolding swap_sort
  get_top_peers (negsuc n) t = err negative_capacity
  get_top_peers (pos n) t =
      let peers = scored t.records in
      ok (map (λ p. p.0) (take n (swap_sort scores_less (length peers) peers)))
