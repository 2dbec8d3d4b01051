-- ===== src/Reputation/Scoring.antt =====
-- How a record of pkg/reputation/tracker.go is scored, and what each event does to it. Counters are
-- `uint64`. Floating-point operations are not fused.
use babylontower.Prelude.{
  ℕ, ◌+◌, ◌%◌, ◌^◌, none, some, List, [], ◌∷◌, ◌++◌, Bytes, Bool, if◌then◌else◌, ltb, leb, length,
  Result, ok, err,
}
use babylontower.Reputation.Double.{Double}
use babylontower.Reputation.Records.{
  Tier, tier_basic, tier_contributor, tier_reliable, tier_trusted, Metrics, Attestation, Record,
  Config, Error, slice_out_of_range,
}

-- `x++`
abbrev pub next : ℕ → ℕ
next n = (n + 1) % 2 ^ 64

abbrev pub next_if : Bool → ℕ → ℕ
next_if b n = if b then next n else n

module _ {W : Type 0} (d : Double W) where
  -- `if x > 1.0 { x = 1.0 }`
  abbrev pub cap : W → W
  cap x = if d.lt (d.lit 1 0) x then d.lit 1 0 else x

  abbrev pub floor : W → W
  floor x = if d.lt x (d.lit 0 0) then d.lit 0 0 else x

  unfoldable pub tier_of : Config W → W → Tier
  tier_of c score =
      if d.le c.tier_trusted_threshold score
      then tier_trusted
      else if d.le c.tier_reliable_threshold score
      then tier_reliable
      else if d.le c.tier_contributor_threshold score
      then tier_contributor
      else tier_basic

  -- The weighted sum, the adjustment and the clamps.
  unfoldable pub score_of : Config W → Metrics W → W → W
  score_of c m adjustment =
      let relay = d.mul m.relay_reliability c.relay_reliability_weight in
      let uptime = d.mul m.uptime_consistency c.uptime_consistency_weight in
      let mailbox = d.mul m.mailbox_reliability c.mailbox_reliability_weight in
      let dht = d.mul m.dht_responsiveness c.dht_responsiveness_weight in
      let content = d.mul m.content_serving c.content_serving_weight in
      let sum = d.add (d.add (d.add (d.add relay uptime) mailbox) dht) content in
      cap (floor (d.add sum adjustment))

  -- `updateCompositeScore`
  unfoldable pub update_composite_score : Config W → Record W → Record W
  unfolding score_of tier_of
  update_composite_score c r =
      let score = score_of c r.metrics r.trust_adjustment in
      record r { composite_score = score; tier = tier_of c score }

  -- The record that `GetOrCreateRecord` creates.
  unfoldable pub fresh : ℕ → Bytes → Record W
  fresh now pid = record {
    peer_id = pid;
    metrics = record {
      relay_reliability = d.lit 0 0;
      relay_success_count = 0;
      relay_total_count = 0;
      uptime_consistency = d.lit 0 0;
      hours_online_7d = 0;
      last_seen = none;
      mailbox_reliability = d.lit 0 0;
      mailbox_retrieved_count = 0;
      mailbox_deposited_count = 0;
      dht_responsiveness = d.lit 0 0;
      avg_response_ms = d.lit 0 0;
      dht_query_count = 0;
      content_serving = d.lit 0 0;
      blocks_served_count = 0;
      blocks_requested_count = 0;
      first_observed = now;
      observation_count = 0;
    };
    composite_score = d.lit 0 0;
    tier = tier_basic;
    attestations = [];
    trust_adjustment = d.lit 0 0;
    last_updated = now;
  }

  -- The end of every event: `record.updateCompositeScore(t.config)` and `record.lastUpdated`.
  unfoldable pub rescored : Config W → ℕ → Record W → Record W
  unfolding update_composite_score
  rescored c now r = record (update_composite_score c r) { last_updated = now }

  -- `RecordRelayEvent`
  unfoldable pub relay_event : Bool → Metrics W → Metrics W
  relay_event success m =
      let total = next m.relay_total_count in
      let succeeded = next_if success m.relay_success_count in
      let ratio = d.div (d.of_nat succeeded) (d.of_nat total) in
      record m {
        relay_total_count = total;
        relay_success_count = succeeded;
        relay_reliability = if ltb 0 total then ratio else m.relay_reliability;
      }

  -- `RecordUptimeObservation`
  unfoldable pub uptime_observation : ℕ → Bool → Metrics W → Metrics W
  uptime_observation now online m =
      let counted = next_if online m.hours_online_7d in
      let hours = if ltb 168 counted then 168 else counted in
      record m {
        hours_online_7d = hours;
        last_seen = if online then some now else m.last_seen;
        uptime_consistency = d.div (d.of_nat hours) (d.lit 168 0);
      }

  -- `RecordMailboxEvent`
  unfoldable pub mailbox_event : Bool → Bool → Metrics W → Metrics W
  mailbox_event deposited retrieved m =
      let in_count = next_if deposited m.mailbox_deposited_count in
      let out_count = next_if retrieved m.mailbox_retrieved_count in
      let ratio = cap (d.div (d.of_nat out_count) (d.of_nat in_count)) in
      record m {
        mailbox_deposited_count = in_count;
        mailbox_retrieved_count = out_count;
        mailbox_reliability = if ltb 0 in_count then ratio else m.mailbox_reliability;
      }

  -- `RecordDHTQuery`
  unfoldable pub dht_query : W → Metrics W → Metrics W
  dht_query response_ms m =
      let queries = d.of_nat m.dht_query_count in
      let average =
        d.div (d.add (d.mul queries m.avg_response_ms) response_ms) (d.add queries (d.lit 1 0)) in
      record m {
        avg_response_ms = average;
        dht_query_count = next m.dht_query_count;
        dht_responsiveness = cap (floor (d.sub (d.lit 1 0) (d.div average (d.lit 5000 0))));
      }

  -- `RecordContentEvent`
  unfoldable pub content_event : Bool → Bool → Metrics W → Metrics W
  content_event served requested m =
      let out_count = next_if served m.blocks_served_count in
      let in_count = next_if requested m.blocks_requested_count in
      let ratio = cap (d.div (d.of_nat out_count) (d.of_nat in_count)) in
      record m {
        blocks_served_count = out_count;
        blocks_requested_count = in_count;
        content_serving = if ltb 0 in_count then ratio else m.content_serving;
      }

  -- The clamp of `SetTrustAdjustment`.
  unfoldable pub clamped : W → W
  clamped x =
      let low = if d.lt x (d.neg (d.lit 5 1)) then d.neg (d.lit 5 1) else x in
      if d.lt (d.lit 5 1) low then d.lit 5 1 else low

  -- The attestations after one more: at the limit, which is a `uint32`, the oldest is dropped.
  -- `[1:]` of an empty slice panics.
  unfoldable pub attested :
      Config W → Attestation W → List (Attestation W) → Result Error (List (Attestation W))
  attested c a old =
      if leb c.max_attestations_per_peer (length old % 2 ^ 32)
      then elim old [ [] ↦ err slice_out_of_range | oldest ∷ rest ↦ ok (rest ++ a ∷ []) ]
      else ok (old ++ a ∷ [])
