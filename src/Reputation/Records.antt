-- ===== src/Reputation/Records.antt =====
-- The records of pkg/reputation/tracker.go. A peer id is a byte sequence. A `time.Time` is a number
-- of nanoseconds since 1970, and `none` is the zero time.
use babylontower.Prelude.{ℕ, Option, List, Bytes, if◌then◌else◌, ◌==◌, codes}
use babylontower.Prelude.Int.{ℤ, pos, negsuc}
use babylontower.Prelude.Assoc.{Assoc}
use babylontower.Reputation.Double.{Double}

-- `Tier` is an `int`.
abbrev pub Tier : Type 0
Tier = ℤ

abbrev pub tier_basic : Tier
tier_basic = pos 0

abbrev pub tier_contributor : Tier
tier_contributor = pos 1

abbrev pub tier_reliable : Tier
tier_reliable = pos 2

abbrev pub tier_trusted : Tier
tier_trusted = pos 3

-- `Tier.String`
unfoldable pub tier_string : Tier → Bytes
tier_string (negsuc n) = codes "Unknown"
tier_string (pos n) =
    if n == 0
    then codes "Basic"
    else if n == 1
    then codes "Contributor"
    else if n == 2
    then codes "Reliable"
    else if n == 3
    then codes "Trusted"
    else codes "Unknown"

module _ (W : Type 0) where
  pub record Metrics : Type 0 where
    pub relay_reliability : W
    pub relay_success_count : ℕ
    pub relay_total_count : ℕ
    pub uptime_consistency : W
    pub hours_online_7d : ℕ
    pub last_seen : Option ℕ
    pub mailbox_reliability : W
    pub mailbox_retrieved_count : ℕ
    pub mailbox_deposited_count : ℕ
    pub dht_responsiveness : W
    pub avg_response_ms : W
    pub dht_query_count : ℕ
    pub content_serving : W
    pub blocks_served_count : ℕ
    pub blocks_requested_count : ℕ
    pub first_observed : ℕ
    pub observation_count : ℕ

  pub record Attestation : Type 0 where
    pub attester_peer_id : Bytes
    pub attester_identity_pub : Bytes
    pub subject_peer_id : Bytes
    pub score : W
    pub observation_period_hours : ℕ
    pub timestamp : ℕ
    pub signature : Bytes

  pub record Record : Type 0 where
    pub peer_id : Bytes
    pub metrics : Metrics
    pub composite_score : W
    pub tier : Tier
    pub attestations : List Attestation
    pub trust_adjustment : W
    pub last_updated : ℕ

  pub record Config : Type 0 where
    pub relay_reliability_weight : W
    pub uptime_consistency_weight : W
    pub mailbox_reliability_weight : W
    pub dht_responsiveness_weight : W
    pub content_serving_weight : W
    pub min_connection_hours : ℕ
    pub max_attestation_influence : W
    pub attestation_expiry_hours : ℕ
    pub max_attestations_per_peer : ℕ
    pub tier_contributor_threshold : W
    pub tier_reliable_threshold : W
    pub tier_trusted_threshold : W
    pub metric_update_interval_seconds : ℕ
    pub attestation_publish_interval : ℕ

  pub record Tracker : Type 0 where
    pub records : Assoc Bytes Record
    pub config : Config
    pub self_peer_id : Bytes
    pub self_identity : Bytes

-- The first two are errors of the source, the others panics of a slice.
pub data Error : Type 0 where
  attestation_expired attester_not_trusted slice_out_of_range negative_capacity : Error

-- `DefaultConfig`
unfoldable pub default_config : {W : Type 0} → Double W → Config W
default_config d = record {
  relay_reliability_weight = d.lit 25 2;
  uptime_consistency_weight = d.lit 20 2;
  mailbox_reliability_weight = d.lit 25 2;
  dht_responsiveness_weight = d.lit 15 2;
  content_serving_weight = d.lit 15 2;
  min_connection_hours = 24;
  max_attestation_influence = d.lit 1 1;
  attestation_expiry_hours = 168;
  max_attestations_per_peer = 50;
  tier_contributor_threshold = d.lit 3 1;
  tier_reliable_threshold = d.lit 6 1;
  tier_trusted_threshold = d.lit 8 1;
  metric_update_interval_seconds = 300;
  attestation_publish_interval = 24;
}
