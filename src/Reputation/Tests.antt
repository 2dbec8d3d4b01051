-- ===== src/Reputation/Tests.antt =====
-- A tracker whose numbers are thousandths.
use mathlib.Core.List.{Perm, Pairwise}
use babylontower.Prelude.{
  ℕ, ◌+◌, ◌-◌, ◌*◌, ◌/◌, ◌^◌, ◌≡◌, refl, none, some, List, [], ◌∷◌, Bytes, true, false, ltb, leb,
  map, take, ok, arith, bytes_dec,
}
use babylontower.Prelude.Assoc.{lookup, insert}
use babylontower.Prelude.Sorting.{swap_sort, swap_down}
use babylontower.Prelude.Int.{pos}
use babylontower.Reputation.Double.{Double, IsOrdered}
use babylontower.Reputation.Records.{Attestation, Config, Tracker, Record, default_config}
use babylontower.Reputation.Scoring.{
  score_of, tier_of, fresh, rescored, update_composite_score, relay_event, dht_query,
  uptime_observation, mailbox_event, attested,
}
use babylontower.Reputation.Tracker.{
  new_tracker, get_record, get_top_peers, add_attestation, Scored, scored, scores_less,
  record_relay_event, record_dht_query, record_uptime_observation, record_mailbox_event, observe,
  change, get_or_create_record, has_expired, is_too_young,
}
use babylontower.Reputation.Consistency.{
  Event, run, apply, IsUsable, IsConsistent, relay_recorded, uptime_recorded, mailbox_recorded,
  dht_recorded, attestation_added,
}
use babylontower.Reputation.Soundness.{rank, run-IsConsistent, add_attestation-rank}
use babylontower.Reputation.Ranking.{get_top_peers-Pairwise}

abbrev thousandths : Double ℕ
thousandths = record {
  lit = λ n k. n * 1000 / 10 ^ k;
  of_nat = λ n. n * 1000;
  neg = λ x. 0;
  add = λ x y. x + y;
  sub = λ x y. x - y;
  mul = λ x y. x * y / 1000;
  div = λ x y. x * 1000 / y;
  lt = ltb;
  le = leb;
  to_float32 = λ x. x;
  hours = λ d. d / 3_600_000_000_000;
}

thousandths-IsOrdered : IsOrdered thousandths
thousandths-IsOrdered = record {
  lt_asym = λ x y h. ground arith;
  not_lt_trans = λ x y z n h k. ground arith;
  zero_not_lt = refl;
  one_not_lt = refl;
  one_not_lt_zero = refl;
}

abbrev usual : Config ℕ
unfolding default_config
usual = default_config thousandths

usual-IsUsable : IsUsable thousandths usual
unfolding default_config score_of tier_of fresh
usual-IsUsable = record {
  fresh_score = λ now pid. refl;
  fresh_tier = refl;
  some_allowed = omega arith;
  is_uint32 = omega arith;
}

abbrev alice : Bytes
alice = 1 ∷ []

abbrev bob : Bytes
bob = 2 ∷ []

abbrev praise : Attestation ℕ
praise = record {
  attester_peer_id = 3 ∷ [];
  attester_identity_pub = [];
  subject_peer_id = alice;
  score = 1000;
  observation_period_hours = 24;
  timestamp = 1_000_000_000;
  signature = [];
}

abbrev events : List (Event ℕ)
events =
    relay_recorded 1 alice true
    ∷ relay_recorded 2 alice false
    ∷ dht_recorded 3 bob 100
    ∷ uptime_recorded 4 bob true
    ∷ mailbox_recorded 5 bob true true
    ∷ attestation_added 6 praise
    ∷ []

abbrev tracked : Tracker ℕ
tracked = run thousandths events (new_tracker thousandths [] [] (some usual))

abbrev of_alice : Record ℕ
of_alice = elim (get_record thousandths alice tracked) [
  | none ↦ fresh thousandths 1 alice
  | some r ↦ r
]

alice_is_known : get_record thousandths alice tracked ≡ some of_alice
unfolding get_record run apply record_relay_event record_dht_query record_uptime_observation
    record_mailbox_event add_attestation observe change get_or_create_record new_tracker fresh
    rescored update_composite_score relay_event dht_query uptime_observation mailbox_event score_of
    tier_of attested has_expired is_too_young lookup insert bytes_dec default_config
alice_is_known = refl

run-IsConsistent_example :
    IsConsistent thousandths usual of_alice
    × (thousandths.lt of_alice.composite_score (thousandths.lit 0 0) ≡ false)
    × (thousandths.lt (thousandths.lit 1 0) of_alice.composite_score ≡ false)
run-IsConsistent_example =
    run-IsConsistent thousandths usual [] [] events alice of_alice thousandths-IsOrdered
      usual-IsUsable alice_is_known

add_attestation-rank_example :
    rank thousandths alice (add_attestation thousandths 7 praise tracked).0
    ≡ rank thousandths alice tracked
add_attestation-rank_example =
    add_attestation-rank thousandths usual [] [] events 7 praise alice usual-IsUsable

-- The attestation is accepted.
praise_is_kept : (add_attestation thousandths 7 praise tracked).1 ≡ ok tt
unfolding get_record run apply record_relay_event record_dht_query record_uptime_observation
    record_mailbox_event add_attestation observe change get_or_create_record new_tracker fresh
    rescored update_composite_score relay_event dht_query uptime_observation mailbox_event score_of
    tier_of attested has_expired is_too_young lookup insert bytes_dec default_config
praise_is_kept = refl

get_top_peers-Pairwise_example :
    (ranked : List (Scored thousandths)) × Perm ranked (scored thousandths tracked.records)
    × Pairwise (λ x y. scores_less thousandths x y ≡ false) ranked
    × (get_top_peers thousandths (pos 1) tracked ≡ ok (map (λ p. p.0) (take 1 ranked)))
get_top_peers-Pairwise_example =
    get_top_peers-Pairwise thousandths 1 tracked thousandths-IsOrdered (λ p m. ground arith)

-- Bob comes first.
bob_is_best : get_top_peers thousandths (pos 1) tracked ≡ ok (bob ∷ [])
unfolding get_top_peers swap_sort swap_down get_record run apply record_relay_event record_dht_query
    record_uptime_observation record_mailbox_event add_attestation observe change
    get_or_create_record new_tracker fresh rescored update_composite_score relay_event dht_query
    uptime_observation mailbox_event score_of tier_of attested has_expired is_too_young lookup
    insert bytes_dec default_config
bob_is_best = refl
