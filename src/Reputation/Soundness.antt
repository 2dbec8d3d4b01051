-- ===== src/Reputation/Soundness.antt =====
-- What the answers of the tracker of pkg/reputation/tracker.go say after any run.
use babylontower.Prelude.{
  ℕ, ite, if_pos, if_neg, ◌≡◌, refl, sym, ap, ◌∙◌, Option, none, some, List, Bytes, false,
  bytes_dec, Option-cases, inl, inr, arith,
}
use babylontower.Prelude.Assoc.{lookup, insert, lookup-insert, Values-lookup}
use babylontower.Reputation.Double.{Double, IsOrdered}
use babylontower.Reputation.Records.{
  Tier, tier_basic, Metrics, Attestation, Record, Config, Tracker,
}
use babylontower.Reputation.Scoring.{cap, floor, fresh, rescored, score_of, update_composite_score}
use babylontower.Reputation.Tracker.{
  new_tracker, get_record, get_or_create_record, add_attestation, get_composite_score, get_tier,
}
use babylontower.Reputation.Consistency.{
  Event, run, IsUsable, IsConsistent, Valid, current, current-IsConsistent,
}
use babylontower.Reputation.Runs.{
  run-Valid, new_tracker-Valid, add_attestation-cases, with_attestations, stored,
}

module _ {W : Type 0} (d : Double W) where
  clamp-InRange :
      (x : W)
      → IsOrdered d
      → (d.lt (cap d (floor d x)) (d.lit 0 0) ≡ false)
        × (d.lt (d.lit 1 0) (cap d (floor d x)) ≡ false)
  clamp-InRange x o =
      let z = o.zero_not_lt in let w = o.one_not_lt in let zw = o.one_not_lt_zero in ground arith

  score_of-InRange :
      (c : Config W) (m : Metrics W) (x : W)
      → IsOrdered d
      → (d.lt (score_of d c m x) (d.lit 0 0) ≡ false)
        × (d.lt (d.lit 1 0) (score_of d c m x) ≡ false)
  unfolding score_of
  score_of-InRange c m x o = clamp-InRange _ o

  -- After any sequence of calls on a new tracker whose configuration is usable (a peer that was never
  -- observed scores 0.0 and is in the lowest tier, and the limit of attestations is at least 1), with
  -- comparisons of floating-point numbers as in IEEE 754: every record that the tracker has holds the
  -- score of its metrics and adjustment, this score is not below 0.0 and not above 1.0, the tier is
  -- that of the score, and neither the attestations nor the hours of the last week exceed their limits.
  pub run-IsConsistent :
      (c : Config W) (self identity : Bytes) (es : List (Event W)) (pid : Bytes) (r : Record W)
      → IsOrdered d
      → IsUsable d c
      → get_record d pid (run d es (new_tracker d self identity (some c))) ≡ some r
      → IsConsistent d c r
        × (d.lt r.composite_score (d.lit 0 0) ≡ false)
        × (d.lt (d.lit 1 0) r.composite_score ≡ false)
  unfolding get_record
  run-IsConsistent c self identity es pid r o u e =
      let t = run d es (new_tracker d self identity (some c)) in
      let v =
        run-Valid d c es (new_tracker d self identity (some c)) u
          (new_tracker-Valid d c self identity) in
      let k = Values-lookup bytes_dec (IsConsistent d c) pid r t.records v.1 e in
      let bounds = score_of-InRange c r.metrics r.trust_adjustment o in
      (k, rw k.score bounds.0, rw k.score bounds.1)

  -- What a peer's rank is.
  abbrev pub rank : Bytes → Tracker W → W × Tier
  rank pid t = (get_composite_score d pid t, get_tier d pid t)

  abbrev rank_of : Option (Record W) → W × Tier
  rank_of none = (d.lit 0 0, tier_basic)
  rank_of (some r) = (r.composite_score, r.tier)

  rank-lookup :
      (pid : Bytes) (t : Tracker W) → rank pid t ≡ rank_of (lookup bytes_dec pid t.records)
  unfolding get_composite_score get_tier get_record
  rank-lookup pid t = elim (Option-cases (lookup bytes_dec pid t.records)) [
    | inl e ↦ rw (e, rank, get_composite_score, get_tier, get_record) refl
    | inr (r, e) ↦ rw (e, rank, get_composite_score, get_tier, get_record) refl
  ]

  rank-insert :
      (k pid : Bytes) (r : Record W) (t : Tracker W)
      → rank pid (record t { records = insert bytes_dec k r t.records })
        ≡ ite (bytes_dec k pid) (r.composite_score, r.tier) (rank pid t)
  rank-insert k pid r t =
      rank-lookup pid (record t { records = insert bytes_dec k r t.records })
      ∙ ap rank_of (lookup-insert bytes_dec k pid r t.records)
      ∙ (elim (bytes_dec k pid) [
        | yes e ↦ rw (if_pos _ e, if_pos _ e) refl
        | no n ↦ rw (if_neg _ n, if_neg _ n) (sym (rank-lookup pid t))
      ])

  rank-current :
      (now : ℕ) (pid : Bytes) (t : Tracker W)
      → rank pid t ≡ ((current d now pid t).composite_score, (current d now pid t).tier)
  unfolding get_or_create_record get_record fresh
  rank-current now pid t =
      rank-lookup pid t ∙ (elim (Option-cases (lookup bytes_dec pid t.records)) [
        | inl e ↦ rw (e, current, get_or_create_record, get_record) refl
        | inr (r, e) ↦ rw (e, current, get_or_create_record, get_record) refl
      ])

  -- Scoring a consistent record again changes nothing.
  rescored-rank :
      (c c' : Config W) (now : ℕ) (kept : List (Attestation W)) (r : Record W)
      → c' ≡ c
      → IsConsistent d c r
      → let r' = rescored d c' now (record r { attestations = kept }) in
        ◌≡◌ {A = W × Tier} (r'.composite_score, r'.tier) (r.composite_score, r.tier)
  unfolding rescored update_composite_score
  rescored-rank c c' now kept r e k = rw (e, k.tier, k.score) refl

  attested-rank :
      (c : Config W) (now : ℕ) (a : Attestation W) (pid : Bytes) (t : Tracker W)
      (kept : List (Attestation W))
      → IsUsable d c
      → Valid d c t
      → rank pid (stored d a (with_attestations d t.config now a t kept) t) ≡ rank pid t
  attested-rank c now a pid t kept u v =
      let k = current-IsConsistent d c now a.subject_peer_id t u v in
      let r' = with_attestations d t.config now a t kept in
      rank-insert a.subject_peer_id pid r' t ∙ (elim (bytes_dec a.subject_peer_id pid) [
        | yes e ↦ rw (if_pos _ e) (
            rescored-rank c t.config now kept (current d now a.subject_peer_id t) v.0 k
            ∙ sym (rank-current now a.subject_peer_id t)
            ∙ ap (λ p. rank p t) e)
        | no n ↦ rw (if_neg _ n) refl
      ])

  -- After any sequence of calls on a new tracker with a usable configuration, adding an attestation,
  -- accepted or not, changes the composite score and the tier of no peer, whatever the score that it
  -- attests.
  pub add_attestation-rank :
      (c : Config W) (self identity : Bytes) (es : List (Event W)) (now : ℕ) (a : Attestation W)
      (pid : Bytes)
      → IsUsable d c
      → let t = run d es (new_tracker d self identity (some c)) in
        rank pid (add_attestation d now a t).0 ≡ rank pid t
  add_attestation-rank c self identity es now a pid u =
      let t = run d es (new_tracker d self identity (some c)) in
      let v =
        run-Valid d c es (new_tracker d self identity (some c)) u
          (new_tracker-Valid d c self identity) in
      elim (add_attestation-cases d c now a t u v) [
        | inl e ↦ ap (rank pid) e
        | inr (kept, l, e) ↦ ap (rank pid) e ∙ attested-rank c now a pid t kept u v
      ]
