-- ===== src/Reputation/Ranking.antt =====
-- The peers with the highest scores (`GetTopPeers` of pkg/reputation/tracker.go).
use mathlib.Core.List.{Perm, Pairwise, Mem}
use babylontower.Prelude.{ℕ, ◌≡◌, refl, List, true, false, map, take, length, ok, arith}
use babylontower.Prelude.Int.{pos}
use babylontower.Prelude.Sorting.{swap_sort, swap_sort-perm, swap_sort-Pairwise, IsOrder}
use babylontower.Reputation.Double.{Double, IsOrdered}
use babylontower.Reputation.Records.{Tracker}
use babylontower.Reputation.Tracker.{Scored, scored, scores_less, get_top_peers}

module _ {W : Type 0} (d : Double W) where
  -- A score that is not "not a number".
  abbrev IsNumber : Scored d → Type 0
  IsNumber p = d.le p.1 p.1 ≡ true

  scores_less-IsOrder : IsOrdered d → IsOrder (scores_less d) IsNumber
  scores_less-IsOrder o = record {
    asym = λ x y. o.lt_asym x.1 y.1;
    trans = λ x y z. o.not_lt_trans x.1 y.1 z.1;
  }

  -- If comparisons are as in IEEE 754 and every score in the tracker is a number, then for every n that
  -- is not negative the result names the first n peers (all of them, if there are fewer) of a list that
  -- holds every peer of the tracker with its score once, and in which no later peer has a higher score
  -- than an earlier one.
  pub get_top_peers-Pairwise :
      (n : ℕ) (t : Tracker W)
      → IsOrdered d
      → ((p : Scored d) → Mem p (scored d t.records) → IsNumber p)
      → (ranked : List (Scored d)) × Perm ranked (scored d t.records)
        × Pairwise (λ x y. scores_less d x y ≡ false) ranked
        × (get_top_peers d (pos n) t ≡ ok (map (λ p. p.0) (take n ranked)))
  unfolding get_top_peers
  get_top_peers-Pairwise n t o h =
      let peers = scored d t.records in
      (
        swap_sort (scores_less d) (length peers) peers,
        swap_sort-perm (scores_less d) (length peers) peers,
        swap_sort-Pairwise (scores_less d) IsNumber (scores_less-IsOrder o) (length peers) peers
            (omega arith) h,
        refl,
      )
