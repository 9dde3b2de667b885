-- ===== src/Quorum/Order.antt =====
-- The count depends on the last vote of each runner only.
use cosaci.Prelude.{ℕ, ◌≡◌, ◌≢◌, ◌++◌, ◌∷◌, List, arith, nat_key, nat_beq_iff, []}
use cosaci.Map.{insert, get-insert, Map}
use cosaci.Map.Sums.{SameLookups, sum_map-same}
use cosaci.Quorum.{StakeMap, Vote, VoteResult, latest_from, latest, aggregate}
use cosaci.Quorum.Weights.{passing, failing, IsStakeMap, latest-HasDistinctKeys}
use cosaci.Quorum.Threshold.{aggregate-verdict}

-- On a stake map whose total fits `u64`, vote lists in which every runner has the same last vote
-- have the same outcome.
pub aggregate-same :
    (votes others : List Vote) (threshold : ℕ) (stake : StakeMap)
    → IsStakeMap stake
    → SameLookups (latest votes) (latest others)
    → aggregate votes threshold stake ≡ aggregate others threshold stake
aggregate-same votes others threshold stake s h = rw (
  aggregate-verdict votes threshold stake s,
  aggregate-verdict others threshold stake s,
  sum_map-same (passing stake) (latest votes) (latest others) (latest-HasDistinctKeys votes)
      (latest-HasDistinctKeys others) h,
  sum_map-same (failing stake) (latest votes) (latest others) (latest-HasDistinctKeys votes)
      (latest-HasDistinctKeys others) h,
)

latest_from-same :
    (m n : Map ℕ VoteResult) (votes : List Vote)
    → SameLookups m n
    → SameLookups (latest_from m votes) (latest_from n votes)
unfolding latest_from
latest_from-same m n [] h = h
latest_from-same m n (v ∷ votes) h =
    latest_from-same (insert v.runner_id v.result m) (insert v.runner_id v.result n) votes λ k.
      ground (arith, h k, get-insert v.runner_id k v.result m, get-insert v.runner_id k v.result n)

latest_from-swap :
    (m : Map ℕ VoteResult) (before after : List Vote) (v w : Vote)
    → v.runner_id ≢ w.runner_id
    → SameLookups
        (latest_from m (before ++ v ∷ w ∷ after))
        (latest_from m (before ++ w ∷ v ∷ after))
unfolding latest_from
latest_from-swap m [] after v w h = latest_from-same _ _ after λ k. ground (
  arith,
  get-insert w.runner_id k w.result (insert v.runner_id v.result m),
  get-insert v.runner_id k v.result m,
  get-insert v.runner_id k v.result (insert w.runner_id w.result m),
  get-insert w.runner_id k w.result m,
  nat_beq_iff v.runner_id k,
  nat_beq_iff w.runner_id k,
)
latest_from-swap m (b ∷ before) after v w h =
    latest_from-swap (insert b.runner_id b.result m) before after v w h

-- Two adjacent votes of different runners may come in either order.
pub aggregate-swap :
    (before after : List Vote) (v w : Vote) (threshold : ℕ) (stake : StakeMap)
    → IsStakeMap stake
    → v.runner_id ≢ w.runner_id
    → aggregate (before ++ v ∷ w ∷ after) threshold stake
      ≡ aggregate (before ++ w ∷ v ∷ after) threshold stake
aggregate-swap before after v w threshold stake s h =
    aggregate-same (before ++ v ∷ w ∷ after) (before ++ w ∷ v ∷ after) threshold stake s
      (unfold latest in latest_from-swap [] before after v w h)
