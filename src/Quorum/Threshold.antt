-- ===== src/Quorum/Threshold.antt =====
-- `aggregate` against its specification over exact sums.
use cosaci.Prelude.{ℕ, ◌+◌, ◌≤◌, ◌≡◌, List, arith, leb, ltb, if◌then◌else◌, ◌&&◌, u64_max}
use cosaci.Quorum.{StakeMap, Vote, Outcome, Tally, outcome_of, latest, aggregate}
use cosaci.Quorum.Weights.{
  pass_sum, fail_sum, exact_total, IsStakeMap, tally_exact, total_stake_exact, total-split,
  latest-HasDistinctKeys,
}

-- The verdict on passed weight `p` and failed weight `f` out of `total`: a side that has not met
-- the threshold can still meet it as long as the other side leaves enough stake.
abbrev pub verdict : (threshold p f total : ℕ) → Outcome
verdict threshold p f total =
    if leb threshold f
    then Outcome.fail
    else if leb threshold p
    then Outcome.pass
    else if ltb total (threshold + f) && ltb total (threshold + p)
    then Outcome.escalate
    else Outcome.retry

outcome_of-verdict :
    (t : Tally) (threshold total : ℕ)
    → t.pass_weight + t.fail_weight ≤ total
    → total ≤ u64_max
    → outcome_of t threshold total ≡ verdict threshold t.pass_weight t.fail_weight total
unfolding outcome_of
outcome_of-verdict t threshold total h b = ground arith

-- On a stake map whose total fits `u64`, `aggregate` is the verdict on exact weights: fail if the
-- failed weight meets the threshold, else pass if the passed weight does, else escalate if the
-- whole stake less the other side is short for both, else retry. This holds without votes too: a
-- threshold of 0 then fails, and one above the whole stake escalates.
pub aggregate-verdict :
    (votes : List Vote) (threshold : ℕ) (stake : StakeMap)
    → IsStakeMap stake
    → aggregate votes threshold stake
      ≡ verdict threshold
          (pass_sum stake (latest votes))
          (fail_sum stake (latest votes))
          (exact_total stake)
unfolding aggregate
aggregate-verdict votes threshold stake s =
    let split = total-split (latest votes) stake (latest-HasDistinctKeys votes) s.distinct in
    let b = s.bounded in
    rw
      (
        tally_exact stake (latest votes) (omega arith) (omega arith),
        total_stake_exact stake s.bounded,
      )
      (outcome_of-verdict _ threshold (exact_total stake) (omega arith) s.bounded)
