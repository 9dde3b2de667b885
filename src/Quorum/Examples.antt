-- ===== src/Quorum/Examples.antt =====
-- Runs of `aggregate`, and the theorems at concrete inputs.
use cosaci.Prelude.{ℕ, ◌≡◌, refl, ◌⊎◌, List, [], ◌∷◌, ◌++◌, arith, nat_key}
use cosaci.Map.{get, insert}
use cosaci.Quorum.{
  StakeMap, VoteResult, Vote, Outcome, latest_from, latest, tally_from, total_stake, outcome_of,
  aggregate,
}
use cosaci.Quorum.Weights.{IsStakeMap, pass_sum, fail_sum, exact_total}
use cosaci.Quorum.Threshold.{verdict, aggregate-verdict}
use cosaci.Quorum.Finality.{aggregate_escalate_final}
use cosaci.Quorum.Retry.{last_ballots, aggregate_retry_open}
use cosaci.Quorum.Order.{aggregate-swap}

abbrev stakes : StakeMap
stakes = (1, 40) ∷ (2, 30) ∷ (3, 30) ∷ []

abbrev yes_from : ℕ → Vote
yes_from id = record { runner_id = id; result = VoteResult.pass }

abbrev no_from : ℕ → Vote
no_from id = record { runner_id = id; result = VoteResult.fail }

abbrev split_votes : List Vote
split_votes = yes_from 1 ∷ no_from 2 ∷ no_from 3 ∷ []

passes : aggregate (yes_from 1 ∷ yes_from 2 ∷ []) 67 stakes ≡ Outcome.pass
unfolding aggregate latest latest_from insert get tally_from total_stake outcome_of
passes = refl

escalates : aggregate split_votes 67 stakes ≡ Outcome.escalate
unfolding aggregate latest latest_from insert get tally_from total_stake outcome_of
escalates = refl

retries : aggregate (yes_from 1 ∷ []) 67 stakes ≡ Outcome.retry
unfolding aggregate latest latest_from insert get tally_from total_stake outcome_of
retries = refl

-- The last vote of a runner counts.
revotes : aggregate (yes_from 1 ∷ yes_from 2 ∷ no_from 1 ∷ no_from 2 ∷ []) 67 stakes ≡ Outcome.fail
unfolding aggregate latest latest_from insert get tally_from total_stake outcome_of
revotes = refl

stakes-IsStakeMap : IsStakeMap stakes
unfolding get
stakes-IsStakeMap = record { distinct = (refl, (refl, (refl, tt))); bounded = omega arith }

aggregate-verdict_example :
    aggregate split_votes 67 stakes
    ≡ verdict 67
        (pass_sum stakes (latest split_votes))
        (fail_sum stakes (latest split_votes))
        (exact_total stakes)
aggregate-verdict_example = aggregate-verdict split_votes 67 stakes stakes-IsStakeMap

aggregate_escalate_final_example :
    aggregate (split_votes ++ yes_from 9 ∷ []) 67 stakes ≡ Outcome.escalate
unfolding get latest latest_from insert
aggregate_escalate_final_example =
    aggregate_escalate_final split_votes (yes_from 9 ∷ []) 67 stakes stakes-IsStakeMap (refl, tt)
      escalates

aggregate_retry_open_example :
    (aggregate
        ((yes_from 1 ∷ []) ++ last_ballots (yes_from 1 ∷ []) stakes VoteResult.pass)
        67
        stakes
      ≡ Outcome.pass)
    ⊎ (aggregate
          ((yes_from 1 ∷ []) ++ last_ballots (yes_from 1 ∷ []) stakes VoteResult.fail)
          67
          stakes
        ≡ Outcome.fail)
aggregate_retry_open_example =
    aggregate_retry_open (yes_from 1 ∷ []) 67 stakes stakes-IsStakeMap retries

aggregate-swap_example :
    aggregate ([] ++ yes_from 1 ∷ no_from 2 ∷ []) 67 stakes
    ≡ aggregate ([] ++ no_from 2 ∷ yes_from 1 ∷ []) 67 stakes
aggregate-swap_example =
    aggregate-swap [] [] (yes_from 1) (no_from 2) 67 stakes stakes-IsStakeMap (omega arith)
