-- ===== src/Aggregator/Examples.antt =====
-- Runs of an aggregator, and the theorems at concrete inputs.
use cosaci.Prelude.{◌≡◌, refl, true, [], ◌∷◌, List, arith, nat_key}
use cosaci.Map.{get, insert}
use cosaci.Quorum.{
  StakeMap, VoteResult, aggregate, latest, latest_from, tally_from, total_stake, outcome_of,
}
use cosaci.Aggregator.{
  AggregationState, with_max_retries, is_terminal, receive_vote, trigger_aggregation,
}
use cosaci.Aggregator.Lifecycle.{
  Event, vote, trigger, step, run, IsSound, run-IsSound, pressure, run_terminates,
}

abbrev stakes : StakeMap
stakes = (1, 40) ∷ (2, 30) ∷ (3, 30) ∷ []

abbrev history : List Event
history = vote (record { runner_id = 1; result = VoteResult.pass }) ∷ trigger ∷ trigger ∷ []

patient : (run (with_max_retries 67 stakes 2) history).state ≡ AggregationState.pending
unfolding run step receive_vote trigger_aggregation with_max_retries aggregate latest latest_from
    insert get tally_from total_stake outcome_of
patient = refl

impatient : (run (with_max_retries 67 stakes 1) history).state ≡ AggregationState.escalate
unfolding run step receive_vote trigger_aggregation with_max_retries aggregate latest latest_from
    insert get tally_from total_stake outcome_of
impatient = refl

run-IsSound_example : IsSound (run (with_max_retries 67 stakes 2) history)
run-IsSound_example = run-IsSound 67 stakes 2 history

run_terminates_example : is_terminal (run (with_max_retries 67 stakes 1) history) ≡ true
unfolding pressure
run_terminates_example = run_terminates 67 stakes 1 history (omega arith) (omega arith)
