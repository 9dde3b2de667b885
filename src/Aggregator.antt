-- ===== src/Aggregator.antt =====
-- crates/cosaci-state/src/aggregator.rs: the state around `aggregate`, with a retry budget.
pub mod Lifecycle
mod Examples
use cosaci.Prelude.{
  ℕ, ◌+◌, ◌^◌, ◌-◌, Bool, true, false, List, [], ◌∷◌, ◌++◌, ltb, if◌then◌else◌, min, length,
}
use cosaci.Quorum.{StakeMap, Vote, Outcome, aggregate}

pub data AggregationState : Type 0 where
  pending pass fail escalate : AggregationState

pub record Aggregator : Type 0 where
  pub state : AggregationState
  pub votes : List Vote
  pub threshold : ℕ
  pub stake : StakeMap
  pub retries : ℕ
  pub max_retries : ℕ

abbrev pub u32_max : ℕ
u32_max = 2 ^ 32 - 1

unfoldable pub with_max_retries : ℕ → StakeMap → ℕ → Aggregator
with_max_retries threshold stake max_retries = record {
  state = AggregationState.pending;
  votes = [];
  threshold = threshold;
  stake = stake;
  retries = 0;
  max_retries = max_retries;
}

unfoldable pub new : ℕ → StakeMap → Aggregator
unfolding with_max_retries
new threshold stake = with_max_retries threshold stake u32_max

abbrev pub is_terminal_state : AggregationState → Bool
is_terminal_state AggregationState.pending = false
is_terminal_state AggregationState.pass = true
is_terminal_state AggregationState.fail = true
is_terminal_state AggregationState.escalate = true

abbrev pub is_terminal : Aggregator → Bool
is_terminal a = is_terminal_state a.state

-- The match of `receive_vote`.
state_of_outcome : Outcome → AggregationState
state_of_outcome Outcome.pass = AggregationState.pass
state_of_outcome Outcome.fail = AggregationState.fail
state_of_outcome Outcome.escalate = AggregationState.escalate
state_of_outcome Outcome.retry = AggregationState.pending

-- A method returns the aggregator and the state that it reports.
unfoldable pub receive_vote : Aggregator → Vote → Aggregator × AggregationState
unfolding state_of_outcome
receive_vote a vote =
    if is_terminal a
    then (a, a.state)
    else let votes = a.votes ++ vote ∷ [] in
      let state = state_of_outcome (aggregate votes a.threshold a.stake) in
      (record a { votes = votes; state = state }, state)

-- The match of `trigger_aggregation`.
retried : Aggregator → Outcome → Aggregator
retried a Outcome.pass = record a { state = AggregationState.pass }
retried a Outcome.fail = record a { state = AggregationState.fail }
retried a Outcome.escalate = record a { state = AggregationState.escalate }
retried a Outcome.retry =
    let retries = min (a.retries + 1) u32_max in
    record a {
      retries = retries;
      state =
          if ltb a.max_retries retries then AggregationState.escalate else AggregationState.pending;
    }

unfoldable pub trigger_aggregation : Aggregator → Aggregator × AggregationState
unfolding retried
trigger_aggregation a =
    if is_terminal a
    then (a, a.state)
    else let b = retried a (aggregate a.votes a.threshold a.stake) in (b, b.state)

-- The match of `timeout`.
forced : Outcome → AggregationState
forced Outcome.pass = AggregationState.pass
forced Outcome.fail = AggregationState.fail
forced Outcome.escalate = AggregationState.escalate
forced Outcome.retry = AggregationState.escalate

unfoldable pub timeout : Aggregator → Aggregator × AggregationState
unfolding forced
timeout a =
    if is_terminal a
    then (a, a.state)
    else let state = forced (aggregate a.votes a.threshold a.stake) in
      (record a { state = state }, state)

unfoldable pub vote_count : Aggregator → ℕ
vote_count a = length a.votes
