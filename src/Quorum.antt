-- ===== src/Quorum.antt =====
-- crates/cosaci-core/src/quorum.rs: the stake-weighted vote count.
pub mod Weights
pub mod Threshold
pub mod Finality
pub mod Retry
pub mod Order
mod Examples
use cosaci.Prelude.{
  ℕ, ◌+◌, ◌-◌, Bool, not, ◌&&◌, Option, none, some, List, [], ◌∷◌, leb, if◌then◌else◌, nat_key,
  saturating_add, wrapping_add,
}
use cosaci.Map.{Map, get, insert}

-- RunnerId -> Weight, both `u64`.
abbrev pub StakeMap : Type 0
StakeMap = Map ℕ ℕ

pub data VoteResult : Type 0 where
  pass fail : VoteResult

pub record Vote : Type 0 where
  pub runner_id : ℕ
  pub result : VoteResult

pub data Outcome : Type 0 where
  pass fail retry escalate : Outcome

-- `stake.get(rid).copied().unwrap_or(0)`
abbrev pub weight_of : StakeMap → ℕ → ℕ
weight_of stake rid = elim (get rid stake) [ none ↦ 0 | some w ↦ w ]

-- The last vote of each runner, over those already seen.
unfoldable pub latest_from : Map ℕ VoteResult → List Vote → Map ℕ VoteResult
latest_from seen [] = seen
latest_from seen (v ∷ votes) = latest_from (insert v.runner_id v.result seen) votes

unfoldable pub latest : List Vote → Map ℕ VoteResult
latest votes = latest_from [] votes

pub record Tally : Type 0 where
  pub pass_weight : ℕ
  pub fail_weight : ℕ

unfoldable pub count_vote : StakeMap → Tally → ℕ → VoteResult → Tally
count_vote stake t rid VoteResult.pass = record t {
  pass_weight = saturating_add t.pass_weight (weight_of stake rid);
}
count_vote stake t rid VoteResult.fail = record t {
  fail_weight = saturating_add t.fail_weight (weight_of stake rid);
}

-- The loop over `latest`.
unfoldable pub tally_from : StakeMap → Tally → Map ℕ VoteResult → Tally
unfolding count_vote
tally_from stake t [] = t
tally_from stake t ((rid, result) ∷ rest) = tally_from stake (count_vote stake t rid result) rest

-- `stake.values().copied().sum()`
unfoldable pub total_stake : StakeMap → ℕ
total_stake [] = 0
total_stake ((_, w) ∷ rest) = wrapping_add w (total_stake rest)

-- The thresholds, the failing one first.
unfoldable pub outcome_of : Tally → ℕ → ℕ → Outcome
outcome_of t threshold total =
    if leb threshold t.fail_weight
    then Outcome.fail
    else if leb threshold t.pass_weight
    then Outcome.pass
    else let remaining = total - saturating_add t.pass_weight t.fail_weight in
      let pass_reachable = leb threshold (saturating_add t.pass_weight remaining) in
      let fail_reachable = leb threshold (saturating_add t.fail_weight remaining) in
      if not pass_reachable && not fail_reachable then Outcome.escalate else Outcome.retry

unfoldable pub aggregate : List Vote → ℕ → StakeMap → Outcome
aggregate votes threshold stake =
    outcome_of (tally_from stake (record { pass_weight = 0; fail_weight = 0 }) (latest votes))
      threshold (total_stake stake)
