-- ===== src/PartialQuorum.antt =====
-- crates/cosaci-state/src/partial_quorum.rs: the outcome of a job of which some runners did not
-- respond.
pub mod Responses
mod Examples
use cosaci.Prelude.{
  ℕ, ◌+◌, ◌*◌, ◌/◌, ◌%◌, ◌^◌, Bool, true, false, not, ◌||◌, List, [], ◌∷◌, if◌then◌else◌, nat_key,
  nat_beq, wrapping_add,
}
use cosaci.Map.{insert}
use cosaci.Quorum.{StakeMap, weight_of, Vote, Outcome, aggregate}

pub record PartialOutcome : Type 0 where
  pub outcome : Outcome
  pub responding : List ℕ
  pub missing : List ℕ
  pub responding_stake : ℕ
  pub threshold : ℕ

-- `responded.contains(&id)`
unfoldable pub has_responded : ℕ → List Vote → Bool
has_responded id [] = false
has_responded id (v ∷ votes) = nat_beq v.runner_id id || has_responded id votes

-- The loop over the committee: who responded, and who did not.
unfoldable pub split_committee : List ℕ → List Vote → List ℕ × List ℕ
split_committee [] votes = ([], [])
split_committee (id ∷ committee) votes =
    let (responding, missing) = split_committee committee votes in
    if has_responded id votes then (id ∷ responding, missing) else (responding, id ∷ missing)

unfoldable pub stake_sum : StakeMap → List ℕ → ℕ
stake_sum stake [] = 0
stake_sum stake (id ∷ ids) = wrapping_add (weight_of stake id) (stake_sum stake ids)

unfoldable pub resolve_with_dropouts : List ℕ → List Vote → StakeMap → (ℕ → ℕ) → PartialOutcome
resolve_with_dropouts committee votes stake threshold_fn =
    let (responding, missing) = split_committee committee votes in
    let responding_stake = stake_sum stake responding in
    let threshold = threshold_fn responding_stake in
    record {
      outcome = aggregate votes threshold stake;
      responding = responding;
      missing = missing;
      responding_stake = responding_stake;
      threshold = threshold;
    }

-- `(responding_stake * 2).div_ceil(3)`
abbrev pub two_thirds_threshold : ℕ → ℕ
two_thirds_threshold responding_stake = (responding_stake * 2 % 2 ^ 64 + 2) / 3

unfoldable pub stake_map_from_pairs : List (ℕ × ℕ) → StakeMap
stake_map_from_pairs pairs = insert_pairs [] pairs
  where
    insert_pairs : StakeMap → List (ℕ × ℕ) → StakeMap
    insert_pairs m [] = m
    insert_pairs m ((id, w) ∷ rest) = insert_pairs (insert id w m) rest
