-- ===== src/PartialQuorum/Examples.antt =====
-- Runs of the partial quorum, and the theorems at concrete inputs.
use cosaci.Prelude.{ℕ, ◌*◌, ◌≤◌, ◌<◌, ◌≡◌, ◌↔◌, refl, List, [], ◌∷◌, arith, nat_key}
use cosaci.Map.{get, insert}
use cosaci.Quorum.{
  StakeMap, Vote, VoteResult, Outcome, latest, latest_from, aggregate, tally_from, total_stake,
  outcome_of,
}
use cosaci.Quorum.Weights.{IsStakeMap, pass_sum, fail_sum}
use cosaci.PartialQuorum.{
  split_committee, has_responded, resolve_with_dropouts, two_thirds_threshold, stake_sum,
  stake_map_from_pairs,
}
use cosaci.PartialQuorum.Responses.{exact_stake, resolve_two_thirds}

abbrev stakes : StakeMap
stakes = (1, 40) ∷ (2, 30) ∷ (3, 30) ∷ []

abbrev votes : List Vote
votes =
    record { runner_id = 3; result = VoteResult.pass }
    ∷ record { runner_id = 1; result = VoteResult.pass }
    ∷ []

splits : split_committee (1 ∷ 2 ∷ 3 ∷ []) votes ≡ (1 ∷ 3 ∷ [], 2 ∷ [])
unfolding split_committee has_responded
splits = refl

passes :
    (resolve_with_dropouts (1 ∷ 2 ∷ 3 ∷ []) votes stakes two_thirds_threshold).outcome
    ≡ Outcome.pass
unfolding resolve_with_dropouts split_committee has_responded stake_sum aggregate latest latest_from
    insert get tally_from total_stake outcome_of
passes = refl

fails_without_responses :
    (resolve_with_dropouts (1 ∷ 2 ∷ 3 ∷ []) [] stakes two_thirds_threshold).outcome ≡ Outcome.fail
unfolding resolve_with_dropouts split_committee has_responded stake_sum aggregate latest latest_from
    insert get tally_from total_stake outcome_of
fails_without_responses = refl

pairs_make_stakes : stake_map_from_pairs ((1, 5) ∷ (2, 6) ∷ (1, 7) ∷ []) ≡ (1, 7) ∷ (2, 6) ∷ []
unfolding stake_map_from_pairs insert
pairs_make_stakes = refl

stakes-IsStakeMap : IsStakeMap stakes
unfolding get
stakes-IsStakeMap = record { distinct = (refl, (refl, (refl, tt))); bounded = omega arith }

abbrev members : List ℕ
members = 1 ∷ 2 ∷ 3 ∷ []

abbrev absent : ℕ
absent = 2

resolve_two_thirds_example :
    let s = exact_stake stakes (split_committee (1 ∷ 2 ∷ 3 ∷ []) votes).0 in
    let r = resolve_with_dropouts (1 ∷ 2 ∷ 3 ∷ []) votes stakes two_thirds_threshold in
    (r.outcome ≡ Outcome.pass
      → (s * 2 ≤ pass_sum stakes (latest votes) * 3) × (fail_sum stakes (latest votes) * 3 < s * 2))
    × (r.outcome ≡ Outcome.fail ↔ s * 2 ≤ fail_sum stakes (latest votes) * 3)
unfolding split_committee has_responded get
resolve_two_thirds_example =
    resolve_two_thirds (1 ∷ 2 ∷ 3 ∷ []) votes stakes stakes-IsStakeMap (omega arith)
