-- ===== src/Quorum/Weights.antt =====
-- The weights that `aggregate` compares, as exact sums: what has voted and what has not make up
-- the whole stake.
use cosaci.Prelude.{
  ℕ, ◌+◌, ◌≤◌, ◌≡◌, refl, inl, inr, none, List, [], ◌∷◌, arith, nat_key, if◌then◌else◌,
  Option-cases, u64_max, nat_beq_iff,
}
use cosaci.Map.{
  Map, get, insert, remove, contains_key, HasDistinctKeys, get-remove, remove-HasDistinctKeys,
  insert-HasDistinctKeys,
}
use cosaci.Map.Sums.{sum_map, sum_map-remove, remove_absent}
use cosaci.Quorum.{
  StakeMap, VoteResult, Vote, weight_of, latest_from, latest, Tally, count_vote, tally_from,
  total_stake,
}

-- What an entry of `latest` adds to either side.
abbrev pub passing : StakeMap → ℕ → VoteResult → ℕ
passing stake rid VoteResult.pass = weight_of stake rid
passing stake rid VoteResult.fail = 0

abbrev pub failing : StakeMap → ℕ → VoteResult → ℕ
failing stake rid VoteResult.pass = 0
failing stake rid VoteResult.fail = weight_of stake rid

abbrev pub pass_sum : StakeMap → Map ℕ VoteResult → ℕ
pass_sum stake m = sum_map (passing stake) m

abbrev pub fail_sum : StakeMap → Map ℕ VoteResult → ℕ
fail_sum stake m = sum_map (failing stake) m

abbrev pub exact_total : StakeMap → ℕ
exact_total stake = sum_map (λ _ w. w) stake

-- A stake map whose total fits `u64`.
pub record IsStakeMap (stake : StakeMap) : Type 0 where
  pub distinct : HasDistinctKeys stake
  pub bounded : exact_total stake ≤ u64_max

tally_from_exact :
    (stake : StakeMap) (t : Tally) (m : Map ℕ VoteResult)
    → t.pass_weight + pass_sum stake m ≤ u64_max
    → t.fail_weight + fail_sum stake m ≤ u64_max
    → tally_from stake t m ≡ record {
      pass_weight = t.pass_weight + pass_sum stake m;
      fail_weight = t.fail_weight + fail_sum stake m;
    }
unfolding tally_from count_vote
tally_from_exact stake t [] hp hf = ground arith
tally_from_exact stake t ((rid, VoteResult.pass) ∷ m) hp hf = ground (
  arith,
  tally_from_exact stake (count_vote stake t rid VoteResult.pass) m (omega arith) (omega arith),
)
tally_from_exact stake t ((rid, VoteResult.fail) ∷ m) hp hf = ground (
  arith,
  tally_from_exact stake (count_vote stake t rid VoteResult.fail) m (omega arith) (omega arith),
)

-- The loop from the start, where nothing saturates.
pub tally_exact :
    (stake : StakeMap) (m : Map ℕ VoteResult)
    → pass_sum stake m ≤ u64_max
    → fail_sum stake m ≤ u64_max
    → tally_from stake (record { pass_weight = 0; fail_weight = 0 }) m
      ≡ record { pass_weight = pass_sum stake m; fail_weight = fail_sum stake m }
tally_exact stake m hp hf = ground (
  arith,
  tally_from_exact stake (record { pass_weight = 0; fail_weight = 0 }) m (omega arith)
      (omega arith),
)

pub total_stake_exact :
    (stake : StakeMap) → exact_total stake ≤ u64_max → total_stake stake ≡ exact_total stake
unfolding total_stake
total_stake_exact [] h = refl
total_stake_exact ((k, w) ∷ stake) h = omega (arith, total_stake_exact stake (omega arith))

-- The entries of runners that have no vote yet.
unfoldable pub unvoted : Map ℕ VoteResult → StakeMap → StakeMap
unvoted seen [] = []
unvoted seen ((k, w) ∷ stake) =
    let rest = unvoted seen stake in if contains_key k seen then rest else (k, w) ∷ rest

unvoted-cons :
    (k : ℕ) (r : VoteResult) (m : Map ℕ VoteResult) (stake : StakeMap)
    → unvoted ((k, r) ∷ m) stake ≡ unvoted m (remove k stake)
unfolding unvoted remove contains_key
unvoted-cons k r m [] = refl
unvoted-cons k r m ((j, w) ∷ stake) =
    ground (arith, unvoted-cons k r m stake, nat_beq_iff k j, nat_beq_iff j k)

unvoted-nil : (stake : StakeMap) → unvoted [] stake ≡ stake
unfolding unvoted contains_key
unvoted-nil [] = refl
unvoted-nil ((j, w) ∷ stake) = ground (arith, unvoted-nil stake)

passing-remove :
    (k : ℕ) (m : Map ℕ VoteResult) (stake : StakeMap)
    → get k m ≡ none
    → (pass_sum (remove k stake) m ≡ pass_sum stake m)
      × (fail_sum (remove k stake) m ≡ fail_sum stake m)
unfolding get
passing-remove k [] stake h = (refl, refl)
passing-remove k ((j, VoteResult.pass) ∷ m) stake h =
    ground (arith, passing-remove k m stake, get-remove k j stake, nat_beq_iff k j, nat_beq_iff j k)
passing-remove k ((j, VoteResult.fail) ∷ m) stake h =
    ground (arith, passing-remove k m stake, get-remove k j stake, nat_beq_iff k j, nat_beq_iff j k)

total-remove :
    (k : ℕ) (stake : StakeMap)
    → HasDistinctKeys stake
    → exact_total stake ≡ weight_of stake k + exact_total (remove k stake)
total-remove k stake d = elim (Option-cases (get k stake)) [
  | inl e ↦ ground (arith, remove_absent k stake e)
  | inr (w, e) ↦ ground (arith, sum_map-remove (λ _ w. w) k w stake d e)
]

-- The stake is what has passed, what has failed and what has not voted.
pub total-split :
    (m : Map ℕ VoteResult) (stake : StakeMap)
    → HasDistinctKeys m
    → HasDistinctKeys stake
    → exact_total stake ≡ pass_sum stake m + fail_sum stake m + exact_total (unvoted m stake)
total-split [] stake dm ds = rw unvoted-nil (omega arith)
total-split ((k, VoteResult.pass) ∷ m) stake dm ds = rw unvoted-cons (
    omega (
      arith,
      total-split m (remove k stake) dm.1 (remove-HasDistinctKeys k stake ds),
      total-remove k stake ds,
      passing-remove k m stake dm.0,
    ))
total-split ((k, VoteResult.fail) ∷ m) stake dm ds = rw unvoted-cons (
    omega (
      arith,
      total-split m (remove k stake) dm.1 (remove-HasDistinctKeys k stake ds),
      total-remove k stake ds,
      passing-remove k m stake dm.0,
    ))

pub latest_from-HasDistinctKeys :
    (seen : Map ℕ VoteResult) (votes : List Vote)
    → HasDistinctKeys seen
    → HasDistinctKeys (latest_from seen votes)
unfolding latest_from
latest_from-HasDistinctKeys seen [] d = d
latest_from-HasDistinctKeys seen (v ∷ votes) d =
    latest_from-HasDistinctKeys (insert v.runner_id v.result seen) votes
      (insert-HasDistinctKeys v.runner_id v.result seen d)

pub latest-HasDistinctKeys : (votes : List Vote) → HasDistinctKeys (latest votes)
unfolding latest
latest-HasDistinctKeys votes = latest_from-HasDistinctKeys [] votes tt
