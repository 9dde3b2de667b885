-- ===== src/Quorum/Retry.antt =====
-- A retried count can still be decided: the runners without a vote decide it by agreeing.
use cosaci.Prelude.{
  ℕ, ◌+◌, ◌≡◌, refl, ◌⊎◌, none, some, List, [], ◌∷◌, ◌++◌, arith, nat_key, nat_beq_iff,
}
use cosaci.Map.{Map, get, insert, contains_key, HasDistinctKeys, get-insert}
use cosaci.Map.Sums.{sum_map, sum_map-insert_fresh}
use cosaci.Quorum.{StakeMap, VoteResult, Vote, Outcome, latest_from, latest, aggregate, weight_of}
use cosaci.Quorum.Weights.{
  passing, failing, pass_sum, fail_sum, exact_total, unvoted, IsStakeMap, total-split,
  latest-HasDistinctKeys,
}
use cosaci.Quorum.Threshold.{verdict, aggregate-verdict}
use cosaci.Quorum.Finality.{AreFirstVotes, latest-append}

-- The same vote from every listed runner.
abbrev pub ballots : VoteResult → StakeMap → List Vote
ballots r [] = []
ballots r ((k, _) ∷ stake) = record { runner_id = k; result = r } ∷ ballots r stake

abbrev AreAbsent : StakeMap → Map ℕ VoteResult → Type 0
AreAbsent [] seen = Unit
AreAbsent ((k, _) ∷ u) seen = (get k seen ≡ none) × AreAbsent u seen

abbrev AreEntries : StakeMap → StakeMap → Type 0
AreEntries [] stake = Unit
AreEntries ((k, w) ∷ u) stake = (get k stake ≡ some w) × AreEntries u stake

AreAbsent-insert :
    (k : ℕ) (r : VoteResult) (u : StakeMap) (seen : Map ℕ VoteResult)
    → get k u ≡ none
    → AreAbsent u seen
    → AreAbsent u (insert k r seen)
unfolding get
AreAbsent-insert k r [] seen h a = tt
AreAbsent-insert k r ((j, w) ∷ u) seen h a =
    ground
      (arith, AreAbsent-insert k r u seen, get-insert k j r seen, nat_beq_iff k j, nat_beq_iff j k)

AreEntries-cons :
    (k w : ℕ) (u stake : StakeMap)
    → get k u ≡ none
    → AreEntries u stake
    → AreEntries u ((k, w) ∷ stake)
unfolding get
AreEntries-cons k w [] stake h a = tt
AreEntries-cons k w ((j, x) ∷ u) stake h a =
    ground (arith, AreEntries-cons k w u stake, nat_beq_iff k j, nat_beq_iff j k)

unvoted-absent_key :
    (k : ℕ) (seen : Map ℕ VoteResult) (stake : StakeMap)
    → get k stake ≡ none
    → get k (unvoted seen stake) ≡ none
unfolding get unvoted
unvoted-absent_key k seen [] h = refl
unvoted-absent_key k seen ((j, w) ∷ stake) h = ground (arith, unvoted-absent_key k seen stake)

unvoted-AreAbsent :
    (seen : Map ℕ VoteResult) (stake : StakeMap) → AreAbsent (unvoted seen stake) seen
unfolding unvoted contains_key
unvoted-AreAbsent seen [] = tt
unvoted-AreAbsent seen ((j, w) ∷ stake) = ground (arith, unvoted-AreAbsent seen stake)

unvoted-HasDistinctKeys :
    (seen : Map ℕ VoteResult) (stake : StakeMap)
    → HasDistinctKeys stake
    → HasDistinctKeys (unvoted seen stake)
unfolding unvoted
unvoted-HasDistinctKeys seen [] d = tt
unvoted-HasDistinctKeys seen ((j, w) ∷ stake) d =
    ground (arith, unvoted-HasDistinctKeys seen stake d.1, unvoted-absent_key j seen stake d.0)

unvoted-AreEntries :
    (seen : Map ℕ VoteResult) (stake : StakeMap)
    → HasDistinctKeys stake
    → AreEntries (unvoted seen stake) stake
unfolding unvoted get
unvoted-AreEntries seen [] d = tt
unvoted-AreEntries seen ((j, w) ∷ stake) d = ground (
  arith,
  nat_beq_iff j j,
  unvoted-AreEntries seen stake d.1,
  AreEntries-cons j w (unvoted seen stake) stake (unvoted-absent_key j seen stake d.0),
)

weights-AreEntries :
    (u stake : StakeMap) → AreEntries u stake → sum_map (λ k _. weight_of stake k) u ≡ exact_total u
weights-AreEntries [] stake h = refl
weights-AreEntries ((k, w) ∷ u) stake h = ground (arith, weights-AreEntries u stake)

-- Casting the listed ballots adds their weights, and each is a first vote.
ballots-AreFirstVotes :
    (r : VoteResult) (u : StakeMap) (seen : Map ℕ VoteResult)
    → HasDistinctKeys u
    → AreAbsent u seen
    → AreFirstVotes (ballots r u) seen
ballots-AreFirstVotes r [] seen d a = tt
ballots-AreFirstVotes r ((k, w) ∷ u) seen d a =
    (a.0, ballots-AreFirstVotes r u (insert k r seen) d.1 (AreAbsent-insert k r u seen d.0 a.1))

sum_map-ballots :
    (f : ℕ → VoteResult → ℕ) (r : VoteResult) (u : StakeMap) (seen : Map ℕ VoteResult)
    → HasDistinctKeys u
    → AreAbsent u seen
    → sum_map f (latest_from seen (ballots r u)) ≡ sum_map f seen + sum_map (λ k _. f k r) u
unfolding latest_from
sum_map-ballots f r [] seen d a = omega arith
sum_map-ballots f r ((k, w) ∷ u) seen d a = omega (
  arith,
  sum_map-ballots f r u (insert k r seen) d.1 (AreAbsent-insert k r u seen d.0 a.1),
  sum_map-insert_fresh f k r seen a.0,
)

sum_map-zero : (u : StakeMap) → sum_map (λ _ _. 0) u ≡ 0
sum_map-zero [] = refl
sum_map-zero ((k, w) ∷ u) = omega (arith, sum_map-zero u)

verdict-retry :
    (threshold p f total u : ℕ)
    → verdict threshold p f total ≡ Outcome.retry
    → total ≡ p + f + u
    → (verdict threshold (p + u) (f + 0) total ≡ Outcome.pass)
      ⊎ (verdict threshold (p + 0) (f + u) total ≡ Outcome.fail)
verdict-retry threshold p f total u h e = ground arith

-- The ballots of the runners that have not voted.
abbrev pub last_ballots : List Vote → StakeMap → VoteResult → List Vote
last_ballots votes stake r = ballots r (unvoted (latest votes) stake)

module _ (votes : List Vote) (threshold : ℕ) (stake : StakeMap) (s : IsStakeMap stake) where
  pub last_ballots-AreFirstVotes :
      (r : VoteResult) → AreFirstVotes (last_ballots votes stake r) (latest votes)
  last_ballots-AreFirstVotes r =
      ballots-AreFirstVotes r (unvoted (latest votes) stake) (latest votes)
        (unvoted-HasDistinctKeys (latest votes) stake s.distinct)
        (unvoted-AreAbsent (latest votes) stake)

  sum_map-last_ballots :
      (f : ℕ → VoteResult → ℕ) (r : VoteResult)
      → sum_map f (latest_from (latest votes) (last_ballots votes stake r))
        ≡ sum_map f (latest votes) + sum_map (λ k _. f k r) (unvoted (latest votes) stake)
  sum_map-last_ballots f r =
      sum_map-ballots f r (unvoted (latest votes) stake) (latest votes)
        (unvoted-HasDistinctKeys (latest votes) stake s.distinct)
        (unvoted-AreAbsent (latest votes) stake)

  -- On a stake map whose total fits `u64`, a retried count passes once every runner without a vote
  -- passes it, or fails once every such runner fails it.
  pub aggregate_retry_open :
      aggregate votes threshold stake ≡ Outcome.retry
      → (aggregate (votes ++ last_ballots votes stake VoteResult.pass) threshold stake
          ≡ Outcome.pass)
        ⊎ (aggregate (votes ++ last_ballots votes stake VoteResult.fail) threshold stake
            ≡ Outcome.fail)
  aggregate_retry_open h =
      rw
        (
          aggregate-verdict (votes ++ last_ballots votes stake VoteResult.pass) threshold stake s,
          aggregate-verdict (votes ++ last_ballots votes stake VoteResult.fail) threshold stake s,
          latest-append votes (last_ballots votes stake VoteResult.pass),
          latest-append votes (last_ballots votes stake VoteResult.fail),
          sum_map-last_ballots (passing stake) VoteResult.pass,
          sum_map-last_ballots (failing stake) VoteResult.pass,
          sum_map-last_ballots (passing stake) VoteResult.fail,
          sum_map-last_ballots (failing stake) VoteResult.fail,
          weights-AreEntries (unvoted (latest votes) stake) stake
              (unvoted-AreEntries (latest votes) stake s.distinct),
          sum_map-zero (unvoted (latest votes) stake),
        )
        (verdict-retry threshold (pass_sum stake (latest votes)) (fail_sum stake (latest votes))
          (exact_total stake) (exact_total (unvoted (latest votes) stake))
          (rw (aggregate-verdict votes threshold stake s) at h)
          (total-split (latest votes) stake (latest-HasDistinctKeys votes) s.distinct))
