-- ===== src/Quorum/Finality.antt =====
-- What the votes of runners that have not voted can still change.
use cosaci.Prelude.{ℕ, ◌+◌, ◌≤◌, ◌<◌, ◌≡◌, refl, none, List, [], ◌∷◌, ◌++◌, arith, nat_key}
use cosaci.Map.{Map, get, insert}
use cosaci.Map.Sums.{sum_map-insert_fresh}
use cosaci.Quorum.{StakeMap, VoteResult, Vote, Outcome, latest_from, latest, aggregate}
use cosaci.Quorum.Weights.{
  passing, failing, pass_sum, fail_sum, exact_total, IsStakeMap, total-split,
  latest-HasDistinctKeys, latest_from-HasDistinctKeys,
}
use cosaci.Quorum.Threshold.{verdict, aggregate-verdict}

-- Each of the votes is the first of its runner.
abbrev pub AreFirstVotes : List Vote → Map ℕ VoteResult → Type 0
AreFirstVotes [] seen = Unit
AreFirstVotes (v ∷ votes) seen =
    (get v.runner_id seen ≡ none) × AreFirstVotes votes (insert v.runner_id v.result seen)

latest_from-append :
    (seen : Map ℕ VoteResult) (votes more : List Vote)
    → latest_from seen (votes ++ more) ≡ latest_from (latest_from seen votes) more
unfolding latest_from
latest_from-append seen [] more = refl
latest_from-append seen (v ∷ votes) more =
    latest_from-append (insert v.runner_id v.result seen) votes more

pub latest-append :
    (votes more : List Vote) → latest (votes ++ more) ≡ latest_from (latest votes) more
unfolding latest
latest-append votes more = latest_from-append [] votes more

-- First votes only add weight.
pass_sum-grows :
    (stake : StakeMap) (votes : List Vote) (seen : Map ℕ VoteResult)
    → AreFirstVotes votes seen
    → (pass_sum stake seen ≤ pass_sum stake (latest_from seen votes))
      × (fail_sum stake seen ≤ fail_sum stake (latest_from seen votes))
unfolding latest_from
pass_sum-grows stake [] seen h = omega arith
pass_sum-grows stake (v ∷ votes) seen h = omega (
  arith,
  pass_sum-grows stake votes (insert v.runner_id v.result seen) h.1,
  sum_map-insert_fresh (passing stake) v.runner_id v.result seen h.0,
  sum_map-insert_fresh (failing stake) v.runner_id v.result seen h.0,
)

escalate_of_verdict :
    (threshold p f total : ℕ)
    → verdict threshold p f total ≡ Outcome.escalate
    → (f < threshold) × (p < threshold) × (total < threshold + f) × (total < threshold + p)
escalate_of_verdict threshold p f total h = ground arith

verdict-escalate :
    (threshold p f total p' f' : ℕ)
    → verdict threshold p f total ≡ Outcome.escalate
    → p ≤ p'
    → f ≤ f'
    → p' + f' ≤ total
    → verdict threshold p' f' total ≡ Outcome.escalate
verdict-escalate threshold p f total p' f' h hp hf ht =
    ground (arith, escalate_of_verdict threshold p f total h)

-- On a stake map whose total fits `u64`, an escalated count stays escalated whatever votes come
-- from runners that had not voted.
pub aggregate_escalate_final :
    (votes more : List Vote) (threshold : ℕ) (stake : StakeMap)
    → IsStakeMap stake
    → AreFirstVotes more (latest votes)
    → aggregate votes threshold stake ≡ Outcome.escalate
    → aggregate (votes ++ more) threshold stake ≡ Outcome.escalate
aggregate_escalate_final votes more threshold stake s first h =
    let m = latest votes in
    let split =
      total-split (latest_from m more) stake
        (latest_from-HasDistinctKeys m more (latest-HasDistinctKeys votes)) s.distinct in
    let grows = pass_sum-grows stake more m first in
    rw (aggregate-verdict (votes ++ more) threshold stake s, latest-append votes more)
      (verdict-escalate threshold (pass_sum stake m) (fail_sum stake m) (exact_total stake) _ _
        (rw (aggregate-verdict votes threshold stake s) at h) grows.0 grows.1 (omega arith))

-- A passed or failed count stays so under first votes, but that a pass may turn into a failure.
verdict-fail :
    (threshold p f total p' f' : ℕ)
    → verdict threshold p f total ≡ Outcome.fail
    → f ≤ f'
    → verdict threshold p' f' total ≡ Outcome.fail
verdict-fail threshold p f total p' f' h hf = ground arith

pub aggregate_fail_final :
    (votes more : List Vote) (threshold : ℕ) (stake : StakeMap)
    → IsStakeMap stake
    → AreFirstVotes more (latest votes)
    → aggregate votes threshold stake ≡ Outcome.fail
    → aggregate (votes ++ more) threshold stake ≡ Outcome.fail
aggregate_fail_final votes more threshold stake s first h =
    let m = latest votes in
    rw (aggregate-verdict (votes ++ more) threshold stake s, latest-append votes more)
      (verdict-fail threshold (pass_sum stake m) (fail_sum stake m) (exact_total stake) _ _
        (rw (aggregate-verdict votes threshold stake s) at h) (pass_sum-grows stake more m first).1)
