-- ===== src/Aggregator/Lifecycle.antt =====
-- Terminal states, the retry budget, and what a pending state means.
use cosaci.Prelude.{
  ℕ, ◌+◌, ◌≤◌, ◌<◌, ◌≡◌, refl, ◌⊎◌, inl, inr, true, false, List, [], ◌∷◌, arith, Bool-cases,
}
use cosaci.Quorum.{StakeMap, Vote, Outcome, aggregate}
use cosaci.Aggregator.{
  AggregationState, Aggregator, u32_max, with_max_retries, is_terminal, state_of_outcome,
  receive_vote, retried, trigger_aggregation, forced, timeout,
}

pub data Event : Type 0 where
  vote : Vote → Event
  trigger : Event
  expire : Event

unfoldable pub step : Aggregator → Event → Aggregator
step a (vote v) = (receive_vote a v).0
step a trigger = (trigger_aggregation a).0
step a expire = (timeout a).0

unfoldable pub run : Aggregator → List Event → Aggregator
run a [] = a
run a (e ∷ events) = run (step a e) events

step_terminal : (a : Aggregator) (e : Event) → is_terminal a ≡ true → step a e ≡ a
unfolding step receive_vote trigger_aggregation timeout
step_terminal a (vote v) h = ground arith
step_terminal a trigger h = ground arith
step_terminal a expire h = ground arith

-- No event changes anything of an aggregator in a terminal state.
pub run_terminal : (a : Aggregator) (events : List Event) → is_terminal a ≡ true → run a events ≡ a
unfolding run
run_terminal a [] h = refl
run_terminal a (e ∷ events) h = rw (step_terminal a e h) (run_terminal a events h)

-- What the state says of the votes: a pending aggregator could not be decided yet and has retries
-- left, and a passed or failed one has the votes for it.
pub record IsSound (a : Aggregator) : Type 0 where
  pub passed :
      a.state ≡ AggregationState.pass → aggregate a.votes a.threshold a.stake ≡ Outcome.pass
  pub failed :
      a.state ≡ AggregationState.fail → aggregate a.votes a.threshold a.stake ≡ Outcome.fail
  pub budgeted : a.state ≡ AggregationState.pending → a.retries ≤ a.max_retries
  pub open_count :
      a.state ≡ AggregationState.pending
      → (a.votes ≡ []) ⊎ (aggregate a.votes a.threshold a.stake ≡ Outcome.retry)

pub step-IsSound : (a : Aggregator) (e : Event) → IsSound a → IsSound (step a e)
unfolding step receive_vote trigger_aggregation timeout retried forced state_of_outcome
step-IsSound a (vote v) s = ground arith
step-IsSound a trigger s = ground arith
step-IsSound a expire s = ground arith

start-IsSound :
    (threshold : ℕ) (stake : StakeMap) (budget : ℕ)
    → IsSound (with_max_retries threshold stake budget)
unfolding with_max_retries
start-IsSound threshold stake budget = ground arith

run-IsSound_from : (a : Aggregator) (events : List Event) → IsSound a → IsSound (run a events)
unfolding run
run-IsSound_from a [] s = s
run-IsSound_from a (e ∷ events) s = run-IsSound_from (step a e) events (step-IsSound a e s)

-- After any events a passed or failed aggregator has votes that aggregate to pass or fail, and a
-- pending one has no votes or votes that aggregate to retry, and is within its budget.
pub run-IsSound :
    (threshold : ℕ) (stake : StakeMap) (budget : ℕ) (events : List Event)
    → IsSound (run (with_max_retries threshold stake budget) events)
run-IsSound threshold stake budget events =
    run-IsSound_from (with_max_retries threshold stake budget) events
      (start-IsSound threshold stake budget)

-- How many rounds of re-aggregation the events ask for; an expired deadline counts for all.
unfoldable pub pressure : ℕ → List Event → ℕ
pressure budget [] = 0
pressure budget (vote v ∷ events) = pressure budget events
pressure budget (trigger ∷ events) = pressure budget events + 1
pressure budget (expire ∷ events) = pressure budget events + (budget + 1)

pressure-cons :
    (budget : ℕ) (e : Event) (events : List Event)
    → pressure budget (e ∷ events) ≡ pressure budget (e ∷ []) + pressure budget events
unfolding pressure
pressure-cons budget (vote v) events = omega arith
pressure-cons budget trigger events = omega arith
pressure-cons budget expire events = omega arith

step_pressed :
    (a : Aggregator) (e : Event)
    → a.max_retries < u32_max
    → a.retries ≤ a.max_retries
    → is_terminal a ≡ false
    → is_terminal (step a e) ≡ false
    → ((step a e).max_retries ≡ a.max_retries)
      × ((step a e).retries ≡ a.retries + pressure a.max_retries (e ∷ []))
      × ((step a e).retries ≤ a.max_retries)
unfolding step receive_vote trigger_aggregation timeout retried forced state_of_outcome pressure
step_pressed a (vote v) b r p q = ground arith
step_pressed a trigger b r p q = ground arith
step_pressed a expire b r p q = ground arith

run_pressed :
    (a : Aggregator) (events : List Event)
    → a.max_retries < u32_max
    → a.retries ≤ a.max_retries
    → a.max_retries < a.retries + pressure a.max_retries events
    → is_terminal (run a events) ≡ true
unfolding run
run_pressed a [] b r h = absurd (unfold pressure in omega arith)
run_pressed a (e ∷ events) b r h = elim (Bool-cases (is_terminal a)) [
  | inl done ↦ rw (run_terminal a (e ∷ events) done) done
  | inr pending ↦ elim (Bool-cases (is_terminal (step a e))) [
    | inl done ↦ rw (run_terminal (step a e) events done) done
    | inr still ↦
        let (same, count, le) = step_pressed a e b r pending still in
        run_pressed (step a e) events (rw same b) (rw same le)
          (rw (same, count) (omega (arith, pressure-cons a.max_retries e events)))
  ]
]

-- An aggregator that has been triggered more often than its retry budget, or whose deadline has
-- expired, is in a terminal state, for every budget below `u32::MAX`.
pub run_terminates :
    (threshold : ℕ) (stake : StakeMap) (budget : ℕ) (events : List Event)
    → budget < u32_max
    → budget < pressure budget events
    → is_terminal (run (with_max_retries threshold stake budget) events) ≡ true
unfolding with_max_retries
run_terminates threshold stake budget events b h =
    run_pressed
      (record {
        state = AggregationState.pending;
        votes = [];
        threshold = threshold;
        stake = stake;
        retries = 0;
        max_retries = budget;
      })
      events b (omega arith) (omega arith)
