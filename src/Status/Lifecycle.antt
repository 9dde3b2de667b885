-- ===== src/Status/Lifecycle.antt =====
-- Which states a job can reach.
use cosaci.Prelude.{
  ℕ, ◌≤◌, ◌≡◌, refl, ◌⊎◌, inl, inr, Bool, true, false, List, [], ◌∷◌, arith, ok, err, if◌then◌else◌,
}
use cosaci.Status.{
  Status, pending, running, quorum_verifying, success, failure, illegal_transition,
  already_terminal, is_allowed, is_terminal, StatusMachine, transition,
}

-- The steps of the documented lifecycle.
pub data Step : Status → Status → Type 0 where
  start : Step pending running
  collect : Step running quorum_verifying
  pass : Step quorum_verifying success
  fail : Step quorum_verifying failure

Step-of_allowed : (from to : Status) → is_allowed from to ≡ true → Step from to
unfolding is_allowed
Step-of_allowed pending running h = start
Step-of_allowed running quorum_verifying h = collect
Step-of_allowed quorum_verifying success h = pass
Step-of_allowed quorum_verifying failure h = fail
Step-of_allowed _ _ h = absurd (cc)

allowed-of_Step :
    {from to : Status} → Step from to → (is_allowed from to ≡ true) × (is_terminal from ≡ false)
unfolding is_allowed is_terminal
allowed-of_Step start = (refl, refl)
allowed-of_Step collect = (refl, refl)
allowed-of_Step pass = (refl, refl)
allowed-of_Step fail = (refl, refl)

-- `transition` succeeds exactly on the steps of the lifecycle and moves to the state asked for;
-- where it fails the machine keeps its state, and the error tells a finished job from an illegal
-- step.
pub transition_steps :
    (m : StatusMachine) (to : Status)
    → (Step m.current to × ((transition m to).1 ≡ ok to) × ((transition m to).0.current ≡ to))
      ⊎ (¬ Step m.current to
          × ((transition m to).0 ≡ m)
          × ((transition m to).1
              ≡ err (
                  if is_terminal m.current
                  then already_terminal m.current
                  else illegal_transition m.current to)))
unfolding transition
transition_steps m to = decide (is_terminal m.current) refl (is_allowed m.current to) refl
  where
    decide :
        (done : Bool)
        → is_terminal m.current ≡ done
        → (may : Bool) → is_allowed m.current to ≡ may
        → (Step m.current to × ((transition m to).1 ≡ ok to) × ((transition m to).0.current ≡ to))
          ⊎ (¬ Step m.current to
              × ((transition m to).0 ≡ m)
              × ((transition m to).1
                  ≡ err (
                      if is_terminal m.current
                      then already_terminal m.current
                      else illegal_transition m.current to)))
    decide true d may e = inr (λ s. ground (arith, allowed-of_Step s), ground arith, ground arith)
    decide false d true e = inl (Step-of_allowed m.current to e, ground arith, ground arith)
    decide false d false e =
        inr (λ s. ground (arith, allowed-of_Step s), ground arith, ground arith)

unfoldable pub run : StatusMachine → List Status → StatusMachine
run m [] = m
run m (to ∷ requests) = run (transition m to).0 requests

abbrev pub rank : Status → ℕ
rank pending = 0
rank running = 1
rank quorum_verifying = 2
rank success = 3
rank failure = 3

transition-rank :
    (m : StatusMachine) (to : Status) → rank m.current ≤ rank (transition m to).0.current
unfolding transition is_allowed is_terminal
transition-rank m to = ground arith

transition_terminal :
    (m : StatusMachine) (to : Status) → is_terminal m.current ≡ true → (transition m to).0 ≡ m
unfolding transition
transition_terminal m to h = ground arith

-- A job never goes back, and its verdict is final: no requests change a finished job.
pub run_monotone :
    (m : StatusMachine) (requests : List Status)
    → (rank m.current ≤ rank (run m requests).current)
      × (is_terminal m.current ≡ true → run m requests ≡ m)
unfolding run
run_monotone m [] = (omega arith, λ h. refl)
run_monotone m (to ∷ requests) =
    let (up, final) = run_monotone (transition m to).0 requests in
    (
      omega (arith, up, transition-rank m to),
      λ h. let same = transition_terminal m to h in rw same (rw same at final h),
    )
