-- ===== src/Status.antt =====
-- crates/cosaci-core/src/status.rs: the lifecycle of a job; and its image as a GitHub check run,
-- crates/cosaci-state/src/github_checks.rs.
pub mod Lifecycle
pub mod Checks
mod Examples
use cosaci.Prelude.{Bool, true, false, not, if◌then◌else◌, Result, ok, err}

pub data Status : Type 0 where
  pending running quorum_verifying success failure : Status

pub data TransitionError : Type 0 where
  illegal_transition : (from to : Status) → TransitionError
  already_terminal : (current : Status) → TransitionError

unfoldable pub is_allowed : Status → Status → Bool
is_allowed pending running = true
is_allowed running quorum_verifying = true
is_allowed quorum_verifying success = true
is_allowed quorum_verifying failure = true
is_allowed _ _ = false

unfoldable pub is_terminal : Status → Bool
is_terminal success = true
is_terminal failure = true
is_terminal _ = false

pub record StatusMachine : Type 0 where
  pub current : Status

unfoldable pub new : StatusMachine
new = record { current = pending }

unfoldable pub transition : StatusMachine → Status → StatusMachine × Result Status TransitionError
transition m to =
    if is_terminal m.current
    then (m, err (already_terminal m.current))
    else if not (is_allowed m.current to)
    then (m, err (illegal_transition m.current to))
    else (record m { current = to }, ok to)
