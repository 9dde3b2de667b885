-- ===== src/Jobs/Ending.antt =====
-- A pipeline ends: each child ends by itself or is killed at its wall limit.
use cosaci.Prelude.{
  ℕ, zero, suc, ◌+◌, ◌*◌, ◌≤◌, ◌<◌, ◌≡◌, ◌≢◌, refl, ◌⊎◌, ◌%◌, ◌^◌, true, Option, none, some, List,
  [], ◌∷◌, arith, length, Has, All, Result, ok, err, Bool-cases, Option-cases, inl, inr,
}
use cosaci.Map.{Map}
use cosaci.Text.{is_empty}
use cosaci.Jobs.{
  Limits, Step, source_fetch, exec_wasm, exec_native, capture_log, capture_artifact, Pipeline,
  PipelineResult, Encoding,
}
use cosaci.Jobs.Cgroup.{StepCgroup, try_create}
use cosaci.Jobs.Native.{
  ExitStatus, Child, Poll, ExitOutcome, ended, killed_by_wall, killed_by_cpu, after_spawn,
  execute_native_step, wait_with_limits, wall_limit, cpu_limit, is_reached, max_capture_bytes,
  output_of_exit,
}
use cosaci.Jobs.Reading.{contents, read_capped_closed}
use cosaci.Jobs.Waiting.{wait_loop-Stops}
use cosaci.Jobs.Running.{Host, Run, PipelineError, run_step, run_steps, execute_pipeline}

-- `WALL_POLL_INTERVAL` in nanoseconds.
abbrev pub wall_poll_interval : ℕ
wall_poll_interval = 50000000

-- The turns from the n-th on, each after the sleeps of those before it.
abbrev pub AreSpaced : ℕ → List Poll → Type 0
AreSpaced n [] = Unit
AreSpaced n (poll ∷ polls) = (n * wall_poll_interval ≤ poll.elapsed) × AreSpaced (suc n) polls

-- What the system does for a child under a wall limit, whatever the child itself does: a sleep lasts
-- as long as asked, the turns are observed until the limit, a killed child dies, and the pipes of
-- one that ended by itself close.
pub record IsServed (limits : Limits) (child : Child) : Type 0 where
  pub spaced : AreSpaced 0 child.polls
  pub observed : 20 * limits.wall_seconds < length child.polls
  pub killed : child.dies ≡ true
  pub closes :
      (status : ExitStatus)
      → wait_with_limits child
          (wall_limit limits)
          (cpu_limit limits)
          (try_create child.group_files limits.memory_mb limits.cpu_seconds)
        ≡ some (ended status)
      → (contents child.stdout_reads ≢ none) × (contents child.stderr_reads ≢ none)

late_poll :
    (m n : ℕ) (polls : List Poll)
    → AreSpaced n polls
    → m < length polls
    → (poll : Poll) × Has poll polls × ((n + m) * wall_poll_interval ≤ poll.elapsed)
late_poll m n [] s h = absurd (omega arith)
late_poll zero n (poll ∷ polls) s h = let late = s.0 in (poll, inl refl, omega (arith, late))
late_poll (suc m) n (poll ∷ polls) s h =
    let (found, there, late) = late_poll m (suc n) polls s.1 (omega arith) in
    (found, inr there, omega (arith, late))

-- The loop stops by its turn 20 * w, as 20 turns take a second.
wait_with_limits_ends :
    (limits : Limits) (child : Child) (cpu_at : Option ℕ) (group : Option StepCgroup)
    → 0 < limits.wall_seconds
    → IsServed limits child
    → (outcome : ExitOutcome) × (wait_with_limits child (wall_limit limits) cpu_at group
        ≡ some outcome)
unfolding wait_with_limits
wait_with_limits_ends limits child cpu_at group limited served =
    let at_limit = limits.wall_seconds * 1000000000 in
    let has_limit : wall_limit limits ≡ some at_limit = ground arith in
    let (poll, there, late) =
      late_poll (20 * limits.wall_seconds) 0 child.polls served.spaced served.observed in
    let reached : is_reached (some at_limit) poll.elapsed ≡ true = ground arith in
    rw has_limit (
      wait_loop-Stops (some at_limit) cpu_at group child.dies poll child.polls served.killed there
        (inr reached))

output_of_exit_returns :
    (c : Encoding) (i : ℕ) (step : Step) (child : Child) (group : Option StepCgroup)
    (outcome : ExitOutcome)
    → ((status : ExitStatus)
        → outcome ≡ ended status
        → (contents child.stdout_reads ≢ none) × (contents child.stderr_reads ≢ none))
    → output_of_exit c i step child group outcome ≢ none
unfolding output_of_exit
output_of_exit_returns c i step child group killed_by_wall closes e = absurd (cc)
output_of_exit_returns c i step child group killed_by_cpu closes e = absurd (cc)
output_of_exit_returns c i step child group (ended status) closes e =
    let (out_closes, err_closes) = closes status refl in
    let (out, o) =
      read_capped_closed child.stdout_reads max_capture_bytes (omega arith) out_closes in
    let (errors, f) =
      read_capped_closed child.stderr_reads max_capture_bytes (omega arith) err_closes in
    absurd (cc (rw (o, f, output_of_exit) at e))

after_spawn_returns :
    (c : Encoding) (i : ℕ) (limits : Limits) (step : Step) (spawned : Result Child ℕ)
    → 0 < limits.wall_seconds
    → ((child : Child) → spawned ≡ ok child → IsServed limits child)
    → after_spawn c i limits step spawned ≢ none
unfolding after_spawn
after_spawn_returns c i limits step (err kind_id) limited served e = absurd (cc)
after_spawn_returns c i limits step (ok child) limited served e =
    let group = try_create child.group_files limits.memory_mb limits.cpu_seconds in
    let s = served child refl in
    let (outcome, w) = wait_with_limits_ends limits child (cpu_limit limits) group limited s in
    output_of_exit_returns c i step child group outcome
      (λ status same. s.closes status (rw same at w)) (rw (w, after_spawn) at e)

-- The steps that the theorem is about: a command has a wall limit, and a WASM run a limit of
-- processor or wall time. A fetch waits for git without any limit, so there is none.
abbrev pub IsLimited : Step → Type 0
IsLimited (source_fetch url reference) = ⊥
IsLimited (exec_wasm code args limits) = (0 < limits.cpu_seconds) ⊎ (0 < limits.wall_seconds)
IsLimited (exec_native command env limits) = 0 < limits.wall_seconds
IsLimited (capture_log name) = Unit
IsLimited (capture_artifact path name) = Unit

-- The child of the step, if it starts one, is served.
abbrev pub Serves : Host → ℕ → Step → Type 0
Serves host i (exec_native command env limits) =
    (child : Child) → host.spawn i command env ≡ ok child → IsServed limits child
Serves host i _ = Unit

-- So is each step from the n-th on.
abbrev pub ServesAll : Host → ℕ → List Step → Type 0
ServesAll host n [] = Unit
ServesAll host n (step ∷ steps) = Serves host (n % 2 ^ 32) step × ServesAll host (suc n) steps

execute_native_step_returns :
    (c : Encoding) (host : Host) (i : ℕ) (command : List (List ℕ)) (env : Map (List ℕ) (List ℕ))
    (limits : Limits)
    → 0 < limits.wall_seconds
    → Serves host i (exec_native command env limits)
    → execute_native_step c host.spawn i command env limits (exec_native command env limits) ≢ none
unfolding execute_native_step
execute_native_step_returns c host i command env limits limited served e =
    elim (Bool-cases (is_empty command)) [
      | inl blank ↦ absurd (cc (rw blank at e))
      | inr full ↦
          after_spawn_returns c i limits (exec_native command env limits) (host.spawn i command env)
            limited served (rw full at e)
    ]

run_step_returns :
    (c : Encoding) (host : Host) (i : ℕ) (step : Step) (run : Run)
    → IsLimited step
    → Serves host i step
    → run_step c host i step run ≢ none
unfolding run_step
run_step_returns c host i (source_fetch url reference) run l a e = absurd l
run_step_returns c host i (exec_wasm code args limits) run l a e = absurd (cc)
run_step_returns c host i (exec_native command env limits) run l a e =
    elim (Option-cases
      (execute_native_step c host.spawn i command env limits (exec_native command env limits))) [
        | inl n ↦ execute_native_step_returns c host i command env limits l a n
        | inr (r, n) ↦ absurd (cc (rw (n, run_step) at e))
      ]
run_step_returns c host i (capture_log name) run l a e = absurd (cc)
run_step_returns c host i (capture_artifact path name) run l a e = absurd (cc)

run_steps_returns :
    (c : Encoding) (host : Host) (steps : List Step) (n : ℕ) (run : Run)
    → All IsLimited steps
    → ServesAll host n steps
    → run_steps c host n steps run ≢ none
unfolding run_steps
run_steps_returns c host [] n run l a e = absurd (cc)
run_steps_returns c host (step ∷ steps) n run l a e =
    elim (Option-cases (run_step c host (n % 2 ^ 32) step run)) [
      | inl s ↦ run_step_returns c host (n % 2 ^ 32) step run l.0 a.0 s
      | inr (err fault, s) ↦ absurd (cc (rw (s, run_steps) at e))
      | inr (ok next, s) ↦
          run_steps_returns c host steps (suc n) next l.1 a.1 (rw (s, run_steps) at e)
    ]

-- A pipeline without fetches whose commands all have a wall limit, and whose WASM runs a limit of
-- processor or wall time, ends with a result or an error, whatever its children do. What this
-- takes of the system: the sleep between two turns of the loop lasts its 50 ms, `20 * wall_seconds
-- + 1` turns are observed, a killed child dies, and the pipes of a child that ended before its
-- limit close.
pub execute_pipeline_ends :
    (c : Encoding) (host : Host) (pipeline : Pipeline)
    → All IsLimited pipeline.steps
    → ServesAll host 0 pipeline.steps
    → (r : Result PipelineResult PipelineError) × (execute_pipeline c host pipeline ≡ some r)
unfolding execute_pipeline
execute_pipeline_ends c host pipeline l a = elim (Option-cases (execute_pipeline c host pipeline)) [
  | inr found ↦ found
  | inl missing ↦
      let start : Run = record { step_outputs = []; captures = []; last_native = none } in
      elim (Option-cases (run_steps c host 0 pipeline.steps start)) [
        | inl s ↦ absurd (run_steps_returns c host pipeline.steps 0 start l a s)
        | inr (err fault, s) ↦ absurd (cc (rw (s, execute_pipeline) at missing))
        | inr (ok run, s) ↦ absurd (cc (rw (s, execute_pipeline) at missing))
      ]
]
