-- ===== src/Jobs/Determinism.antt =====
-- Two runners that observe the same return the same.
use cosaci.Prelude.{
  ℕ, suc, ◌≡◌, refl, ap, sym, ◌∙◌, ◌%◌, ◌^◌, Option, none, List, [], ◌∷◌, arith, take, Result, ok,
  err, Option-cases, inl, inr,
}
use cosaci.Map.{Map}
use cosaci.Wasm.{ExecLimits, execute_with_limits}
use cosaci.Jobs.{
  Limits, Step, source_fetch, exec_wasm, exec_native, capture_log, capture_artifact, Pipeline,
  Encoding,
}
use cosaci.Jobs.Cgroup.{StepCgroup, try_create}
use cosaci.Jobs.Native.{
  Spawn, Child, ExitOutcome, ended, killed_by_wall, killed_by_cpu, max_capture_bytes, read_capped,
  was_killed, output_of_exit, execute_native_step, after_spawn, wait_with_limits, wall_limit,
  cpu_limit,
}
use cosaci.Jobs.Reading.{on_some, contents, read_capped-take}
use cosaci.Jobs.SourceFetch.{execute_source_fetch}
use cosaci.Jobs.Running.{
  exec_limits, Host, Run, execute_source_fetch_step, execute_wasm_step, run_step, run_steps,
  execute_pipeline,
}

abbrev group_of : Limits → Child → Option StepCgroup
group_of limits child = try_create child.group_files limits.memory_mb limits.cpu_seconds

abbrev outcome_of_child : Limits → Child → Option ExitOutcome
outcome_of_child limits child =
    wait_with_limits child (wall_limit limits) (cpu_limit limits) (group_of limits child)

-- Two children of which the same is observed: how they ended, whether memory ran out, and what they
-- wrote; not when they wrote it, in which pieces, or which group they ran in.
pub record SameChild (limits : Limits) (x y : Child) : Type 0 where
  pub same_outcome : outcome_of_child limits x ≡ outcome_of_child limits y
  pub same_memory : was_killed (group_of limits x) x ≡ was_killed (group_of limits y) y
  pub same_stdout : contents x.stdout_reads ≡ contents y.stdout_reads
  pub same_stderr : contents x.stderr_reads ≡ contents y.stderr_reads

pub data SameSpawn (limits : Limits) : Result Child ℕ → Result Child ℕ → Type 0 where
  same_error : {kind_id : ℕ} → SameSpawn limits (err kind_id) (err kind_id)
  same_child : {x y : Child} → SameChild limits x y → SameSpawn limits (ok x) (ok y)

-- Hosts of which the same is observed.
pub record Agree (c : Encoding) (h k : Host) : Type 0 where
  pub same_wasm :
      (code args : List ℕ) (limits : ExecLimits)
      → execute_with_limits h.wasmtime code args limits
        ≡ execute_with_limits k.wasmtime code args limits
  pub same_fetch :
      (i : ℕ) (url reference : List ℕ)
      → execute_source_fetch c.sha256 (h.fetch i url reference)
        ≡ execute_source_fetch c.sha256 (k.fetch i url reference)
  pub same_spawn :
      (i : ℕ) (command : List (List ℕ)) (env : Map (List ℕ) (List ℕ)) (limits : Limits)
      → SameSpawn limits (h.spawn i command env) (k.spawn i command env)

same_reads :
    (xs ys : List (Option (List ℕ)))
    → contents xs ≡ contents ys
    → read_capped xs max_capture_bytes ≡ read_capped ys max_capture_bytes
same_reads xs ys e =
    read_capped-take xs max_capture_bytes (omega arith)
    ∙ ap (on_some (take max_capture_bytes)) e
    ∙ sym (read_capped-take ys max_capture_bytes (omega arith))

same_output :
    (c : Encoding) (i : ℕ) (step : Step) (limits : Limits) (x y : Child) (outcome : ExitOutcome)
    → SameChild limits x y
    → output_of_exit c i step x (group_of limits x) outcome
      ≡ output_of_exit c i step y (group_of limits y) outcome
unfolding output_of_exit
same_output c i step limits x y killed_by_wall s = refl
same_output c i step limits x y killed_by_cpu s = refl
same_output c i step limits x y (ended status) s =
    let outs = same_reads x.stdout_reads y.stdout_reads s.same_stdout in
    let errs = same_reads x.stderr_reads y.stderr_reads s.same_stderr in
    elim (Option-cases (read_capped y.stdout_reads max_capture_bytes)) [
      | inl o ↦ rw (outs, o, output_of_exit) refl
      | inr (out, o) ↦ elim (Option-cases (read_capped y.stderr_reads max_capture_bytes)) [
        | inl e ↦ rw (outs, o, errs, e, output_of_exit) refl
        | inr (errors, e) ↦ rw (outs, o, errs, e, s.same_memory, output_of_exit) refl
      ]
    ]

same_after :
    (c : Encoding) (i : ℕ) (limits : Limits) (step : Step) (r s : Result Child ℕ)
    → SameSpawn limits r s
    → after_spawn c i limits step r ≡ after_spawn c i limits step s
unfolding after_spawn
same_after c i limits step _ _ same_error = refl
same_after c i limits step _ _ (same_child {x} {y} s) =
    elim (Option-cases (outcome_of_child limits y)) [
      | inl w ↦ rw (s.same_outcome, w, after_spawn) refl
      | inr (outcome, w) ↦
          rw (s.same_outcome, w, after_spawn) (same_output c i step limits x y outcome s)
    ]

same_native :
    (c : Encoding) (p q : Spawn) (i : ℕ) (command : List (List ℕ)) (env : Map (List ℕ) (List ℕ))
    (limits : Limits) (step : Step)
    → SameSpawn limits (p i command env) (q i command env)
    → execute_native_step c p i command env limits step
      ≡ execute_native_step c q i command env limits step
unfolding execute_native_step
same_native c p q i command env limits step s =
    rw (same_after c i limits step _ _ s, execute_native_step) refl

same_run_step :
    (c : Encoding) (h k : Host) (i : ℕ) (step : Step) (run : Run)
    → Agree c h k
    → run_step c h i step run ≡ run_step c k i step run
unfolding run_step execute_source_fetch_step execute_wasm_step
same_run_step c h k i (source_fetch url reference) run a =
    rw (a.same_fetch i url reference, execute_source_fetch_step) refl
same_run_step c h k i (exec_wasm code args limits) run a =
    rw (a.same_wasm code args (exec_limits limits), execute_wasm_step) refl
same_run_step c h k i (exec_native command env limits) run a =
    let same =
      same_native c h.spawn k.spawn i command env limits (exec_native command env limits)
        (a.same_spawn i command env limits) in
    rw (same, run_step) refl
same_run_step c h k i (capture_log name) run a = refl
same_run_step c h k i (capture_artifact path name) run a = refl

same_run_steps :
    (c : Encoding) (h k : Host) (steps : List Step) (n : ℕ) (run : Run)
    → Agree c h k
    → run_steps c h n steps run ≡ run_steps c k n steps run
unfolding run_steps
same_run_steps c h k [] n run a = refl
same_run_steps c h k (step ∷ steps) n run a =
    elim (Option-cases (run_step c k (n % 2 ^ 32) step run)) [
      | inl e ↦ rw (same_run_step c h k (n % 2 ^ 32) step run a, e, run_steps) refl
      | inr (err fault, e) ↦ rw (same_run_step c h k (n % 2 ^ 32) step run a, e, run_steps) refl
      | inr (ok next, e) ↦
          rw (same_run_step c h k (n % 2 ^ 32) step run a, e, run_steps)
            (same_run_steps c h k steps (suc n) next a)
    ]

-- A pipeline gives one result on two hosts whose WASM runs, fetches and children are observed
-- alike: the pieces in which a child's output is read, their times, and the control group that it
-- ran in do not matter.
pub execute_pipeline_deterministic :
    (c : Encoding) (h k : Host) (pipeline : Pipeline)
    → Agree c h k
    → execute_pipeline c h pipeline ≡ execute_pipeline c k pipeline
unfolding execute_pipeline
execute_pipeline_deterministic c h k pipeline a =
    rw
      (
        same_run_steps c h k pipeline.steps 0
            (record { step_outputs = []; captures = []; last_native = none }) a,
        execute_pipeline,
      )
      refl
