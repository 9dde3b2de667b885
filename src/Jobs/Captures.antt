-- ===== src/Jobs/Captures.antt =====
-- What a pipeline's result says of its steps and captures.
use cosaci.Prelude.{
  All-append, Result, ◌%◌, ◌^◌, ℕ, suc, ◌+◌, ◌≤◌, ◌≡◌, refl, ap, sym, ◌∙◌, subst, Option, none,
  some, List, [], ◌∷◌, ◌++◌, arith, length, length-append, All, ok, err, Bool-cases, Option-cases,
  Result-cases, inl, inr,
}
use cosaci.Text.{is_empty}
use cosaci.Map.{Map}
use cosaci.Jobs.{
  not_implemented_step, LimitKind, cpu, memory, wall, Canonical, tagged, spawn_error, Step,
  source_fetch, exec_wasm, exec_native, capture_log, capture_artifact, StepOutput, CapturedOutput,
  Pipeline, PipelineResult, Encoding, outputs, hash_canonical, Limits,
}
use cosaci.Jobs.Native.{
  exceeded, failing, NativeCaptures, Spawn, Child, ExitOutcome, ended, killed_by_wall,
  killed_by_cpu, max_capture_bytes, read_capped, captures_of, was_killed, output_of_exit,
  execute_native_step, after_spawn, wait_with_limits, wall_limit, cpu_limit,
}
use cosaci.Jobs.Cgroup.{StepCgroup, try_create}
use cosaci.Jobs.Reading.{length-read_capped}
use cosaci.Jobs.Running.{
  Host, Run, execute_capture_log_step, execute_source_fetch_step, execute_wasm_step, pushed,
  run_step, run_steps, execute_pipeline,
}

-- A capture whose hash and length are those of its bytes, of which there are not too many.
pub record IsGenuine (c : Encoding) (capture : CapturedOutput) : Type 0 where
  pub hashed : capture.sha256 ≡ c.sha256 capture.bytes_inline
  pub counted : capture.length ≡ length capture.bytes_inline
  pub bounded : length capture.bytes_inline ≤ max_capture_bytes

record AreBound (c : Encoding) (caps : NativeCaptures) : Type 0 where
  stdout_hashed : caps.stdout_sha256 ≡ c.sha256 caps.stdout_bytes
  stderr_hashed : caps.stderr_sha256 ≡ c.sha256 caps.stderr_bytes
  stdout_bounded : length caps.stdout_bytes ≤ max_capture_bytes
  stderr_bounded : length caps.stderr_bytes ≤ max_capture_bytes

captures_of-AreBound :
    (c : Encoding) (child : Child) (out errors : List ℕ)
    → read_capped child.stdout_reads max_capture_bytes ≡ some out
    → read_capped child.stderr_reads max_capture_bytes ≡ some errors
    → AreBound c (captures_of c out errors)
unfolding captures_of
captures_of-AreBound c child out errors o e = record {
  stdout_hashed = refl;
  stderr_hashed = refl;
  stdout_bounded = length-read_capped child.stdout_reads max_capture_bytes out (omega arith) o;
  stderr_bounded = length-read_capped child.stderr_reads max_capture_bytes errors (omega arith) e;
}

some_injective : {A : Type 0} {a b : A} → some a ≡ some b → a ≡ b
some_injective e = ground arith

-- A step's output is numbered, and what it captured is bound.
abbrev IsStepOf : Encoding → ℕ → StepOutput × NativeCaptures → Type 0
IsStepOf c i (output, caps) = (output.step_index ≡ i) × AreBound c caps

exceeded-IsStepOf :
    (c : Encoding) (i : ℕ) (step : Step) (which : LimitKind)
    → IsStepOf c i (exceeded c i step which)
exceeded-IsStepOf c i step which = (
  refl,
  record {
    stdout_hashed = refl;
    stderr_hashed = refl;
    stdout_bounded = omega arith;
    stderr_bounded = omega arith;
  },
)

failing-IsStepOf : (c : Encoding) (i : ℕ) (value : Canonical) → IsStepOf c i (failing c i value)
failing-IsStepOf c i value = (
  refl,
  record {
    stdout_hashed = refl;
    stderr_hashed = refl;
    stdout_bounded = omega arith;
    stderr_bounded = omega arith;
  },
)

output_of_exit-IsStepOf :
    (c : Encoding) (i : ℕ) (step : Step) (child : Child) (group : Option StepCgroup)
    (outcome : ExitOutcome) (r : StepOutput × NativeCaptures)
    → output_of_exit c i step child group outcome ≡ some r
    → IsStepOf c i r
unfolding output_of_exit
output_of_exit-IsStepOf c i step child group killed_by_wall r h =
    subst (IsStepOf c i) (some_injective h) (exceeded-IsStepOf c i step wall)
output_of_exit-IsStepOf c i step child group killed_by_cpu r h =
    subst (IsStepOf c i) (some_injective h) (exceeded-IsStepOf c i step cpu)
output_of_exit-IsStepOf c i step child group (ended status) r h =
    elim (Option-cases (read_capped child.stdout_reads max_capture_bytes)) [
      | inl o ↦ absurd (cc (rw (o, output_of_exit) at h))
      | inr (out, o) ↦ elim (Option-cases (read_capped child.stderr_reads max_capture_bytes)) [
        | inl e ↦ absurd (cc (rw (o, e, output_of_exit) at h))
        | inr (errors, e) ↦
            subst (IsStepOf c i) (some_injective (rw (o, e, output_of_exit) at h))
              (elim (Bool-cases (was_killed group child)) [
                | inl k ↦ rw k (exceeded-IsStepOf c i step memory)
                | inr k ↦ rw k (refl, captures_of-AreBound c child out errors o e)
              ])
      ]
    ]

after_spawn-IsStepOf :
    (c : Encoding) (i : ℕ) (limits : Limits) (step : Step) (spawned : Result Child ℕ)
    (r : StepOutput × NativeCaptures)
    → after_spawn c i limits step spawned ≡ some r
    → IsStepOf c i r
unfolding after_spawn
after_spawn-IsStepOf c i limits step (err kind_id) r h =
    subst (IsStepOf c i) (some_injective h)
      (failing-IsStepOf c i (spawn_error step "spawn_failed" kind_id))
after_spawn-IsStepOf c i limits step (ok child) r h =
    let group = try_create child.group_files limits.memory_mb limits.cpu_seconds in
    elim (Option-cases (wait_with_limits child (wall_limit limits) (cpu_limit limits) group)) [
      | inl w ↦ absurd (ground arith)
      | inr (outcome, w) ↦
          output_of_exit-IsStepOf c i step child group outcome r (rw (w, after_spawn) at h)
    ]

execute_native_step-IsStepOf :
    (c : Encoding) (spawn : Spawn) (i : ℕ) (command : List (List ℕ)) (env : Map (List ℕ) (List ℕ))
    (limits : Limits) (step : Step) (r : StepOutput × NativeCaptures)
    → execute_native_step c spawn i command env limits step ≡ some r
    → IsStepOf c i r
unfolding execute_native_step
execute_native_step-IsStepOf c spawn i command env limits step r h =
    elim (Bool-cases (is_empty command)) [
      | inl blank ↦
          subst (IsStepOf c i) (some_injective (rw blank at h))
            (failing-IsStepOf c i (tagged step "empty_command"))
      | inr full ↦ after_spawn-IsStepOf c i limits step (spawn i command env) r (rw full at h)
    ]

-- The outputs are numbered from `n` on, as `u32`.
abbrev pub AreNumbered : ℕ → List StepOutput → Type 0
AreNumbered n [] = Unit
AreNumbered n (output ∷ rest) = (output.step_index ≡ n % 2 ^ 32) × AreNumbered (suc n) rest

AreNumbered-append :
    (n : ℕ) (outs : List StepOutput) (output : StepOutput)
    → AreNumbered n outs
    → output.step_index ≡ (n + length outs) % 2 ^ 32
    → AreNumbered n (outs ++ (output ∷ []))
AreNumbered-append n [] output a h =
    let here : n + 0 ≡ n = omega arith in (h ∙ ap (λ k. k % 2 ^ 32) here, tt)
AreNumbered-append n (first ∷ outs) output a h =
    let count : n + suc (length outs) ≡ suc n + length outs = omega arith in
    (a.0, AreNumbered-append (suc n) outs output a.1 (h ∙ ap (λ k. k % 2 ^ 32) count))

-- What holds of the variables after `n` steps.
record IsSound (c : Encoding) (n : ℕ) (run : Run) : Type 0 where
  counted : length run.step_outputs ≡ n
  numbered : AreNumbered 0 run.step_outputs
  genuine : All (IsGenuine c) run.captures
  held : (caps : NativeCaptures) → run.last_native ≡ some caps → AreBound c caps

pushed-IsSound :
    (c : Encoding) (n : ℕ) (run : Run) (output : StepOutput)
    → IsSound c n run
    → output.step_index ≡ n % 2 ^ 32
    → IsSound c (suc n) (pushed output run)
pushed-IsSound c n run output s h = record {
  counted = omega (arith, length-append run.step_outputs (output ∷ []), s.counted);
  numbered =
      AreNumbered-append 0 run.step_outputs output s.numbered
        (h ∙ ap (λ k. k % 2 ^ 32) (omega (arith, s.counted)));
  genuine = s.genuine;
  held = s.held;
}

execute_wasm_step-index :
    (c : Encoding) (host : Host) (i : ℕ) (code args : List ℕ) (limits : Limits) (step : Step)
    (output : StepOutput)
    → execute_wasm_step c host i code args limits step ≡ ok output
    → output.step_index ≡ i
unfolding execute_wasm_step
execute_wasm_step-index c host i code args limits step output h = ground arith

execute_source_fetch_step-index :
    (c : Encoding) (host : Host) (i : ℕ) (url reference : List ℕ) (step : Step)
    → (execute_source_fetch_step c host i url reference step).step_index ≡ i
unfolding execute_source_fetch_step
execute_source_fetch_step-index c host i url reference step = ground arith

-- A log of what is held is genuine; without it nothing is captured.
execute_capture_log_step-IsGenuine :
    (c : Encoding) (i : ℕ) (name : List ℕ) (last : Option NativeCaptures)
    (captures : List CapturedOutput) (step : Step)
    → All (IsGenuine c) captures
    → ((caps : NativeCaptures) → last ≡ some caps → AreBound c caps)
    → All (IsGenuine c) (execute_capture_log_step c i name last captures step).0
unfolding execute_capture_log_step
execute_capture_log_step-IsGenuine c i name none captures step a h = a
execute_capture_log_step-IsGenuine c i name (some nc) captures step a h =
    let b = h nc refl in
    All-append (IsGenuine c) captures _ a (
      record { hashed = b.stdout_hashed; counted = refl; bounded = b.stdout_bounded },
      (record { hashed = b.stderr_hashed; counted = refl; bounded = b.stderr_bounded }, tt),
    )

execute_capture_log_step-index :
    (c : Encoding) (i : ℕ) (name : List ℕ) (last : Option NativeCaptures)
    (captures : List CapturedOutput) (step : Step)
    → (execute_capture_log_step c i name last captures step).1.step_index ≡ i
unfolding execute_capture_log_step
execute_capture_log_step-index c i name none captures step = refl
execute_capture_log_step-index c i name (some nc) captures step = refl

run_step-IsSound :
    (c : Encoding) (host : Host) (n : ℕ) (step : Step) (run next : Run)
    → IsSound c n run
    → run_step c host (n % 2 ^ 32) step run ≡ some (ok next)
    → IsSound c (suc n) next
unfolding run_step
run_step-IsSound c host n (source_fetch url reference) run next s h =
    let step = source_fetch url reference in
    let output = execute_source_fetch_step c host (n % 2 ^ 32) url reference step in
    let same : pushed output run ≡ next = ground arith in
    subst (IsSound c (suc n)) same (
      pushed-IsSound c n run output s
        (execute_source_fetch_step-index c host (n % 2 ^ 32) url reference step))
run_step-IsSound c host n (exec_wasm code args limits) run next s h =
    let step = exec_wasm code args limits in
    elim (Result-cases (execute_wasm_step c host (n % 2 ^ 32) code args limits step)) [
      | inr (e, w) ↦ absurd (ground arith)
      | inl (output, w) ↦
          let same : pushed output run ≡ next = ground arith in
          subst (IsSound c (suc n)) same (
            pushed-IsSound c n run output s
              (execute_wasm_step-index c host (n % 2 ^ 32) code args limits step output w))
    ]
run_step-IsSound c host n (exec_native command env limits) run next s h =
    let step = exec_native command env limits in
    elim (Option-cases (execute_native_step c host.spawn (n % 2 ^ 32) command env limits step)) [
      | inl w ↦ absurd (ground arith)
      | inr ((output, caps), w) ↦
          let (index, bound) =
            execute_native_step-IsStepOf c host.spawn (n % 2 ^ 32) command env limits step
              (output, caps) w in
          let held_run : Run = record run { last_native = some caps } in
          let holding : IsSound c n held_run = record {
            counted = s.counted;
            numbered = s.numbered;
            genuine = s.genuine;
            held = λ other e. subst (AreBound c) (some_injective e) bound;
          } in
          let same : pushed output held_run ≡ next = ground arith in
          subst (IsSound c (suc n)) same (pushed-IsSound c n held_run output holding index)
    ]
run_step-IsSound c host n (capture_log name) run next s h =
    let step = capture_log name in
    let i = n % 2 ^ 32 in
    let (more, output) = execute_capture_log_step c i name run.last_native run.captures step in
    let logged_run : Run = record run { captures = more } in
    let logged : IsSound c n logged_run = record {
      counted = s.counted;
      numbered = s.numbered;
      genuine =
          execute_capture_log_step-IsGenuine c i name run.last_native run.captures step s.genuine
            s.held;
      held = s.held;
    } in
    let same : pushed output logged_run ≡ next = ground arith in
    subst (IsSound c (suc n)) same (
      pushed-IsSound c n logged_run output logged
        (execute_capture_log_step-index c i name run.last_native run.captures step))
run_step-IsSound c host n (capture_artifact path name) run next s h =
    let output = not_implemented_step c (n % 2 ^ 32) (capture_artifact path name) in
    let same : pushed output run ≡ next = ground arith in
    subst (IsSound c (suc n)) same (pushed-IsSound c n run output s refl)

run_steps-IsSound :
    (c : Encoding) (host : Host) (steps : List Step) (n : ℕ) (run last : Run)
    → IsSound c n run
    → run_steps c host n steps run ≡ some (ok last)
    → IsSound c (n + length steps) last
unfolding run_steps
run_steps-IsSound c host [] n run last s h =
    let same : run ≡ last = ground arith in
    let here : n ≡ n + 0 = omega arith in
    subst (IsSound c (n + 0)) same (subst (λ k. IsSound c k run) here s)
run_steps-IsSound c host (step ∷ steps) n run last s h =
    elim (Option-cases (run_step c host (n % 2 ^ 32) step run)) [
      | inl e ↦ absurd (ground arith)
      | inr (err fault, e) ↦ absurd (ground arith)
      | inr (ok next, e) ↦
          let count : suc n + length steps ≡ n + suc (length steps) = omega arith in
          let rest : run_steps c host (suc n) steps next ≡ some (ok last) = ground arith in
          subst (λ k. IsSound c k last) count
            (run_steps-IsSound c host steps (suc n) next last
              (run_step-IsSound c host n step run next s e) rest)
    ]

-- A pipeline that ends without an error has one output for each step, numbered in order, a hash of
-- just those outputs, and captures that each carry the hash and the length of the bytes they keep,
-- also where the output was longer than these; they keep no more than the limit.
pub execute_pipeline_sound :
    (c : Encoding) (host : Host) (pipeline : Pipeline) (result : PipelineResult)
    → execute_pipeline c host pipeline ≡ some (ok result)
    → (length result.steps ≡ length pipeline.steps)
      × AreNumbered 0 result.steps
      × (result.final_artifact_hash ≡ hash_canonical c (outputs result.steps))
      × All (IsGenuine c) result.captures
unfolding execute_pipeline hash_canonical
execute_pipeline_sound c host pipeline result h =
    let start : Run = record { step_outputs = []; captures = []; last_native = none } in
    elim (Option-cases (run_steps c host 0 pipeline.steps start)) [
      | inl e ↦ absurd (ground arith)
      | inr (err fault, e) ↦ absurd (ground arith)
      | inr (ok run, e) ↦
          let s =
            run_steps-IsSound c host pipeline.steps 0 start run
              (record { counted = refl; numbered = tt; genuine = tt; held = λ caps e. absurd (cc) })
              e in
          let outs : run.step_outputs ≡ result.steps = ground arith in
          let kept : run.captures ≡ result.captures = ground arith in
          let hash : c.sha256 (c.cbor (outputs run.step_outputs)) ≡ result.final_artifact_hash =
            ground arith in
          (
            ap length (sym outs) ∙ omega (arith, s.counted),
            subst (AreNumbered 0) outs s.numbered,
            sym hash ∙ ap (λ os. c.sha256 (c.cbor (outputs os))) outs,
            subst (All (IsGenuine c)) kept s.genuine,
          )
    ]
