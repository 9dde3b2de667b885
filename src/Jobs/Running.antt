-- ===== src/Jobs/Running.antt =====
-- `execute_pipeline` of crates/cosaci-jobs/src/lib.rs. A host is what a runner's machine does: its
-- WASM runtime, its processes, and its git; `none` is a run that waits for a child or for its pipes.
-- A WASM run and a fetch are what they return.
use cosaci.Prelude.{
  ◌%◌, ◌^◌, ℕ, suc, ◌*◌, Option, none, some, List, [], ◌∷◌, ◌++◌, length, Result, ok, err,
  saturating_mul,
}
use cosaci.Text.{codes}
use cosaci.Wasm.{
  Wasmtime, ExecLimits, ExecOutcome, returned, WasmError, execute_with_limits, module_hash,
}
use cosaci.Wasm as Wasm
use cosaci.Jobs.{
  Limits, Step, source_fetch, exec_wasm, exec_native, capture_log, capture_artifact, Pipeline,
  LimitKind, cpu, memory, wall, StepOutput, success, failed, limit_exceeded, CapturedOutput, stdout,
  stderr, PipelineResult, Encoding, hash_canonical, outputs, tagged, fetch_error, logged, limited,
  not_implemented_step,
}
use cosaci.Jobs.Native.{Spawn, NativeCaptures, execute_native_step}
use cosaci.Jobs.SourceFetch.{
  SourceFetchError, git_not_found, io_error, clone_failed, checkout_failed, resolve_failed, Fetch,
  execute_source_fetch,
}
use cosaci.Jobs.SourceFetch as SourceFetch

pub record Host : Type 0 where
  pub wasmtime : Wasmtime
  pub spawn : Spawn
  pub fetch : ℕ → (url reference : List ℕ) → Fetch

pub data StepKind : Type 0 where
  source_fetch_kind exec_wasm_kind exec_native_kind capture_log_kind capture_artifact_kind :
      StepKind

pub data PipelineError : Type 0 where
  encoding : (step_index : ℕ) (detail : List ℕ) → PipelineError
  step_not_implemented : (step_index : ℕ) (kind : StepKind) → PipelineError
  wasm_runtime : (step_index : ℕ) (detail : WasmError) → PipelineError

abbrev pub fuel_per_cpu_second : ℕ
fuel_per_cpu_second = 1000000000

-- The limits in the units of the runtime; a `usize` has 64 bits.
unfoldable pub exec_limits : Limits → ExecLimits
exec_limits limits = record {
  fuel = saturating_mul limits.cpu_seconds fuel_per_cpu_second;
  memory_bytes = saturating_mul limits.memory_mb (1024 * 1024);
  wall = limits.wall_seconds * 1000000000;
}

abbrev pub limit_kind : Wasm.ExecLimitKind → LimitKind
limit_kind Wasm.ExecLimitKind.cpu = cpu
limit_kind Wasm.ExecLimitKind.memory = memory
limit_kind Wasm.ExecLimitKind.wall = wall

abbrev pub kind_id : SourceFetchError → ℕ
kind_id git_not_found = 0
kind_id (clone_failed _) = 1
kind_id (checkout_failed _) = 2
kind_id (resolve_failed _) = 3
kind_id io_error = 4

-- The variables of `execute_pipeline`.
pub record Run : Type 0 where
  pub step_outputs : List StepOutput
  pub captures : List CapturedOutput
  pub last_native : Option NativeCaptures

abbrev pub pushed : StepOutput → Run → Run
pushed output run = record run { step_outputs = run.step_outputs ++ (output ∷ []) }

module _ (c : Encoding) where
  unfoldable pub execute_capture_log_step :
      ℕ
      → List ℕ
      → Option NativeCaptures
      → List CapturedOutput
      → Step
      → List CapturedOutput × StepOutput
  unfolding hash_canonical
  execute_capture_log_step step_index name none captures step = (
    captures,
    record {
      step_index = step_index;
      status = failed;
      output_hash = hash_canonical c (tagged step "no_preceding_exec_native");
    },
  )
  execute_capture_log_step step_index name (some nc) captures step = (
    captures
        ++ (record {
          step_index = step_index;
          name = name ++ codes ".stdout";
          kind = stdout;
          sha256 = nc.stdout_sha256;
          length = length nc.stdout_bytes;
          bytes_inline = nc.stdout_bytes;
        }
            ∷ record {
              step_index = step_index;
              name = name ++ codes ".stderr";
              kind = stderr;
              sha256 = nc.stderr_sha256;
              length = length nc.stderr_bytes;
              bytes_inline = nc.stderr_bytes;
            }
            ∷ []),
    record {
      step_index = step_index;
      status = success;
      output_hash = hash_canonical c (logged step "ok" nc.stdout_sha256 nc.stderr_sha256);
    },
  )

  unfoldable pub execute_source_fetch_step : Host → ℕ → List ℕ → List ℕ → Step → StepOutput
  unfolding hash_canonical
  execute_source_fetch_step host step_index url reference step =
      elim (execute_source_fetch c.sha256 (host.fetch step_index url reference)) [
        | ok out ↦ record {
          step_index = step_index;
          status = success;
          output_hash = SourceFetch.output_hash c.sha256 out;
        }
        | err e ↦ record {
          step_index = step_index;
          status = failed;
          output_hash = hash_canonical c (fetch_error step (kind_id e));
        }
      ]

  unfoldable pub execute_wasm_step :
      Host → ℕ → List ℕ → List ℕ → Limits → Step → Result StepOutput PipelineError
  unfolding hash_canonical
  execute_wasm_step host step_index code args_cbor limits step =
      elim (execute_with_limits host.wasmtime code args_cbor (exec_limits limits)) [
        | err e ↦ err (wasm_runtime step_index e)
        | ok (returned result) ↦ ok record {
          step_index = step_index;
          status = success;
          output_hash = Wasm.output_hash c.sha256 (module_hash c.sha256 code) result;
        }
        | ok (ExecOutcome.limit_exceeded kind) ↦ ok record {
          step_index = step_index;
          status = limit_exceeded (limit_kind kind);
          output_hash = hash_canonical c (limited step (limit_kind kind));
        }
      ]

  -- The body of the loop; `step_index` is `idx as u32`.
  unfoldable pub run_step : Host → ℕ → Step → Run → Option (Result Run PipelineError)
  run_step host step_index (exec_wasm code args_cbor limits) run =
      some
        (elim (execute_wasm_step host step_index code args_cbor limits
          (exec_wasm code args_cbor limits)) [ err e ↦ err e | ok output ↦ ok (pushed output run) ])
  run_step host step_index (source_fetch url reference) run = some (
      ok (
        pushed
          (execute_source_fetch_step host step_index url reference (source_fetch url reference))
          run))
  run_step host step_index (exec_native command env limits) run =
      elim (execute_native_step c host.spawn step_index command env limits
        (exec_native command env limits)) [
          | none ↦ none
          | some (output, caps) ↦ some (ok (pushed output (record run { last_native = some caps })))
        ]
  run_step host step_index (capture_log name) run =
      let (more, output) =
        execute_capture_log_step step_index name run.last_native run.captures (capture_log name) in
      some (ok (pushed output (record run { captures = more })))
  run_step host step_index (capture_artifact path name) run =
      some (ok (pushed (not_implemented_step c step_index (capture_artifact path name)) run))

  unfoldable pub run_steps : Host → ℕ → List Step → Run → Option (Result Run PipelineError)
  run_steps host idx [] run = some (ok run)
  run_steps host idx (step ∷ steps) run = elim (run_step host (idx % 2 ^ 32) step run) [
    | none ↦ none
    | some (err e) ↦ some (err e)
    | some (ok next) ↦ run_steps host (suc idx) steps next
  ]

  unfoldable pub execute_pipeline : Host → Pipeline → Option (Result PipelineResult PipelineError)
  unfolding hash_canonical
  execute_pipeline host pipeline =
      elim (run_steps host 0 pipeline.steps
        (record { step_outputs = []; captures = []; last_native = none })) [
          | none ↦ none
          | some (err e) ↦ some (err e)
          | some (ok run) ↦ some (
              ok record {
                steps = run.step_outputs;
                final_artifact_hash = hash_canonical c (outputs run.step_outputs);
                captures = run.captures;
              })
        ]
