-- ===== src/Jobs.antt =====
-- crates/cosaci-jobs/src/lib.rs: the pipeline of a job and its results. Texts and byte strings are
-- lists of bytes, a hash its bytes, an `i32` its 32-bit pattern.
pub mod Cgroup
pub mod Native
pub mod Running
pub mod SourceFetch
pub mod Reading
pub mod Waiting
pub mod Captures
pub mod Determinism
pub mod Ending
mod Examples
use Prim.Native.String.{String}
use cosaci.Prelude.{ℕ, List}
use cosaci.Map.{Map}
use cosaci.NetworkPolicy.{NetworkPolicy}

-- 0 is no limit.
pub record Limits : Type 0 where
  pub cpu_seconds : ℕ
  pub memory_mb : ℕ
  pub wall_seconds : ℕ
  pub network : NetworkPolicy

pub data Step : Type 0 where
  source_fetch : (url reference : List ℕ) → Step
  exec_wasm : (code args_cbor : List ℕ) (limits : Limits) → Step
  exec_native : (command : List (List ℕ)) (env : Map (List ℕ) (List ℕ)) (limits : Limits) → Step
  capture_log : (name : List ℕ) → Step
  capture_artifact : (path name : List ℕ) → Step

pub record Pipeline : Type 0 where
  pub steps : List Step

pub data LimitKind : Type 0 where
  cpu memory wall network : LimitKind

pub data StepStatus : Type 0 where
  success failed not_implemented : StepStatus
  limit_exceeded : (which : LimitKind) → StepStatus

pub record StepOutput : Type 0 where
  pub step_index : ℕ
  pub status : StepStatus
  pub output_hash : List ℕ

pub data CaptureKind : Type 0 where
  stdout stderr artifact : CaptureKind

pub record CapturedOutput : Type 0 where
  pub step_index : ℕ
  pub name : List ℕ
  pub kind : CaptureKind
  pub sha256 : List ℕ
  pub length : ℕ
  pub bytes_inline : List ℕ

pub record PipelineResult : Type 0 where
  pub steps : List StepOutput
  pub final_artifact_hash : List ℕ
  pub captures : List CapturedOutput

-- The values that `hash_canonical` is called on.
pub data Canonical : Type 0 where
  outputs : List StepOutput → Canonical
  only : Step → Canonical
  tagged : Step → String → Canonical
  fetch_error : Step → (kind_id : ℕ) → Canonical
  spawn_error : Step → String → (kind_id : ℕ) → Canonical
  exited : Step → String → (code : ℕ) (stdout_hash stderr_hash : List ℕ) → Canonical
  logged : Step → String → (stdout_hash stderr_hash : List ℕ) → Canonical
  limited : Step → LimitKind → Canonical

-- SHA-256 and the CBOR encoder.
pub record Encoding : Type 0 where
  pub sha256 : List ℕ → List ℕ
  pub cbor : Canonical → List ℕ

unfoldable pub hash_canonical : Encoding → Canonical → List ℕ
hash_canonical c value = c.sha256 (c.cbor value)

-- `not_implemented`
abbrev pub not_implemented_step : Encoding → ℕ → Step → StepOutput
not_implemented_step c step_index step = record {
  step_index = step_index;
  status = not_implemented;
  output_hash = c.sha256 (c.cbor (only step));
}
