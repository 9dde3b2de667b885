-- ===== src/ReadApi.antt =====
-- bins/cosaci-coordinator/src/main.rs: the answers to read clients, over the log, the records and
-- the files of captures.
pub mod Stored
mod Examples
use cosaci.Prelude.{ℕ, Option, none, some, List, if◌then◌else◌, bytes_key}
use cosaci.Map.{Map, get}
use cosaci.Text.{is_empty}
use cosaci.MerkleLog.{Trees}
use cosaci.MerkleLog as MerkleLog
use cosaci.Retrieval.{JobRecord, JobBundle}
use cosaci.Retrieval as Retrieval
use cosaci.Attestations.{Attestation}
use cosaci.Jobs.{CapturedOutput}
use cosaci.Protocol.{
  Envelope, get_job, job_bundle_response, job_not_found, get_log_root, log_root, get_captures,
  captures_response, captures_not_found,
}
use cosaci.Rounds.{LogBackend, mem, on_file, log_len, captures_path, Coordinator}

-- `LogBackend::root`
unfoldable pub root : Trees → LogBackend → Option (List ℕ)
root t (mem l) = MerkleLog.root t l
root t (on_file l) = MerkleLog.root t l

-- `LogBackend::build_bundle`
unfoldable pub build_bundle :
    Trees → Map ℕ (JobRecord Attestation) → ℕ → LogBackend → Option (JobBundle Attestation)
build_bundle t records job_id (mem l) = Retrieval.build_bundle t records l job_id
build_bundle t records job_id (on_file l) = Retrieval.build_bundle t records l job_id

-- The second argument decodes the content of a file.
module _ (t : Trees) (decode : List ℕ → Option (List CapturedOutput)) (captures_dir : List ℕ) where
  unfoldable pub load_captures : ℕ → ℕ → Map (List ℕ) (List ℕ) → Option (List CapturedOutput)
  load_captures job_id runner_id files =
      elim (get (captures_path captures_dir job_id runner_id) files) [
        | none ↦ none
        | some bytes ↦ decode bytes
      ]

  -- The answer to a request; anything else is dropped.
  unfoldable pub handle_read_client : Envelope → Coordinator → Option Envelope
  handle_read_client (get_job job_id) s = elim (build_bundle t s.records job_id s.log) [
    | some b ↦ some (job_bundle_response b)
    | none ↦ some (job_not_found job_id)
  ]
  handle_read_client get_log_root s = some (log_root (root t s.log) (log_len s.log))
  handle_read_client (get_captures job_id runner_id) s =
      if is_empty captures_dir
      then some (captures_not_found job_id runner_id)
      else elim (load_captures job_id runner_id s.captures) [
        | some captures ↦ some (captures_response job_id runner_id captures)
        | none ↦ some (captures_not_found job_id runner_id)
      ]
  handle_read_client _ s = none
