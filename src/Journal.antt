-- ===== src/Journal.antt =====
-- crates/cosaci-state/src/journal.rs: the state of the jobs, read back from the journal's entries.
-- The file, its lines and their JSON are left out: the entries are those that `replay` returns.
pub mod Recovery
mod Examples
use cosaci.Prelude.{ℕ, Bool, true, false, Option, none, some, List, [], ◌∷◌, if◌then◌else◌, nat_key}
use Prim.Native.String.{String}
use cosaci.Map.{Map, get, insert}

pub data JournalOutcome : Type 0 where
  pass fail escalate retry : JournalOutcome

pub data JournalEntry : Type 0 where
  job_submitted : (job_id : ℕ) → JournalEntry
  committee_selected : (job_id : ℕ) (committee : List ℕ) → JournalEntry
  attestation_received : (job_id runner_id : ℕ) → JournalEntry
  aggregated : (job_id : ℕ) (outcome : JournalOutcome) (artifact_hex : String) → JournalEntry
  anchored : (job_id position : ℕ) → JournalEntry

pub data JobState : Type 0 where
  submitted in_flight : JobState
  aggregated_not_anchored : (outcome : JournalOutcome) (artifact_hex : String) → JobState
  anchored_at : (position : ℕ) → JobState

pub record JournalState : Type 0 where
  pub jobs : Map ℕ JobState

unfoldable pub new : JournalState
new = record { jobs = [] }

-- `entry(job_id).or_insert(state)`
unfoldable pub or_insert : ℕ → JobState → Map ℕ JobState → Map ℕ JobState
or_insert job_id state jobs = elim (get job_id jobs) [
  | none ↦ insert job_id state jobs
  | some _ ↦ jobs
]

-- One turn of the loop of `reconstruct_state`.
unfoldable pub apply_entry : JournalState → JournalEntry → JournalState
apply_entry s (job_submitted job_id) = record s { jobs = insert job_id submitted s.jobs }
apply_entry s (committee_selected job_id committee) = record s {
  jobs = insert job_id in_flight s.jobs;
}
apply_entry s (attestation_received job_id runner_id) = record s {
  jobs = or_insert job_id in_flight s.jobs;
}
apply_entry s (aggregated job_id outcome artifact_hex) = record s {
  jobs = insert job_id (aggregated_not_anchored outcome artifact_hex) s.jobs;
}
apply_entry s (anchored job_id position) = record s {
  jobs = insert job_id (anchored_at position) s.jobs;
}

unfoldable pub apply_entries : JournalState → List JournalEntry → JournalState
apply_entries s [] = s
apply_entries s (entry ∷ entries) = apply_entries (apply_entry s entry) entries

unfoldable pub reconstruct_state : List JournalEntry → JournalState
reconstruct_state entries = apply_entries new entries

-- The ids of the jobs whose state is of a kind.
unfoldable pub jobs_where : (JobState → Bool) → Map ℕ JobState → List ℕ
jobs_where kind [] = []
jobs_where kind ((id, state) ∷ jobs) =
    let rest = jobs_where kind jobs in if kind state then id ∷ rest else rest

abbrev pub needs_re_anchor : JobState → Bool
needs_re_anchor submitted = false
needs_re_anchor in_flight = false
needs_re_anchor (aggregated_not_anchored outcome artifact_hex) = true
needs_re_anchor (anchored_at position) = false

abbrev pub needs_re_run : JobState → Bool
needs_re_run submitted = true
needs_re_run in_flight = true
needs_re_run (aggregated_not_anchored outcome artifact_hex) = false
needs_re_run (anchored_at position) = false

abbrev pub is_anchored : JobState → Bool
is_anchored submitted = false
is_anchored in_flight = false
is_anchored (aggregated_not_anchored outcome artifact_hex) = false
is_anchored (anchored_at position) = true

unfoldable pub pending_re_anchor : JournalState → List ℕ
pending_re_anchor s = jobs_where needs_re_anchor s.jobs

unfoldable pub pending_re_run : JournalState → List ℕ
pending_re_run s = jobs_where needs_re_run s.jobs

unfoldable pub anchored_jobs : JournalState → List ℕ
anchored_jobs s = jobs_where is_anchored s.jobs
