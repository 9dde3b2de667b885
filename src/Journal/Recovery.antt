-- ===== src/Journal/Recovery.antt =====
-- What the journal says of each job after a crash.
use cosaci.Prelude.{
  Bool, true, ℕ, ◌≡◌, refl, inl, inr, Option, none, some, List, [], ◌∷◌, arith, if◌then◌else◌,
  nat_key, nat_beq, nat_beq_iff, Option-cases,
}
use cosaci.Map.{Map, get, get-insert, HasDistinctKeys, insert-HasDistinctKeys}
use cosaci.Journal.{
  JournalEntry, job_submitted, committee_selected, attestation_received, aggregated, anchored,
  JobState, submitted, in_flight, aggregated_not_anchored, anchored_at, JournalState, new,
  or_insert, apply_entry, apply_entries, reconstruct_state,
}

-- The job that an entry is about.
abbrev pub job_of : JournalEntry → ℕ
job_of (job_submitted job_id) = job_id
job_of (committee_selected job_id committee) = job_id
job_of (attestation_received job_id runner_id) = job_id
job_of (aggregated job_id outcome artifact_hex) = job_id
job_of (anchored job_id position) = job_id

-- The life of one job: an attestation is news only of a job that is not known.
abbrev pub advance : Option JobState → JournalEntry → Option JobState
advance state (job_submitted job_id) = some submitted
advance state (committee_selected job_id committee) = some in_flight
advance none (attestation_received job_id runner_id) = some in_flight
advance (some state) (attestation_received job_id runner_id) = some state
advance state (aggregated job_id outcome artifact_hex) =
    some (aggregated_not_anchored outcome artifact_hex)
advance state (anchored job_id position) = some (anchored_at position)

abbrev pub life : ℕ → Option JobState → List JournalEntry → Option JobState
life job state [] = state
life job state (entry ∷ entries) =
    life job (if nat_beq (job_of entry) job then advance state entry else state) entries

get-apply_entry :
    (job : ℕ) (s : JournalState) (entry : JournalEntry)
    → get job (apply_entry s entry).jobs
      ≡ (if nat_beq (job_of entry) job then advance (get job s.jobs) entry else get job s.jobs)
unfolding apply_entry or_insert
get-apply_entry job s (job_submitted job_id) = get-insert job_id job submitted s.jobs
get-apply_entry job s (committee_selected job_id committee) = get-insert job_id job in_flight s.jobs
get-apply_entry job s (attestation_received job_id runner_id) =
    elim (Option-cases (get job_id s.jobs)) [
      | inl e ↦ ground (arith, get-insert job_id job in_flight s.jobs, nat_beq_iff job_id job)
      | inr (state, e) ↦ ground (arith, nat_beq_iff job_id job)
    ]
get-apply_entry job s (aggregated job_id outcome artifact_hex) =
    get-insert job_id job (aggregated_not_anchored outcome artifact_hex) s.jobs
get-apply_entry job s (anchored job_id position) =
    get-insert job_id job (anchored_at position) s.jobs

get-apply_entries :
    (job : ℕ) (s : JournalState) (entries : List JournalEntry)
    → get job (apply_entries s entries).jobs ≡ life job (get job s.jobs) entries
unfolding apply_entries
get-apply_entries job s [] = refl
get-apply_entries job s (entry ∷ entries) =
    rw (get-apply_entries job (apply_entry s entry) entries, get-apply_entry job s entry) refl

-- A job's state after a crash is the end of its own life in the journal: entries of other jobs,
-- however they are mixed with its own, do not touch it.
pub reconstruct_state-life :
    (job : ℕ) (entries : List JournalEntry)
    → get job (reconstruct_state entries).jobs ≡ life job none entries
unfolding reconstruct_state new get
reconstruct_state-life job entries = get-apply_entries job new entries

apply_entry-HasDistinctKeys :
    (s : JournalState) (entry : JournalEntry)
    → HasDistinctKeys s.jobs
    → HasDistinctKeys (apply_entry s entry).jobs
unfolding apply_entry or_insert
apply_entry-HasDistinctKeys s (job_submitted job_id) d =
    insert-HasDistinctKeys job_id submitted s.jobs d
apply_entry-HasDistinctKeys s (committee_selected job_id committee) d =
    insert-HasDistinctKeys job_id in_flight s.jobs d
apply_entry-HasDistinctKeys s (attestation_received job_id runner_id) d =
    elim (Option-cases (get job_id s.jobs)) [
      | inl e ↦ ground (arith, insert-HasDistinctKeys job_id in_flight s.jobs d)
      | inr (state, e) ↦ ground arith
    ]
apply_entry-HasDistinctKeys s (aggregated job_id outcome artifact_hex) d =
    insert-HasDistinctKeys job_id (aggregated_not_anchored outcome artifact_hex) s.jobs d
apply_entry-HasDistinctKeys s (anchored job_id position) d =
    insert-HasDistinctKeys job_id (anchored_at position) s.jobs d

apply_entries-HasDistinctKeys :
    (s : JournalState) (entries : List JournalEntry)
    → HasDistinctKeys s.jobs
    → HasDistinctKeys (apply_entries s entries).jobs
unfolding apply_entries
apply_entries-HasDistinctKeys s [] d = d
apply_entries-HasDistinctKeys s (entry ∷ entries) d =
    apply_entries-HasDistinctKeys (apply_entry s entry) entries
      (apply_entry-HasDistinctKeys s entry d)

pub reconstruct_state-HasDistinctKeys :
    (entries : List JournalEntry) → HasDistinctKeys (reconstruct_state entries).jobs
unfolding reconstruct_state new
reconstruct_state-HasDistinctKeys entries = apply_entries-HasDistinctKeys new entries tt

-- The job is in the journal's state, in a state of a kind.
abbrev pub IsKind : (JobState → Bool) → ℕ → Map ℕ JobState → Type 0
IsKind kind job jobs = (state : JobState) × (get job jobs ≡ some state) × (kind state ≡ true)
