-- ===== src/Journal/Examples.antt =====
-- Runs of the journal, and the theorems at concrete inputs.
use cosaci.Prelude.{◌≡◌, refl, List, [], ◌∷◌, nat_key}
use cosaci.Map.{get, insert}
use cosaci.Journal.{
  JournalOutcome, JournalEntry, job_submitted, committee_selected, attestation_received, aggregated,
  anchored, reconstruct_state, apply_entries, apply_entry, new, or_insert, jobs_where,
  pending_re_anchor, pending_re_run, anchored_jobs,
}

-- Job 1 was anchored, job 2 counted, and job 3 had only started when the coordinator stopped.
abbrev entries : List JournalEntry
entries =
    job_submitted 1
    ∷ job_submitted 2
    ∷ committee_selected 1 (4 ∷ 5 ∷ [])
    ∷ committee_selected 2 (5 ∷ 6 ∷ [])
    ∷ attestation_received 1 4
    ∷ aggregated 1 JournalOutcome.pass "aa"
    ∷ aggregated 2 JournalOutcome.fail "bb"
    ∷ attestation_received 2 6
    ∷ anchored 1 9
    ∷ job_submitted 3
    ∷ []

re_anchors : pending_re_anchor (reconstruct_state entries) ≡ 2 ∷ []
unfolding pending_re_anchor reconstruct_state apply_entries apply_entry new or_insert jobs_where get
    insert
re_anchors = refl

re_runs : pending_re_run (reconstruct_state entries) ≡ 3 ∷ []
unfolding pending_re_run reconstruct_state apply_entries apply_entry new or_insert jobs_where get
    insert
re_runs = refl

completes : anchored_jobs (reconstruct_state entries) ≡ 1 ∷ []
unfolding anchored_jobs reconstruct_state apply_entries apply_entry new or_insert jobs_where get
    insert
completes = refl
