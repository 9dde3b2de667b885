-- ===== src/Rounds.antt =====
-- bins/cosaci-coordinator/src/main.rs: one job from its submission to its anchor. An agent is what
-- it is registered with, and what its stream does in this job; the readings of the streams, the
-- disk's writes and the cryptography are arguments, and a write to the journal succeeds.
pub mod Steps
pub mod Fleet
pub mod Collected
pub mod Counting
pub mod Signed
mod Examples
use Prim.Native.String.{String}
use cosaci.Prelude.{
  ℕ, suc, ◌+◌, ◌*◌, ◌/◌, ◌%◌, ◌^◌, Bool, true, false, not, ◌&&◌, ◌||◌, Option, none, some, List, [],
  ◌∷◌, ◌++◌, if◌then◌else◌, leb, nat_beq, length, replicate, map, nat_key, bytes_key, Result, ok,
  err,
}
use cosaci.Map.{Map, get, insert}
use cosaci.Text.{codes, decimal, is_empty, ends_with}
use cosaci.Quorum.{Vote, VoteResult, Outcome, StakeMap, weight_of, aggregate}
use cosaci.StakeLedger.{StakeLedger, slash_minority}
use cosaci.StakeLedger as StakeLedger
use cosaci.Capabilities.{
  Capabilities, JobRequirements, Candidate, select_capability_aware_committee,
}
use cosaci.Journal.{
  JournalEntry, JournalOutcome, job_submitted, committee_selected, attestation_received, aggregated,
  anchored,
}
use cosaci.MerkleLog.{MerkleLog, MemStore, FileStore, mem_append, file_append}
use cosaci.Retrieval.{JobRecord}
use cosaci.Submission.{to_le_bytes}
use cosaci.Attestations.{Attestation, AttestationResult, Crates, verify_signature}
use cosaci.Jobs.{Pipeline, CapturedOutput}
use cosaci.Tenant.{lower_digit}
use cosaci.Protocol.{
  Envelope, AttestationBundle, vrf_claim, submit_attestation, register, vrf_registration_challenge,
}
use cosaci.Enrollment.{EnrollmentSet, is_enrolled}

-- `RegisteredAgent`, with what its stream does: whether the two messages are written, and what is
-- read for a claim and for an attestation, if anything is.
pub record RegisteredAgent : Type 0 where
  pub runner_id : ℕ
  pub signing_pk : List ℕ
  pub vrf_pk : List ℕ
  pub stake : ℕ
  pub capabilities : Capabilities
  pub takes_seed : Bool
  pub claim : Option Envelope
  pub takes_assign : Bool
  pub reply : Option Envelope

-- The other crates, and the text of bytes. A pipeline that has no encoding is a panic at the start
-- of its job; here each has one.
pub record Services : Type 0 where
  pub crates : Crates
  pub vrf_verify : (pubkey message output proof : List ℕ) → Bool
  pub sha256 : List ℕ → List ℕ
  pub canonical_encoding : Pipeline → List ℕ
  pub encode_captures : List CapturedOutput → Option (List ℕ)
  pub text_of : List ℕ → String

pub data LogBackend : Type 0 where
  mem : MerkleLog MemStore → LogBackend
  on_file : MerkleLog FileStore → LogBackend

-- `LogBackend::append`; the fault is that of the file.
unfoldable pub append : Option ℕ → List ℕ → LogBackend → LogBackend × Option ℕ
append fault entry (mem l) = let (next, position) = mem_append entry l in (mem next, some position)
append fault entry (on_file l) =
    let (next, result) = file_append fault entry l in
    (on_file next, elim result [ ok position ↦ some position | err _ ↦ none ])

-- `LogBackend::len`, and the entries.
abbrev pub log_len : LogBackend → ℕ
log_len (mem l) = length l.entries
log_len (on_file l) = length l.entries

abbrev pub entries_of : LogBackend → List (List ℕ)
entries_of (mem l) = l.entries
entries_of (on_file l) = l.entries

-- `root.join(name)`
abbrev pub join : List ℕ → List ℕ → List ℕ
join root name = if is_empty root || ends_with 47 root then root ++ name else root ++ (47 ∷ name)

unfoldable pub captures_path : List ℕ → ℕ → ℕ → List ℕ
captures_path root job_id runner_id =
    join (join root (decimal job_id)) (decimal runner_id ++ codes ".cbor")

-- What the coordinator keeps between jobs; the captures are the files by their paths.
pub record Coordinator : Type 0 where
  pub stake_ledger : StakeLedger
  pub log : LogBackend
  pub records : Map ℕ (JobRecord Attestation)
  pub journal : Option (List JournalEntry)
  pub captures : Map (List ℕ) (List ℕ)

unfoldable pub journal_append : JournalEntry → Coordinator → Coordinator
journal_append entry s = elim s.journal [
  | none ↦ s
  | some entries ↦ record s { journal = some (entries ++ (entry ∷ [])) }
]

-- `job_seed_bytes`
unfoldable pub job_seed_bytes : ℕ → List ℕ
job_seed_bytes job_id = to_le_bytes 8 job_id ++ (replicate 23 0 ++ (171 ∷ []))

unfoldable pub hex_lower : List ℕ → List ℕ
hex_lower [] = []
hex_lower (b ∷ bytes) = lower_digit (b / 16) ∷ lower_digit (b % 16) ∷ hex_lower bytes

unfoldable pub outcome_to_journal : Outcome → JournalOutcome
outcome_to_journal Outcome.pass = JournalOutcome.pass
outcome_to_journal Outcome.fail = JournalOutcome.fail
outcome_to_journal Outcome.retry = JournalOutcome.retry
outcome_to_journal Outcome.escalate = JournalOutcome.escalate

abbrev pub is_member : ℕ → List ℕ → Bool
is_member id [] = false
is_member id (other ∷ rest) = nat_beq other id || is_member id rest

-- The loops that write the seeds and the assignments: every agent takes what it is sent.
abbrev pub all_take_seed : List RegisteredAgent → Bool
all_take_seed [] = true
all_take_seed (ag ∷ agents) = ag.takes_seed && all_take_seed agents

abbrev pub all_take_assign : List ℕ → List RegisteredAgent → Bool
all_take_assign committee [] = true
all_take_assign committee (ag ∷ agents) =
    (not (is_member ag.runner_id committee) || ag.takes_assign) && all_take_assign committee agents

pub record Claim : Type 0 where
  pub id : ℕ
  pub vrf_output : List ℕ

-- `consensus_artifact`: the counts of the artifacts, and the last of the most frequent ones in the
-- order in which the map is iterated. `iterate` is this order, which std makes random.
abbrev pub count_of : List ℕ → Map (List ℕ) ℕ → ℕ
count_of hash counts = elim (get hash counts) [ none ↦ 0 | some n ↦ n ]

unfoldable pub artifact_counts : Map (List ℕ) ℕ → List Attestation → Map (List ℕ) ℕ
artifact_counts counts [] = counts
artifact_counts counts (att ∷ attestations) =
    artifact_counts (insert att.artifact_hash (suc (count_of att.artifact_hash counts)) counts)
      attestations

unfoldable pub max_from : List ℕ × ℕ → Map (List ℕ) ℕ → List ℕ
max_from best [] = best.0
max_from best ((hash, n) ∷ counts) = max_from (if leb best.1 n then (hash, n) else best) counts

abbrev pub max_by_count : Map (List ℕ) ℕ → Option (List ℕ)
max_by_count [] = none
max_by_count (first ∷ counts) = some (max_from first counts)

unfoldable pub consensus_artifact : (Map (List ℕ) ℕ → Map (List ℕ) ℕ) → List Attestation → List ℕ
consensus_artifact iterate attestations =
    elim (max_by_count (iterate (artifact_counts [] attestations))) [
      | none ↦ replicate 32 0
      | some hash ↦ hash
    ]

abbrev pub vote_result : AttestationResult → VoteResult
vote_result AttestationResult.pass = VoteResult.pass
vote_result AttestationResult.fail = VoteResult.fail

abbrev pub vote_of : Attestation → Vote
vote_of att = record { runner_id = att.runner_id; result = vote_result att.result }

-- `committee_stake`, a sum of `u64`, and the threshold.
unfoldable pub committee_stake : StakeMap → List ℕ → ℕ
committee_stake stake [] = 0
committee_stake stake (id ∷ committee) =
    (weight_of stake id + committee_stake stake committee) % 2 ^ 64

unfoldable pub threshold_of : ℕ → ℕ
threshold_of stake = (stake * 2 % 2 ^ 64 + 2) / 3

-- The fields of an attestation that slashing reads.
abbrev pub for_slashing : Attestation → StakeLedger.Attestation
for_slashing att = record { runner_id = att.runner_id; artifact_hash = att.artifact_hash }

pub data JobEnd : Type 0 where
  finished io_error : JobEnd

-- What a job is run with: the flags of the command line, the pipeline and its id, the share of a
-- stake that a disagreement costs, if any, the faults of the log's file and of the captures', and
-- the order in which the map of artifacts is iterated.
pub record JobArgs : Type 0 where
  pub job_id : ℕ
  pub committee_size : ℕ
  pub pipeline : Pipeline
  pub requirements : JobRequirements
  pub share : Option (ℕ → ℕ)
  pub captures_dir : List ℕ
  pub log_fault : Option ℕ
  pub disk_writes : Bool
  pub iterate : Map (List ℕ) ℕ → Map (List ℕ) ℕ
