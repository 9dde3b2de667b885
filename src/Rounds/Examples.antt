-- ===== src/Rounds/Examples.antt =====
-- Runs of a job, and the theorem at one. A signature and a VRF proof always hold here, and the three
-- runners have the stakes 10, 1 and 1.
use mathlib.Core.List.Perm
use cosaci.Prelude.{
  length, All, ℕ, ◌/◌, ◌≡◌, ◌⊎◌, refl, true, none, some, List, [], ◌∷◌, nat_key, bytes_key,
}
use cosaci.Quorum.{weight_of}
use cosaci.StakeLedger.{StakeLedger}
use cosaci.Capabilities.{Capabilities, JobRequirements, linux_x86_64, wasm}
use cosaci.Attestations.{Attestation, AttestationResult}
use cosaci.Protocol.{vrf_claim, submit_attestation, register}
use cosaci.Map.{Map}
use cosaci.Rounds.{
  consensus_artifact, artifact_counts, max_from, RegisteredAgent, Services, mem, entries_of,
  Coordinator, JobArgs,
}
use cosaci.Rounds.Steps.{run_one_job}
use cosaci.Enrollment.{EnrollmentSet, is_enrolled}
use cosaci.Rounds.Fleet.{
  Connection, admit_agent, accept_agent, accept_fleet, IsAdmitted, accept_fleet-All,
}
use cosaci.Rounds.Signed.{Anchors, run_one_job-Anchors}

abbrev services : Services
services = record {
  crates = record {
    encode = λ a. [];
    decode = λ bytes. none;
    sha256 = λ bytes. bytes;
    public_of = λ seed. seed;
    sign = λ seed message. message;
    verify_strict = λ pk message signature. true;
  };
  vrf_verify = λ pubkey message output proof. true;
  sha256 = λ bytes. bytes;
  canonical_encoding = λ pipeline. [];
  encode_captures = λ captures. none;
  text_of = λ bytes. "hash";
}

abbrev attests : ℕ → AttestationResult → List ℕ → Attestation
attests runner_id result artifact_hash = record {
  version = 1;
  job_id = [];
  commit = [];
  runner_id = runner_id;
  result = result;
  environment_hash = [];
  artifact_hash = artifact_hash;
  timestamp_unix_ns = 0;
  signature = [];
}

abbrev runner : ℕ → ℕ → Attestation → RegisteredAgent
runner id stake att = record {
  runner_id = id;
  signing_pk = id ∷ [];
  vrf_pk = id ∷ [];
  stake = stake;
  capabilities = record { cpu = 4; memory_mb = 4; platform = linux_x86_64; runtimes = wasm ∷ [] };
  takes_seed = true;
  claim = some (vrf_claim 1 (id ∷ []) []);
  takes_assign = true;
  reply = some (submit_attestation (record { attestation = att; captures = [] }));
}

abbrev job : JobArgs
job = record {
  job_id = 1;
  committee_size = 3;
  pipeline = record { steps = [] };
  requirements = record { cpu = 1; memory_mb = 1; platform = linux_x86_64; runtimes = wasm ∷ [] };
  share = some (λ stake. stake / 2);
  captures_dir = [];
  log_fault = none;
  disk_writes = true;
  iterate = λ counts. counts;
}

abbrev start : Coordinator
start = record {
  stake_ledger = record { stakes = (1, 10) ∷ (2, 1) ∷ (3, 1) ∷ [] };
  log = mem (record { entries = []; store = record { stored = [] } });
  records = [];
  journal = none;
  captures = [];
}

-- The first runner's stake passes the job, and the two that failed it have one artifact.
abbrev outvoted : List RegisteredAgent
outvoted =
    runner 1 10 (attests 1 AttestationResult.pass (7 ∷ []))
    ∷ runner 2 1 (attests 2 AttestationResult.fail (8 ∷ []))
    ∷ runner 3 1 (attests 3 AttestationResult.fail (8 ∷ []))
    ∷ []

-- The artifact of those that failed is anchored, and the runner that passed loses half its stake.
anchors_failed_artifact :
    (entries_of (run_one_job services job outvoted start).0.log ≡ (8 ∷ []) ∷ [])
    × (weight_of (run_one_job services job outvoted start).0.stake_ledger.stakes 1 ≡ 5)
unfolding cosaci.Rounds.Steps.run_one_job cosaci.Rounds.Steps.collect_claims
    cosaci.Rounds.Steps.candidates_of cosaci.Rounds.Steps.agent_caps
    cosaci.Rounds.Steps.run_committee cosaci.Rounds.Steps.conclude cosaci.Rounds.Steps.outcome_of
    cosaci.Rounds.Steps.anchor cosaci.Rounds.append cosaci.Rounds.artifact_counts
    cosaci.Rounds.Steps.collect_attestations cosaci.Rounds.committee_stake
    cosaci.Rounds.consensus_artifact cosaci.Rounds.journal_append cosaci.Rounds.max_from
    cosaci.Rounds.Steps.receive cosaci.Rounds.Steps.slash_after cosaci.Rounds.threshold_of
    cosaci.Rounds.job_seed_bytes cosaci.Capabilities.select_capability_aware_committee
    cosaci.Capabilities.eligible cosaci.Capabilities.matches cosaci.Capabilities.is_subset
    cosaci.Capabilities.has_runtime cosaci.Capabilities.rank cosaci.Capabilities.insert_ranked
    cosaci.Map.get cosaci.Map.insert cosaci.Map.contains_key cosaci.Quorum.aggregate
    cosaci.Quorum.outcome_of cosaci.Quorum.latest cosaci.Quorum.latest_from cosaci.Quorum.tally_from
    cosaci.Quorum.count_vote cosaci.Quorum.total_stake cosaci.Attestations.verify_signature
    cosaci.Attestations.canonical_signing_input cosaci.Attestations.canonicalize
    cosaci.MerkleLog.mem_append cosaci.MerkleLog.file_append cosaci.StakeLedger.slash_minority
    cosaci.StakeLedger.slash_one cosaci.StakeLedger.slash cosaci.StakeLedger.stake_of
anchors_failed_artifact = (refl, refl)

-- The first runner fails the job, and the third passes it in the first one's name.
abbrev borrowed : List RegisteredAgent
borrowed =
    runner 1 10 (attests 1 AttestationResult.fail (7 ∷ []))
    ∷ runner 2 1 (attests 2 AttestationResult.fail (7 ∷ []))
    ∷ runner 3 1 (attests 1 AttestationResult.pass (7 ∷ []))
    ∷ []

passes_in_its_name : entries_of (run_one_job services job borrowed start).0.log ≡ (7 ∷ []) ∷ []
unfolding cosaci.Rounds.Steps.run_one_job cosaci.Rounds.Steps.collect_claims
    cosaci.Rounds.Steps.candidates_of cosaci.Rounds.Steps.agent_caps
    cosaci.Rounds.Steps.run_committee cosaci.Rounds.Steps.conclude cosaci.Rounds.Steps.outcome_of
    cosaci.Rounds.Steps.anchor cosaci.Rounds.append cosaci.Rounds.artifact_counts
    cosaci.Rounds.Steps.collect_attestations cosaci.Rounds.committee_stake
    cosaci.Rounds.consensus_artifact cosaci.Rounds.journal_append cosaci.Rounds.max_from
    cosaci.Rounds.Steps.receive cosaci.Rounds.Steps.slash_after cosaci.Rounds.threshold_of
    cosaci.Rounds.job_seed_bytes cosaci.Capabilities.select_capability_aware_committee
    cosaci.Capabilities.eligible cosaci.Capabilities.matches cosaci.Capabilities.is_subset
    cosaci.Capabilities.has_runtime cosaci.Capabilities.rank cosaci.Capabilities.insert_ranked
    cosaci.Map.get cosaci.Map.insert cosaci.Map.contains_key cosaci.Quorum.aggregate
    cosaci.Quorum.outcome_of cosaci.Quorum.latest cosaci.Quorum.latest_from cosaci.Quorum.tally_from
    cosaci.Quorum.count_vote cosaci.Quorum.total_stake cosaci.Attestations.verify_signature
    cosaci.Attestations.canonical_signing_input cosaci.Attestations.canonicalize
    cosaci.MerkleLog.mem_append cosaci.MerkleLog.file_append cosaci.StakeLedger.slash_minority
    cosaci.StakeLedger.slash_one cosaci.StakeLedger.slash cosaci.StakeLedger.stake_of
passes_in_its_name = refl

-- Of two artifacts that are named once each, the order of the map decides.
abbrev other_order : Map (List ℕ) ℕ → Map (List ℕ) ℕ
other_order (x ∷ y ∷ counts) = y ∷ x ∷ counts
other_order counts = counts

abbrev split_votes : List Attestation
split_votes =
    attests 1 AttestationResult.pass (7 ∷ []) ∷ attests 2 AttestationResult.pass (8 ∷ []) ∷ []

breaks_ties_by_order :
    (consensus_artifact (λ counts. counts) split_votes ≡ 8 ∷ [])
    × (consensus_artifact other_order split_votes ≡ 7 ∷ [])
unfolding consensus_artifact artifact_counts max_from cosaci.Map.get cosaci.Map.insert
breaks_ties_by_order = (refl, refl)

run_one_job-Anchors_example :
    (entries_of (run_one_job services job outvoted start).0.log ≡ [])
    ⊎ Anchors services job outvoted start (run_one_job services job outvoted start).0
run_one_job-Anchors_example =
    run_one_job-Anchors services job (λ counts. Perm.refl counts) outvoted start

abbrev connection : Connection
connection = record {
  hello = some (
      register 1 (1 ∷ []) (1 ∷ []) (2 ∷ []) [] 10
        (record { cpu = 4; memory_mb = 4; platform = linux_x86_64; runtimes = wasm ∷ [] }));
  takes_ack = true;
  takes_seed = true;
  claim = none;
  takes_assign = true;
  reply = none;
}

-- A list that does not have the runner.
abbrev nobody : EnrollmentSet
nobody = record { records = [] }

rejects_unenrolled : accept_agent services (λ key. true) (some nobody) connection ≡ none
unfolding accept_agent admit_agent is_enrolled cosaci.Map.get
rejects_unenrolled = refl

abbrev fleet : List RegisteredAgent
fleet =
    record {
      runner_id = 1;
      signing_pk = 1 ∷ [];
      vrf_pk = 1 ∷ [];
      stake = 10;
      capabilities = record {
        cpu = 4;
        memory_mb = 4;
        platform = linux_x86_64;
        runtimes = wasm ∷ [];
      };
      takes_seed = true;
      claim = none;
      takes_assign = true;
      reply = none;
    }
    ∷ []

-- A list that has the runner and the fingerprints of its keys.
abbrev listed : EnrollmentSet
listed = record {
  records =
      (
        1,
        record {
          runner_id = 1;
          signing_fp = 1 ∷ [];
          vrf_fp = 1 ∷ [];
          enrolled_at_unix_ns = 0;
          initial_reputation_milli = 0;
        },
      )
      ∷ [];
}

fleet_run : accept_fleet services (λ key. true) (some listed) 1 (connection ∷ []) ≡ some fleet
unfolding accept_fleet accept_agent admit_agent is_enrolled cosaci.Map.get
fleet_run = refl

accept_fleet-All_example :
    (length fleet ≡ 1) × All (IsAdmitted services (λ key. true) (some listed)) fleet
accept_fleet-All_example =
    accept_fleet-All services (λ key. true) (some listed) 1 (connection ∷ []) fleet fleet_run
