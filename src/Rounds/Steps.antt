-- ===== src/Rounds/Steps.antt =====
-- `run_one_job` of bins/cosaci-coordinator/src/main.rs, phase by phase.
use cosaci.Prelude.{
  ℕ, Bool, true, false, not, ◌&&◌, Option, none, some, List, [], ◌∷◌, if◌then◌else◌, nat_beq, map,
  nat_key, bytes_key,
}
use cosaci.Map.{Map, get, insert}
use cosaci.Text.{is_empty}
use cosaci.Quorum.{Outcome, StakeMap, aggregate}
use cosaci.StakeLedger.{slash_minority}
use cosaci.Capabilities.{Capabilities, Candidate, select_capability_aware_committee}
use cosaci.Journal.{job_submitted, committee_selected, attestation_received, aggregated, anchored}
use cosaci.Attestations.{Attestation, verify_signature}
use cosaci.Jobs.{CapturedOutput}
use cosaci.Protocol.{vrf_claim, submit_attestation}
use cosaci.Rounds.{
  RegisteredAgent, Services, append, log_len, captures_path, Coordinator, journal_append,
  job_seed_bytes, hex_lower, outcome_to_journal, is_member, all_take_seed, all_take_assign, Claim,
  consensus_artifact, vote_of, committee_stake, threshold_of, for_slashing, JobEnd, JobArgs,
  finished, io_error,
}

module _ (v : Services) (j : JobArgs) where
  -- Phase 2a: a claim that is read, about this job, and proved; an error of a stream ends the job.
  unfoldable pub collect_claims : List RegisteredAgent → Option (List Claim)
  collect_claims [] = some []
  collect_claims (ag ∷ agents) =
      let rest = collect_claims agents in
      elim ag.claim [
        | none ↦ none
        | some env ↦ elim rest [
          | none ↦ none
          | some claims ↦ elim env [
            | vrf_claim claim_job_id vrf_output vrf_proof ↦
                if not (nat_beq claim_job_id j.job_id)
                then some claims
                else if v.vrf_verify ag.vrf_pk (job_seed_bytes j.job_id) vrf_output vrf_proof
                then some (record { id = ag.runner_id; vrf_output = vrf_output } ∷ claims)
                else some claims
            | _ ↦ some claims
          ]
        ]
      ]

  -- Phase 2b: `agent_caps` and `candidates`.
  unfoldable pub agent_caps : Map ℕ Capabilities → List RegisteredAgent → Map ℕ Capabilities
  agent_caps caps [] = caps
  agent_caps caps (ag ∷ agents) = agent_caps (insert ag.runner_id ag.capabilities caps) agents

  unfoldable pub candidates_of : Map ℕ Capabilities → List Claim → List Candidate
  candidates_of caps [] = []
  candidates_of caps (c ∷ claims) =
      let rest = candidates_of caps claims in
      elim (get c.id caps) [
        | none ↦ rest
        | some own ↦ record { id = c.id; capabilities = own; vrf_output = c.vrf_output } ∷ rest
      ]

  -- `persist_captures`, whose error is only logged.
  unfoldable pub persist_captures : ℕ → List CapturedOutput → Coordinator → Coordinator
  persist_captures runner_id captures s = elim (v.encode_captures captures) [
    | none ↦ s
    | some buf ↦
        if j.disk_writes
        then record s {
          captures = insert (captures_path j.captures_dir j.job_id runner_id) buf s.captures;
        }
        else s
  ]

  abbrev pub keep_captures : ℕ → List CapturedOutput → Coordinator → Coordinator
  keep_captures runner_id captures s =
      if not (is_empty captures) && not (is_empty j.captures_dir)
      then persist_captures runner_id captures s
      else s

  -- Phase 2d, for a member of the committee: its attestation, if one is read and signed with its
  -- key; otherwise it is missing.
  unfoldable pub receive : RegisteredAgent → Coordinator → Coordinator × Option Attestation
  receive ag s = elim ag.reply [
    | none ↦ (s, none)
    | some env ↦ elim env [
      | submit_attestation bundle ↦
          if verify_signature v.crates ag.signing_pk bundle.attestation
          then (
            journal_append (attestation_received j.job_id ag.runner_id)
                (keep_captures ag.runner_id bundle.captures s),
            some bundle.attestation,
          )
          else (s, none)
      | _ ↦ (s, none)
    ]
  ]

  unfoldable pub collect_attestations :
      List ℕ → List RegisteredAgent → Coordinator → Coordinator × List Attestation
  collect_attestations committee [] s = (s, [])
  collect_attestations committee (ag ∷ agents) s =
      let (next, att) = receive ag s in
      let (then_next, after) = collect_attestations committee agents next in
      let (passed, without) = collect_attestations committee agents s in
      if not (is_member ag.runner_id committee)
      then (passed, without)
      else (then_next, elim att [ none ↦ after | some a ↦ a ∷ after ])

  abbrev pub stake_snapshot : Coordinator → StakeMap
  stake_snapshot s = s.stake_ledger.stakes

  unfoldable pub outcome_of : List ℕ → List Attestation → Coordinator → Outcome
  outcome_of committee attestations s =
      aggregate (map vote_of attestations)
        (threshold_of (committee_stake (stake_snapshot s) committee)) (stake_snapshot s)

  abbrev pub slashes : Outcome → Bool
  slashes Outcome.pass = true
  slashes Outcome.fail = true
  slashes _ = false

  unfoldable pub slash_after : Outcome → List Attestation → Coordinator → Coordinator
  slash_after outcome attestations s = elim j.share [
    | none ↦ s
    | some share ↦
        if slashes outcome
        then record s {
          stake_ledger =
              (slash_minority share (consensus_artifact j.iterate attestations)
                (map for_slashing attestations) s.stake_ledger).0;
        }
        else s
  ]

  -- What follows a pass; the log line's root is left out.
  unfoldable pub anchor : List Attestation → Coordinator → Coordinator × JobEnd
  anchor attestations s =
      let artifact = consensus_artifact j.iterate attestations in
      let (log, position) = append j.log_fault artifact s.log in
      elim position [
        | none ↦ (record s { log = log }, io_error)
        | some pos ↦ (
          journal_append (anchored j.job_id pos) (record s {
            log = log;
            records =
                insert j.job_id
                  (record {
                    job_id = j.job_id;
                    pipeline_hash = v.sha256 (v.canonical_encoding j.pipeline);
                    committee_attestations = attestations;
                    consensus_artifact = artifact;
                    log_position = pos;
                    log_length_at_anchor = log_len log;
                  })
                  s.records;
          }),
          finished,
        )
      ]

  -- Phase 2e.
  unfoldable pub conclude : List ℕ → List Attestation → Coordinator → Coordinator × JobEnd
  conclude committee attestations s =
      let outcome = outcome_of committee attestations s in
      let entry =
        aggregated j.job_id (outcome_to_journal outcome)
          (v.text_of (hex_lower (consensus_artifact j.iterate attestations))) in
      let slashed = slash_after outcome attestations (journal_append entry s) in
      elim outcome [ Outcome.pass ↦ anchor attestations slashed | _ ↦ (slashed, finished) ]

  -- Phases 2c to 2e.
  unfoldable pub run_committee : List ℕ → List RegisteredAgent → Coordinator → Coordinator × JobEnd
  run_committee committee agents s =
      let selected = journal_append (committee_selected j.job_id committee) s in
      let (next, attestations) = collect_attestations committee agents selected in
      if all_take_assign committee agents
      then conclude committee attestations next
      else (selected, io_error)

  unfoldable pub run_one_job : List RegisteredAgent → Coordinator → Coordinator × JobEnd
  run_one_job agents s =
      let started = journal_append (job_submitted j.job_id) s in
      if not (all_take_seed agents) then (started, io_error) else elim (collect_claims agents) [
        | none ↦ (started, io_error)
        | some claims ↦
            elim (select_capability_aware_committee (candidates_of (agent_caps [] agents) claims)
              j.requirements j.committee_size) [
                | none ↦ (started, finished)
                | some committee ↦ run_committee committee agents started
              ]
      ]
