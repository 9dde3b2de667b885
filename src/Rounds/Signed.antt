-- ===== src/Rounds/Signed.antt =====
-- What a job anchors: an artifact on which signed attestations of its committee passed.
use mathlib.Core.List.{Perm}
use cosaci.Prelude.{
  ℕ, ◌≡◌, ◌≢◌, refl, ap, sym, ◌∙◌, subst, ◌⊎◌, inl, inr, Option, none, some, List, [], ◌∷◌, ◌++◌,
  arith, All, Option-cases, Bool-cases, nat_key, Result-cases,
}
use cosaci.Map.{Map, get, insert, get-insert_self}
use cosaci.Quorum.{Outcome, aggregate, latest, latest_from, tally_from}
use cosaci.Quorum as Quorum
use cosaci.Capabilities.{select_capability_aware_committee}
use cosaci.Journal.{aggregated, anchored, job_submitted, committee_selected}
use cosaci.MerkleLog.{mem_append, file_append}
use cosaci.Retrieval.{JobRecord}
use cosaci.Attestations.{Attestation}
use cosaci.Rounds.{
  RegisteredAgent, Claim, outcome_to_journal, hex_lower, Services, LogBackend, mem, on_file, append,
  entries_of, log_len, Coordinator, journal_append, consensus_artifact, JobArgs, JobEnd, finished,
  all_take_seed, all_take_assign,
}
use cosaci.Rounds.Steps.{
  collect_claims, candidates_of, agent_caps, collect_attestations, outcome_of, slash_after, anchor,
  conclude, run_committee, run_one_job,
}
use cosaci.Rounds.Counting.{IsMostNamed, consensus_artifact-IsMostNamed}
use cosaci.Rounds.Collected.{
  IsKept, then_keeps, journal_append-IsKept, IsFromMember, collect_attestations-IsKept,
  collect_attestations-All, slash_after-log,
}

module _ (v : Services) (j : JobArgs) where
  append-entries :
      (fault : Option ℕ) (entry : List ℕ) (log : LogBackend)
      → (((append fault entry log).1 ≡ none)
          × (entries_of (append fault entry log).0 ≡ entries_of log))
        ⊎ ((position : ℕ) × ((append fault entry log).1 ≡ some position)
            × (entries_of (append fault entry log).0 ≡ entries_of log ++ (entry ∷ [])))
  unfolding append mem_append file_append
  append-entries fault entry (mem l) = inr (_, refl, refl)
  append-entries fault entry (on_file l) = elim (Result-cases (file_append fault entry l).1) [
    | inl (position, e) ↦ inr (position, ground arith, ground arith)
    | inr (fault, e) ↦ inl (ground arith, ground arith)
  ]

  -- What a job adds to the log and the records: an artifact that no other is named more often than
  -- in attestations on which the selected committee passed, each signed with the key of a member.
  pub record Anchors (agents : List RegisteredAgent) (before after : Coordinator) : Type 0 where
    pub committee : List ℕ
    pub attestations : List Attestation
    pub selected :
        (claims : List Claim) × (collect_claims v j agents ≡ some claims)
        × (select_capability_aware_committee
              (candidates_of v j (agent_caps v j [] agents) claims)
              j.requirements
              j.committee_size
            ≡ some committee)
    pub signed : All (IsFromMember v committee agents) attestations
    pub passed : outcome_of v j committee attestations before ≡ Outcome.pass
    pub artifact : List ℕ
    pub most_named : IsMostNamed attestations artifact
    pub logged : entries_of after.log ≡ entries_of before.log ++ (artifact ∷ [])
    pub recorded :
        (r : JobRecord Attestation) × (get j.job_id after.records ≡ some r)
        × (r.committee_attestations ≡ attestations)
        × (r.consensus_artifact ≡ artifact)

  pass_cases : (o : Outcome) → (o ≡ Outcome.pass) ⊎ (o ≢ Outcome.pass)
  pass_cases Outcome.pass = inl refl
  pass_cases Outcome.fail = inr (λ e. absurd (cc (e)))
  pass_cases Outcome.retry = inr (λ e. absurd (cc (e)))
  pass_cases Outcome.escalate = inr (λ e. absurd (cc (e)))

  -- The log and the job's record, after the attestations were aggregated.
  pub record IsAnchored (atts : List Attestation) (before after : Coordinator) : Type 0 where
    pub longer :
        entries_of after.log ≡ entries_of before.log ++ (consensus_artifact j.iterate atts ∷ [])
    pub recorded :
        (r : JobRecord Attestation) × (get j.job_id after.records ≡ some r)
        × (r.committee_attestations ≡ atts)
        × (r.consensus_artifact ≡ consensus_artifact j.iterate atts)

  anchor-cases :
      (atts : List Attestation) (s : Coordinator)
      → (entries_of (anchor v j atts s).0.log ≡ entries_of s.log)
        ⊎ IsAnchored atts s (anchor v j atts s).0
  unfolding anchor
  anchor-cases atts s =
      elim (append-entries j.log_fault (consensus_artifact j.iterate atts) s.log) [
        | inl (failed, same) ↦ inl (rw (failed, anchor) same)
        | inr (pos, e, longer) ↦
            let written : Coordinator = record s {
              log = (append j.log_fault (consensus_artifact j.iterate atts) s.log).0;
              records =
                  insert j.job_id
                    (record {
                      job_id = j.job_id;
                      pipeline_hash = v.sha256 (v.canonical_encoding j.pipeline);
                      committee_attestations = atts;
                      consensus_artifact = consensus_artifact j.iterate atts;
                      log_position = pos;
                      log_length_at_anchor =
                          log_len (append j.log_fault (consensus_artifact j.iterate atts) s.log).0;
                    })
                    s.records;
            } in
            let k = journal_append-IsKept (anchored j.job_id pos) written in
            let same : (anchor v j atts s).0 ≡ journal_append (anchored j.job_id pos) written =
              rw (e, anchor) refl in
            inr (
              subst (IsAnchored atts s) (sym same) (record {
                longer = ap entries_of k.log_kept ∙ longer;
                recorded = (
                  _,
                  ap (λ rs. get j.job_id rs) k.records_kept ∙ get-insert_self j.job_id _ s.records,
                  refl,
                  refl,
                );
              }))
      ]

  conclude-cases :
      (committee : List ℕ) (atts : List Attestation) (s : Coordinator)
      → (entries_of (conclude v j committee atts s).0.log ≡ entries_of s.log)
        ⊎ ((outcome_of v j committee atts s ≡ Outcome.pass)
            × IsAnchored atts s (conclude v j committee atts s).0)
  unfolding conclude
  conclude-cases committee atts s =
      let outcome = outcome_of v j committee atts s in
      let entry =
        aggregated j.job_id (outcome_to_journal outcome)
          (v.text_of (hex_lower (consensus_artifact j.iterate atts))) in
      let k = journal_append-IsKept entry s in
      let slashed = slash_after v j outcome atts (journal_append entry s) in
      let (log_kept, records_kept) = slash_after-log v j outcome atts (journal_append entry s) in
      let entries : entries_of slashed.log ≡ entries_of s.log =
        ap entries_of (log_kept ∙ k.log_kept) in
      elim (pass_cases outcome) [
        | inr other ↦
            let same : conclude v j committee atts s ≡ (slashed, finished) = ground arith in
            inl (ap (λ (p : Coordinator × JobEnd). entries_of p.0.log) same ∙ entries)
        | inl passed ↦
            let same : conclude v j committee atts s ≡ anchor v j atts slashed = ground arith in
            elim (anchor-cases atts slashed) [
              | inl e ↦
                  inl (ap (λ (p : Coordinator × JobEnd). entries_of p.0.log) same ∙ e ∙ entries)
              | inr a ↦ inr (
                passed,
                subst (λ (p : Coordinator × JobEnd). IsAnchored atts s p.0) (sym same)
                    (record {
                      longer =
                          a.longer
                          ∙ ap (λ es. es ++ (consensus_artifact j.iterate atts ∷ [])) entries;
                      recorded = a.recorded;
                    }),
              )
            ]
      ]

  outcome_of-kept :
      (committee : List ℕ) (atts : List Attestation) (s t : Coordinator)
      → IsKept s t
      → outcome_of v j committee atts t ≡ outcome_of v j committee atts s
  unfolding outcome_of
  outcome_of-kept committee atts s t k = rw k.stakes_kept refl

  run_committee-cases :
      (committee : List ℕ) (agents : List RegisteredAgent) (s : Coordinator)
      → (entries_of (run_committee v j committee agents s).0.log ≡ entries_of s.log)
        ⊎ ((atts : List Attestation) × All (IsFromMember v committee agents) atts
            × (outcome_of v j committee atts s ≡ Outcome.pass)
            × IsAnchored atts s (run_committee v j committee agents s).0)
  unfolding run_committee
  run_committee-cases committee agents s =
      let selected = journal_append (committee_selected j.job_id committee) s in
      let next = (collect_attestations v j committee agents selected).0 in
      let atts = (collect_attestations v j committee agents selected).1 in
      let first = journal_append-IsKept (committee_selected j.job_id committee) s in
      let k =
        then_keeps s selected next first
          (collect_attestations-IsKept v j committee agents selected) in
      elim (Bool-cases (all_take_assign committee agents)) [
        | inr broken ↦ inl (rw broken (ap entries_of first.log_kept))
        | inl sent ↦
            let same : run_committee v j committee agents s ≡ conclude v j committee atts next =
              ground arith in
            elim (conclude-cases committee atts next) [
              | inl e ↦ inl (
                  ap (λ (p : Coordinator × JobEnd). entries_of p.0.log) same
                  ∙ e
                  ∙ ap entries_of k.log_kept)
              | inr (passed, a) ↦ inr (
                atts,
                collect_attestations-All v j committee agents selected,
                sym (outcome_of-kept committee atts s next k) ∙ passed,
                subst (λ (p : Coordinator × JobEnd). IsAnchored atts s p.0) (sym same)
                    (record {
                      longer =
                          a.longer
                          ∙ ap (λ log. entries_of log ++ (consensus_artifact j.iterate atts ∷ []))
                              k.log_kept;
                      recorded = a.recorded;
                    }),
              )
            ]
      ]

  -- A committee that nobody attests for does not pass.
  no_votes_lem :
      (committee : List ℕ) (s : Coordinator) → outcome_of v j committee [] s ≢ Outcome.pass
  unfolding outcome_of aggregate latest latest_from tally_from Quorum.outcome_of
  no_votes_lem committee s e = absurd (ground arith)

  passed-IsMostNamed :
      ((counts : Map (List ℕ) ℕ) → Perm (j.iterate counts) counts)
      → (committee : List ℕ) (atts : List Attestation) (s : Coordinator)
      → outcome_of v j committee atts s ≡ Outcome.pass
      → IsMostNamed atts (consensus_artifact j.iterate atts)
  passed-IsMostNamed orders committee [] s e = absurd (no_votes_lem committee s e)
  passed-IsMostNamed orders committee (att ∷ atts) s e =
      consensus_artifact-IsMostNamed j.iterate orders att atts

  -- A job leaves the log as it is, or adds one entry, in whatever order the map of artifacts is
  -- iterated. The entry is an artifact that some of the job's attestations name, and no other
  -- artifact is named by more of them; on these attestations the selected committee passed by the
  -- stakes of before the job, and each is signed with the key of a member. The job's record then
  -- holds just these attestations and this artifact.
  pub run_one_job-Anchors :
      ((counts : Map (List ℕ) ℕ) → Perm (j.iterate counts) counts)
      → (agents : List RegisteredAgent) (s : Coordinator)
      → (entries_of (run_one_job v j agents s).0.log ≡ entries_of s.log)
        ⊎ Anchors agents s (run_one_job v j agents s).0
  unfolding run_one_job
  run_one_job-Anchors orders agents s =
      let started = journal_append (job_submitted j.job_id) s in
      let k = journal_append-IsKept (job_submitted j.job_id) s in
      let kept = ap entries_of k.log_kept in
      elim (Bool-cases (all_take_seed agents)) [
        | inr broken ↦ inl (rw broken kept)
        | inl sent ↦ elim (Option-cases (collect_claims v j agents)) [
          | inl failed ↦ inl (rw (sent, failed) kept)
          | inr (claims, c) ↦
              elim (Option-cases (
                select_capability_aware_committee
                  (candidates_of v j (agent_caps v j [] agents) claims) j.requirements
                  j.committee_size)) [
                    | inl few ↦ inl (rw (sent, c, few) kept)
                    | inr (committee, chosen) ↦
                        elim (run_committee-cases committee agents started) [
                          | inl e ↦ inl (rw (sent, c, chosen) (e ∙ kept))
                          | inr (atts, signed, passed, a) ↦ inr (
                              rw (sent, c, chosen)
                                (record {
                                  committee = committee;
                                  attestations = atts;
                                  selected = (claims, c, chosen);
                                  signed = signed;
                                  passed =
                                      sym (outcome_of-kept committee atts s started k) ∙ passed;
                                  artifact = consensus_artifact j.iterate atts;
                                  most_named =
                                      passed-IsMostNamed orders committee atts started passed;
                                  logged =
                                      a.longer
                                      ∙ ap
                                          (λ log.
                                            entries_of log
                                            ++ (consensus_artifact j.iterate atts ∷ []))
                                          k.log_kept;
                                  recorded = a.recorded;
                                }))
                        ]
                  ]
        ]
      ]
