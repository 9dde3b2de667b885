-- ===== src/Rounds/Collected.antt =====
-- The attestations of a job: each is signed by a member of its committee, and collecting them keeps
-- the log, the stakes and the records.
use cosaci.Prelude.{
  ℕ, ◌≡◌, refl, ◌∙◌, inl, inr, true, some, List, [], ◌∷◌, arith, All, Has, Option-cases, Bool-cases,
  nat_key,
}
use cosaci.Quorum.{Outcome}
use cosaci.Journal.{JournalEntry}
use cosaci.Attestations.{Attestation, verify_signature}
use cosaci.Jobs.{CapturedOutput}
use cosaci.Rounds.{RegisteredAgent, Services, Coordinator, journal_append, is_member, JobArgs}
use cosaci.Rounds.Steps.{
  persist_captures, keep_captures, receive, collect_attestations, slash_after,
}

-- The log, the stakes and the records are the same.
pub record IsKept (s t : Coordinator) : Type 0 where
  pub log_kept : t.log ≡ s.log
  pub stakes_kept : t.stake_ledger ≡ s.stake_ledger
  pub records_kept : t.records ≡ s.records

pub keeps : (s : Coordinator) → IsKept s s
keeps s = record { log_kept = refl; stakes_kept = refl; records_kept = refl }

pub then_keeps : (s t u : Coordinator) → IsKept s t → IsKept t u → IsKept s u
then_keeps s t u a b = record {
  log_kept = b.log_kept ∙ a.log_kept;
  stakes_kept = b.stakes_kept ∙ a.stakes_kept;
  records_kept = b.records_kept ∙ a.records_kept;
}

pub journal_append-IsKept : (e : JournalEntry) (s : Coordinator) → IsKept s (journal_append e s)
unfolding journal_append
journal_append-IsKept e s = record {
  log_kept = ground arith;
  stakes_kept = ground arith;
  records_kept = ground arith;
}

-- The attestation is signed with the key of a member of the committee.
pub record IsFromMember (v : Services) (committee : List ℕ) (agents : List RegisteredAgent)
    (att : Attestation) : Type 0 where
  pub agent : RegisteredAgent
  pub registered : Has agent agents
  pub member : is_member agent.runner_id committee ≡ true
  pub signed : verify_signature v.crates agent.signing_pk att ≡ true

module _ (v : Services) (j : JobArgs) where
  keep_captures-IsKept :
      (runner_id : ℕ) (captures : List CapturedOutput) (s : Coordinator)
      → IsKept s (keep_captures v j runner_id captures s)
  unfolding persist_captures
  keep_captures-IsKept runner_id captures s = record {
    log_kept = ground arith;
    stakes_kept = ground arith;
    records_kept = ground arith;
  }

  receive-IsKept : (ag : RegisteredAgent) (s : Coordinator) → IsKept s (receive v j ag s).0
  unfolding receive journal_append persist_captures
  receive-IsKept ag s = record {
    log_kept = ground arith;
    stakes_kept = ground arith;
    records_kept = ground arith;
  }

  receive-signed :
      (ag : RegisteredAgent) (s : Coordinator) (att : Attestation)
      → (receive v j ag s).1 ≡ some att
      → verify_signature v.crates ag.signing_pk att ≡ true
  unfolding receive
  receive-signed ag s att h = ground arith

  pub collect_attestations-IsKept :
      (committee : List ℕ) (agents : List RegisteredAgent) (s : Coordinator)
      → IsKept s (collect_attestations v j committee agents s).0
  unfolding collect_attestations
  collect_attestations-IsKept committee [] s = keeps s
  collect_attestations-IsKept committee (ag ∷ agents) s =
      elim (Bool-cases (is_member ag.runner_id committee)) [
        | inr out ↦ rw out (collect_attestations-IsKept committee agents s)
        | inl member ↦
            let next = (receive v j ag s).0 in
            rw member (
              then_keeps s next (collect_attestations v j committee agents next).0
                (receive-IsKept ag s) (collect_attestations-IsKept committee agents next))
      ]

  pub collect_attestations-All :
      (committee : List ℕ) (agents : List RegisteredAgent) (s : Coordinator)
      → All (IsFromMember v committee agents) (collect_attestations v j committee agents s).1
  unfolding collect_attestations
  collect_attestations-All committee [] s = tt
  collect_attestations-All committee (ag ∷ agents) s =
      elim (Bool-cases (is_member ag.runner_id committee)) [
        | inr out ↦
            rw out (widened committee ag agents _ (collect_attestations-All committee agents s))
        | inl member ↦
            let next = (receive v j ag s).0 in
            let later =
              widened committee ag agents _ (collect_attestations-All committee agents next) in
            elim (Option-cases (receive v j ag s).1) [
              | inl nothing ↦ rw (member, nothing) later
              | inr (att, received) ↦
                  rw (member, received)
                    (
                      record {
                        agent = ag;
                        registered = inl refl;
                        member = member;
                        signed = receive-signed ag s att received;
                      },
                      later,
                    )
            ]
      ]
    where
      widened :
          (committee : List ℕ) (ag : RegisteredAgent) (agents : List RegisteredAgent)
          (atts : List Attestation)
          → All (IsFromMember v committee agents) atts
          → All (IsFromMember v committee (ag ∷ agents)) atts
      widened committee ag agents [] a = tt
      widened committee ag agents (att ∷ atts) a =
          let m = a.0 in
          (
            record {
              agent = m.agent;
              registered = inr m.registered;
              member = m.member;
              signed = m.signed;
            },
            widened committee ag agents atts a.1,
          )

  pub slash_after-log :
      (outcome : Outcome) (atts : List Attestation) (s : Coordinator)
      → ((slash_after v j outcome atts s).log ≡ s.log)
        × ((slash_after v j outcome atts s).records ≡ s.records)
  unfolding slash_after
  slash_after-log outcome atts s = (ground arith, ground arith)
