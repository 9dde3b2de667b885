-- ===== src/Rounds/Fleet.antt =====
-- `accept_fleet` of bins/cosaci-coordinator/src/main.rs: the runners that are registered. A
-- connection is what its stream does, up to the end of the job.
use cosaci.Prelude.{
  ℕ, ◌≡◌, Bool, true, not, Option, none, some, List, [], ◌∷◌, if◌then◌else◌, arith, All, length,
  leb, Option-cases, Bool-cases, inl, inr, ◌-◌, subst,
}
use cosaci.Enrollment.{EnrollmentSet, is_enrolled}
use cosaci.Protocol.{Envelope, register, vrf_registration_challenge}
use cosaci.Rounds.{RegisteredAgent, Services}

-- The envelope that is read first, if one is, and what `RegisteredAgent` has of the stream.
pub record Connection : Type 0 where
  pub hello : Option Envelope
  pub takes_ack : Bool
  pub takes_seed : Bool
  pub claim : Option Envelope
  pub takes_assign : Bool
  pub reply : Option Envelope

-- The enrollment gate; without a set it is open.
abbrev pub passes : Services → Option EnrollmentSet → ℕ → List ℕ → List ℕ → Bool
passes v none runner_id signing_pubkey vrf_pubkey = true
passes v (some set) runner_id signing_pubkey vrf_pubkey =
    is_enrolled runner_id (v.sha256 signing_pubkey) (v.sha256 vrf_pubkey) set

-- The second argument says which bytes are those of a key.
module _ (v : Services) (is_key : List ℕ → Bool) (enrollment : Option EnrollmentSet) where
  -- What follows the reading of an envelope.
  unfoldable pub admit_agent : Connection → Envelope → Option RegisteredAgent
  admit_agent c
        (register runner_id signing_pubkey vrf_pubkey vrf_output vrf_proof stake capabilities) =
      if not (v.vrf_verify vrf_pubkey vrf_registration_challenge vrf_output vrf_proof)
      then none
      else if not (passes v enrollment runner_id signing_pubkey vrf_pubkey)
      then none
      else if not (is_key signing_pubkey)
      then none
      else if not c.takes_ack
      then none
      else some record {
        runner_id = runner_id;
        signing_pk = signing_pubkey;
        vrf_pk = vrf_pubkey;
        stake = stake;
        capabilities = capabilities;
        takes_seed = c.takes_seed;
        claim = c.claim;
        takes_assign = c.takes_assign;
        reply = c.reply;
      }
  admit_agent c _ = none

  -- The turn of the loop for one connection.
  unfoldable pub accept_agent : Connection → Option RegisteredAgent
  accept_agent c = elim c.hello [ none ↦ none | some env ↦ admit_agent c env ]

  -- `none` while more runners are waited for.
  unfoldable pub accept_fleet : (missing : ℕ) → List Connection → Option (List RegisteredAgent)
  accept_fleet missing [] = if leb missing 0 then some [] else none
  accept_fleet missing (c ∷ connections) =
      let without = accept_fleet missing connections in
      let with_one = accept_fleet (missing - 1) connections in
      if leb missing 0 then some [] else elim (accept_agent c) [
        | none ↦ without
        | some ag ↦ elim with_one [ none ↦ none | some agents ↦ some (ag ∷ agents) ]
      ]

  -- A runner with the secret key of its VRF key, and enrolled under both keys' fingerprints where
  -- there is a list.
  pub record IsAdmitted (ag : RegisteredAgent) : Type 0 where
    pub enrolled : passes v enrollment ag.runner_id ag.signing_pk ag.vrf_pk ≡ true
    pub holds_key : is_key ag.signing_pk ≡ true
    pub proved :
        (output : List ℕ) × (proof : List ℕ) × (v.vrf_verify ag.vrf_pk vrf_registration_challenge
            output proof
          ≡ true)

  admit_agent-IsAdmitted :
      (c : Connection) (env : Envelope) (ag : RegisteredAgent)
      → admit_agent c env ≡ some ag
      → IsAdmitted ag
  unfolding admit_agent
  admit_agent-IsAdmitted c (register id signing_pk vrf_pk output proof stake capabilities) ag h =
      record {
        enrolled = ground arith;
        holds_key = ground arith;
        proved = (output, proof, ground arith);
      }
  admit_agent-IsAdmitted c _ ag h = absurd (cc (h))

  accept_agent-IsAdmitted :
      (c : Connection) (ag : RegisteredAgent) → accept_agent c ≡ some ag → IsAdmitted ag
  unfolding accept_agent
  accept_agent-IsAdmitted c ag h = elim (Option-cases c.hello) [
    | inl e ↦ absurd (ground arith)
    | inr (env, e) ↦ admit_agent-IsAdmitted c env ag (rw (e, accept_agent) at h)
  ]

  -- A fleet that is accepted has as many runners as were asked for, and each has proved its VRF
  -- key, has a signing key, and is enrolled under its id with the fingerprints of both where there
  -- is a list.
  pub accept_fleet-All :
      (missing : ℕ) (connections : List Connection) (agents : List RegisteredAgent)
      → accept_fleet missing connections ≡ some agents
      → (length agents ≡ missing) × All IsAdmitted agents
  unfolding accept_fleet
  accept_fleet-All missing [] agents h = elim (Bool-cases (leb missing 0)) [
    | inl done ↦
        let same : [] ≡ agents = ground arith in
        subst (λ ags. (length ags ≡ missing) × All IsAdmitted ags) same (ground arith, tt)
    | inr more ↦ absurd (ground arith)
  ]
  accept_fleet-All missing (c ∷ connections) agents h = elim (Bool-cases (leb missing 0)) [
    | inl done ↦
        let same : [] ≡ agents = ground arith in
        subst (λ ags. (length ags ≡ missing) × All IsAdmitted ags) same (ground arith, tt)
    | inr more ↦ elim (Option-cases (accept_agent c)) [
      | inl refused ↦ accept_fleet-All missing connections agents (ground arith)
      | inr (ag, e) ↦ elim (Option-cases (accept_fleet (missing - 1) connections)) [
        | inl waits ↦ absurd (ground arith)
        | inr (others, r) ↦
            let (count, all) = accept_fleet-All (missing - 1) connections others r in
            let same : ag ∷ others ≡ agents = ground arith in
            subst (λ ags. (length ags ≡ missing) × All IsAdmitted ags) same
              (ground (arith, count), (accept_agent-IsAdmitted c ag e, all))
      ]
    ]
  ]
