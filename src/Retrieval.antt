-- ===== src/Retrieval.antt =====
-- crates/cosaci-core/src/retrieval.rs: the bundle that an auditor checks. Attestations are opaque.
pub mod Bundles
mod Examples
use cosaci.Prelude.{ℕ, Option, none, some, List, nat_key}
use cosaci.Map.{Map, get}
use cosaci.MerkleLog.{Hash, Trees, InclusionProof, MerkleLog, root_at, inclusion_proof_at}

module _ (Attestation : Type 0) where
  pub record JobRecord : Type 0 where
    pub job_id : ℕ
    pub pipeline_hash : Hash
    pub committee_attestations : List Attestation
    pub consensus_artifact : Hash
    pub log_position : ℕ
    pub log_length_at_anchor : ℕ

  pub record JobBundle : Type 0 where
    pub job_id : ℕ
    pub pipeline_hash : Hash
    pub committee_attestations : List Attestation
    pub consensus_artifact : Hash
    pub merkle_proof : InclusionProof
    pub log_root : Hash
    pub log_position : ℕ
    pub log_length_at_anchor : ℕ

module _ {Attestation : Type 0} where
  abbrev pub bundle_of : JobRecord Attestation → InclusionProof → Hash → JobBundle Attestation
  bundle_of r proof root = record {
    job_id = r.job_id;
    pipeline_hash = r.pipeline_hash;
    committee_attestations = r.committee_attestations;
    consensus_artifact = r.consensus_artifact;
    merkle_proof = proof;
    log_root = root;
    log_position = r.log_position;
    log_length_at_anchor = r.log_length_at_anchor;
  }

  unfoldable pub build_bundle :
      {S : Type 0}
      → Trees
      → Map ℕ (JobRecord Attestation)
      → MerkleLog S
      → ℕ
      → Option (JobBundle Attestation)
  build_bundle t records log job_id = elim (get job_id records) [
    | none ↦ none
    | some r ↦ elim (inclusion_proof_at t r.log_position r.log_length_at_anchor log) [
      | none ↦ none
      | some proof ↦ elim (root_at t r.log_length_at_anchor log) [
        | none ↦ none
        | some root ↦ some (bundle_of r proof root)
      ]
    ]
  ]
