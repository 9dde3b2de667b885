-- ===== src/Retrieval/Bundles.antt =====
-- Every bundle verifies, and stays the same while the log grows.
use cosaci.Prelude.{
  ℕ, ◌≤◌, ◌<◌, ◌^◌, ◌≡◌, true, some, List, ◌++◌, arith, length, get_elem?, nat_key,
}
use cosaci.Map.{Map, get}
use cosaci.MerkleLog.{Hash, Trees, MerkleLog, verify_inclusion}
use cosaci.MerkleLog.Prefixes.{IsComplete, inclusion_proof_at-verifies, prefix_fixed}
use cosaci.Retrieval.{JobRecord, JobBundle, bundle_of, build_bundle}

-- The record of a job that was anchored in the log: its position lies before the length that it
-- remembers, and the log has grown to that length.
pub record IsAnchored {S Attestation : Type 0} (r : JobRecord Attestation) (log : MerkleLog S)
    : Type 0 where
  pub below : r.log_position < r.log_length_at_anchor
  pub inside : r.log_length_at_anchor ≤ length log.entries

-- With complete trees and fewer than 2 ^ 64 entries, the bundle of an anchored job can be built
-- from the log and from every log that extends it, it is the same one each time, its proof passes
-- `verify_inclusion` against its root, and the proof is about the entry at the job's position.
pub build_bundle-verifies :
    {S Attestation : Type 0} (t : Trees) (records : Map ℕ (JobRecord Attestation))
    (log log' : MerkleLog S) (more : List Hash) (job_id : ℕ) (r : JobRecord Attestation)
    → IsComplete t
    → get job_id records ≡ some r
    → IsAnchored r log
    → length log.entries < 2 ^ 64
    → log'.entries ≡ log.entries ++ more
    → (b : JobBundle Attestation) × (build_bundle t records log job_id ≡ some b)
      × (build_bundle t records log' job_id ≡ some b)
      × (verify_inclusion t b.merkle_proof b.log_root ≡ true)
      × (get_elem? log.entries r.log_position ≡ some b.merkle_proof.entry)
unfolding build_bundle
build_bundle-verifies t records log log' more job_id r c e a small extends =
    let inside = a.inside in
    let (proof, root, e', e'', checked, entry) =
      inclusion_proof_at-verifies t log r.log_position r.log_length_at_anchor c a.below inside in
    let (same_root, same_proof, _) =
      prefix_fixed t log log' more r.log_length_at_anchor r.log_position extends inside
        (omega arith) in
    (bundle_of r proof root, ground arith, ground (arith, same_root, same_proof), checked, entry)
