-- ===== src/Retrieval/Examples.antt =====
-- A run of retrieval, and the theorem at a concrete input.
use cosaci.Prelude.{ℕ, ◌≡◌, refl, true, some, [], ◌∷◌, arith, get_elem?, nat_key}
use cosaci.Map.{get}
use cosaci.MerkleLog.{mem_append, verify_inclusion}
use cosaci.MerkleLog.Leaves.{
  leaves_trees, leaves_trees-IsComplete, hash_two, hash_three, short_log, long_log,
}
use cosaci.Retrieval.{JobRecord, JobBundle, build_bundle}
use cosaci.Retrieval.Bundles.{build_bundle-verifies}

abbrev job : JobRecord ℕ
job = record {
  job_id = 4;
  pipeline_hash = hash_three;
  committee_attestations = 11 ∷ 12 ∷ [];
  consensus_artifact = hash_two;
  log_position = 1;
  log_length_at_anchor = 2;
}

build_bundle-verifies_example :
    (b : JobBundle ℕ) × (build_bundle leaves_trees ((4, job) ∷ []) short_log 4 ≡ some b)
    × (build_bundle leaves_trees ((4, job) ∷ []) long_log 4 ≡ some b)
    × (verify_inclusion leaves_trees b.merkle_proof b.log_root ≡ true)
    × (get_elem? short_log.entries 1 ≡ some b.merkle_proof.entry)
unfolding get mem_append
build_bundle-verifies_example =
    build_bundle-verifies leaves_trees ((4, job) ∷ []) short_log long_log (hash_three ∷ []) 4 job
      leaves_trees-IsComplete refl (record { below = omega arith; inside = omega arith })
      (omega arith) refl
