-- ===== src/MerkleLog/Examples.antt =====
-- Runs of the log, and the theorems at concrete inputs.
use cosaci.Prelude.{◌≡◌, refl, true, some, [], ◌∷◌, arith, get_elem?, ok, err}
use cosaci.MerkleLog.{
  Hash, InclusionProof, MerkleLog, mem_append, FileStore, file_open, file_append, invalid_data,
  write_failed, root_at, inclusion_proof_at, peak_hashes, peak_heights, heights_below,
  verify_inclusion,
}
use cosaci.MerkleLog.Leaves.{
  leaves_trees, leaves_trees-IsComplete, hash_one, hash_two, hash_three, short_log, long_log,
}
use cosaci.MerkleLog.Prefixes.{prefix_fixed, inclusion_proof_at-verifies}
use cosaci.MerkleLog.Files.{append_all, reopen_appended, reopen_torn}

heights : peak_heights 13 ≡ 3 ∷ 2 ∷ 0 ∷ []
unfolding peak_heights heights_below
heights = refl

prefix_fixed_example :
    (root_at leaves_trees 2 long_log ≡ root_at leaves_trees 2 short_log)
    × (inclusion_proof_at leaves_trees 1 2 long_log ≡ inclusion_proof_at leaves_trees 1 2 short_log)
    × (peak_hashes leaves_trees 2 long_log ≡ peak_hashes leaves_trees 2 short_log)
unfolding mem_append
prefix_fixed_example =
    prefix_fixed leaves_trees short_log long_log (hash_three ∷ []) 2 1 refl (omega arith)
      (omega arith)

inclusion_proof_at-verifies_example :
    (proof : InclusionProof) × (r : Hash) × (inclusion_proof_at leaves_trees 0 2 short_log
      ≡ some proof)
    × (root_at leaves_trees 2 short_log ≡ some r)
    × (verify_inclusion leaves_trees proof r ≡ true)
    × (get_elem? short_log.entries 0 ≡ some proof.entry)
inclusion_proof_at-verifies_example =
    inclusion_proof_at-verifies leaves_trees short_log 0 2 leaves_trees-IsComplete (omega arith)
      (omega arith)

reopen_appended_example :
    (empty : MerkleLog FileStore) × (file_open [] ≡ ok empty)
    × (file_open (append_all (hash_one ∷ hash_two ∷ []) empty).store.file
        ≡ ok (append_all (hash_one ∷ hash_two ∷ []) empty))
    × ((append_all (hash_one ∷ hash_two ∷ []) empty).entries ≡ hash_one ∷ hash_two ∷ [])
reopen_appended_example = reopen_appended (hash_one ∷ hash_two ∷ []) (refl, (refl, tt))

abbrev file_log : MerkleLog FileStore
file_log = record { entries = hash_one ∷ []; store = record { file = hash_one; stored_len = 1 } }

reopen_torn_example :
    let (after, result) = file_append (some 5) hash_two file_log in
    (result ≡ err write_failed)
    × (after.entries ≡ file_log.entries)
    × (file_open after.store.file ≡ err invalid_data)
reopen_torn_example =
    reopen_torn 5 hash_two file_log (record { hashes = (refl, tt); written = refl; counted = refl })
      refl (omega arith) (omega arith)
