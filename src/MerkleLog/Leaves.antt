-- ===== src/MerkleLog/Leaves.antt =====
-- Trees that are their leaves, to run the log on: the root is all the leaves' bytes, and a proof all
-- the leaves; and two small logs.
use cosaci.Prelude.{
  ℕ, false, Bool, ◌&&◌, none, some, List, [], ◌∷◌, arith, if◌then◌else◌, nat_beq, bytes_beq,
  bytes_beq_iff, nat_beq_iff, get_elem?, length, replicate,
}
use cosaci.MerkleLog.{Hash, Trees, MerkleLog, MemStore, mem_append}
use cosaci.MerkleLog.Prefixes.{IsComplete}
use cosaci.MerkleLog.Files.{bytes_of}

abbrev pub leaves_check : List Hash → Hash → ℕ → Hash → ℕ → Bool
leaves_check proof root position entry n = elim (get_elem? proof position) [
  | none ↦ false
  | some leaf ↦ bytes_beq leaf entry && bytes_beq (bytes_of proof) root && nat_beq (length proof) n
]

abbrev pub leaves_trees : Trees
leaves_trees = record {
  root_of = λ leaves. if nat_beq (length leaves) 0 then none else some (bytes_of leaves);
  proof_of = λ leaves position. leaves;
  verify = leaves_check;
}

pub leaves_trees-IsComplete : IsComplete leaves_trees
leaves_trees-IsComplete = record {
  rooted = λ leaves h. (bytes_of leaves, ground arith);
  proves = λ leaves position entry r e found. ground (
    arith,
    bytes_beq_iff entry entry,
    bytes_beq_iff (bytes_of leaves) (bytes_of leaves),
    nat_beq_iff (length leaves) (length leaves),
  );
}

abbrev pub hash_one : Hash
hash_one = replicate 32 1

abbrev pub hash_two : Hash
hash_two = replicate 32 2

abbrev pub hash_three : Hash
hash_three = replicate 32 3

abbrev pub short_log : MerkleLog MemStore
short_log = record {
  entries = hash_one ∷ hash_two ∷ [];
  store = record { stored = hash_one ∷ hash_two ∷ [] };
}

abbrev pub long_log : MerkleLog MemStore
long_log = (mem_append hash_three short_log).0
