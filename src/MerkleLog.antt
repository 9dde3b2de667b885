-- ===== src/MerkleLog.antt =====
-- crates/cosaci-core/src/merkle_log.rs: the append-only log, over memory or a file. The Merkle trees
-- of `rs_merkle` are an argument; a hash is its bytes, and a file the list of its bytes.
pub mod Peaks
pub mod Prefixes
pub mod Files
pub mod Leaves
mod Examples
use cosaci.Prelude.{
  ℕ, zero, suc, ◌+◌, ◌*◌, ◌/◌, ◌%◌, ◌^◌, Bool, true, false, not, ◌||◌, Option, none, some, List, [],
  ◌∷◌, ◌++◌, if◌then◌else◌, Result, ok, err, nat_beq, ltb, leb, length, take, drop, get_elem?,
}

abbrev pub Hash : Type 0
Hash = List ℕ

-- What the log calls of `rs_merkle`: the root and a proof of some leaves, and the check of a proof
-- for one position and entry among a number of leaves.
pub record Trees : Type 0 where
  pub root_of : List Hash → Option Hash
  pub proof_of : List Hash → ℕ → List Hash
  pub verify : List Hash → Hash → ℕ → Hash → ℕ → Bool

pub record InclusionProof : Type 0 where
  pub position : ℕ
  pub entry : Hash
  pub proof_hashes : List Hash
  pub length_at_proof : ℕ

pub record MerkleLog (S : Type 0) : Type 0 where
  pub entries : List Hash
  pub store : S

-- `MemStore`
pub record MemStore : Type 0 where
  pub stored : List Hash

unfoldable pub mem_new : MerkleLog MemStore
mem_new = record { entries = []; store = record { stored = [] } }

unfoldable pub mem_append : Hash → MerkleLog MemStore → MerkleLog MemStore × ℕ
mem_append entry l = (
  record {
    entries = l.entries ++ entry ∷ [];
    store = record { stored = l.store.stored ++ entry ∷ [] };
  },
  length l.store.stored,
)

pub record FileStore : Type 0 where
  pub file : List ℕ
  pub stored_len : ℕ

pub data StoreError : Type 0 where
  invalid_data write_failed : StoreError

-- `FileStore::open`
unfoldable pub open_store : List ℕ → Result FileStore StoreError
open_store bytes =
    if not (nat_beq (length bytes % 32) 0)
    then err invalid_data
    else ok (record { file = bytes; stored_len = length bytes / 32 })

-- `chunks_exact(32)`, `count` of them.
unfoldable pub chunks : ℕ → List ℕ → List Hash
chunks zero bytes = []
chunks (suc count) bytes = take 32 bytes ∷ chunks count (drop 32 bytes)

unfoldable pub read_all : FileStore → Result (List Hash) StoreError
read_all s =
    if not (nat_beq (length s.file % 32) 0)
    then err invalid_data
    else ok (chunks (length s.file / 32) s.file)

unfoldable pub file_open : List ℕ → Result (MerkleLog FileStore) StoreError
file_open bytes = elim (open_store bytes) [
  | err e ↦ err e
  | ok store ↦ elim (read_all store) [
    | err e ↦ err e
    | ok entries ↦ ok (record { entries = entries; store = store })
  ]
]

-- The file after `write_all`, which may fail when it has written `some` number of bytes.
abbrev pub write_all : Option ℕ → List ℕ → List ℕ → List ℕ
write_all none bytes file = file ++ bytes
write_all (some written) bytes file = file ++ take written bytes

unfoldable pub store_append : Option ℕ → Hash → FileStore → FileStore × Result ℕ StoreError
store_append fault entry s =
    let file = write_all fault entry s.file in
    elim fault [
      | none ↦ (record { file = file; stored_len = s.stored_len + 1 }, ok s.stored_len)
      | some _ ↦ (record s { file = file }, err write_failed)
    ]

unfoldable pub file_append :
    Option ℕ → Hash → MerkleLog FileStore → MerkleLog FileStore × Result ℕ StoreError
file_append fault entry l =
    let (store, result) = store_append fault entry l.store in
    elim result [
      | err e ↦ (record l { store = store }, err e)
      | ok position ↦ (record { entries = l.entries ++ entry ∷ []; store = store }, ok position)
    ]

-- `inclusion_proof_at` behind its guards, on the slice of the entries.
unfoldable pub proof_in : Trees → ℕ → ℕ → List Hash → Option InclusionProof
proof_in t position n slice = elim (get_elem? slice position) [
  | none ↦ none
  | some entry ↦ some (record {
    position = position;
    entry = entry;
    proof_hashes = t.proof_of slice position;
    length_at_proof = n;
  })
]

module _ {S : Type 0} where
  unfoldable pub len : MerkleLog S → ℕ
  len l = length l.entries

  unfoldable pub entry_at : ℕ → MerkleLog S → Option Hash
  entry_at position l = get_elem? l.entries position

  unfoldable pub root : Trees → MerkleLog S → Option Hash
  root t l = if nat_beq (length l.entries) 0 then none else t.root_of l.entries

  unfoldable pub root_at : Trees → ℕ → MerkleLog S → Option Hash
  root_at t n l =
      if nat_beq n 0 || ltb (length l.entries) n then none else t.root_of (take n l.entries)

  unfoldable pub inclusion_proof_at : Trees → ℕ → ℕ → MerkleLog S → Option InclusionProof
  unfolding len
  inclusion_proof_at t position n l =
      if nat_beq n 0 || ltb (len l) n || leb n position
      then none
      else proof_in t position n (take n l.entries)

  unfoldable pub inclusion_proof : Trees → ℕ → MerkleLog S → Option InclusionProof
  unfolding len
  inclusion_proof t position l = inclusion_proof_at t position (len l) l

-- The loop of `peak_heights`, from the bits below `bits` down.
unfoldable pub heights_below : ℕ → ℕ → List ℕ
heights_below zero n = []
heights_below (suc h) n =
    let rest = heights_below h n in if nat_beq (n / 2 ^ h % 2) 1 then h ∷ rest else rest

unfoldable pub peak_heights : ℕ → List ℕ
peak_heights n = heights_below 64 n

-- The loop of `peak_hashes`, from `start` on; a root that is missing is a panic.
unfoldable pub peaks_from : Trees → List Hash → ℕ → List ℕ → Option (List Hash)
peaks_from t entries start [] = some []
peaks_from t entries start (h ∷ heights) =
    let count = 2 ^ h in
    let rest = peaks_from t entries (start + count) heights in
    if ltb (length entries) (start + count)
    then none
    else elim (t.root_of (take count (drop start entries))) [
      | none ↦ none
      | some peak ↦ elim rest [ none ↦ none | some peaks ↦ some (peak ∷ peaks) ]
    ]

unfoldable pub peak_hashes : {S : Type 0} → Trees → ℕ → MerkleLog S → Option (List Hash)
peak_hashes t n l =
    if nat_beq n 0 || ltb (length l.entries) n
    then some []
    else peaks_from t l.entries 0 (peak_heights n)

unfoldable pub verify_inclusion : Trees → InclusionProof → Hash → Bool
verify_inclusion t proof root =
    t.verify proof.proof_hashes root proof.position proof.entry proof.length_at_proof
