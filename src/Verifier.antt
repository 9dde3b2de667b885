-- ===== src/Verifier.antt =====
-- crates/cosaci-core/src/verifier.rs: the root of a set of leaves. A leaf is its 32 bytes; the
-- tree of `rs_merkle` is the argument.
pub mod Roots
mod Examples
use cosaci.Prelude.{
  ℕ, suc, Bool, Option, none, some, List, [], ◌∷◌, if◌then◌else◌, length, ◌==◌, bytes_key,
}
use cosaci.Capabilities.{bytes_leb}
use cosaci.Sorting.{sort}
use cosaci.Text.{is_empty}

-- `rs_merkle` with SHA-256: the root, the siblings of a leaf, and the check of a proof against a
-- root, the place, the leaf and the number of leaves.
pub record MerkleTree : Type 0 where
  pub root : List (List ℕ) → Option (List ℕ)
  pub proof : List (List ℕ) → ℕ → List (List ℕ)
  pub verify : List (List ℕ) → List ℕ → ℕ → List ℕ → ℕ → Bool

abbrev pub sorted : List (List ℕ) → List (List ℕ)
sorted = sort bytes_leb

pub record InclusionProof : Type 0 where
  pub leaf : List ℕ
  pub index : ℕ
  pub proof_hashes : List (List ℕ)
  pub total_leaves : ℕ

-- `iter().position(|&l| l == leaf)`
unfoldable pub position : List ℕ → List (List ℕ) → Option ℕ
position leaf [] = none
position leaf (l ∷ leaves) =
    let rest = position leaf leaves in
    if l == leaf then some 0 else elim rest [ none ↦ none | some i ↦ some (suc i) ]

module _ (tree : MerkleTree) where
  unfoldable pub compute_root : List (List ℕ) → Option (List ℕ)
  compute_root leaves = if is_empty leaves then none else tree.root (sorted leaves)

  unfoldable pub inclusion_proof : List (List ℕ) → List ℕ → Option InclusionProof
  inclusion_proof leaves leaf =
      if is_empty leaves then none else elim (position leaf (sorted leaves)) [
        | none ↦ none
        | some index ↦ some record {
          leaf = leaf;
          index = index;
          proof_hashes = tree.proof (sorted leaves) index;
          total_leaves = length (sorted leaves);
        }
      ]

  unfoldable pub verify_inclusion : InclusionProof → List ℕ → Bool
  verify_inclusion p root = tree.verify p.proof_hashes root p.index p.leaf p.total_leaves
