-- ===== src/Verifier/Examples.antt =====
-- Runs of the verifier's roots, and a tree that is sound.
use cosaci.Prelude.{ℕ, ◌≡◌, refl, some, List, [], ◌∷◌, ◌++◌, bytes_key, ◌==◌, arith, bytes_beq_iff}
use mathlib.Core.List.{Perm}
use mathlib.Core.List.Perm
use cosaci.Verifier.{MerkleTree, compute_root}
use cosaci.Sorting.{sort, insert}
use cosaci.Verifier.Roots.{IsSound}

-- A tree whose root is the leaves in a row, and whose proof is the leaves.
abbrev concat : List (List ℕ) → List ℕ
concat [] = []
concat (l ∷ leaves) = l ++ concat leaves

abbrev flat : MerkleTree
flat = record {
  root = λ leaves. some (concat leaves);
  proof = λ leaves i. leaves;
  verify = λ proof root i leaf n. concat proof == root;
}

abbrev given : List (List ℕ)
given = (7 ∷ []) ∷ (3 ∷ []) ∷ []

abbrev turned : List (List ℕ)
turned = (3 ∷ []) ∷ (7 ∷ []) ∷ []

root_run : compute_root flat given ≡ some (3 ∷ 7 ∷ [])
unfolding compute_root sort insert
root_run = refl

turned-Perm : Perm given turned
turned-Perm = Perm.swap (3 ∷ []) (7 ∷ []) []

flat-IsSound : IsSound flat
flat-IsSound = record {
  proves = λ leaves i leaf root h e. ground (arith, bytes_beq_iff (concat leaves) root);
}

turned_root : compute_root flat turned ≡ some (3 ∷ 7 ∷ [])
unfolding compute_root sort insert
turned_root = refl
