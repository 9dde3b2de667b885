-- ===== src/Verifier/Roots.antt =====
-- The root and the proofs do not depend on the order of the leaves.
use cosaci.Prelude.{
  get_elem?, ℕ, suc, ◌≡◌, ◌≢◌, refl, ap, sym, ◌∙◌, subst, ◌↔◌, true, false, none, some, List, [],
  ◌∷◌, arith, length, Has, Bool-cases, Option-cases, inl, inr, bytes_beq_iff, ◌==◌, bytes_key,
}
use mathlib.Core.List.{Perm}
use cosaci.Text.{is_empty}
use cosaci.Capabilities.{bytes_leb}
use cosaci.Capabilities.Sorting.{bytes_leb_total, bytes_leb_trans, bytes_leb_antisym}
use cosaci.Sorting.{insert, sort}
use cosaci.Sorting.Orders.{sort-Perm}
use cosaci.Verifier.{
  MerkleTree, InclusionProof, sorted, position, compute_root, inclusion_proof, verify_inclusion,
}

sorted-Perm : {xs ys : List (List ℕ)} → Perm xs ys → sorted xs ≡ sorted ys
sorted-Perm =
    sort-Perm bytes_leb bytes_leb_total bytes_leb_trans (hlevel)
      (λ a b _ _ h k. bytes_leb_antisym a b h k)

insert-nonempty : (a : List ℕ) (xs : List (List ℕ)) → is_empty (insert bytes_leb a xs) ≡ false
unfolding insert
insert-nonempty a [] = refl
insert-nonempty a (b ∷ xs) = ground arith

is_empty-sorted : (xs : List (List ℕ)) → is_empty (sorted xs) ≡ is_empty xs
unfolding sort
is_empty-sorted [] = refl
is_empty-sorted (a ∷ xs) = insert-nonempty a (sort bytes_leb xs)

-- Leaves in any order have one root: the set is committed to, not a list.
pub compute_root-Perm :
    (tree : MerkleTree) (xs ys : List (List ℕ))
    → Perm xs ys
    → compute_root tree xs ≡ compute_root tree ys
unfolding compute_root
compute_root-Perm tree xs ys p =
    let same = sorted-Perm p in
    let empties : is_empty xs ≡ is_empty ys =
      sym (is_empty-sorted xs) ∙ ap is_empty same ∙ is_empty-sorted ys in
    rw (same, empties) refl

insert-Has : (a x : List ℕ) (xs : List (List ℕ)) → Has x (a ∷ xs) ↔ Has x (insert bytes_leb a xs)
unfolding insert
insert-Has a x [] = (λ h. h, λ h. h)
insert-Has a x (b ∷ xs) = elim (Bool-cases (bytes_leb a b)) [
  | inl e ↦ rw e (λ h. h, λ h. h)
  | inr e ↦
      let (into, back) = insert-Has a x xs in
      rw e (
        (λ h. elim h [
          | inl s ↦ inr (into (inl s))
          | inr (inl s) ↦ inl s
          | inr (inr t) ↦ inr (into (inr t))
        ]),
        (λ h. elim h [
          | inl s ↦ inr (inl s)
          | inr t ↦ elim (back t) [ inl s ↦ inl s | inr u ↦ inr (inr u) ]
        ]),
      )
]

sorted-Has : (x : List ℕ) (xs : List (List ℕ)) → Has x xs ↔ Has x (sorted xs)
unfolding sort
sorted-Has x [] = (λ h. h, λ h. h)
sorted-Has x (a ∷ xs) =
    let (into, back) = sorted-Has x xs in
    let (onto, off) = insert-Has a x (sort bytes_leb xs) in
    (
      (λ h. elim h [ inl s ↦ onto (inl s) | inr t ↦ onto (inr (into t)) ]),
      (λ h. elim (off h) [ inl s ↦ inl s | inr t ↦ inr (back t) ]),
    )

position-get_elem :
    (leaf : List ℕ) (leaves : List (List ℕ)) (i : ℕ)
    → position leaf leaves ≡ some i
    → get_elem? leaves i ≡ some leaf
unfolding position
position-get_elem leaf [] i e = absurd (cc)
position-get_elem leaf (l ∷ leaves) i e = elim (Bool-cases (l == leaf)) [
  | inl h ↦
      let same = (bytes_beq_iff l leaf).0 h in
      let first : 0 ≡ i = ground arith in
      subst (λ j. get_elem? (l ∷ leaves) j ≡ some leaf) first (ap some same)
  | inr h ↦ elim (Option-cases (position leaf leaves)) [
    | inl p ↦ absurd (ground arith)
    | inr (j, p) ↦
        let next : suc j ≡ i = ground arith in
        subst (λ k. get_elem? (l ∷ leaves) k ≡ some leaf) next (position-get_elem leaf leaves j p)
  ]
]

Has-position :
    (leaf : List ℕ) (leaves : List (List ℕ)) → Has leaf leaves → position leaf leaves ≢ none
unfolding position
Has-position leaf [] h e = h.lower
Has-position leaf (l ∷ leaves) (inl s) e = ground (arith, bytes_beq_iff l leaf)
Has-position leaf (l ∷ leaves) (inr h) e = ground (arith, Has-position leaf leaves h)

-- `rs_merkle`: the siblings of a leaf prove it under the root of the leaves.
pub record IsSound (tree : MerkleTree) : Type 0 where
  pub proves :
      (leaves : List (List ℕ)) (i : ℕ) (leaf root : List ℕ)
      → get_elem? leaves i ≡ some leaf
      → tree.root leaves ≡ some root
      → tree.verify (tree.proof leaves i) root i leaf (length leaves) ≡ true

-- Under a sound tree, each leaf of a set has a proof, and any proof of the set, of its leaves in
-- any order, verifies under the root.
pub inclusion_proof-verifies :
    (tree : MerkleTree) (leaves others : List (List ℕ)) (leaf root : List ℕ)
    → IsSound tree
    → Perm leaves others
    → Has leaf leaves
    → compute_root tree others ≡ some root
    → (p : InclusionProof) × (inclusion_proof tree leaves leaf ≡ some p)
      × (p.leaf ≡ leaf)
      × (verify_inclusion tree p root ≡ true)
unfolding inclusion_proof verify_inclusion
inclusion_proof-verifies tree leaves others leaf root sound perm h e =
    let found = Has-position leaf (sorted leaves) ((sorted-Has leaf leaves).0 h) in
    let rooted : compute_root tree leaves ≡ some root =
      compute_root-Perm tree leaves others perm ∙ e in
    elim (Bool-cases (is_empty leaves)) [
      | inl blank ↦ absurd (unfold compute_root in ground arith)
      | inr full ↦ elim (Option-cases (position leaf (sorted leaves))) [
        | inl missing ↦ absurd (found missing)
        | inr (i, at) ↦
            let top : tree.root (sorted leaves) ≡ some root =
              unfold compute_root in rw full at rooted in
            let place = position-get_elem leaf (sorted leaves) i at in
            (_, rw (full, at) refl, refl, sound.proves (sorted leaves) i leaf root place top)
      ]
    ]
