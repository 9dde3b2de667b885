-- ===== src/MerkleLog/Prefixes.antt =====
-- What the log says of a prefix of its entries never changes.
use cosaci.Prelude.{
  subst, true, get_elem?, get_elem?_in, get_elem?-take, length-take, ◌<◌, some, ◌^◌, ℕ, ◌+◌, ◌≤◌,
  ◌≡◌, refl, ap, ◌∙◌, List, [], ◌∷◌, ◌++◌, arith, length, length-append, take, drop, take-append,
  drop-append, length-drop,
}
use cosaci.MerkleLog.{
  InclusionProof, verify_inclusion, peak_hashes, peak_heights, Hash, Trees, MerkleLog, root_at,
  inclusion_proof_at, proof_in, len, peaks_from,
}
use cosaci.MerkleLog.Peaks.{covered, peak_heights-covered}

-- What `rs_merkle` promises: leaves have a root, and the proof of a leaf passes the check.
pub record IsComplete (t : Trees) : Type 0 where
  pub rooted : (leaves : List Hash) → 1 ≤ length leaves → (r : Hash) × (t.root_of leaves ≡ some r)
  pub proves :
      (leaves : List Hash) (position : ℕ) (entry r : Hash)
      → t.root_of leaves ≡ some r
      → get_elem? leaves position ≡ some entry
      → t.verify (t.proof_of leaves position) r position entry (length leaves) ≡ true

module _ {S : Type 0} (t : Trees) (l l' : MerkleLog S) (more : List Hash) (n : ℕ)
    (extends : l'.entries ≡ l.entries ++ more) (inside : n ≤ length l.entries) where
  same_slice : take n l'.entries ≡ take n l.entries
  same_slice = rw extends (take-append n l.entries more inside)

  longer : n ≤ length l'.entries
  longer = rw extends (omega (arith, length-append l.entries more))

  root_at-extended : root_at t n l' ≡ root_at t n l
  unfolding root_at
  root_at-extended = ground (arith, ap t.root_of same_slice, longer)

  inclusion_proof_at-extended :
      (position : ℕ) → inclusion_proof_at t position n l' ≡ inclusion_proof_at t position n l
  unfolding inclusion_proof_at len
  inclusion_proof_at-extended position =
      ground (arith, longer, ap (proof_in t position n) same_slice)

peaks_from-append :
    (t : Trees) (entries more : List Hash) (start : ℕ) (heights : List ℕ)
    → start + covered heights ≤ length entries
    → peaks_from t (entries ++ more) start heights ≡ peaks_from t entries start heights
unfolding peaks_from
peaks_from-append t entries more start [] h = refl
peaks_from-append t entries more start (k ∷ heights) h =
    let rest = peaks_from-append t entries more (start + 2 ^ k) heights (omega arith) in
    let slice : take (2 ^ k) (drop start (entries ++ more)) ≡ take (2 ^ k) (drop start entries) =
      ap (take (2 ^ k)) (drop-append start entries more (omega arith))
      ∙ take-append (2 ^ k) (drop start entries) more (omega (arith, length-drop start entries)) in
    ground (arith, rest, ap t.root_of slice, length-append entries more)

-- Whatever is appended to a log, the root of each of its prefixes of fewer than 2 ^ 64 entries,
-- the inclusion proofs against it and its peaks stay as they are.
pub prefix_fixed :
    {S : Type 0} (t : Trees) (l l' : MerkleLog S) (more : List Hash) (n position : ℕ)
    → l'.entries ≡ l.entries ++ more
    → n ≤ length l.entries
    → n < 2 ^ 64
    → (root_at t n l' ≡ root_at t n l)
      × (inclusion_proof_at t position n l' ≡ inclusion_proof_at t position n l)
      × (peak_hashes t n l' ≡ peak_hashes t n l)
unfolding peak_hashes
prefix_fixed t l l' more n position extends inside small =
    let (sum, _) = peak_heights-covered n small in
    let peaks = peaks_from-append t l.entries more 0 (peak_heights n) (omega arith) in
    let longer' = longer t l l' more n extends inside in
    (
      root_at-extended t l l' more n extends inside,
      inclusion_proof_at-extended t l l' more n extends inside position,
      ground (arith, peaks, ap (λ es. peaks_from t es 0 (peak_heights n)) extends),
    )

-- A proof that the log gives for an entry passes `verify_inclusion` against the root of the same
-- prefix, and is about the entry at its position.
pub inclusion_proof_at-verifies :
    {S : Type 0} (t : Trees) (l : MerkleLog S) (position n : ℕ)
    → IsComplete t
    → position < n
    → n ≤ length l.entries
    → (proof : InclusionProof) × (r : Hash) × (inclusion_proof_at t position n l ≡ some proof)
      × (root_at t n l ≡ some r)
      × (verify_inclusion t proof r ≡ true)
      × (get_elem? l.entries position ≡ some proof.entry)
unfolding inclusion_proof_at proof_in root_at len verify_inclusion
inclusion_proof_at-verifies t l position n c below inside =
    let size = length-take n l.entries inside in
    let slice = take n l.entries in
    let (entry, e) = get_elem?_in slice position (omega (arith, size)) in
    let (r, e') = c.rooted slice (omega (arith, size)) in
    (
      record {
        position = position;
        entry = entry;
        proof_hashes = t.proof_of slice position;
        length_at_proof = n;
      },
      r,
      ground arith,
      ground arith,
      subst (λ k. t.verify (t.proof_of slice position) r position entry k ≡ true) size
          (c.proves slice position entry r e' e),
      ground (arith, get_elem?-take n position l.entries below),
    )
