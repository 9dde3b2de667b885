-- ===== src/Rounds/Counting.antt =====
-- The artifact that a job anchors: one that the most attestations name, in whatever order the counts
-- of the artifacts are iterated.
use native.Mathlib.Bridge.{le_prop}
use mathlib.Core.Logic.Or
use mathlib.Core.List.{
  Perm, Mem, not-mem-nil, mem-cons_self, mem-cons_of_mem, eq-or-mem_of_mem-cons,
}
use mathlib.Core.List.Perm
use cosaci.Prelude.{
  ℕ, suc, ◌+◌, ◌≤◌, ◌<◌, ◌≡◌, refl, ap, subst, inl, inr, none, some, List, [], ◌∷◌, arith, leb, Has,
  Option-cases, Bool-cases, ◌==◌, if◌then◌else◌, bytes_key, nat_key, eq_refl, ltb, replicate,
}
use cosaci.Map.{Map, get, insert, get-insert, HasDistinctKeys, insert-HasDistinctKeys}
use cosaci.Attestations.{Attestation}
use cosaci.Rounds.{count_of, artifact_counts, max_from, max_by_count, consensus_artifact}

-- How many attestations name the artifact.
unfoldable pub times : List ℕ → List Attestation → ℕ
times hash [] = 0
times hash (att ∷ attestations) =
    let rest = times hash attestations in if att.artifact_hash == hash then suc rest else rest

pub record IsMostNamed (attestations : List Attestation) (artifact : List ℕ) : Type 0 where
  pub named : (att : Attestation) × Has att attestations × (att.artifact_hash ≡ artifact)
  pub most : (hash : List ℕ) → times hash attestations ≤ times artifact attestations

count_of-artifact_counts :
    (hash : List ℕ) (counts : Map (List ℕ) ℕ) (atts : List Attestation)
    → count_of hash (artifact_counts counts atts) ≡ count_of hash counts + times hash atts
unfolding artifact_counts times
count_of-artifact_counts hash counts [] = omega arith
count_of-artifact_counts hash counts (att ∷ atts) =
    let n = suc (count_of att.artifact_hash counts) in
    let found = get-insert att.artifact_hash hash n counts in
    let same = bytes_key.decides att.artifact_hash hash in
    let rest = count_of-artifact_counts hash (insert att.artifact_hash n counts) atts in
    elim (Bool-cases (att.artifact_hash == hash)) [
      | inl e ↦
          let e' = same.0 e in
          let known : count_of hash (insert att.artifact_hash n counts)
              ≡ suc (count_of hash counts) =
            ground (arith, found, e, e') in
          ground (arith, rest, known, e)
      | inr e ↦
          let known : count_of hash (insert att.artifact_hash n counts) ≡ count_of hash counts =
            ground (arith, found, e) in
          ground (arith, rest, known, e)
    ]

artifact_counts-HasDistinctKeys :
    (counts : Map (List ℕ) ℕ) (atts : List Attestation)
    → HasDistinctKeys counts
    → HasDistinctKeys (artifact_counts counts atts)
unfolding artifact_counts
artifact_counts-HasDistinctKeys counts [] h = h
artifact_counts-HasDistinctKeys counts (att ∷ atts) h =
    artifact_counts-HasDistinctKeys
      (insert att.artifact_hash (suc (count_of att.artifact_hash counts)) counts) atts
      (insert-HasDistinctKeys att.artifact_hash (suc (count_of att.artifact_hash counts)) counts h)

get-Mem : (hash : List ℕ) (n : ℕ) (m : Map (List ℕ) ℕ) → get hash m ≡ some n → Mem (hash, n) m
unfolding get
get-Mem hash n [] e = absurd (cc (e))
get-Mem hash n ((k, w) ∷ m) e = elim (Bool-cases (k == hash)) [
  | inl same ↦
      let k' = (bytes_key.decides k hash).0 same in
      let w' : w ≡ n = ground (arith, same) in
      subst (λ x. Mem (x, n) ((k, w) ∷ m)) k'
        (subst (λ x. Mem (k, x) ((k, w) ∷ m)) w' mem-cons_self)
  | inr apart ↦ mem-cons_of_mem (k, w) (get-Mem hash n m (ground (arith, apart)))
]

Mem-get :
    (hash : List ℕ) (n : ℕ) (m : Map (List ℕ) ℕ)
    → HasDistinctKeys m
    → Mem (hash, n) m
    → get hash m ≡ some n
unfolding get
Mem-get hash n [] d h = absurd (not-mem-nil h)
Mem-get hash n ((k, w) ∷ m) d h =
    Or.elim (hlevel) (eq-or-mem_of_mem-cons h)
      (λ e.
        let k' : hash ≡ k = ap (λ p. p.0) e in
        let w' : n ≡ w = ap (λ p. p.1) e in rw (k', w', eq_refl k) refl)
      (λ there.
        let found = Mem-get hash n m d.1 there in
        elim (Bool-cases (k == hash)) [
          | inl same ↦
              let k' = (bytes_key.decides k hash).0 same in
              let gone : get hash m ≡ none = subst (λ x. get x m ≡ none) k' d.0 in absurd (cc)
          | inr apart ↦ rw apart found
        ])

max_from-Mem :
    (best : List ℕ × ℕ) (counts : Map (List ℕ) ℕ)
    → (n : ℕ) × Mem (max_from best counts, n) (best ∷ counts)
      × ((e : List ℕ × ℕ) → Mem e (best ∷ counts) → e.1 ≤ n)
unfolding max_from
max_from-Mem best [] = (
  best.1,
  mem-cons_self,
  λ e h.
      Or.elim le_prop (eq-or-mem_of_mem-cons h) (λ same. rw same (omega arith))
        (λ there. absurd (not-mem-nil there)),
)
max_from-Mem best (entry ∷ counts) = elim (Bool-cases (leb best.1 entry.1)) [
  | inl least ↦
      let (n, there, top) = max_from-Mem entry counts in
      let at_entry = top entry mem-cons_self in
      (
        n,
        rw least (mem-cons_of_mem best there),
        λ e h.
            Or.elim le_prop (eq-or-mem_of_mem-cons h) (λ same. rw same (ground arith))
              (λ rest. top e rest),
      )
  | inr more ↦
      let (n, there, top) = max_from-Mem best counts in
      let at_best = top best mem-cons_self in
      (
        n,
        rw more (
            Or.elim (hlevel) (eq-or-mem_of_mem-cons there) (λ same. rw same mem-cons_self)
              (λ rest. mem-cons_of_mem best (mem-cons_of_mem entry rest))),
        λ e h.
            Or.elim le_prop (eq-or-mem_of_mem-cons h) (λ same. rw same at_best)
              (λ later.
                Or.elim le_prop (eq-or-mem_of_mem-cons later) (λ same. rw same (ground arith))
                  (λ rest. top e (mem-cons_of_mem best rest))),
      )
]

-- An attestation that is counted is there.
times-Has :
    (hash : List ℕ) (atts : List Attestation)
    → 0 < times hash atts
    → (att : Attestation) × Has att atts × (att.artifact_hash ≡ hash)
unfolding times
times-Has hash [] h = absurd (omega arith)
times-Has hash (att ∷ atts) h = elim (Bool-cases (att.artifact_hash == hash)) [
  | inl same ↦ (att, inl refl, (bytes_key.decides att.artifact_hash hash).0 same)
  | inr apart ↦
      let (found, there, e) = times-Has hash atts (ground (arith, apart)) in (found, inr there, e)
]

-- What is named is in the map, under its count.
times-Mem :
    (hash : List ℕ) (atts : List Attestation)
    → 0 < times hash atts
    → Mem (hash, times hash atts) (artifact_counts [] atts)
unfolding get
times-Mem hash atts h =
    let counted = count_of-artifact_counts hash [] atts in
    elim (Option-cases (get hash (artifact_counts [] atts))) [
      | inl gone ↦ absurd (ground (arith, counted, gone))
      | inr (n, found) ↦
          let same : n ≡ times hash atts = ground (arith, counted, found) in
          subst (λ x. Mem (hash, x) (artifact_counts [] atts)) same
            (get-Mem hash n (artifact_counts [] atts) found)
    ]

-- An entry of the map holds the count of its artifact.
Mem-times :
    (hash : List ℕ) (n : ℕ) (atts : List Attestation)
    → Mem (hash, n) (artifact_counts [] atts)
    → n ≡ times hash atts
unfolding get
Mem-times hash n atts h =
    let found =
      Mem-get hash n (artifact_counts [] atts) (artifact_counts-HasDistinctKeys [] atts tt) h in
    ground (arith, count_of-artifact_counts hash [] atts, found)

-- The first attestation's artifact is counted.
first-Mem :
    (att : Attestation) (atts : List Attestation)
    → (0 < times att.artifact_hash (att ∷ atts))
      × Mem
          (att.artifact_hash, times att.artifact_hash (att ∷ atts))
          (artifact_counts [] (att ∷ atts))
unfolding times
first-Mem att atts =
    let counted : 0 < times att.artifact_hash (att ∷ atts) =
      ground (arith, eq_refl att.artifact_hash) in
    (counted, times-Mem att.artifact_hash (att ∷ atts) counted)

-- The entry with the greatest count, in any order of the entries.
max_from-IsMostNamed :
    (att : Attestation) (atts : List Attestation) (best : List ℕ × ℕ) (rest : Map (List ℕ) ℕ)
    → Perm (best ∷ rest) (artifact_counts [] (att ∷ atts))
    → IsMostNamed (att ∷ atts) (max_from best rest)
max_from-IsMostNamed att atts best rest p =
    let artifact = max_from best rest in
    let (n, there, top) = max_from-Mem best rest in
    let counted : n ≡ times artifact (att ∷ atts) =
      Mem-times artifact n (att ∷ atts) ((Perm.mem_iff p).0 there) in
    let (first, first_in) = first-Mem att atts in
    let least : times att.artifact_hash (att ∷ atts) ≤ n =
      top (att.artifact_hash, times att.artifact_hash (att ∷ atts)) ((Perm.mem_iff p).1 first_in) in
    record {
      named = times-Has artifact (att ∷ atts) (omega (arith, least, first, counted));
      most = λ hash. elim (Bool-cases (ltb 0 (times hash (att ∷ atts)))) [
        | inr zero_times ↦ ground arith
        | inl some_times ↦
            let most =
              top (hash, times hash (att ∷ atts))
                ((Perm.mem_iff p).1 (times-Mem hash (att ∷ atts) (ground arith))) in
            omega (arith, most, counted)
      ];
    }

pub consensus_artifact-IsMostNamed :
    (iterate : Map (List ℕ) ℕ → Map (List ℕ) ℕ)
    → ((counts : Map (List ℕ) ℕ) → Perm (iterate counts) counts)
    → (att : Attestation) (atts : List Attestation)
    → IsMostNamed (att ∷ atts) (consensus_artifact iterate (att ∷ atts))
unfolding consensus_artifact
consensus_artifact-IsMostNamed iterate orders att atts =
    go (iterate (artifact_counts [] (att ∷ atts))) (orders (artifact_counts [] (att ∷ atts)))
  where
    go :
        (entries : Map (List ℕ) ℕ)
        → Perm entries (artifact_counts [] (att ∷ atts))
        → IsMostNamed
            (att ∷ atts)
            (elim (max_by_count entries) [ none ↦ replicate 32 0 | some hash ↦ hash ])
    go [] p = absurd (not-mem-nil ((Perm.mem_iff p).1 (first-Mem att atts).1))
    go (best ∷ rest) p = max_from-IsMostNamed att atts best rest p
