-- ===== src/StakeLedger/Slashing.antt =====
-- What slashing takes, and from whom.
use cosaci.Prelude.{
  sym, ◌∙◌, ℕ, ◌+◌, ◌-◌, ◌≤◌, ◌≡◌, ◌≢◌, refl, Option, none, some, List, [], ◌∷◌, arith, nat_key,
  nat_beq, nat_beq_iff, bytes_key, bytes_beq, bytes_beq_iff, inl, inr, Bool-cases, Option-cases,
  ◌⊎◌, Has,
}
use cosaci.Map.{get, insert, contains_key, HasDistinctKeys, get-insert, insert-HasDistinctKeys}
use cosaci.Quorum.{StakeMap}
use cosaci.Quorum.Weights.{exact_total}
use cosaci.StakeLedger.{
  StakeLedger, SlashEvent, Attestation, stake_of, slash, slash_one, slash_minority,
}

total-insert :
    (k v w : ℕ) (m : StakeMap)
    → HasDistinctKeys m
    → get k m ≡ some w
    → exact_total (insert k v m) + w ≡ exact_total m + v
unfolding get insert
total-insert k v w [] d e = absurd (cc)
total-insert k v w ((j, u) ∷ m) d e = ground (arith, total-insert k v w m d.1, nat_beq_iff j k)

abbrev pub total_slashed : List SlashEvent → ℕ
total_slashed [] = 0
total_slashed (e ∷ events) = e.slashed + total_slashed events

abbrev pub slashed_in : Option SlashEvent → ℕ
slashed_in none = 0
slashed_in (some e) = e.slashed

-- What one attestation does: the ledger stays a map, loses what the event says, and nobody else's
-- stake changes.
pub record Slashes (share : ℕ → ℕ) (consensus : List ℕ) (att : Attestation) (l m : StakeLedger)
    (event : Option SlashEvent) : Type 0 where
  pub distinct : HasDistinctKeys m.stakes
  pub balance : exact_total m.stakes + slashed_in event ≡ exact_total l.stakes
  pub falls : (id : ℕ) → stake_of id m ≤ stake_of id l
  pub spares :
      (id : ℕ)
      → (id ≢ att.runner_id) ⊎ (att.artifact_hash ≡ consensus)
      → stake_of id m ≡ stake_of id l

unchanged-Slashes :
    (share : ℕ → ℕ) (consensus : List ℕ) (att : Attestation) (l : StakeLedger)
    → HasDistinctKeys l.stakes
    → Slashes share consensus att l l none
unchanged-Slashes share consensus att l d = record {
  distinct = d;
  balance = omega arith;
  falls = λ id. omega arith;
  spares = λ id h. refl;
}

-- Slashing a runner that is enrolled and disagreed.
slash-Slashes :
    (share : ℕ → ℕ) (consensus : List ℕ) (att : Attestation) (l : StakeLedger) (w amount : ℕ)
    → HasDistinctKeys l.stakes
    → get att.runner_id l.stakes ≡ some w
    → att.artifact_hash ≢ consensus
    → let (m, event) = slash att.runner_id amount l in Slashes share consensus att l m (some event)
unfolding slash stake_of
slash-Slashes share consensus att l w amount d e differs = record {
  distinct = insert-HasDistinctKeys att.runner_id _ l.stakes d;
  balance = ground (arith, total-insert att.runner_id (w - amount) w l.stakes d e);
  falls = λ id.
      ground
        (arith, get-insert att.runner_id id (w - amount) l.stakes, nat_beq_iff att.runner_id id);
  spares = λ id h. elim h [
    | inl other ↦
        ground
          (arith, get-insert att.runner_id id (w - amount) l.stakes, nat_beq_iff att.runner_id id)
    | inr agrees ↦ absurd (differs agrees)
  ];
}

slash_one-cases :
    (share : ℕ → ℕ) (consensus : List ℕ) (att : Attestation) (l : StakeLedger)
    → (slash_one share consensus att l ≡ (l, none))
      ⊎ ((w : ℕ) × (get att.runner_id l.stakes ≡ some w)
          × (att.artifact_hash ≢ consensus)
          × (let (m, event) = slash att.runner_id (share (stake_of att.runner_id l)) l in
              slash_one share consensus att l ≡ (m, some event)))
unfolding slash_one contains_key
slash_one-cases share consensus att l = elim (Bool-cases (bytes_beq att.artifact_hash consensus)) [
  | inl agrees ↦ inl (ground arith)
  | inr differs ↦ elim (Option-cases (get att.runner_id l.stakes)) [
    | inl unknown ↦ inl (ground arith)
    | inr (w, e) ↦ elim (Bool-cases (nat_beq (share (stake_of att.runner_id l)) 0)) [
      | inl nothing ↦ inl (ground arith)
      | inr something ↦
          inr
            (w, e, λ same. ground (arith, bytes_beq_iff att.artifact_hash consensus), ground arith)
    ]
  ]
]

pub slash_one-Slashes :
    (share : ℕ → ℕ) (consensus : List ℕ) (att : Attestation) (l : StakeLedger)
    → HasDistinctKeys l.stakes
    → let (m, event) = slash_one share consensus att l in Slashes share consensus att l m event
slash_one-Slashes share consensus att l d = elim (slash_one-cases share consensus att l) [
  | inl same ↦ rw same (unchanged-Slashes share consensus att l d)
  | inr (w, e, differs, same) ↦
      rw same (slash-Slashes share consensus att l w (share (stake_of att.runner_id l)) d e differs)
]

-- The runner has an attestation that disagrees with the consensus.
abbrev pub Disagrees : ℕ → List ℕ → List Attestation → Type 0
Disagrees id consensus attestations =
    (att : Attestation) × Has att attestations
    × (att.runner_id ≡ id)
    × (att.artifact_hash ≢ consensus)

-- On a ledger that holds each runner once, `slash_minority` takes from the ledger what its events
-- say in all, raises nobody's stake, and takes nothing of a runner without an attestation that
-- disagrees with the consensus, whatever share a disagreement costs.
pub slash_minority-balance :
    (share : ℕ → ℕ) (consensus : List ℕ) (attestations : List Attestation) (l : StakeLedger)
    → HasDistinctKeys l.stakes
    → let (m, events) = slash_minority share consensus attestations l in
      (exact_total m.stakes + total_slashed events ≡ exact_total l.stakes)
      × ((id : ℕ) → stake_of id m ≤ stake_of id l)
      × ((id : ℕ) → ¬ Disagrees id consensus attestations → stake_of id m ≡ stake_of id l)
unfolding slash_minority
slash_minority-balance share consensus [] l d = (omega arith, λ id. omega arith, λ id h. refl)
slash_minority-balance share consensus (att ∷ attestations) l d =
    let (m, event) = slash_one share consensus att l in
    let one = slash_one-Slashes share consensus att l d in
    let (sum, falls, spares) = slash_minority-balance share consensus attestations m one.distinct in
    (
      elim (Option-cases event) [
        | inl e ↦ ground (arith, sum, one.balance)
        | inr (ev, e) ↦ ground (arith, sum, one.balance)
      ],
      λ id. omega (arith, falls id, one.falls id),
      λ id innocent.
          spares id (λ (other, there, owner, differs). innocent (other, inr there, owner, differs))
          ∙ one.spares id (innocent_of id innocent),
    )
  where
    innocent_of :
        (id : ℕ)
        → ¬ Disagrees id consensus (att ∷ attestations)
        → (id ≢ att.runner_id) ⊎ (att.artifact_hash ≡ consensus)
    innocent_of id innocent = elim (Bool-cases (bytes_beq att.artifact_hash consensus)) [
      | inl agrees ↦ inr ((bytes_beq_iff att.artifact_hash consensus).0 agrees)
      | inr differs ↦ inl λ same. innocent (
        att,
        inl refl,
        sym same,
        λ agrees. ground (arith, bytes_beq_iff att.artifact_hash consensus),
      )
    ]
