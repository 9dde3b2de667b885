-- ===== src/PartialQuorum/Responses.antt =====
-- Who has responded, and what an outcome says about those who did.
use cosaci.Prelude.{
  ap, sym, subst, ℕ, ◌+◌, ◌*◌, ◌≤◌, ◌<◌, ◌≡◌, ◌↔◌, refl, inl, inr, true, List, [], ◌∷◌, arith,
  nat_key, nat_beq, nat_beq_iff, Has, Bool-cases, u64_max, length,
}
use cosaci.Quorum.{StakeMap, weight_of, Vote, Outcome, latest}
use cosaci.Quorum.Weights.{pass_sum, fail_sum, exact_total, IsStakeMap}
use cosaci.Quorum.Threshold.{verdict, aggregate-verdict}
use cosaci.PartialQuorum.{
  has_responded, split_committee, stake_sum, resolve_with_dropouts, two_thirds_threshold,
}

-- The runner has a vote in the list.
abbrev pub HasVote : ℕ → List Vote → Type 0
HasVote id votes = (v : Vote) × Has v votes × (v.runner_id ≡ id)

has_responded_iff :
    (id : ℕ) (votes : List Vote) → (has_responded id votes ≡ true) ↔ HasVote id votes
unfolding has_responded
has_responded_iff id [] = (λ e. absurd (cc), λ (v, h, e). absurd h.lower)
has_responded_iff id (v ∷ votes) = extend (has_responded_iff id votes)
  where
    extend :
        ((has_responded id votes ≡ true) ↔ HasVote id votes)
        → (has_responded id (v ∷ votes) ≡ true) ↔ HasVote id (v ∷ votes)
    extend rest = (
      λ h. elim (Bool-cases (nat_beq v.runner_id id)) [
        | inl same ↦ (v, inl refl, (nat_beq_iff v.runner_id id).0 same)
        | inr apart ↦ let (w, there, e) = rest.0 (ground arith) in (w, inr there, e)
      ],
      λ (w, has, e). elim has [
        | inl same ↦ ground (arith, nat_beq_iff v.runner_id id, ap (λ u. u.runner_id) same)
        | inr there ↦ let later = rest.1 (w, there, e) in ground arith
      ],
    )

-- How a list of the committee's members with a property grows with the committee.
Has-grow :
    (Holds : ℕ → Type 0) (id member : ℕ) (kept committee : List ℕ)
    → Holds member
    → (Has id kept ↔ (Has id committee × Holds id))
    → Has id (member ∷ kept) ↔ (Has id (member ∷ committee) × Holds id)
Has-grow Holds id member kept committee holds same = (
  λ has. elim has [
    | inl e ↦ (inl e, subst Holds (sym e) holds)
    | inr there ↦ let (c, h) = same.0 there in (inr c, h)
  ],
  λ (has, h). elim has [ inl e ↦ inl e | inr there ↦ inr (same.1 (there, h)) ],
)

Has-skip :
    (Holds : ℕ → Type 0) (id member : ℕ) (kept committee : List ℕ)
    → ¬ Holds member
    → (Has id kept ↔ (Has id committee × Holds id))
    → Has id kept ↔ (Has id (member ∷ committee) × Holds id)
Has-skip Holds id member kept committee fails same = (
  λ has. let (c, h) = same.0 has in (inr c, h),
  λ (has, h). elim has [ inl e ↦ absurd (fails (subst Holds e h)) | inr there ↦ same.1 (there, h) ],
)

-- Each member of the committee is counted once, as responding if it has a vote and else as missing;
-- and nobody else is counted.
pub split_committee-Has :
    (committee : List ℕ) (votes : List Vote) (id : ℕ)
    → let (responding, missing) = split_committee committee votes in
      (Has id responding ↔ (Has id committee × HasVote id votes))
      × (Has id missing ↔ (Has id committee × ¬ HasVote id votes))
      × (length responding + length missing ≡ length committee)
unfolding split_committee
split_committee-Has [] votes id = (
  (λ h. absurd h.lower, λ (h, v). absurd h.lower),
  (λ h. absurd h.lower, λ (h, v). absurd h.lower),
  refl,
)
split_committee-Has (member ∷ committee) votes id =
    let (here, gone, count) = split_committee-Has committee votes id in
    let (responding, missing) = split_committee committee votes in
    elim (Bool-cases (has_responded member votes)) [
      | inl voted ↦
          let vote = (has_responded_iff member votes).0 voted in
          rw voted (
            Has-grow (λ x. HasVote x votes) id member responding committee vote here,
            Has-skip (λ x. ¬ HasVote x votes) id member missing committee (λ none. none vote) gone,
            omega (arith, count),
          )
      | inr silent ↦
          let no_vote : ¬ HasVote member votes =
            λ v. ground (arith, (has_responded_iff member votes).1 v) in
          rw silent (
            Has-skip (λ x. HasVote x votes) id member responding committee no_vote here,
            Has-grow (λ x. ¬ HasVote x votes) id member missing committee no_vote gone,
            omega (arith, count),
          )
    ]

-- `responding_stake` as an exact sum.
abbrev pub exact_stake : StakeMap → List ℕ → ℕ
exact_stake stake [] = 0
exact_stake stake (id ∷ ids) = weight_of stake id + exact_stake stake ids

stake_sum_exact :
    (stake : StakeMap) (ids : List ℕ)
    → exact_stake stake ids ≤ u64_max
    → stake_sum stake ids ≡ exact_stake stake ids
unfolding stake_sum
stake_sum_exact stake [] h = refl
stake_sum_exact stake (id ∷ ids) h = ground (arith, stake_sum_exact stake ids (omega arith))

verdict-two_thirds :
    (stake p f total : ℕ)
    → stake * 2 ≤ u64_max
    → (verdict (two_thirds_threshold stake) p f total ≡ Outcome.pass
        → (stake * 2 ≤ p * 3) × (f * 3 < stake * 2))
      × (verdict (two_thirds_threshold stake) p f total ≡ Outcome.fail ↔ stake * 2 ≤ f * 3)
verdict-two_thirds stake p f total h = (λ e. ground arith, ground arith)

-- Under the two-thirds threshold, and where the stake fits `u64`, a pass has the passing votes of
-- two thirds of the stake that responded and not the failing votes of as much; the outcome is a
-- fail exactly if two thirds of the stake that responded failed the job, which holds also where
-- nobody with stake responded.
pub resolve_two_thirds :
    (committee : List ℕ) (votes : List Vote) (stake : StakeMap)
    → IsStakeMap stake
    → exact_stake stake (split_committee committee votes).0 * 2 ≤ u64_max
    → let s = exact_stake stake (split_committee committee votes).0 in
      let r = resolve_with_dropouts committee votes stake two_thirds_threshold in
      (r.outcome ≡ Outcome.pass
        → (s * 2 ≤ pass_sum stake (latest votes) * 3) × (fail_sum stake (latest votes) * 3 < s * 2))
      × (r.outcome ≡ Outcome.fail ↔ s * 2 ≤ fail_sum stake (latest votes) * 3)
unfolding resolve_with_dropouts
resolve_two_thirds committee votes stake v h =
    let (responding, missing) = split_committee committee votes in
    let exact = stake_sum_exact stake responding (omega arith) in
    rw
      (exact, aggregate-verdict votes (two_thirds_threshold (exact_stake stake responding)) stake v)
      (verdict-two_thirds (exact_stake stake responding) (pass_sum stake (latest votes))
        (fail_sum stake (latest votes)) (exact_total stake) h)
