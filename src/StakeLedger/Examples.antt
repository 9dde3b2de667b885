-- ===== src/StakeLedger/Examples.antt =====
-- Runs of the ledger, and the theorems at concrete inputs.
use cosaci.Prelude.{ℕ, ◌+◌, ◌/◌, ◌≤◌, ◌≡◌, refl, List, [], ◌∷◌, nat_key}
use cosaci.Map.{get, insert, contains_key}
use cosaci.Quorum.Weights.{exact_total}
use cosaci.StakeLedger.{
  StakeLedger, Attestation, new, register, stake_of, slash, slash_one, slash_minority,
}
use cosaci.StakeLedger.Slashing.{total_slashed, Disagrees, slash_minority-balance}

abbrev ledger : StakeLedger
ledger = record { stakes = (1, 100) ∷ (2, 40) ∷ [] }

registers : register 2 40 (register 1 100 new) ≡ ledger
unfolding register new insert
registers = refl

abbrev quarter : ℕ → ℕ
quarter stake = stake / 4

abbrev attestations : List Attestation
attestations =
    record { runner_id = 1; artifact_hash = 9 ∷ [] }
    ∷ record { runner_id = 2; artifact_hash = 8 ∷ [] }
    ∷ record { runner_id = 3; artifact_hash = 8 ∷ [] }
    ∷ []

slashes_second : slash_minority quarter (9 ∷ []) attestations ledger ≡ (
  record { stakes = (1, 100) ∷ (2, 30) ∷ [] },
  record { runner_id = 2; stake_before = 40; stake_after = 30; slashed = 10 } ∷ [],
)
unfolding slash_minority slash_one slash stake_of contains_key get insert
slashes_second = refl

slash_minority-balance_example :
    let (m, events) = slash_minority quarter (9 ∷ []) attestations ledger in
    (exact_total m.stakes + total_slashed events ≡ exact_total ledger.stakes)
    × ((id : ℕ) → stake_of id m ≤ stake_of id ledger)
    × ((id : ℕ) → ¬ Disagrees id (9 ∷ []) attestations → stake_of id m ≡ stake_of id ledger)
unfolding get
slash_minority-balance_example =
    slash_minority-balance quarter (9 ∷ []) attestations ledger (refl, (refl, tt))
