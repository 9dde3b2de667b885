-- ===== src/StakeLedger.antt =====
-- crates/cosaci-state/src/stake_ledger.rs: the runners' stakes, and their slashing. The share that a
-- disagreement costs is a float product in the source; here it is the argument `share` of a stake.
pub mod Slashing
mod Examples
use cosaci.Prelude.{
  ℕ, ◌-◌, Bool, true, false, not, Option, none, some, List, [], ◌∷◌, if◌then◌else◌, nat_key,
  nat_beq, bytes_key, ◌==◌,
}
use cosaci.Map.{Map, get, insert, contains_key, len}
use cosaci.Quorum.{StakeMap, weight_of}

pub record StakeLedger : Type 0 where
  pub stakes : StakeMap

pub record SlashEvent : Type 0 where
  pub runner_id : ℕ
  pub stake_before : ℕ
  pub stake_after : ℕ
  pub slashed : ℕ

-- The fields of an `Attestation` that slashing reads.
pub record Attestation : Type 0 where
  pub runner_id : ℕ
  pub artifact_hash : List ℕ

unfoldable pub new : StakeLedger
new = record { stakes = [] }

unfoldable pub from_stake_map : StakeMap → StakeLedger
from_stake_map stakes = record { stakes = stakes }

unfoldable pub register : ℕ → ℕ → StakeLedger → StakeLedger
register runner_id stake l = record l { stakes = insert runner_id stake l.stakes }

unfoldable pub stake_of : ℕ → StakeLedger → ℕ
stake_of runner_id l = weight_of l.stakes runner_id

unfoldable pub ledger_len : StakeLedger → ℕ
ledger_len l = len l.stakes

unfoldable pub slash : ℕ → ℕ → StakeLedger → StakeLedger × SlashEvent
unfolding stake_of
slash runner_id amount l =
    let before = stake_of runner_id l in
    let after = before - amount in
    (
      record l { stakes = insert runner_id after l.stakes },
      record {
        runner_id = runner_id;
        stake_before = before;
        stake_after = after;
        slashed = before - after;
      },
    )

-- One turn of the loop of `slash_minority`: the event, if there is one.
unfoldable pub slash_one :
    (ℕ → ℕ) → List ℕ → Attestation → StakeLedger → StakeLedger × Option SlashEvent
unfolding stake_of slash
slash_one share consensus att l =
    let amount = share (stake_of att.runner_id l) in
    if att.artifact_hash == consensus
    then (l, none)
    else if not (contains_key att.runner_id l.stakes)
    then (l, none)
    else if nat_beq amount 0
    then (l, none)
    else let (m, event) = slash att.runner_id amount l in (m, some event)

unfoldable pub slash_minority :
    (ℕ → ℕ) → List ℕ → List Attestation → StakeLedger → StakeLedger × List SlashEvent
slash_minority share consensus [] l = (l, [])
slash_minority share consensus (att ∷ attestations) l =
    let (m, event) = slash_one share consensus att l in
    let (n, events) = slash_minority share consensus attestations m in
    (n, elim event [ none ↦ events | some e ↦ e ∷ events ])
