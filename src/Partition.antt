-- ===== src/Partition.antt =====
-- crates/cosaci-state/src/partition.rs: `Cluster`, a lease manager that only the majority side of a
-- partition may write to.
pub mod Authority
mod Examples
use cosaci.Prelude.{
  ℕ, Bool, true, false, not, ◌&&◌, Option, none, some, List, if◌then◌else◌, Result, ok, err,
}
use cosaci.Lease.{
  LeaseError, already_leased, LeaseManager, acquire as lease, complete as finish_lease,
  active_lease_for as lease_for, count_active as count_leases, active_pairs as leased_pairs,
  new as new_manager,
}

pub data Side : Type 0 where
  a b : Side

-- `side == majority`
abbrev pub same_side : Side → Side → Bool
same_side a a = true
same_side a b = false
same_side b a = false
same_side b b = true

pub data ClusterError : Type 0 where
  already_held not_authoritative : ClusterError

-- `From<LeaseError>`
abbrev pub from_lease_error : LeaseError → ClusterError
from_lease_error already_leased = already_held

pub record Cluster : Type 0 where
  pub manager : LeaseManager
  pub partition : Option Side

unfoldable pub new : ℕ → Cluster
new ttl = record { manager = new_manager ttl; partition = none }

unfoldable pub authorize : Side → Cluster → Result (Unit {0}) ClusterError
authorize side c = elim c.partition [
  | none ↦ ok tt
  | some majority ↦ if same_side side majority then ok tt else err not_authoritative
]

abbrev pub map_error : Result ℕ LeaseError → Result ℕ ClusterError
map_error (ok id) = ok id
map_error (err e) = err (from_lease_error e)

-- `now` and `now'` are the readings of the manager's clock.
unfoldable pub acquire : Side → ℕ → ℕ → ℕ → ℕ → Cluster → Cluster × Result ℕ ClusterError
acquire side job runner now now' c = elim (authorize side c) [
  | err e ↦ (c, err e)
  | ok _ ↦
      let (m, result) = lease job runner now now' c.manager in
      (record c { manager = m }, map_error result)
]

unfoldable pub complete : Side → ℕ → ℕ → Cluster → Cluster × Result (Unit {0}) ClusterError
complete side id now c = elim (authorize side c) [
  | err e ↦ (c, err e)
  | ok _ ↦ (record c { manager = finish_lease id now c.manager }, ok tt)
]

-- `Cluster::partition`
unfoldable pub divide : Side → Cluster → Cluster
divide majority c = record c { partition = some majority }

unfoldable pub heal : Cluster → Cluster
heal c = record c { partition = none }

unfoldable pub is_partitioned : Cluster → Bool
is_partitioned c = elim c.partition [ none ↦ false | some _ ↦ true ]

unfoldable pub active_lease_for : ℕ → ℕ → ℕ → Cluster → Cluster × Option ℕ
active_lease_for job runner now c =
    let (m, found) = lease_for job runner now c.manager in (record c { manager = m }, found)

unfoldable pub count_active : ℕ → Cluster → Cluster × ℕ
count_active now c = let (m, n) = count_leases now c.manager in (record c { manager = m }, n)

unfoldable pub active_pairs : ℕ → Cluster → Cluster × List (ℕ × ℕ)
active_pairs now c =
    let (m, pairs) = leased_pairs now c.manager in (record c { manager = m }, pairs)
