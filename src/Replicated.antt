-- ===== src/Replicated.antt =====
-- crates/cosaci-state/src/replicated_cluster.rs: `TwoReplicaCluster`, a lease manager on either side
-- of a network that may be partitioned.
pub mod Replication
mod Examples
use cosaci.Prelude.{
  ℕ, ◌+◌, Bool, true, false, not, ◌&&◌, Option, none, some, if◌then◌else◌, Result, ok, err,
}
use cosaci.Lease.{
  LeaseError, already_leased, LeaseManager, acquire as lease, active_lease_for,
  count_active_for_job, new as new_manager,
}

pub data Side : Type 0 where
  a b : Side

pub data ClusterError : Type 0 where
  already_held : ClusterError

pub record TwoReplicaCluster : Type 0 where
  pub replica_a : LeaseManager
  pub replica_b : LeaseManager
  pub partitioned : Bool
  pub majority : Side
  pub ttl_ns : ℕ

unfoldable pub new : ℕ → TwoReplicaCluster
new ttl = record {
  replica_a = new_manager ttl;
  replica_b = new_manager ttl;
  partitioned = false;
  majority = a;
  ttl_ns = ttl;
}

abbrev pub other_side : Side → Side
other_side a = b
other_side b = a

-- `replica_mut`, as a read and a write.
abbrev pub replica : Side → TwoReplicaCluster → LeaseManager
replica a c = c.replica_a
replica b c = c.replica_b

abbrev pub set_replica : Side → LeaseManager → TwoReplicaCluster → TwoReplicaCluster
set_replica a m c = record c { replica_a = m }
set_replica b m c = record c { replica_b = m }

abbrev pub is_ok {ℓ κ} : {A : Type ℓ} {E : Type κ} → Result A E → Bool
is_ok (ok x) = true
is_ok (err e) = false

abbrev pub outcome_of : Result ℕ LeaseError → Result (Unit {0}) ClusterError
outcome_of (ok id) = ok tt
outcome_of (err already_leased) = err already_held

-- The readings of the clock: two by the first manager, and two by the other if the lease is
-- replicated.
unfoldable pub acquire :
    Side
    → ℕ
    → ℕ
    → ℕ
    → ℕ
    → ℕ
    → ℕ
    → TwoReplicaCluster
    → TwoReplicaCluster × Result (Unit {0}) ClusterError
acquire side job runner now now' later later' c =
    let (m, result) = lease job runner now now' (replica side c) in
    let local = set_replica side m c in
    let (copy, _) = lease job runner later later' (replica (other_side side) local) in
    if not c.partitioned && is_ok result
    then (set_replica (other_side side) copy local, outcome_of result)
    else (local, outcome_of result)

-- `TwoReplicaCluster::partition`
unfoldable pub divide : Side → TwoReplicaCluster → TwoReplicaCluster
divide majority c = record c { partitioned = true; majority = majority }

unfoldable pub heal : TwoReplicaCluster → TwoReplicaCluster
heal c =
    let reset = set_replica (other_side c.majority) (new_manager c.ttl_ns) c in
    record (if c.partitioned then reset else c) { partitioned = false }

unfoldable pub side_has_active : Side → ℕ → ℕ → ℕ → TwoReplicaCluster → TwoReplicaCluster × Bool
side_has_active side job runner now c =
    let (m, found) = active_lease_for job runner now (replica side c) in
    (set_replica side m c, elim found [ none ↦ false | some _ ↦ true ])

unfoldable pub global_active_count : ℕ → ℕ → ℕ → ℕ → TwoReplicaCluster → TwoReplicaCluster × ℕ
global_active_count job runner now later c =
    let (c', on_a) = side_has_active a job runner now c in
    let (c'', on_b) = side_has_active b job runner later c' in
    (c'', (if on_a then 1 else 0) + (if on_b then 1 else 0))

unfoldable pub global_active_count_for_job : ℕ → ℕ → ℕ → TwoReplicaCluster → TwoReplicaCluster × ℕ
global_active_count_for_job job now later c =
    let (m, on_a) = count_active_for_job job now c.replica_a in
    let (n, on_b) = count_active_for_job job later c.replica_b in
    (record c { replica_a = m; replica_b = n }, on_a + on_b)
