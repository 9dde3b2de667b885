-- ===== src/Replicated/Replication.antt =====
-- What a connected cluster keeps in step, what a partition keeps apart, and what healing loses.
use cosaci.Prelude.{
  ◌∙◌, ℕ, ◌<◌, ◌≡◌, refl, true, false, some, arith, ok, nat_key, pair_key, u64_max, if◌then◌else◌,
  not, ◌&&◌,
}
use cosaci.Map.{get}
use cosaci.Lease.{LeaseManager, acquire as lease, new as new_manager}
use cosaci.Lease.Invariant.{IsValid, new-IsValid}
use cosaci.Lease.Expiry.{HoldsAt}
use cosaci.Lease.Granting.{acquire-granted}
use cosaci.Replicated.{
  Side, a, b, TwoReplicaCluster, other_side, replica, is_ok, outcome_of, acquire, heal,
}

-- Both replicas are valid, and have ids left.
pub record AreValid (c : TwoReplicaCluster) : Type 0 where
  pub valid : (side : Side) → IsValid (replica side c)
  pub room : (side : Side) → (replica side c).next_id < u64_max

-- The pair has a lease in the replica's index.
abbrev pub IsIndexed : ℕ → ℕ → LeaseManager → Type 0
IsIndexed job runner m = (id : ℕ) × (get (job, runner) m.active_by_pair ≡ some id)

acquire_local :
    (side : Side) (job runner now now' later later' : ℕ) (c : TwoReplicaCluster)
    → replica side (acquire side job runner now now' later later' c).0
      ≡ (lease job runner now now' (replica side c)).0
unfolding acquire
acquire_local a job runner now now' later later' c = ground arith
acquire_local b job runner now now' later later' c = ground arith

acquire_other :
    (side : Side) (job runner now now' later later' : ℕ) (c : TwoReplicaCluster)
    → replica (other_side side) (acquire side job runner now now' later later' c).0 ≡ (
        if not c.partitioned && is_ok (lease job runner now now' (replica side c)).1
        then (lease job runner later later' (replica (other_side side) c)).0
        else replica (other_side side) c)
unfolding acquire
acquire_other a job runner now now' later later' c = ground arith
acquire_other b job runner now now' later later' c = ground arith

acquire_result :
    (side : Side) (job runner now now' later later' : ℕ) (c : TwoReplicaCluster)
    → (acquire side job runner now now' later later' c).1
      ≡ outcome_of (lease job runner now now' (replica side c)).1
unfolding acquire
acquire_result side job runner now now' later later' c = ground arith

acquire_copied :
    (side : Side) (job runner now now' later later' id : ℕ) (c : TwoReplicaCluster)
    → c.partitioned ≡ false
    → (lease job runner now now' (replica side c)).1 ≡ ok id
    → replica (other_side side) (acquire side job runner now now' later later' c).0
      ≡ (lease job runner later later' (replica (other_side side) c)).0
acquire_copied side job runner now now' later later' id c p e =
    acquire_other side job runner now now' later later' c ∙ ground arith

-- While the cluster is connected, both replicas are valid with ids left, and neither replica holds
-- the pair, `acquire` on either side succeeds, and both replicas then index a lease for the pair.
pub acquire_replicates :
    (side : Side) (job runner now now' later later' : ℕ) (c : TwoReplicaCluster)
    → AreValid c
    → c.partitioned ≡ false
    → ¬ HoldsAt now job runner (replica side c)
    → ¬ HoldsAt later job runner (replica (other_side side) c)
    → let (d, result) = acquire side job runner now now' later later' c in
      (result ≡ ok tt)
      × IsIndexed job runner (replica side d)
      × IsIndexed job runner (replica (other_side side) d)
acquire_replicates side job runner now now' later later' c v connected vacant vacant' =
    let here = acquire-granted job runner now now' (replica side c) (v.valid side) vacant in
    let there =
      acquire-granted job runner later later' (replica (other_side side) c)
        (v.valid (other_side side)) vacant' in
    (
      rw (acquire_result side job runner now now' later later' c, here.0) refl,
      ((replica side c).next_id, rw (acquire_local side job runner now now' later later' c) here.2),
      (
        (replica (other_side side) c).next_id,
        rw
            (acquire_copied side job runner now now' later later' (replica side c).next_id c
              connected here.0)
            there.2,
      ),
    )

-- In a partition an `acquire` leaves the other replica as it is.
pub acquire_stays_local :
    (side : Side) (job runner now now' later later' : ℕ) (c : TwoReplicaCluster)
    → c.partitioned ≡ true
    → replica (other_side side) (acquire side job runner now now' later later' c).0
      ≡ replica (other_side side) c
acquire_stays_local side job runner now now' later later' c p =
    rw (acquire_other side job runner now now' later later' c, p) refl

heal_sides :
    (c : TwoReplicaCluster) (majority : Side)
    → c.partitioned ≡ true
    → c.majority ≡ majority
    → (replica majority (heal c) ≡ replica majority c)
      × (replica (other_side majority) (heal c) ≡ new_manager c.ttl_ns)
unfolding heal
heal_sides c a p m = ground arith
heal_sides c b p m = ground arith

pub new-free : (now job runner ttl : ℕ) → ¬ HoldsAt now job runner (new_manager ttl)
unfolding new_manager get
new-free now job runner ttl (id, l, e, s, p, d) = cc

-- After a partition is healed, the side that was the minority leases a pair again that the
-- majority side still has a lease for.
pub heal_forgets :
    (c : TwoReplicaCluster) (majority : Side) (job runner now now' later later' : ℕ)
    → c.partitioned ≡ true
    → c.majority ≡ majority
    → HoldsAt now job runner (replica majority c)
    → HoldsAt now job runner (replica majority (heal c))
      × ((acquire (other_side majority) job runner now now' later later' (heal c)).1 ≡ ok tt)
heal_forgets c majority job runner now now' later later' p m holds =
    let (kept, reset) = heal_sides c majority p m in
    let fresh =
      acquire-granted job runner now now' (new_manager c.ttl_ns) (new-IsValid c.ttl_ns)
        (new-free now job runner c.ttl_ns) in
    (
      rw kept holds,
      rw
          (
            acquire_result (other_side majority) job runner now now' later later' (heal c),
            reset,
            fresh.0,
          )
          refl,
    )
