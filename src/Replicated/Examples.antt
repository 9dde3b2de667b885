-- ===== src/Replicated/Examples.antt =====
-- The theorems at concrete inputs.
use cosaci.Prelude.{◌<◌, ◌≡◌, refl, arith, nat_key, pair_key, ok, u64_max}
use cosaci.Map.{get, insert, contains_key}
use cosaci.Lease.{
  Lease, active, new as new_manager, acquire as lease, grant, tick, to_expire, expire_all,
}
use cosaci.Lease.Invariant.{IsValid, new-IsValid}
use cosaci.Lease.Expiry.{HoldsAt}
use cosaci.Replicated.{
  Side, a, b, TwoReplicaCluster, new, replica, other_side, acquire, divide, heal,
}
use cosaci.Replicated.Replication.{AreValid, acquire_stays_local, heal_forgets}

abbrev fresh : TwoReplicaCluster
fresh = new 100

fresh-IsValid : (side : Side) → IsValid (replica side fresh)
unfolding new
fresh-IsValid a = new-IsValid 100
fresh-IsValid b = new-IsValid 100

fresh_room : (side : Side) → (replica side fresh).next_id < u64_max
unfolding new new_manager
fresh_room a = omega arith
fresh_room b = omega arith

fresh-AreValid : AreValid fresh
fresh-AreValid = record { valid = fresh-IsValid; room = fresh_room }

acquire_stays_local_example :
    replica (other_side a) (acquire a 7 1 0 0 1 1 (divide a fresh)).0
    ≡ replica (other_side a) (divide a fresh)
unfolding divide
acquire_stays_local_example = acquire_stays_local a 7 1 0 0 1 1 (divide a fresh) refl

abbrev apart : TwoReplicaCluster
apart = (acquire a 7 1 0 0 1 1 (divide a fresh)).0

abbrev held_lease : Lease
held_lease = record {
  lease_id = 1;
  job_id = 7;
  runner_id = 1;
  acquired_at_ns = 0;
  ttl_ns = 100;
  state = active;
}

apart_holds : HoldsAt 5 7 1 (replica a apart)
unfolding acquire divide new new_manager lease grant tick to_expire expire_all get insert
    contains_key
apart_holds = (1, held_lease, refl, refl, refl, refl)

heal_forgets_example :
    HoldsAt 5 7 1 (replica a (heal apart))
    × ((acquire (other_side a) 7 1 5 5 6 6 (heal apart)).1 ≡ ok tt)
unfolding acquire divide
heal_forgets_example = heal_forgets apart a 7 1 5 5 6 6 refl refl apart_holds
