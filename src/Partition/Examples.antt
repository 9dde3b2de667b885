-- ===== src/Partition/Examples.antt =====
-- Runs of the cluster, and the theorem at a concrete input.
use cosaci.Prelude.{◌≡◌, refl, none, [], ◌∷◌, List, nat_key, pair_key, err}
use cosaci.Map.{get, insert, remove, contains_key}
use cosaci.Lease.{new as new_manager, tick, to_expire, expire_all, grant, acquire as lease}
use cosaci.Partition.{a, b, not_authoritative, new, authorize, acquire, divide}
use cosaci.Lease.History
use cosaci.Lease.History.{acquires}
use cosaci.Partition.Authority.{
  Event, acquires_on, divides, heals, step, run, may_write, authorized, manager-run,
}

abbrev events : List Event
events = divides a ∷ acquires_on a 7 1 0 0 ∷ acquires_on b 7 1 5 5 ∷ heals ∷ []

minority_refused : (acquire b 7 1 5 5 (divide a (new 100))).1 ≡ err not_authoritative
unfolding acquire divide new authorize
minority_refused = refl

-- Two runners hold active leases of one job.
two_runners :
    (run (new 100) (acquires_on a 7 1 0 0 ∷ acquires_on a 7 2 5 5 ∷ [])).manager.active_by_pair
    ≡ ((7, 1), 1) ∷ ((7, 2), 2) ∷ []
unfolding run step acquire authorize new new_manager lease grant tick to_expire expire_all get
    insert remove contains_key
two_runners = refl

manager-run_example :
    (run (new 100) events).manager ≡ History.run (new_manager 100) (acquires 7 1 0 0 ∷ [])
unfolding new authorized may_write
manager-run_example = manager-run (new_manager 100) none events
