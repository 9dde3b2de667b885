-- ===== src/Partition/Authority.antt =====
-- Who may write, and what the writes amount to.
use cosaci.Prelude.{
  false, ℕ, ◌≡◌, refl, ok, err, inl, inr, Bool, true, Option, none, some, List, [], ◌∷◌, arith,
  if◌then◌else◌, nat_key, Bool-cases,
}
use cosaci.Lease.{
  LeaseManager, acquire as lease, complete as finish_lease, tick, count_active as count_leases,
  active_pairs as leased_pairs, active_lease_for as lease_for,
}
use cosaci.Lease.History
use cosaci.Lease.History.{Call, acquires, completes, queries, run_exclusive}
use cosaci.Partition.{
  Side, a, b, not_authoritative, Cluster, authorize, acquire, complete, divide, heal, count_active,
  active_pairs, active_lease_for,
}

-- A request of a side, or a change of the network.
pub data Event : Type 0 where
  acquires_on : (side : Side) (job runner now now' : ℕ) → Event
  completes_on : (side : Side) (id now : ℕ) → Event
  counts lists : (now : ℕ) → Event
  looks_up : (job runner now : ℕ) → Event
  divides : (majority : Side) → Event
  heals : Event

unfoldable pub step : Cluster → Event → Cluster
step c (acquires_on side job runner now now') = (acquire side job runner now now' c).0
step c (completes_on side id now) = (complete side id now c).0
step c (counts now) = (count_active now c).0
step c (lists now) = (active_pairs now c).0
step c (looks_up job runner now) = (active_lease_for job runner now c).0
step c (divides majority) = divide majority c
step c heals = heal c

unfoldable pub run : Cluster → List Event → Cluster
run c [] = c
run c (e ∷ events) = run (step c e) events

-- May `side` write? Both sides may while the network is whole, and only the majority's while it is
-- divided.
unfoldable pub may_write : Side → Option Side → Bool
may_write a none = true
may_write b none = true
may_write a (some a) = true
may_write a (some b) = false
may_write b (some a) = false
may_write b (some b) = true

-- A side is authorized exactly if it may write.
authorize-may_write :
    (m : LeaseManager) (side : Side) (p : Option Side)
    → authorize side (record { manager = m; partition = p })
      ≡ (if may_write side p then ok tt else err not_authoritative)
unfolding authorize may_write
authorize-may_write m a none = refl
authorize-may_write m b none = refl
authorize-may_write m a (some a) = refl
authorize-may_write m a (some b) = refl
authorize-may_write m b (some a) = refl
authorize-may_write m b (some b) = refl

-- The calls on the manager that the events make, given the partition that they start from.
unfoldable pub authorized : Option Side → List Event → List Call
authorized p [] = []
authorized p (acquires_on side job runner now now' ∷ events) =
    let rest = authorized p events in
    if may_write side p then acquires job runner now now' ∷ rest else rest
authorized p (completes_on side id now ∷ events) =
    let rest = authorized p events in if may_write side p then completes id now ∷ rest else rest
authorized p (counts now ∷ events) = queries now ∷ authorized p events
authorized p (lists now ∷ events) = queries now ∷ authorized p events
authorized p (looks_up job runner now ∷ events) = queries now ∷ authorized p events
authorized p (divides majority ∷ events) = authorized (some majority) events
authorized p (heals ∷ events) = authorized none events

-- After any events a cluster's manager is a plain lease manager after just the queries, which any
-- side may make, and those acquisitions and completions that came while the network was whole or
-- from the side of the majority: what a minority asks to write changes nothing.
pub manager-run :
    (m : LeaseManager) (p : Option Side) (events : List Event)
    → (run (record { manager = m; partition = p }) events).manager
      ≡ History.run m (authorized p events)
unfolding run step acquire complete divide heal count_active count_leases active_pairs leased_pairs
    active_lease_for lease_for History.run History.step authorized
manager-run m p [] = refl
manager-run m p (acquires_on side job runner now now' ∷ events) =
    let known = authorize-may_write m side p in
    elim (Bool-cases (may_write side p)) [
      | inl may ↦ ground (arith, known, manager-run (lease job runner now now' m).0 p events)
      | inr not_may ↦ ground (arith, known, manager-run m p events)
    ]
manager-run m p (completes_on side id now ∷ events) =
    let known = authorize-may_write m side p in
    elim (Bool-cases (may_write side p)) [
      | inl may ↦ ground (arith, known, manager-run (finish_lease id now m) p events)
      | inr not_may ↦ ground (arith, known, manager-run m p events)
    ]
manager-run m p (counts now ∷ events) = manager-run (tick now m) p events
manager-run m p (lists now ∷ events) = manager-run (tick now m) p events
manager-run m p (looks_up job runner now ∷ events) = manager-run (tick now m) p events
manager-run m p (divides majority ∷ events) = manager-run m (some majority) events
manager-run m p (heals ∷ events) = manager-run m none events
