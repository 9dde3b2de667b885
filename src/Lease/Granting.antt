-- ===== src/Lease/Granting.antt =====
-- When `acquire` grants a lease, and what it grants.
use cosaci.Prelude.{
  err, ok, ℕ, ◌≡◌, ◌↔◌, refl, inl, inr, Option, none, some, arith, nat_key, pair_key, Option-cases,
}
use cosaci.Map.{get-insert_self, get, contains_key}
use cosaci.Lease.{active, Lease, pair_of, LeaseManager, already_leased, tick, grant, acquire}
use cosaci.Lease.Invariant.{IsValid}
use cosaci.Lease.Expiry.{HoldsAt, tick-IsValid, get-tick, tick-rest}
use cosaci.Lease.Exclusion.{granted}

-- The pair index after `tick` reads the pairs that are held.
HoldsAt-of_index :
    (now j r id : ℕ) (m : LeaseManager)
    → IsValid m
    → get (j, r) (tick now m).active_by_pair ≡ some id
    → HoldsAt now j r m
HoldsAt-of_index now j r id m v e =
    let (x, ex, ax, px) = (tick-IsValid now m v).tracked j r id e in
    back x ex ax px (get id m.leases) refl
  where
    back :
        (x : Lease)
        → get id (tick now m).leases ≡ some x
        → x.state ≡ active
        → pair_of x ≡ (j, r)
        → (o : Option Lease) → get id m.leases ≡ o
        → HoldsAt now j r m
    back x ex ax px none eo = absurd (ground (arith, get-tick now id m v))
    back x ex ax px (some l) eo = (
      id,
      l,
      eo,
      ground (arith, get-tick now id m v),
      ground (arith, get-tick now id m v),
      ground (arith, get-tick now id m v),
    )

index-of_HoldsAt :
    (now j r : ℕ) (m : LeaseManager) (v : IsValid m) (h : HoldsAt now j r m)
    → get (j, r) (tick now m).active_by_pair ≡ some h.0
index-of_HoldsAt now j r m v (id, l, e, a, p, d) =
    rw (← p) ((tick-IsValid now m v).indexed id l (ground (arith, get-tick now id m v)) a)

-- In a valid manager `acquire` is refused exactly if some lease of the pair is active and not due
-- at the reading of `tick`.
pub acquire_refused_iff :
    (j r now now' : ℕ) (m : LeaseManager)
    → IsValid m
    → ((acquire j r now now' m).1 ≡ err already_leased) ↔ HoldsAt now j r m
unfolding acquire grant contains_key
acquire_refused_iff j r now now' m v =
    (refused (get (j, r) (tick now m).active_by_pair) refl, holds)
  where
    refused :
        (o : Option ℕ)
        → get (j, r) (tick now m).active_by_pair ≡ o
        → (acquire j r now now' m).1 ≡ err already_leased
        → HoldsAt now j r m
    refused none eo h = absurd (ground arith)
    refused (some id) eo h = HoldsAt-of_index now j r id m v eo

    holds : HoldsAt now j r m → (acquire j r now now' m).1 ≡ err already_leased
    holds h = rw (index-of_HoldsAt now j r m v h, acquire, grant, contains_key)

-- In a valid manager and where no lease holds the pair, `acquire` returns the next id, stores the
-- new active lease under it and indexes the pair.
pub acquire-granted :
    (j r now now' : ℕ) (m : LeaseManager)
    → IsValid m
    → ¬ HoldsAt now j r m
    → ((acquire j r now now' m).1 ≡ ok m.next_id)
      × (get m.next_id (acquire j r now now' m).0.leases ≡ some (granted j r now' m))
      × (get (j, r) (acquire j r now now' m).0.active_by_pair ≡ some m.next_id)
unfolding acquire grant contains_key
acquire-granted j r now now' m v h = elim (Option-cases (get (j, r) (tick now m).active_by_pair)) [
  | inl e ↦ (
    ground (arith, tick-rest now m),
    ground (
      arith,
      tick-rest now m,
      get-insert_self (tick now m).next_id (granted j r now' (tick now m)) (tick now m).leases,
    ),
    ground (
      arith,
      tick-rest now m,
      get-insert_self (j, r) (tick now m).next_id (tick now m).active_by_pair,
    ),
  )
  | inr (id, e) ↦ absurd (h (HoldsAt-of_index now j r id m v e))
]
