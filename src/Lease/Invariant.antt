-- ===== src/Lease/Invariant.antt =====
-- The invariant of `LeaseManager`: the pair index holds the active leases and nothing else.
use cosaci.Prelude.{ℕ, ◌<◌, ◌≡◌, ◌≢◌, some, arith, nat_key, pair_key, nat_beq_iff, pair_beq_iff}
use cosaci.Map.{
  get, HasDistinctKeys, get-insert, get-remove, insert-HasDistinctKeys, remove-HasDistinctKeys,
}
use cosaci.Lease.{LeaseState, active, Lease, pair_of, LeaseManager, new, close}

pub record IsValid (m : LeaseManager) : Type 0 where
  pub distinct : HasDistinctKeys m.leases
  pub distinct_pairs : HasDistinctKeys m.active_by_pair
  pub numbered :
      (id : ℕ) (l : Lease) → get id m.leases ≡ some l → (l.lease_id ≡ id) × (id < m.next_id)
  pub indexed :
      (id : ℕ) (l : Lease)
      → get id m.leases ≡ some l
      → l.state ≡ active
      → get (pair_of l) m.active_by_pair ≡ some id
  pub tracked :
      (j r id : ℕ)
      → get (j, r) m.active_by_pair ≡ some id
      → (l : Lease) × (get id m.leases ≡ some l) × (l.state ≡ active) × (pair_of l ≡ (j, r))

pub new-IsValid : (ttl : ℕ) → IsValid (new ttl)
unfolding new get
new-IsValid ttl = record {
  distinct = tt;
  distinct_pairs = tt;
  numbered = λ id l e. absurd (cc);
  indexed = λ id l e a. absurd (cc);
  tracked = λ j r id e. absurd (cc);
}

module _ (state : LeaseState) (m : LeaseManager) (id : ℕ) (l : Lease) (inactive : state ≢ active)
    (found : get id m.leases ≡ some l) (was : l.state ≡ active) (v : IsValid m) where
  close-numbered :
      (k : ℕ) (x : Lease)
      → get k (close state m id l).leases ≡ some x
      → (x.lease_id ≡ k) × (k < m.next_id)
  close-numbered k x e = ground (
    arith,
    get-insert id k (record l { state = state }) m.leases,
    nat_beq_iff id k,
    v.numbered id l found,
    v.numbered k x,
  )

  close-indexed :
      (k : ℕ) (x : Lease)
      → get k (close state m id l).leases ≡ some x
      → x.state ≡ active
      → get (pair_of x) (close state m id l).active_by_pair ≡ some k
  close-indexed k x e a = ground (
    arith,
    get-insert id k (record l { state = state }) m.leases,
    nat_beq_iff id k,
    get-remove (pair_of l) (pair_of x) m.active_by_pair,
    v.indexed id l found was,
    v.indexed k x,
  )

  close-tracked :
      (j r k : ℕ)
      → get (j, r) (close state m id l).active_by_pair ≡ some k
      → (x : Lease) × (get k (close state m id l).leases ≡ some x)
        × (x.state ≡ active)
        × (pair_of x ≡ (j, r))
  close-tracked j r k e =
      let was_there : get (j, r) m.active_by_pair ≡ some k =
        ground (arith, get-remove (pair_of l) (j, r) m.active_by_pair) in
      let (x, ex, ax, px) = v.tracked j r k was_there in
      (
        x,
        ground (
          arith,
          get-insert id k (record l { state = state }) m.leases,
          nat_beq_iff id k,
          get-remove (pair_of l) (j, r) m.active_by_pair,
          pair_beq_iff (pair_of l) (j, r),
        ),
        ax,
        px,
      )

  -- Closing an active lease keeps the invariant.
  pub close-IsValid : IsValid (close state m id l)
  close-IsValid = record {
    distinct = insert-HasDistinctKeys id (record l { state = state }) m.leases v.distinct;
    distinct_pairs = remove-HasDistinctKeys (pair_of l) m.active_by_pair v.distinct_pairs;
    numbered = close-numbered;
    indexed = close-indexed;
    tracked = close-tracked;
  }
