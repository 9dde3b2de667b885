-- ===== src/Lease/Exclusion.antt =====
-- `acquire` and `complete` keep the invariant.
use cosaci.Prelude.{
  ℕ, ◌<◌, ◌≡◌, refl, inl, inr, none, some, arith, nat_key, pair_key, nat_beq_iff, pair_beq_iff,
  Bool-cases, Option-cases, wrapping_add, u64_max,
}
use cosaci.Map.{get, insert, contains_key, get-insert, insert-HasDistinctKeys}
use cosaci.Lease.{
  active, completed, Lease, pair_of, is_active_state, LeaseManager, tick, grant, acquire, finish,
  complete,
}
use cosaci.Lease.Invariant.{IsValid, close-IsValid}
use cosaci.Lease.Expiry.{tick-IsValid, tick-rest}

-- The lease that `grant` makes.
abbrev pub granted : ℕ → ℕ → ℕ → LeaseManager → Lease
granted job_id runner_id now m = record {
  lease_id = m.next_id;
  job_id = job_id;
  runner_id = runner_id;
  acquired_at_ns = now;
  ttl_ns = m.default_ttl_ns;
  state = active;
}

abbrev with_grant : ℕ → ℕ → ℕ → LeaseManager → LeaseManager
with_grant j r now m = record m {
  leases = insert m.next_id (granted j r now m) m.leases;
  active_by_pair = insert (j, r) m.next_id m.active_by_pair;
  next_id = wrapping_add m.next_id 1;
}

module _ (j r now : ℕ) (m : LeaseManager) (v : IsValid m) (room : m.next_id < u64_max)
    (vacant : get (j, r) m.active_by_pair ≡ none) where
  grant-numbered :
      (k : ℕ) (x : Lease)
      → get k (with_grant j r now m).leases ≡ some x
      → (x.lease_id ≡ k) × (k < (with_grant j r now m).next_id)
  grant-numbered k x e = ground (
    arith,
    get-insert m.next_id k (granted j r now m) m.leases,
    nat_beq_iff m.next_id k,
    v.numbered k x,
  )

  grant-indexed :
      (k : ℕ) (x : Lease)
      → get k (with_grant j r now m).leases ≡ some x
      → x.state ≡ active
      → get (pair_of x) (with_grant j r now m).active_by_pair ≡ some k
  grant-indexed k x e a = ground (
    arith,
    get-insert m.next_id k (granted j r now m) m.leases,
    nat_beq_iff m.next_id k,
    get-insert (j, r) (pair_of x) m.next_id m.active_by_pair,
    pair_beq_iff (j, r) (pair_of x),
    v.indexed k x,
  )

  grant-tracked :
      (j' r' k : ℕ)
      → get (j', r') (with_grant j r now m).active_by_pair ≡ some k
      → (x : Lease) × (get k (with_grant j r now m).leases ≡ some x)
        × (x.state ≡ active)
        × (pair_of x ≡ (j', r'))
  grant-tracked j' r' k e = elim (Bool-cases (pair_key.test (j, r) (j', r'))) [
    | inl same ↦ (
      granted j r now m,
      ground (
        arith,
        get-insert (j, r) (j', r') m.next_id m.active_by_pair,
        get-insert m.next_id k (granted j r now m) m.leases,
        nat_beq_iff m.next_id k,
      ),
      refl,
      ground (arith, pair_beq_iff (j, r) (j', r')),
    )
    | inr other ↦
        let old : get (j', r') m.active_by_pair ≡ some k =
          ground (arith, get-insert (j, r) (j', r') m.next_id m.active_by_pair) in
        let (x, ex, ax, px) = v.tracked j' r' k old in
        (
          x,
          ground (
            arith,
            get-insert m.next_id k (granted j r now m) m.leases,
            nat_beq_iff m.next_id k,
            v.numbered k x ex,
          ),
          ax,
          px,
        )
  ]

  with_grant-IsValid : IsValid (with_grant j r now m)
  with_grant-IsValid = record {
    distinct = insert-HasDistinctKeys m.next_id (granted j r now m) m.leases v.distinct;
    distinct_pairs = insert-HasDistinctKeys (j, r) m.next_id m.active_by_pair v.distinct_pairs;
    numbered = grant-numbered;
    indexed = grant-indexed;
    tracked = grant-tracked;
  }

grant-IsValid :
    (j r now : ℕ) (m : LeaseManager) → IsValid m → m.next_id < u64_max → IsValid (grant j r now m).0
unfolding grant contains_key
grant-IsValid j r now m v room = elim (Option-cases (get (j, r) m.active_by_pair)) [
  | inl e ↦ rw (e, contains_key) (with_grant-IsValid j r now m v room e)
  | inr (id, e) ↦ rw (e, contains_key) v
]

finish-IsValid : (id : ℕ) (m : LeaseManager) → IsValid m → IsValid (finish id m)
unfolding finish
finish-IsValid id m v = elim (Option-cases (get id m.leases)) [
  | inl e ↦ rw (e, finish) v
  | inr (l, e) ↦ elim (Bool-cases (is_active_state l.state)) [
    | inl a ↦ rw (e, finish, a) (close-IsValid completed m id l (λ p. cc) e (ground arith) v)
    | inr a ↦ rw (e, finish, a) v
  ]
]

-- `acquire` keeps the invariant, as long as the lease ids do not wrap.
pub acquire-IsValid :
    (j r now now' : ℕ) (m : LeaseManager)
    → IsValid m
    → m.next_id < u64_max
    → IsValid (acquire j r now now' m).0
unfolding acquire
acquire-IsValid j r now now' m v room =
    grant-IsValid j r now' (tick now m) (tick-IsValid now m v) (omega (arith, tick-rest now m))

-- `complete` keeps the invariant.
pub complete-IsValid : (id now : ℕ) (m : LeaseManager) → IsValid m → IsValid (complete id now m)
unfolding complete
complete-IsValid id now m v = finish-IsValid id (tick now m) (tick-IsValid now m v)
