-- ===== src/Lease/Expiry.antt =====
-- `tick`: it expires the due leases, all of them and no other.
use cosaci.Prelude.{
  ℕ, ◌≡◌, refl, inl, inr, Bool, true, false, ◌||◌, Option, none, some, List, [], ◌∷◌, arith,
  if◌then◌else◌, nat_key, pair_key, nat_beq, nat_beq_iff, Option-cases,
}
use cosaci.Map.{Map, get, HasDistinctKeys, get-insert}
use cosaci.Lease.{
  active, expired, Lease, pair_of, LeaseManager, is_due, to_expire, close, expire_all, tick,
}
use cosaci.Lease.Invariant.{IsValid, close-IsValid}

abbrev contains : ℕ → List ℕ → Bool
contains id [] = false
contains id (j ∷ ids) = nat_beq j id || contains id ids

abbrev AreDistinct : List ℕ → Type 0
AreDistinct [] = Unit
AreDistinct (id ∷ ids) = (contains id ids ≡ false) × AreDistinct ids

-- The lease that a due lease becomes.
abbrev pub aged : ℕ → Lease → Lease
aged now l = if is_due now l then record l { state = expired } else l

contains-to_expire :
    (now id : ℕ) (leases : Map ℕ Lease)
    → HasDistinctKeys leases
    → contains id (to_expire now leases)
      ≡ elim (get id leases) [ none ↦ false | some l ↦ is_due now l ]
unfolding get to_expire
contains-to_expire now id [] d = refl
contains-to_expire now id ((k, l) ∷ leases) d =
    ground (arith, contains-to_expire now id leases d.1, nat_beq_iff k id)

to_expire-AreDistinct :
    (now : ℕ) (leases : Map ℕ Lease) → HasDistinctKeys leases → AreDistinct (to_expire now leases)
unfolding to_expire
to_expire-AreDistinct now [] d = tt
to_expire-AreDistinct now ((k, l) ∷ leases) d =
    ground (arith, to_expire-AreDistinct now leases d.1, contains-to_expire now k leases d.1)

-- One round of the loop.
abbrev expire_one : ℕ → LeaseManager → LeaseManager
expire_one id m = elim (get id m.leases) [ none ↦ m | some l ↦ close expired m id l ]

abbrev marked : Option Lease → Option Lease
marked none = none
marked (some l) = some (record l { state = expired })

get-expire_one :
    (id k : ℕ) (m : LeaseManager)
    → get k (expire_one id m).leases
      ≡ (if nat_beq id k then marked (get k m.leases) else get k m.leases)
get-expire_one id k m = elim (Option-cases (get id m.leases)) [
  | inl e ↦ ground (arith, nat_beq_iff id k)
  | inr (l, e) ↦
      ground (arith, nat_beq_iff id k, get-insert id k (record l { state = expired }) m.leases)
]

get-expire_all :
    (ids : List ℕ) (k : ℕ) (m : LeaseManager)
    → get k (expire_all ids m).leases
      ≡ (if contains k ids then marked (get k m.leases) else get k m.leases)
unfolding expire_all
get-expire_all [] k m = refl
get-expire_all (id ∷ ids) k m =
    ground (arith, get-expire_all ids k (expire_one id m), get-expire_one id k m)

expire_one-IsValid :
    (id : ℕ) (m : LeaseManager)
    → ((l : Lease) × (get id m.leases ≡ some l) × (l.state ≡ active))
    → IsValid m
    → IsValid (expire_one id m)
expire_one-IsValid id m (l, e, a) v =
    rw (e, expire_one) (close-IsValid expired m id l (λ p. cc) e a v)

expire_all-IsValid :
    (ids : List ℕ) (m : LeaseManager)
    → AreDistinct ids
    → ((k : ℕ)
        → contains k ids ≡ true
        → (l : Lease) × (get k m.leases ≡ some l) × (l.state ≡ active))
    → IsValid m
    → IsValid (expire_all ids m)
unfolding expire_all
expire_all-IsValid [] m d h v = v
expire_all-IsValid (id ∷ ids) m d h v =
    expire_all-IsValid ids (expire_one id m) d.1
      (λ k c.
        let (l, e, a) = h k (ground arith) in
        (l, ground (arith, get-expire_one id k m, nat_beq_iff id k), a))
      (expire_one-IsValid id m (h id (ground (arith, nat_beq_iff id id))) v)

to_expire-active :
    (now k : ℕ) (m : LeaseManager)
    → HasDistinctKeys m.leases
    → contains k (to_expire now m.leases) ≡ true
    → (l : Lease) × (get k m.leases ≡ some l) × (l.state ≡ active)
to_expire-active now k m d h = elim (Option-cases (get k m.leases)) [
  | inl e ↦ absurd (ground (arith, contains-to_expire now k m.leases d))
  | inr (l, e) ↦ (l, e, ground (arith, contains-to_expire now k m.leases d))
]

-- `tick` keeps the invariant.
pub tick-IsValid : (now : ℕ) (m : LeaseManager) → IsValid m → IsValid (tick now m)
unfolding tick
tick-IsValid now m v =
    expire_all-IsValid (to_expire now m.leases) m (to_expire-AreDistinct now m.leases v.distinct)
      (λ k. to_expire-active now k m v.distinct) v

-- After `tick` a lease that was active and due has expired, and any other is as it was.
pub get-tick :
    (now k : ℕ) (m : LeaseManager)
    → IsValid m
    → get k (tick now m).leases ≡ elim (get k m.leases) [ none ↦ none | some l ↦ some (aged now l) ]
unfolding tick
get-tick now k m v = ground (
  arith,
  get-expire_all (to_expire now m.leases) k m,
  contains-to_expire now k m.leases v.distinct,
)

expire_all-rest :
    (ids : List ℕ) (m : LeaseManager)
    → ((expire_all ids m).next_id ≡ m.next_id)
      × ((expire_all ids m).default_ttl_ns ≡ m.default_ttl_ns)
unfolding expire_all
expire_all-rest [] m = (refl, refl)
expire_all-rest (id ∷ ids) m = ground (arith, expire_all-rest ids (expire_one id m))

-- `tick` numbers no lease and keeps the configuration.
pub tick-rest :
    (now : ℕ) (m : LeaseManager)
    → ((tick now m).next_id ≡ m.next_id) × ((tick now m).default_ttl_ns ≡ m.default_ttl_ns)
unfolding tick
tick-rest now m = expire_all-rest (to_expire now m.leases) m

-- The pair index after `tick` holds the pairs whose lease is active and not due.
abbrev pub HoldsAt : ℕ → ℕ → ℕ → LeaseManager → Type 0
HoldsAt now job_id runner_id m =
    (id : ℕ) × (l : Lease) × (get id m.leases ≡ some l)
    × (l.state ≡ active)
    × (pair_of l ≡ (job_id, runner_id))
    × (is_due now l ≡ false)
