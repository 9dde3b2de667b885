-- ===== src/Lease/History.antt =====
-- Sequences of calls on a `LeaseManager`.
use cosaci.Prelude.{
  err, ℕ, ◌+◌, ◌≤◌, ◌<◌, ◌≡◌, refl, ◌≢◌, inl, inr, ◌&&◌, some, List, [], ◌∷◌, arith, if◌then◌else◌,
  nat_key, pair_key, nat_beq, nat_beq_iff, Option-cases, u64_max, length, All, some,
}
use cosaci.Map.{get, get-insert}
use cosaci.Lease.{
  active, completed, Lease, pair_of, is_active_state, LeaseManager, already_leased, new, tick,
  grant, acquire, finish, complete, expires_at_ns,
}
use cosaci.Lease.Invariant.{IsValid, new-IsValid}
use cosaci.Lease.Expiry.{tick-IsValid, get-tick, tick-rest}
use cosaci.Lease.Exclusion.{granted, acquire-IsValid, complete-IsValid}
use cosaci.Lease.Granting.{acquire_refused_iff}

-- A call with its readings of the clock. Every query runs `tick` and returns.
pub data Call : Type 0 where
  acquires : (job_id runner_id now now' : ℕ) → Call
  completes : (id now : ℕ) → Call
  queries : (now : ℕ) → Call

unfoldable pub step : LeaseManager → Call → LeaseManager
step m (acquires j r now now') = (acquire j r now now' m).0
step m (completes id now) = complete id now m
step m (queries now) = tick now m

unfoldable pub run : LeaseManager → List Call → LeaseManager
run m [] = m
run m (c ∷ calls) = run (step m c) calls

step-IsValid : (m : LeaseManager) (c : Call) → IsValid m → m.next_id < u64_max → IsValid (step m c)
unfolding step
step-IsValid m (acquires j r now now') v room = acquire-IsValid j r now now' m v room
step-IsValid m (completes id now) v room = complete-IsValid id now m v
step-IsValid m (queries now) v room = tick-IsValid now m v

grant-next_id :
    (j r now : ℕ) (m : LeaseManager)
    → m.next_id < u64_max
    → (grant j r now m).0.next_id ≤ m.next_id + 1
unfolding grant
grant-next_id j r now m room = ground arith

finish-next_id : (id : ℕ) (m : LeaseManager) → (finish id m).next_id ≡ m.next_id
unfolding finish
finish-next_id id m = ground arith

step-next_id :
    (m : LeaseManager) (c : Call) → m.next_id < u64_max → (step m c).next_id ≤ m.next_id + 1
unfolding step acquire complete
step-next_id m (acquires j r now now') room =
    omega
      (arith, tick-rest now m, grant-next_id j r now' (tick now m) (omega (arith, tick-rest now m)))
step-next_id m (completes id now) room =
    omega (arith, tick-rest now m, finish-next_id id (tick now m))
step-next_id m (queries now) room = omega (arith, tick-rest now m)

pub run-IsValid_from :
    (m : LeaseManager) (calls : List Call)
    → IsValid m
    → m.next_id + length calls ≤ u64_max
    → IsValid (run m calls)
unfolding run
run-IsValid_from m [] v room = v
run-IsValid_from m (c ∷ calls) v room =
    run-IsValid_from (step m c) calls (step-IsValid m c v (omega arith))
      (omega (arith, step-next_id m c (omega arith)))

-- After fewer than 2 ^ 64 - 1 calls the invariant of a new manager still holds.
pub run-IsValid :
    (ttl : ℕ) (calls : List Call) → length calls + 1 ≤ u64_max → IsValid (run (new ttl) calls)
run-IsValid ttl calls room =
    run-IsValid_from (new ttl) calls (new-IsValid ttl) (unfold new in omega arith)

-- After any fewer than 2 ^ 64 - 1 calls on a new lease manager, two active leases for the same job
-- and runner are the same lease.
pub run_exclusive :
    (ttl : ℕ) (calls : List Call) (id id' : ℕ) (l l' : Lease)
    → length calls + 1 ≤ u64_max
    → get id (run (new ttl) calls).leases ≡ some l
    → get id' (run (new ttl) calls).leases ≡ some l'
    → l.state ≡ active
    → l'.state ≡ active
    → pair_of l ≡ pair_of l'
    → id ≡ id'
run_exclusive ttl calls id id' l l' room e e' a a' p =
    let v = run-IsValid ttl calls room in
    let first = v.indexed id l e a in let second = v.indexed id' l' e' a' in ground arith

get-grant :
    (id j r now : ℕ) (m : LeaseManager) (l : Lease)
    → IsValid m
    → get id m.leases ≡ some l
    → get id (grant j r now m).0.leases ≡ some l
unfolding grant
get-grant id j r now m l v e = ground (
  arith,
  get-insert m.next_id id (granted j r now m) m.leases,
  nat_beq_iff m.next_id id,
  v.numbered id l,
)

get-finish :
    (id k : ℕ) (m : LeaseManager) (l : Lease)
    → get k m.leases ≡ some l
    → get k (finish id m).leases
      ≡ some (if nat_beq id k && is_active_state l.state then record l { state = completed } else l)
unfolding finish
get-finish id k m l e = elim (Option-cases (get id m.leases)) [
  | inl o ↦ ground (arith, nat_beq_iff id k)
  | inr (x, o) ↦
      ground (arith, nat_beq_iff id k, get-insert id k (record x { state = completed }) m.leases)
]

-- A call that leaves lease `id`, which expires at `deadline`, active.
abbrev pub Spares : ℕ → ℕ → Call → Type 0
Spares id deadline (acquires j r now now') = now < deadline
Spares id deadline (completes id' now) = (now < deadline) × (id' ≢ id)
Spares id deadline (queries now) = now < deadline

get-tick_early :
    (now id : ℕ) (m : LeaseManager) (l : Lease)
    → IsValid m
    → get id m.leases ≡ some l
    → now < expires_at_ns l
    → get id (tick now m).leases ≡ some l
get-tick_early now id m l v e h = rw (get-tick now id m v, e) (ground arith)

get-step_spared :
    (m : LeaseManager) (c : Call) (id : ℕ) (l : Lease)
    → IsValid m
    → get id m.leases ≡ some l
    → Spares id (expires_at_ns l) c
    → get id (step m c).leases ≡ some l
unfolding step acquire complete
get-step_spared m (acquires j r now now') id l v e h =
    get-grant id j r now' (tick now m) l (tick-IsValid now m v) (get-tick_early now id m l v e h)
get-step_spared m (completes id' now) id l v e h = ground (
  arith,
  get-finish id' id (tick now m) l (get-tick_early now id m l v e h.0),
  nat_beq_iff id' id,
)
get-step_spared m (queries now) id l v e h = get-tick_early now id m l v e h

get-run_spared :
    (m : LeaseManager) (calls : List Call) (id : ℕ) (l : Lease)
    → IsValid m
    → m.next_id + length calls ≤ u64_max
    → get id m.leases ≡ some l
    → All (Spares id (expires_at_ns l)) calls
    → get id (run m calls).leases ≡ some l
unfolding run
get-run_spared m [] id l v room e h = e
get-run_spared m (c ∷ calls) id l v room e h =
    get-run_spared (step m c) calls id l (step-IsValid m c v (omega arith))
      (omega (arith, step-next_id m c (omega arith))) (get-step_spared m c id l v e h.0) h.1

-- In a valid manager with ids left, until an active lease expires or is completed, whatever else
-- is called, `acquire` for its job and runner is refused.
pub run_protects :
    (m : LeaseManager) (calls : List Call) (id now now' : ℕ) (l : Lease)
    → IsValid m
    → m.next_id + length calls ≤ u64_max
    → get id m.leases ≡ some l
    → l.state ≡ active
    → All (Spares id (expires_at_ns l)) calls
    → now < expires_at_ns l
    → (acquire l.job_id l.runner_id now now' (run m calls)).1 ≡ err already_leased
run_protects m calls id now now' l v room e a h early =
    (acquire_refused_iff l.job_id l.runner_id now now' (run m calls)
        (run-IsValid_from m calls v room)).1
      (id, l, get-run_spared m calls id l v room e h, a, refl, ground arith)

get-step_closed :
    (m : LeaseManager) (c : Call) (id : ℕ) (l : Lease)
    → IsValid m
    → get id m.leases ≡ some l
    → l.state ≢ active
    → get id (step m c).leases ≡ some l
unfolding step acquire complete
get-step_closed m (acquires j r now now') id l v e h =
    get-grant id j r now' (tick now m) l (tick-IsValid now m v)
      (ground (arith, get-tick now id m v))
get-step_closed m (completes id' now) id l v e h = ground (
  arith,
  get-finish id' id (tick now m) l (ground (arith, get-tick now id m v)),
  nat_beq_iff id' id,
)
get-step_closed m (queries now) id l v e h = ground (arith, get-tick now id m v)

-- A completed or expired lease never changes again.
pub run_closed_final :
    (m : LeaseManager) (calls : List Call) (id : ℕ) (l : Lease)
    → IsValid m
    → m.next_id + length calls ≤ u64_max
    → get id m.leases ≡ some l
    → l.state ≢ active
    → get id (run m calls).leases ≡ some l
unfolding run
run_closed_final m [] id l v room e h = e
run_closed_final m (c ∷ calls) id l v room e h =
    run_closed_final (step m c) calls id l (step-IsValid m c v (omega arith))
      (omega (arith, step-next_id m c (omega arith))) (get-step_closed m c id l v e h) h
