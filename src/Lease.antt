-- ===== src/Lease.antt =====
-- crates/cosaci-state/src/lease.rs: `LeaseManager`. The clock is the caller's: every reading of
-- `now_ns()` is an argument, in the order of the calls.
pub mod Invariant
pub mod Expiry
pub mod Exclusion
pub mod Granting
pub mod History
mod Examples
use cosaci.Prelude.{
  Result, ok, err, ℕ, ◌+◌, Bool, true, false, ◌&&◌, Option, none, some, List, [], ◌∷◌, leb,
  if◌then◌else◌, saturating_add, wrapping_add, nat_key, pair_key, nat_beq,
}
use cosaci.Map.{Map, get, insert, remove, contains_key, len}

pub data LeaseState : Type 0 where
  active completed expired : LeaseState

pub record Lease : Type 0 where
  pub lease_id : ℕ
  pub job_id : ℕ
  pub runner_id : ℕ
  pub acquired_at_ns : ℕ
  pub ttl_ns : ℕ
  pub state : LeaseState

abbrev pub expires_at_ns : Lease → ℕ
expires_at_ns l = saturating_add l.acquired_at_ns l.ttl_ns

-- The key `(job_id, runner_id)`.
abbrev pub pair_of : Lease → ℕ × ℕ
pair_of l = (l.job_id, l.runner_id)

abbrev pub is_active_state : LeaseState → Bool
is_active_state active = true
is_active_state completed = false
is_active_state expired = false

pub data LeaseError : Type 0 where
  already_leased : LeaseError

pub record LeaseManager : Type 0 where
  pub default_ttl_ns : ℕ
  pub leases : Map ℕ Lease
  pub active_by_pair : Map (ℕ × ℕ) ℕ
  pub next_id : ℕ

unfoldable pub new : ℕ → LeaseManager
new ttl = record { default_ttl_ns = ttl; leases = []; active_by_pair = []; next_id = 1 }

-- The filter of `tick`.
abbrev pub is_due : ℕ → Lease → Bool
is_due now l = is_active_state l.state && leb (expires_at_ns l) now

-- The ids that `tick` collects.
unfoldable pub to_expire : ℕ → Map ℕ Lease → List ℕ
to_expire now [] = []
to_expire now ((id, l) ∷ leases) =
    let rest = to_expire now leases in if is_due now l then id ∷ rest else rest

-- Gives a lease a state that is not active, and drops its pair.
abbrev pub close : LeaseState → LeaseManager → ℕ → Lease → LeaseManager
close state m id l = record m {
  leases = insert id (record l { state = state }) m.leases;
  active_by_pair = remove (pair_of l) m.active_by_pair;
}

-- The loop of `tick`.
unfoldable pub expire_all : List ℕ → LeaseManager → LeaseManager
expire_all [] m = m
expire_all (id ∷ ids) m =
    expire_all ids (elim (get id m.leases) [ none ↦ m | some l ↦ close expired m id l ])

unfoldable pub tick : ℕ → LeaseManager → LeaseManager
tick now m = expire_all (to_expire now m.leases) m

-- The rest of `acquire`, behind `tick`; `now` is the second reading of the clock.
unfoldable pub grant : ℕ → ℕ → ℕ → LeaseManager → LeaseManager × Result ℕ LeaseError
grant job_id runner_id now m =
    if contains_key (job_id, runner_id) m.active_by_pair
    then (m, err already_leased)
    else let id = m.next_id in
      let lease : Lease = record {
        lease_id = id;
        job_id = job_id;
        runner_id = runner_id;
        acquired_at_ns = now;
        ttl_ns = m.default_ttl_ns;
        state = active;
      } in
      (
        record m {
          leases = insert id lease m.leases;
          active_by_pair = insert (job_id, runner_id) id m.active_by_pair;
          next_id = wrapping_add id 1;
        },
        ok id,
      )

unfoldable pub acquire : ℕ → ℕ → ℕ → ℕ → LeaseManager → LeaseManager × Result ℕ LeaseError
acquire job_id runner_id now now' m = grant job_id runner_id now' (tick now m)

-- The rest of `complete`, behind `tick`.
unfoldable pub finish : ℕ → LeaseManager → LeaseManager
finish id m = elim (get id m.leases) [
  | none ↦ m
  | some l ↦ if is_active_state l.state then close completed m id l else m
]

unfoldable pub complete : ℕ → ℕ → LeaseManager → LeaseManager
complete id now m = finish id (tick now m)

abbrev pub state_in : ℕ → LeaseManager → Option LeaseState
state_in id m = elim (get id m.leases) [ none ↦ none | some l ↦ some l.state ]

-- The queries run `tick` first, and return the manager that it leaves.
unfoldable pub state_of : ℕ → ℕ → LeaseManager → LeaseManager × Option LeaseState
state_of id now m = let t = tick now m in (t, state_in id t)

unfoldable pub is_active : ℕ → ℕ → LeaseManager → LeaseManager × Bool
is_active id now m =
    let t = tick now m in
    (t, elim (get id t.leases) [ none ↦ false | some l ↦ is_active_state l.state ])

unfoldable pub active_lease_for : ℕ → ℕ → ℕ → LeaseManager → LeaseManager × Option ℕ
active_lease_for job_id runner_id now m =
    let t = tick now m in (t, get (job_id, runner_id) t.active_by_pair)

unfoldable pub count_for_job : ℕ → Map (ℕ × ℕ) ℕ → ℕ
count_for_job job_id [] = 0
count_for_job job_id ((p, _) ∷ rest) =
    (if nat_beq p.0 job_id then 1 else 0) + count_for_job job_id rest

unfoldable pub count_active_for_job : ℕ → ℕ → LeaseManager → LeaseManager × ℕ
unfolding count_for_job
count_active_for_job job_id now m = let t = tick now m in (t, count_for_job job_id t.active_by_pair)

unfoldable pub count_active : ℕ → LeaseManager → LeaseManager × ℕ
count_active now m = let t = tick now m in (t, len t.active_by_pair)

abbrev pub keys {ℓ κ} : {K : Type ℓ} {V : Type κ} → Map K V → List K
keys [] = []
keys ((k, _) ∷ m) = k ∷ keys m

unfoldable pub active_pairs : ℕ → LeaseManager → LeaseManager × List (ℕ × ℕ)
active_pairs now m = let t = tick now m in (t, keys t.active_by_pair)
