-- ===== src/RateLimit/Examples.antt =====
-- Runs of the rate limiter, and the theorem at a concrete input.
use cosaci.Prelude.{◌+◌, ◌-◌, ◌*◌, ◌≤◌, ◌≡◌, refl, [], ◌∷◌, List, arith, nat_key}
use cosaci.Map.{get, insert}
use cosaci.RateLimit.{
  RateLimiter, new, new_bucket, refill, try_consume, accept_with_config, tokens_of,
}
use cosaci.RateLimit.Admission.{Request, consumes, reads, step, taken, admitted}
use cosaci.RateLimit.Quota.{admitted_bound}
use cosaci.RateLimit.Starvation.{admitted_starved}

abbrev limiter : RateLimiter
limiter = new 5 1

-- Tenant 1 has a burst of 2 and one token a second; tenant 2 has more.
abbrev requests : List Request
requests =
    consumes 1 2 2 1 0
    ∷ consumes 2 3 9 9 0
    ∷ consumes 1 1 2 1 500_000_000
    ∷ reads 1 600_000_000
    ∷ consumes 1 1 2 1 1_700_000_000
    ∷ []

-- Reading the balance at 0.6 s resets the time of the last refill, and the 0.6 s are lost.
tokens_taken : admitted 1 limiter requests ≡ 3
unfolding admitted taken step accept_with_config tokens_of try_consume refill new_bucket new get
    insert
tokens_taken = refl

admitted_bound_example :
    admitted 1 limiter requests * 1_000_000_000 ≤ 2 * 1_000_000_000 + 1 * (2_000_000_000 - 0)
unfolding new get
admitted_bound_example =
    admitted_bound 1 2 1 0 2_000_000_000 limiter requests refl (omega arith) (omega arith)

abbrev drained : RateLimiter
drained = record limiter { buckets = (1, record (new_bucket 2 1 0) { tokens = 0 }) ∷ [] }

admitted_starved_example :
    admitted 1 drained (consumes 1 1 2 1 900_000_000 ∷ consumes 1 1 2 1 1_800_000_000 ∷ []) ≡ 0
unfolding new_bucket get
admitted_starved_example =
    admitted_starved 1 drained (consumes 1 1 2 1 900_000_000 ∷ consumes 1 1 2 1 1_800_000_000 ∷ [])
      (record { capacity = 2; refill_per_sec = 1; tokens = 0; last_refill_ns = 0 }) refl refl
      (refl, omega arith, omega arith, (refl, omega arith, omega arith, tt))
