-- ===== src/RateLimit/Quota.antt =====
-- The quota of a tenant that the limiter sees for the first time.
use cosaci.Prelude.{
  ℕ, ◌+◌, ◌-◌, ◌*◌, ◌≤◌, ◌≡◌, inl, inr, false, none, some, List, [], ◌∷◌, arith, nat_key, nat_beq,
  nat_beq_iff, Bool-cases, Option-cases, All,
}
use cosaci.Map.{get, get-insert}
use cosaci.RateLimit.{
  TokenBucket, RateLimiter, new_bucket, bucket_or_new, refill, try_consume, accept_with_config,
  tokens_of,
}
use cosaci.RateLimit.Bucket.{Fits, new_bucket-Fits, try_consume-Fits, try_consume-rest, cost_if}
use cosaci.RateLimit.Admission.{
  Request, consumes, reads, step, taken, admitted, IsOrdered, IsOrdered-weaken, run_bound,
}

-- The requests of the tenant carry its configured quota.
abbrev pub IsConfigured : (tenant capacity refill_per_sec : ℕ) → Request → Type 0
IsConfigured tenant capacity rate (consumes other cost c q now) =
    other ≡ tenant → (c ≡ capacity) × (q ≡ rate)
IsConfigured tenant capacity rate (reads other now) = Unit

-- The bucket after the first request.
abbrev first_bucket : (cost capacity refill_per_sec now : ℕ) → TokenBucket
first_bucket cost capacity rate now = (try_consume cost now (new_bucket capacity rate now)).0

unseen_first :
    (tenant other cost capacity rate now : ℕ) (r : RateLimiter)
    → get tenant r.buckets ≡ none
    → other ≡ tenant
    → (get tenant (step r (consumes other cost capacity rate now)).buckets
        ≡ some (first_bucket cost capacity rate now))
      × (taken tenant r (consumes other cost capacity rate now)
          ≡ cost_if (try_consume cost now (new_bucket capacity rate now)).1 cost)
unfolding step taken accept_with_config
unseen_first tenant other cost capacity rate now r e same = ground (
  arith,
  nat_beq_iff other tenant,
  get-insert other tenant (first_bucket cost capacity rate now) r.buckets,
)

unseen_other :
    (tenant other cost capacity rate now : ℕ) (r : RateLimiter)
    → get tenant r.buckets ≡ none
    → nat_beq other tenant ≡ false
    → (get tenant (step r (consumes other cost capacity rate now)).buckets ≡ none)
      × (taken tenant r (consumes other cost capacity rate now) ≡ 0)
unfolding step taken accept_with_config
unseen_other tenant other cost capacity rate now r e apart = (
  ground (
    arith,
    get-insert other tenant (try_consume cost now (bucket_or_new other capacity rate now r)).0
        r.buckets,
  ),
  ground arith,
)

unseen_reads :
    (tenant other now : ℕ) (r : RateLimiter)
    → get tenant r.buckets ≡ none
    → get tenant (step r (reads other now)).buckets ≡ none
unfolding step tokens_of
unseen_reads tenant other now r e = elim (Option-cases (get other r.buckets)) [
  | inl o ↦ ground arith
  | inr (c, o) ↦
      ground (arith, get-insert other tenant (refill now c) r.buckets, nat_beq_iff other tenant)
]

Fits-at_once :
    (b : TokenBucket) (elapsed spent : ℕ)
    → elapsed ≡ 0
    → Fits b elapsed (0 + spent)
    → Fits b 0 spent
Fits-at_once b elapsed spent e f = record { held = f.held; paid = omega (arith, rw e at f.paid) }

first_bucket_lem :
    (cost capacity rate now : ℕ)
    → (let b = first_bucket cost capacity rate now in
        (b.capacity ≡ capacity)
        × (b.refill_per_sec ≡ rate)
        × (b.last_refill_ns ≡ now)
        × Fits b 0 (cost_if (try_consume cost now (new_bucket capacity rate now)).1 cost))
unfolding new_bucket
first_bucket_lem cost capacity rate now =
    let full = new_bucket capacity rate now in
    let kept = try_consume-rest full cost now in
    (
      kept.0,
      kept.1,
      kept.2,
      Fits-at_once _ _ _ (omega arith)
          (try_consume-Fits full cost now 0 0 (new_bucket-Fits capacity rate now)),
    )

span-le :
    (rate start now horizon : ℕ) → start ≤ now → rate * (horizon - now) ≤ rate * (horizon - start)
span-le rate start now horizon h =
    let d : horizon - now ≤ horizon - start = omega arith in grind arith

-- A tenant first seen after `start` is admitted at most its capacity and rate times the time up to
-- the horizon, whatever other tenants request, as long as the clock does not go back and its
-- configuration is fixed.
pub admitted_bound :
    (tenant capacity rate start horizon : ℕ) (r : RateLimiter) (requests : List Request)
    → get tenant r.buckets ≡ none
    → All (IsConfigured tenant capacity rate) requests
    → IsOrdered start horizon requests
    → admitted tenant r requests * 1_000_000_000
      ≤ capacity * 1_000_000_000 + rate * (horizon - start)
unfolding admitted taken
admitted_bound tenant capacity rate start horizon r [] e c o = omega arith
admitted_bound tenant capacity rate start horizon r (reads other now ∷ requests) e c o =
    let rest =
      admitted_bound tenant capacity rate start horizon (step r (reads other now)) requests
        (unseen_reads tenant other now r e) c.1
        (IsOrdered-weaken start now horizon requests o.0 o.1) in
    omega (arith, rest)
admitted_bound tenant capacity rate start horizon r (consumes other cost limit q now ∷ requests) e c
      o =
    elim (Bool-cases (nat_beq other tenant)) [
      | inl same ↦
          let (now_there, paid) =
            unseen_first tenant other cost limit q now r e ((nat_beq_iff other tenant).0 same) in
          let (full, refilled, filled_at, fits) = first_bucket_lem cost limit q now in
          let (quota, speed) = c.0 ((nat_beq_iff other tenant).0 same) in
          let rest =
            run_bound tenant (step r (consumes other cost limit q now)) requests
              (first_bucket cost limit q now) 0 _ horizon now_there (rw filled_at o.1) fits in
          rw (← quota, ← speed)
            (omega (
              arith,
              paid,
              rw (full, refilled, filled_at) at rest,
              span-le q start now horizon o.0,
            ))
      | inr apart ↦
          let (still, nothing) = unseen_other tenant other cost limit q now r e apart in
          let rest =
            admitted_bound tenant capacity rate start horizon
              (step r (consumes other cost limit q now)) requests still c.1
              (IsOrdered-weaken start now horizon requests o.0 o.1) in
          omega (arith, rest)
    ]
