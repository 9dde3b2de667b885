-- ===== src/RateLimit/Admission.antt =====
-- What a tenant is admitted over any interleaving of the tenants' requests.
use cosaci.Prelude.{
  ℕ, ◌+◌, ◌-◌, ◌*◌, ◌≤◌, ◌≡◌, inl, inr, some, List, [], ◌∷◌, arith, if◌then◌else◌, nat_key, nat_beq,
  nat_beq_iff, Option-cases,
}
use cosaci.Map.{get, get-insert}
use cosaci.RateLimit.{
  TokenBucket, RateLimiter, bucket_or_new, refill, try_consume, accept_with_config, tokens_of,
}
use cosaci.RateLimit.Bucket.{
  Fits, refill-Fits, try_consume-Fits, refill-rest, try_consume-rest, cost_if,
}

pub data Request : Type 0 where
  consumes : (tenant cost capacity refill_per_sec now : ℕ) → Request
  reads : (tenant now : ℕ) → Request

unfoldable pub step : RateLimiter → Request → RateLimiter
step r (consumes tenant cost capacity rate now) =
    (accept_with_config tenant cost capacity rate now r).0
step r (reads tenant now) = (tokens_of tenant now r).0

-- The cost that a request takes from the bucket of `tenant`.
unfoldable pub taken : ℕ → RateLimiter → Request → ℕ
taken tenant r (consumes other cost capacity rate now) =
    if nat_beq other tenant
    then cost_if (accept_with_config other cost capacity rate now r).1 cost
    else 0
taken tenant r (reads other now) = 0

-- The cost that the requests take from the bucket of `tenant` in all.
unfoldable pub admitted : ℕ → RateLimiter → List Request → ℕ
admitted tenant r [] = 0
admitted tenant r (q ∷ requests) = taken tenant r q + admitted tenant (step r q) requests

abbrev pub time_of : Request → ℕ
time_of (consumes tenant cost capacity rate now) = now
time_of (reads tenant now) = now

-- The clock does not go back, from `start` on and up to `horizon`.
abbrev pub IsOrdered : ℕ → ℕ → List Request → Type 0
IsOrdered start horizon [] = start ≤ horizon
IsOrdered start horizon (q ∷ requests) =
    (start ≤ time_of q) × IsOrdered (time_of q) horizon requests

pub IsOrdered-le :
    (start horizon : ℕ) (requests : List Request)
    → IsOrdered start horizon requests
    → start ≤ horizon
IsOrdered-le start horizon [] h = h
IsOrdered-le start horizon (q ∷ requests) h =
    omega (arith, IsOrdered-le (time_of q) horizon requests h.1)

pub IsOrdered-weaken :
    (earlier start horizon : ℕ) (requests : List Request)
    → earlier ≤ start
    → IsOrdered start horizon requests
    → IsOrdered earlier horizon requests
IsOrdered-weaken earlier start horizon [] h o = omega arith
IsOrdered-weaken earlier start horizon (q ∷ requests) h o = (omega arith, o.1)

-- The bucket of `tenant` after one request, and what the request took from it.
record After (tenant : ℕ) (r : RateLimiter) (q : Request) (b : TokenBucket) (elapsed spent : ℕ)
    (c : TokenBucket) : Type 0 where
  bucket : get tenant (step r q).buckets ≡ some c
  same_capacity : c.capacity ≡ b.capacity
  same_rate : c.refill_per_sec ≡ b.refill_per_sec
  later : b.last_refill_ns ≤ c.last_refill_ns
  by_now : c.last_refill_ns ≤ time_of q
  fits : Fits c (elapsed + (c.last_refill_ns - b.last_refill_ns)) (spent + taken tenant r q)

abbrev next_bucket : ℕ → Request → TokenBucket → TokenBucket
next_bucket tenant (consumes other cost capacity rate now) b =
    if nat_beq other tenant then (try_consume cost now b).0 else b
next_bucket tenant (reads other now) b = if nat_beq other tenant then refill now b else b

Fits-zero :
    (b : TokenBucket) (elapsed spent : ℕ)
    → Fits b elapsed spent
    → Fits b (elapsed + (b.last_refill_ns - b.last_refill_ns)) (spent + 0)
Fits-zero b elapsed spent f = record { held = f.held; paid = omega (arith, f.paid) }

Fits-refill :
    (b : TokenBucket) (now elapsed spent : ℕ)
    → Fits b elapsed spent
    → Fits (refill now b) (elapsed + (now - b.last_refill_ns)) (spent + 0)
Fits-refill b now elapsed spent f =
    let g = refill-Fits b now elapsed spent f in
    record { held = g.held; paid = omega (arith, g.paid) }

step-After :
    (tenant : ℕ) (r : RateLimiter) (q : Request) (b : TokenBucket) (elapsed spent : ℕ)
    → get tenant r.buckets ≡ some b
    → b.last_refill_ns ≤ time_of q
    → Fits b elapsed spent
    → After tenant r q b elapsed spent (next_bucket tenant q b)
unfolding step taken accept_with_config tokens_of
step-After tenant r (consumes other cost capacity rate now) b elapsed spent e h f = ground (
  arith,
  nat_beq_iff other tenant,
  get-insert other tenant (try_consume cost now (bucket_or_new other capacity rate now r)).0
      r.buckets,
  try_consume-rest b cost now,
  try_consume-Fits b cost now elapsed spent f,
  Fits-zero b elapsed spent f,
)
step-After tenant r (reads other now) b elapsed spent e h f =
    elim (Option-cases (get other r.buckets)) [
      | inl o ↦
          ground (arith, nat_beq_iff other tenant, refill-rest b now, Fits-zero b elapsed spent f)
      | inr (c, o) ↦ ground (
        arith,
        nat_beq_iff other tenant,
        get-insert other tenant (refill now c) r.buckets,
        refill-rest b now,
        Fits-refill b now elapsed spent f,
        Fits-zero b elapsed spent f,
      )
    ]

pub run_bound :
    (tenant : ℕ) (r : RateLimiter) (requests : List Request) (b : TokenBucket)
    (elapsed spent horizon : ℕ)
    → get tenant r.buckets ≡ some b
    → IsOrdered b.last_refill_ns horizon requests
    → Fits b elapsed spent
    → (spent + admitted tenant r requests) * 1_000_000_000
      ≤ b.capacity * 1_000_000_000 + b.refill_per_sec * (elapsed + (horizon - b.last_refill_ns))
unfolding admitted
run_bound tenant r [] b elapsed spent horizon e o f = omega (arith, f.paid)
run_bound tenant r (q ∷ requests) b elapsed spent horizon e o f =
    let c = next_bucket tenant q b in
    let a = step-After tenant r q b elapsed spent e o.0 f in
    let span : elapsed + (c.last_refill_ns - b.last_refill_ns) + (horizon - c.last_refill_ns)
        ≡ elapsed + (horizon - b.last_refill_ns) =
      omega (arith, a.later, a.by_now, IsOrdered-le (time_of q) horizon requests o.1) in
    let rest =
      run_bound tenant (step r q) requests c (elapsed + (c.last_refill_ns - b.last_refill_ns))
        (spent + taken tenant r q) horizon a.bucket
        (IsOrdered-weaken c.last_refill_ns (time_of q) horizon requests a.by_now o.1) a.fits in
    omega (arith, rw (a.same_capacity, a.same_rate, span) at rest)
