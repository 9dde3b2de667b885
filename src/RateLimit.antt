-- ===== src/RateLimit.antt =====
-- crates/cosaci-state/src/rate_limit.rs: token buckets, one for each tenant. Each method reads the
-- clock once, as the argument `now`.
pub mod Bucket
pub mod Admission
pub mod Quota
pub mod Starvation
mod Examples
use cosaci.Prelude.{
  ℕ, ◌+◌, ◌-◌, ◌*◌, ◌/◌, ◌%◌, ◌^◌, min, Bool, true, false, Option, none, some, [], leb,
  if◌then◌else◌, saturating_add, nat_key,
}
use cosaci.Map.{Map, get, insert}

pub record TokenBucket : Type 0 where
  pub capacity : ℕ
  pub refill_per_sec : ℕ
  pub tokens : ℕ
  pub last_refill_ns : ℕ

unfoldable pub new_bucket : ℕ → ℕ → ℕ → TokenBucket
new_bucket capacity refill_per_sec now = record {
  capacity = capacity;
  refill_per_sec = refill_per_sec;
  tokens = capacity;
  last_refill_ns = now;
}

-- The product is a `u128`; `as u64` keeps its low 64 bits.
abbrev pub new_tokens : ℕ → ℕ → ℕ
new_tokens elapsed_ns refill_per_sec = elapsed_ns * refill_per_sec / 1_000_000_000 % 2 ^ 64

unfoldable pub refill : ℕ → TokenBucket → TokenBucket
refill now b = record b {
  tokens =
      min (saturating_add b.tokens (new_tokens (now - b.last_refill_ns) b.refill_per_sec))
        b.capacity;
  last_refill_ns = now;
}

unfoldable pub try_consume : ℕ → ℕ → TokenBucket → TokenBucket × Bool
unfolding refill
try_consume cost now b =
    let r = refill now b in
    if leb cost r.tokens then (record r { tokens = r.tokens - cost }, true) else (r, false)

pub record RateLimiter : Type 0 where
  pub buckets : Map ℕ TokenBucket
  pub default_capacity : ℕ
  pub default_refill_per_sec : ℕ

unfoldable pub new : ℕ → ℕ → RateLimiter
new capacity refill_per_sec = record {
  buckets = [];
  default_capacity = capacity;
  default_refill_per_sec = refill_per_sec;
}

-- `entry(tenant).or_insert_with(..)`
abbrev pub bucket_or_new : ℕ → ℕ → ℕ → ℕ → RateLimiter → TokenBucket
bucket_or_new tenant capacity refill_per_sec now r = elim (get tenant r.buckets) [
  | none ↦ new_bucket capacity refill_per_sec now
  | some b ↦ b
]

unfoldable pub accept_with_config : ℕ → ℕ → ℕ → ℕ → ℕ → RateLimiter → RateLimiter × Bool
accept_with_config tenant cost capacity refill_per_sec now r =
    let (bucket, admitted) =
      try_consume cost now (bucket_or_new tenant capacity refill_per_sec now r) in
    (record r { buckets = insert tenant bucket r.buckets }, admitted)

unfoldable pub accept : ℕ → ℕ → ℕ → RateLimiter → RateLimiter × Bool
accept tenant cost now r =
    let (bucket, admitted) =
      try_consume cost now
        (bucket_or_new tenant r.default_capacity r.default_refill_per_sec now r) in
    (record r { buckets = insert tenant bucket r.buckets }, admitted)

unfoldable pub tokens_of : ℕ → ℕ → RateLimiter → RateLimiter × ℕ
tokens_of tenant now r = elim (get tenant r.buckets) [
  | none ↦ (r, r.default_capacity)
  | some b ↦
      let filled = refill now b in
      (record r { buckets = insert tenant filled r.buckets }, filled.tokens)
]
