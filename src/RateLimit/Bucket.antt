-- ===== src/RateLimit/Bucket.antt =====
-- One bucket over a sequence of requests.
use cosaci.Prelude.{◌≡◌, refl, ℕ, ◌+◌, ◌-◌, ◌*◌, ◌≤◌, Bool, arith, if◌then◌else◌}
use cosaci.RateLimit.{TokenBucket, new_bucket, new_tokens, refill, try_consume}

-- `spent` tokens have been taken since the bucket was made full, `elapsed` nanoseconds before its
-- last refill: together with what is left they are at most the capacity and what time has added.
pub record Fits (b : TokenBucket) (elapsed spent : ℕ) : Type 0 where
  pub held : b.tokens ≤ b.capacity
  pub paid :
      (spent + b.tokens) * 1_000_000_000 ≤ b.capacity * 1_000_000_000 + b.refill_per_sec * elapsed

pub new_bucket-Fits :
    (capacity refill_per_sec now : ℕ) → Fits (new_bucket capacity refill_per_sec now) 0 0
unfolding new_bucket
new_bucket-Fits capacity refill_per_sec now = record { held = omega arith; paid = omega arith }

-- What the cut to 64 bits leaves is no more than time has earned.
new_tokens-le : (elapsed rate : ℕ) → new_tokens elapsed rate * 1_000_000_000 ≤ rate * elapsed
new_tokens-le elapsed rate = omega arith

pub refill-Fits :
    (b : TokenBucket) (now elapsed spent : ℕ)
    → Fits b elapsed spent
    → Fits (refill now b) (elapsed + (now - b.last_refill_ns)) spent
unfolding refill
refill-Fits b now elapsed spent f = record {
  held = omega arith;
  paid = omega (arith, new_tokens-le (now - b.last_refill_ns) b.refill_per_sec, f.paid);
}

abbrev pub cost_if : Bool → ℕ → ℕ
cost_if admitted cost = if admitted then cost else 0

pub try_consume-Fits :
    (b : TokenBucket) (cost now elapsed spent : ℕ)
    → Fits b elapsed spent
    → Fits
        (try_consume cost now b).0
        (elapsed + (now - b.last_refill_ns))
        (spent + cost_if (try_consume cost now b).1 cost)
unfolding try_consume
try_consume-Fits b cost now elapsed spent f = ground (arith, refill-Fits b now elapsed spent f)

pub refill-rest :
    (b : TokenBucket) (now : ℕ)
    → ((refill now b).capacity ≡ b.capacity)
      × ((refill now b).refill_per_sec ≡ b.refill_per_sec)
      × ((refill now b).last_refill_ns ≡ now)
unfolding refill
refill-rest b now = (refl, refl, refl)

pub try_consume-rest :
    (b : TokenBucket) (cost now : ℕ)
    → ((try_consume cost now b).0.capacity ≡ b.capacity)
      × ((try_consume cost now b).0.refill_per_sec ≡ b.refill_per_sec)
      × ((try_consume cost now b).0.last_refill_ns ≡ now)
unfolding try_consume
try_consume-rest b cost now = ground (arith, refill-rest b now)
