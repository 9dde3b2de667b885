-- ===== src/RateLimit/Starvation.antt =====
-- Each refill drops the fraction of a token that time has earned, and starts the clock anew.
use cosaci.Prelude.{
  ℕ, ◌-◌, ◌*◌, ◌<◌, ◌≡◌, refl, false, some, List, [], ◌∷◌, arith, nat_key, nat_beq_iff,
}
use cosaci.Map.{get, get-insert_self}
use cosaci.RateLimit.{
  TokenBucket, RateLimiter, refill, new_tokens, try_consume, accept_with_config, tokens_of,
}
use cosaci.RateLimit.Admission.{Request, consumes, reads, step, taken, admitted}

-- Requests of the tenant that follow one another before its rate adds one token.
abbrev pub AreRapid : (tenant refill_per_sec last : ℕ) → List Request → Type 0
AreRapid tenant rate last [] = Unit
AreRapid tenant rate last (consumes other cost c q now ∷ requests) =
    (other ≡ tenant)
    × (0 < cost)
    × ((now - last) * rate < 1_000_000_000)
    × AreRapid tenant rate now requests
AreRapid tenant rate last (reads other now ∷ requests) =
    (other ≡ tenant) × ((now - last) * rate < 1_000_000_000) × AreRapid tenant rate now requests

new_tokens-zero : (elapsed rate : ℕ) → elapsed * rate < 1_000_000_000 → new_tokens elapsed rate ≡ 0
new_tokens-zero elapsed rate h = omega arith

refill-zero :
    (b : TokenBucket) (now : ℕ)
    → b.tokens ≡ 0
    → (now - b.last_refill_ns) * b.refill_per_sec < 1_000_000_000
    → refill now b ≡ record b { last_refill_ns = now }
unfolding refill
refill-zero b now h gap =
    ground (arith, new_tokens-zero (now - b.last_refill_ns) b.refill_per_sec gap)

try_consume-zero :
    (b : TokenBucket) (cost now : ℕ)
    → b.tokens ≡ 0
    → 0 < cost
    → (now - b.last_refill_ns) * b.refill_per_sec < 1_000_000_000
    → try_consume cost now b ≡ (record b { last_refill_ns = now }, false)
unfolding try_consume
try_consume-zero b cost now h pos gap = ground (arith, refill-zero b now h gap)

-- A tenant with an empty bucket whose requests follow one another before its rate adds a token is
-- never admitted, however long that goes on.
pub admitted_starved :
    (tenant : ℕ) (r : RateLimiter) (requests : List Request) (b : TokenBucket)
    → get tenant r.buckets ≡ some b
    → b.tokens ≡ 0
    → AreRapid tenant b.refill_per_sec b.last_refill_ns requests
    → admitted tenant r requests ≡ 0
unfolding admitted taken
admitted_starved tenant r [] b e h a = refl
admitted_starved tenant r (consumes other cost c q now ∷ requests) b e h a =
    let still = record b { last_refill_ns = now } in
    let refused = try_consume-zero b cost now h a.1 a.2 in
    let kept : get tenant (step r (consumes other cost c q now)).buckets ≡ some still =
      unfold step accept_with_config in
      ground (arith, nat_beq_iff other tenant, get-insert_self tenant still r.buckets, refused) in
    let rest =
      admitted_starved tenant (step r (consumes other cost c q now)) requests still kept h a.3 in
    let none_taken : taken tenant r (consumes other cost c q now) ≡ 0 =
      unfold taken accept_with_config in ground (arith, nat_beq_iff other tenant, refused) in
    omega (arith, rest, none_taken)
admitted_starved tenant r (reads other now ∷ requests) b e h a =
    let still = record b { last_refill_ns = now } in
    let kept : get tenant (step r (reads other now)).buckets ≡ some still =
      unfold step tokens_of in
      ground (arith, get-insert_self tenant still r.buckets, refill-zero b now h a.1) in
    omega (arith, admitted_starved tenant (step r (reads other now)) requests still kept h a.2)
