-- ===== src/Replay.antt =====
-- crates/cosaci-state/src/replay.rs: `ReplayGuard`. A reading of the clock is an argument; `accept`
-- reads it twice, in `sweep` and after it.
pub mod Window
pub mod Repeats
mod Examples
use cosaci.Prelude.{
  ℕ, ◌-◌, Bool, Option, none, some, [], ltb, if◌then◌else◌, abs_diff, nat_key, Result, ok, err,
}
use cosaci.Map.{Map, get, insert, contains_key, retain, len}

pub data AcceptError : Type 0 where
  stale_timestamp replay : AcceptError

pub record ReplayGuard : Type 0 where
  pub ttl_ns : ℕ
  pub accepted : Map ℕ ℕ

unfoldable pub new : ℕ → ReplayGuard
new ttl = record { ttl_ns = ttl; accepted = [] }

unfoldable pub sweep : ℕ → ReplayGuard → ReplayGuard
sweep now g = record g { accepted = retain (λ _ at. ltb (now - at) g.ttl_ns) g.accepted }

-- `accept` behind `sweep`; `now` is its own reading.
unfoldable pub admit : ℕ → ℕ → ℕ → ReplayGuard → ReplayGuard × Result (Unit {0}) AcceptError
admit nonce timestamp now g =
    if ltb g.ttl_ns (abs_diff now timestamp)
    then (g, err stale_timestamp)
    else if contains_key nonce g.accepted
    then (g, err replay)
    else (record g { accepted = insert nonce now g.accepted }, ok tt)

unfoldable pub accept : ℕ → ℕ → ℕ → ℕ → ReplayGuard → ReplayGuard × Result (Unit {0}) AcceptError
accept nonce timestamp now now' g = admit nonce timestamp now' (sweep now g)

unfoldable pub is_known : ℕ → ℕ → ReplayGuard → ReplayGuard × Bool
is_known nonce now g = let s = sweep now g in (s, contains_key nonce s.accepted)

unfoldable pub count : ℕ → ReplayGuard → ReplayGuard × ℕ
count now g = let s = sweep now g in (s, len s.accepted)
