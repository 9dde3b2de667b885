-- ===== src/Replay/Window.antt =====
-- What the guard accepts, and how long it remembers.
use cosaci.Prelude.{
  ℕ, ◌-◌, ◌≤◌, ◌<◌, ◌≡◌, ◌↔◌, inl, inr, none, some, arith, ltb, if◌then◌else◌, abs_diff, nat_key,
  Bool-cases, Option-cases, ok,
}
use cosaci.Map.{
  get, contains_key, HasDistinctKeys, get-retain, insert-HasDistinctKeys, retain-HasDistinctKeys,
}
use cosaci.Replay.{ReplayGuard, sweep, admit, accept}

-- The index holds a nonce once.
abbrev pub IsValid : ReplayGuard → Type 0
IsValid g = HasDistinctKeys g.accepted

-- A nonce that the guard remembers at `now`.
abbrev pub Remembers : ℕ → ℕ → ReplayGuard → Type 0
Remembers nonce now g = (at : ℕ) × (get nonce g.accepted ≡ some at) × (now - at < g.ttl_ns)

pub sweep-IsValid : (now : ℕ) (g : ReplayGuard) → IsValid g → IsValid (sweep now g)
unfolding sweep
sweep-IsValid now g v = retain-HasDistinctKeys (λ _ at. ltb (now - at) g.ttl_ns) g.accepted v

admit-IsValid :
    (nonce timestamp now : ℕ) (g : ReplayGuard)
    → IsValid g
    → IsValid (admit nonce timestamp now g).0
unfolding admit
admit-IsValid nonce timestamp now g v =
    ground (arith, insert-HasDistinctKeys nonce now g.accepted v)

pub accept-IsValid :
    (nonce timestamp now now' : ℕ) (g : ReplayGuard)
    → IsValid g
    → IsValid (accept nonce timestamp now now' g).0
unfolding accept
accept-IsValid nonce timestamp now now' g v =
    admit-IsValid nonce timestamp now' (sweep now g) (sweep-IsValid now g v)

pub get-sweep :
    (nonce now : ℕ) (g : ReplayGuard)
    → IsValid g
    → get nonce (sweep now g).accepted ≡ elim (get nonce g.accepted) [
      | none ↦ none
      | some at ↦ if ltb (now - at) g.ttl_ns then some at else none
    ]
unfolding sweep
get-sweep nonce now g v = get-retain (λ _ at. ltb (now - at) g.ttl_ns) nonce g.accepted v

-- In a valid guard, `accept` succeeds exactly if the timestamp is within the TTL of the clock and
-- the guard does not remember the nonce.
pub accept_iff :
    (nonce timestamp now now' : ℕ) (g : ReplayGuard)
    → IsValid g
    → ((accept nonce timestamp now now' g).1 ≡ ok tt)
      ↔ ((abs_diff now' timestamp ≤ g.ttl_ns) × ¬ Remembers nonce now g)
unfolding accept admit contains_key sweep
accept_iff nonce timestamp now now' g v = (forward, backward)
  where
    forward :
        (accept nonce timestamp now now' g).1 ≡ ok tt
        → (abs_diff now' timestamp ≤ g.ttl_ns) × ¬ Remembers nonce now g
    forward h = (ground (arith), λ (at, e, r). ground (arith, get-sweep nonce now g v))

    backward :
        (abs_diff now' timestamp ≤ g.ttl_ns) × ¬ Remembers nonce now g
        → (accept nonce timestamp now now' g).1 ≡ ok tt
    backward (fresh, unknown) = elim (Option-cases (get nonce g.accepted)) [
      | inl e ↦ ground (arith, get-sweep nonce now g v)
      | inr (at, e) ↦ elim (Bool-cases (ltb (now - at) g.ttl_ns)) [
        | inl young ↦ absurd (unknown (at, e, ground arith))
        | inr old ↦ ground (arith, get-sweep nonce now g v)
      ]
    ]
