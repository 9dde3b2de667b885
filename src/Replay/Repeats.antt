-- ===== src/Replay/Repeats.antt =====
-- The same nonce, and the same message, sent again.
use cosaci.Prelude.{
  ℕ, ◌+◌, ◌-◌, ◌≤◌, ◌<◌, ◌≡◌, refl, ◌≢◌, some, List, [], ◌∷◌, arith, nat_key, nat_beq_iff, ok, All,
}
use cosaci.Map.{get, contains_key, get-insert, get-insert_self}
use cosaci.Replay.{ReplayGuard, sweep, admit, accept}
use cosaci.Replay.Window.{IsValid, get-sweep, accept_iff, accept-IsValid, sweep-IsValid}

-- A call with its readings of the clock; `is_known` and `count` sweep and change nothing else.
pub data Call : Type 0 where
  accepts : (nonce timestamp now now' : ℕ) → Call
  queries : (now : ℕ) → Call

unfoldable pub step : ReplayGuard → Call → ReplayGuard
step g (accepts nonce timestamp now now') = (accept nonce timestamp now now' g).0
step g (queries now) = sweep now g

unfoldable pub run : ReplayGuard → List Call → ReplayGuard
run g [] = g
run g (c ∷ calls) = run (step g c) calls

-- The call sweeps at `limit` or earlier.
abbrev pub SweepsBy : ℕ → Call → Type 0
SweepsBy limit (accepts nonce timestamp now now') = now ≤ limit
SweepsBy limit (queries now) = now ≤ limit

step-IsValid : (g : ReplayGuard) (c : Call) → IsValid g → IsValid (step g c)
unfolding step
step-IsValid g (accepts nonce timestamp now now') v = accept-IsValid nonce timestamp now now' g v
step-IsValid g (queries now) v = sweep-IsValid now g v

run-IsValid : (g : ReplayGuard) (calls : List Call) → IsValid g → IsValid (run g calls)
unfolding run
run-IsValid g [] v = v
run-IsValid g (c ∷ calls) v = run-IsValid (step g c) calls (step-IsValid g c v)

step-ttl_ns : (g : ReplayGuard) (c : Call) → (step g c).ttl_ns ≡ g.ttl_ns
unfolding step accept admit sweep
step-ttl_ns g (accepts nonce timestamp now now') = ground arith
step-ttl_ns g (queries now) = refl

run-ttl_ns : (g : ReplayGuard) (calls : List Call) → (run g calls).ttl_ns ≡ g.ttl_ns
unfolding run
run-ttl_ns g [] = refl
run-ttl_ns g (c ∷ calls) = ground (arith, run-ttl_ns (step g c) calls, step-ttl_ns g c)

get-step :
    (g : ReplayGuard) (c : Call) (nonce at limit : ℕ)
    → IsValid g
    → get nonce g.accepted ≡ some at
    → limit - at < g.ttl_ns
    → SweepsBy limit c
    → get nonce (step g c).accepted ≡ some at
unfolding step accept admit contains_key
get-step g (accepts other timestamp now now') nonce at limit v e h b = ground (
  arith,
  get-sweep nonce now g v,
  get-insert other nonce now' (sweep now g).accepted,
  nat_beq_iff other nonce,
)
get-step g (queries now) nonce at limit v e h b = ground (arith, get-sweep nonce now g v)

get-run :
    (g : ReplayGuard) (calls : List Call) (nonce at limit : ℕ)
    → IsValid g
    → get nonce g.accepted ≡ some at
    → limit - at < g.ttl_ns
    → All (SweepsBy limit) calls
    → get nonce (run g calls).accepted ≡ some at
unfolding run
get-run g [] nonce at limit v e h b = e
get-run g (c ∷ calls) nonce at limit v e h b =
    get-run (step g c) calls nonce at limit (step-IsValid g c v)
      (get-step g c nonce at limit v e h b.0) (rw (step-ttl_ns g c) h) b.1

get-accept :
    (nonce timestamp now now' : ℕ) (g : ReplayGuard)
    → (accept nonce timestamp now now' g).1 ≡ ok tt
    → get nonce (accept nonce timestamp now now' g).0.accepted ≡ some now'
unfolding accept admit
get-accept nonce timestamp now now' g h =
    ground (arith, get-insert_self nonce now' (sweep now g).accepted)

-- In a valid guard a nonce that was accepted is not accepted again by a call that sweeps less than
-- the TTL later, under any timestamp and whatever was called in between, as long as no call in
-- between sweeps later than that one.
pub nonce_once :
    (g : ReplayGuard) (nonce timestamp now now' : ℕ) (calls : List Call) (timestamp₂ now₂ now₂' : ℕ)
    → IsValid g
    → (accept nonce timestamp now now' g).1 ≡ ok tt
    → All (SweepsBy now₂) calls
    → now₂ - now' < g.ttl_ns
    → (accept nonce timestamp₂ now₂ now₂' (run (accept nonce timestamp now now' g).0 calls)).1
      ≢ ok tt
nonce_once g nonce timestamp now now' calls timestamp₂ now₂ now₂' v h b near again =
    let first = (accept nonce timestamp now now' g).0 in
    let kept = step-ttl_ns g (accepts nonce timestamp now now') in
    let same : first.ttl_ns ≡ g.ttl_ns = unfold step in kept in
    let valid = accept-IsValid nonce timestamp now now' g v in
    ((accept_iff nonce timestamp₂ now₂ now₂' (run first calls) (run-IsValid first calls valid)).0
        again).1
      (
        now',
        get-run first calls nonce now' now₂ valid (get-accept nonce timestamp now now' g h)
            (rw same near) b,
        rw (run-ttl_ns first calls, same) near,
      )

-- In a valid guard, a message whose timestamp lies before its acceptance is never accepted again
-- while the clock does not go back.
pub message_once :
    (g : ReplayGuard) (nonce timestamp now now' : ℕ) (calls : List Call) (now₂ now₂' : ℕ)
    → IsValid g
    → (accept nonce timestamp now now' g).1 ≡ ok tt
    → timestamp < now'
    → now' ≤ now₂
    → All (SweepsBy now₂) calls
    → now₂ ≤ now₂'
    → (accept nonce timestamp now₂ now₂' (run (accept nonce timestamp now now' g).0 calls)).1
      ≢ ok tt
message_once g nonce timestamp now now' calls now₂ now₂' v h past on b order again =
    let first = (accept nonce timestamp now now' g).0 in
    let kept = step-ttl_ns g (accepts nonce timestamp now now') in
    let same : first.ttl_ns ≡ g.ttl_ns = unfold step in kept in
    let fresh =
      ((accept_iff nonce timestamp now₂ now₂' (run first calls)
          (run-IsValid first calls (accept-IsValid nonce timestamp now now' g v))).0
        again).0 in
    let whole : (run first calls).ttl_ns ≡ g.ttl_ns = rw (run-ttl_ns first calls) same in
    nonce_once g nonce timestamp now now' calls timestamp now₂ now₂' v h b (ground arith) again

-- In a valid guard, a message whose timestamp does not lie before its acceptance is accepted a
-- second time exactly one TTL later.
pub message_twice :
    (g : ReplayGuard) (nonce timestamp now now' : ℕ)
    → IsValid g
    → (accept nonce timestamp now now' g).1 ≡ ok tt
    → now' ≤ timestamp
    → let later = now' + g.ttl_ns in
      (accept nonce timestamp later later (accept nonce timestamp now now' g).0).1 ≡ ok tt
message_twice g nonce timestamp now now' v h ahead =
    let first = (accept nonce timestamp now now' g).0 in
    let later = now' + g.ttl_ns in
    let kept = step-ttl_ns g (accepts nonce timestamp now now') in
    let same : first.ttl_ns ≡ g.ttl_ns = unfold step in kept in
    let fresh = ((accept_iff nonce timestamp now now' g v).0 h).0 in
    let found = get-accept nonce timestamp now now' g h in
    (accept_iff nonce timestamp later later first (accept-IsValid nonce timestamp now now' g v)).1
      (ground arith, λ (at, e, r). let equal : some at ≡ some now' = ground arith in ground arith)
