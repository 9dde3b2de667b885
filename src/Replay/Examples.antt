-- ===== src/Replay/Examples.antt =====
-- Runs of the replay guard, and the theorems at concrete inputs.
use cosaci.Prelude.{◌+◌, ◌≡◌, ◌≢◌, refl, [], ◌∷◌, arith, nat_key, ok, err}
use cosaci.Map.{get, insert, contains_key, retain}
use cosaci.Replay.{ReplayGuard, replay, stale_timestamp, new, sweep, admit, accept}
use cosaci.Replay.Repeats.{accepts, queries, run, nonce_once, message_twice}

abbrev guard : ReplayGuard
guard = new 10

accepted : (accept 5 98 100 100 guard).1 ≡ ok tt
unfolding new accept admit sweep contains_key retain get
accepted = refl

accepted_ahead : (accept 5 104 100 100 guard).1 ≡ ok tt
unfolding new accept admit sweep contains_key retain get
accepted_ahead = refl

too_old : (accept 5 89 100 100 guard).1 ≡ err stale_timestamp
unfolding new accept admit sweep contains_key retain get
too_old = refl

replayed : (accept 5 101 103 103 (accept 5 98 100 100 guard).0).1 ≡ err replay
unfolding new accept admit sweep contains_key retain get insert
replayed = refl

nonce_once_example :
    (accept 5 103 109 109
      (run (accept 5 98 100 100 guard).0 (accepts 6 104 104 104 ∷ queries 105 ∷ []))).1
    ≢ ok tt
unfolding new
nonce_once_example =
    nonce_once guard 5 98 100 100 (accepts 6 104 104 104 ∷ queries 105 ∷ []) 103 109 109 tt accepted
      (omega arith) (omega arith)

message_twice_example :
    (accept 5 104 (100 + guard.ttl_ns) (100 + guard.ttl_ns) (accept 5 104 100 100 guard).0).1
    ≡ ok tt
unfolding new
message_twice_example = message_twice guard 5 104 100 100 tt accepted_ahead (omega arith)
