-- ===== src/Handoff/Examples.antt =====
-- Runs of the handoff store, and the theorems at concrete inputs.
use cosaci.Prelude.{ℕ, ◌≡◌, refl, false, none, some, List, [], ◌∷◌, arith}
use cosaci.Handoff.{HandoffStore, new, is_migrating, get}
use cosaci.Handoff.History.{
  Op, puts, removes, begins, migrates, completes, run, run_map, migrating_after, run_loses_nothing,
}

-- A migration that moves one key by hand, and is written to before it completes.
abbrev ops : List Op
ops =
    puts 1 10
    ∷ puts 2 20
    ∷ puts 3 30
    ∷ begins 3
    ∷ migrates 1
    ∷ removes 2
    ∷ puts 3 31
    ∷ completes
    ∷ []

run_loses_nothing_example :
    (s : HandoffStore) × (t : HandoffStore) × (new 2 ≡ some s)
    × (run s ops ≡ some t)
    × (is_migrating t ≡ migrating_after false ops)
    × ((j : ℕ) → get j t ≡ some (run_map (λ _. none) ops j))
run_loses_nothing_example = run_loses_nothing 2 ops (omega arith) (omega arith, refl, tt)
