-- ===== src/Handoff/History.antt =====
-- Sequences of calls on the store, against the same calls on a map.
use cosaci.Prelude.{
  ℕ, ◌≤◌, subst, inr, ◌≡◌, refl, true, false, Bool, Option, none, some, List, [], ◌∷◌, arith,
}
use cosaci.Sharding.{fresh_shards}
use cosaci.Sharding.Routing.{fresh_shards-AreRouted, find-fresh_shards}
use cosaci.Handoff.{
  HandoffStore, new, is_migrating, put, get, remove, begin_rebalance, migrate_step,
  complete_rebalance,
}
use cosaci.Handoff.Contents.{get-contents}
use cosaci.Handoff.Migration.{
  Holds, with_value, put-Holds, remove-Holds, begin_rebalance-Holds, migrate_step-Holds,
  complete_rebalance-Holds,
}

pub data Op : Type 0 where
  puts : (key value : ℕ) → Op
  removes : (key : ℕ) → Op
  begins : (new_n : ℕ) → Op
  migrates : (key : ℕ) → Op
  completes : Op

abbrev pub first_of {ℓ κ} : {A : Type ℓ} {B : Type κ} → Option (A × B) → Option A
first_of none = none
first_of (some (x, y)) = some x

unfoldable pub step : HandoffStore → Op → Option HandoffStore
step s (puts key value) = put key value s
step s (removes key) = first_of (remove key s)
step s (begins new_n) = begin_rebalance new_n s
step s (migrates key) = first_of (migrate_step key s)
step s completes = complete_rebalance s

unfoldable pub run : HandoffStore → List Op → Option HandoffStore
run s [] = some s
run s (op ∷ ops) = elim (step s op) [ none ↦ none | some t ↦ run t ops ]

-- The same on a map, on which only insertions and removals do anything.
abbrev pub step_map : (ℕ → Option ℕ) → Op → ℕ → Option ℕ
step_map m (puts key value) = with_value key (some value) m
step_map m (removes key) = with_value key none m
step_map m (begins new_n) = m
step_map m (migrates key) = m
step_map m completes = m

abbrev pub run_map : (ℕ → Option ℕ) → List Op → ℕ → Option ℕ
run_map m [] = m
run_map m (op ∷ ops) = run_map (step_map m op) ops

-- The asserted preconditions: a rebalancing begins with a shard, and not within another.
abbrev pub IsLegal : Bool → List Op → Type 0
IsLegal migrating [] = Unit
IsLegal migrating (puts key value ∷ ops) = IsLegal migrating ops
IsLegal migrating (removes key ∷ ops) = IsLegal migrating ops
IsLegal migrating (begins new_n ∷ ops) = (1 ≤ new_n) × (migrating ≡ false) × IsLegal true ops
IsLegal migrating (migrates key ∷ ops) = IsLegal migrating ops
IsLegal migrating (completes ∷ ops) = IsLegal false ops

-- Is a rebalancing in progress after the calls?
abbrev pub migrating_after : Bool → List Op → Bool
migrating_after migrating [] = migrating
migrating_after migrating (puts key value ∷ ops) = migrating_after migrating ops
migrating_after migrating (removes key ∷ ops) = migrating_after migrating ops
migrating_after migrating (begins new_n ∷ ops) = migrating_after true ops
migrating_after migrating (migrates key ∷ ops) = migrating_after migrating ops
migrating_after migrating (completes ∷ ops) = migrating_after false ops

abbrev Reaches : HandoffStore → (ℕ → Option ℕ) → Bool → List Op → Type 0
Reaches s m migrating ops =
    (t : HandoffStore) × (run s ops ≡ some t)
    × Holds t (run_map m ops) (migrating_after migrating ops)

run-Holds :
    (ops : List Op) (s : HandoffStore) (m : ℕ → Option ℕ) (migrating : Bool)
    → IsLegal migrating ops
    → Holds s m migrating
    → Reaches s m migrating ops
unfolding run step
run-Holds [] s m migrating l h = (s, refl, h)
run-Holds (puts key value ∷ ops) s m migrating l h =
    let (t, e, h') = put-Holds key value s m migrating h in
    let (u, e', h'') = run-Holds ops t (with_value key (some value) m) migrating l h' in
    (u, ground arith, h'')
run-Holds (removes key ∷ ops) s m migrating l h =
    let (t, e, h') = remove-Holds key s m migrating h in
    let (u, e', h'') = run-Holds ops t (with_value key none m) migrating l h' in
    (u, ground arith, h'')
run-Holds (begins new_n ∷ ops) s m migrating (n, stable, l) h =
    let (t, e, h') = begin_rebalance-Holds new_n s m n (subst (λ b. Holds s m b) stable h) in
    let (u, e', h'') = run-Holds ops t m true l h' in (u, ground arith, h'')
run-Holds (migrates key ∷ ops) s m migrating l h =
    let (t, e, gone, h') = migrate_step-Holds key s m migrating h in
    let (u, e', h'') = run-Holds ops t m migrating l h' in (u, ground arith, h'')
run-Holds (completes ∷ ops) s m migrating l h =
    let (t, e, h') = complete_rebalance-Holds s m migrating h in
    let (u, e', h'') = run-Holds ops t m false l h' in (u, ground arith, h'')

pub new-Holds : (n : ℕ) → 1 ≤ n → (s : HandoffStore) × (new n ≡ some s) × Holds s (λ _. none) false
unfolding new is_migrating
new-Holds n h = (
  record { new_shards = fresh_shards n; old_shards = none },
  ground arith,
  record {
    valid = record {
      routed = fresh_shards-AreRouted n h;
      old_routed = λ old e. absurd (cc);
      disjoint = λ j. inr refl;
    };
    holds = λ j. ground (arith, find-fresh_shards j n);
    migrates = refl;
  },
)

-- From a new store, no legal sequence of calls panics, and at each point of a migration `get`
-- reads what the insertions and removals alone leave in a map.
pub run_loses_nothing :
    (n : ℕ) (ops : List Op)
    → 1 ≤ n
    → IsLegal false ops
    → (s : HandoffStore) × (t : HandoffStore) × (new n ≡ some s)
      × (run s ops ≡ some t)
      × (is_migrating t ≡ migrating_after false ops)
      × ((j : ℕ) → get j t ≡ some (run_map (λ _. none) ops j))
run_loses_nothing n ops h l =
    let (s, e, empty) = new-Holds n h in
    let (t, e', end) = run-Holds ops s (λ _. none) false l empty in
    (s, t, e, e', end.migrates, λ j. rw (get-contents j t end.valid, end.holds j) refl)
