-- ===== src/Sharding/Store.antt =====
-- The store is a map from keys to values, and stays one when it is rebalanced.
use cosaci.Prelude.{
  ℕ, ◌≤◌, ◌≡◌, refl, Option, none, some, List, [], ◌∷◌, arith, if◌then◌else◌, nat_key, nat_beq,
  nat_beq_iff, All,
}
use cosaci.Sharding.{ShardedStore, new, put, get, remove, rebalance, collect, fresh_shards}
use cosaci.Sharding.Routing.{
  AreRouted, find, get_in-find, fresh_shards-AreRouted, find-fresh_shards,
}
use cosaci.Sharding.Updates.{put_in-Updates, remove_in-Updates, insert_all-Absorbs}
use cosaci.Sharding.Collecting.{lookup-collect, collect-HasDistinctKeys}

abbrev pub IsValid : ShardedStore → Type 0
IsValid s = AreRouted s.shards

pub data Op : Type 0 where
  puts : (key value : ℕ) → Op
  removes : (key : ℕ) → Op
  rebalances : (new_n : ℕ) → Op

unfoldable pub step : ShardedStore → Op → Option ShardedStore
step s (puts key value) = put key value s
step s (removes key) = elim (remove key s) [ none ↦ none | some (t, prior) ↦ some t ]
step s (rebalances new_n) = rebalance new_n s

unfoldable pub run : ShardedStore → List Op → Option ShardedStore
run s [] = some s
run s (op ∷ ops) = elim (step s op) [ none ↦ none | some t ↦ run t ops ]

-- The same on a function from keys to values, which no rebalancing changes.
abbrev pub step_map : (ℕ → Option ℕ) → Op → ℕ → Option ℕ
step_map m (puts key value) = λ j. if nat_beq key j then some value else m j
step_map m (removes key) = λ j. if nat_beq key j then none else m j
step_map m (rebalances new_n) = m

abbrev pub run_map : (ℕ → Option ℕ) → List Op → ℕ → Option ℕ
run_map m [] = m
run_map m (op ∷ ops) = run_map (step_map m op) ops

-- The shard counts that are asked for are not zero.
abbrev pub HasShards : Op → Type 0
HasShards (puts key value) = Unit
HasShards (removes key) = Unit
HasShards (rebalances new_n) = 1 ≤ new_n

-- The store and the function hold the same.
abbrev pub Holds : ShardedStore → (ℕ → Option ℕ) → Type 0
Holds s m = (j : ℕ) → find j s.shards ≡ m j

rebalance-Holds :
    (new_n : ℕ) (s : ShardedStore) (m : ℕ → Option ℕ)
    → 1 ≤ new_n
    → IsValid s
    → Holds s m
    → (t : ShardedStore) × (rebalance new_n s ≡ some t) × IsValid t × Holds t m
unfolding rebalance
rebalance-Holds new_n s m h v holds =
    let (out, e, a) =
      insert_all-Absorbs (collect s.shards) (fresh_shards new_n)
        (collect-HasDistinctKeys s.shards v) (fresh_shards-AreRouted new_n h) in
    (
      record { shards = out },
      ground arith,
      a.routed,
      λ j.
          ground
            (arith, a.finds j, lookup-collect j s.shards v, find-fresh_shards j new_n, holds j),
    )

step-Holds :
    (op : Op) (s : ShardedStore) (m : ℕ → Option ℕ)
    → HasShards op
    → IsValid s
    → Holds s m
    → (t : ShardedStore) × (step s op ≡ some t) × IsValid t × Holds t (step_map m op)
unfolding step put remove
step-Holds (puts key value) s m h v holds =
    let (out, e, u) = put_in-Updates key value s.shards v in
    (record { shards = out }, ground arith, u.routed, λ j. ground (arith, u.finds j, holds j))
step-Holds (removes key) s m h v holds =
    let (out, e, u) = remove_in-Updates key s.shards v in
    (record { shards = out }, ground arith, u.routed, λ j. ground (arith, u.finds j, holds j))
step-Holds (rebalances new_n) s m h v holds = rebalance-Holds new_n s m h v holds

run-Holds :
    (ops : List Op) (s : ShardedStore) (m : ℕ → Option ℕ)
    → All HasShards ops
    → IsValid s
    → Holds s m
    → (t : ShardedStore) × (run s ops ≡ some t) × IsValid t × Holds t (run_map m ops)
unfolding run
run-Holds [] s m h v holds = (s, refl, v, holds)
run-Holds (op ∷ ops) s m h v holds =
    let (t, e, v', holds') = step-Holds op s m h.0 v holds in
    let (u, e', v'', holds'') = run-Holds ops t (step_map m op) h.1 v' holds' in
    (u, ground arith, v'', holds'')

pub new-IsValid :
    (n : ℕ) → 1 ≤ n → (s : ShardedStore) × (new n ≡ some s) × IsValid s × Holds s (λ _. none)
unfolding new
new-IsValid n h = (
  record { shards = fresh_shards n },
  ground arith,
  fresh_shards-AreRouted n h,
  λ j. find-fresh_shards j n,
)

-- From a new store with a shard, no sequence of insertions, removals and rebalancings to one shard
-- or more panics, and `get` then reads what the same sequence leaves in a map, in which the
-- rebalancings do nothing.
pub run_refines :
    (n : ℕ) (ops : List Op)
    → 1 ≤ n
    → All HasShards ops
    → (s : ShardedStore) × (t : ShardedStore) × (new n ≡ some s)
      × (run s ops ≡ some t)
      × ((j : ℕ) → get j t ≡ some (run_map (λ _. none) ops j))
unfolding get
run_refines n ops h hs =
    let (s, e, v, empty) = new-IsValid n h in
    let (t, e', v', holds) = run-Holds ops s (λ _. none) hs v empty in
    (s, t, e, e', λ j. rw (get_in-find j t.shards v'.nonempty, holds j) refl)

-- `remove` returns what `get` would have read.
pub remove_returns :
    (key : ℕ) (s : ShardedStore)
    → IsValid s
    → (t : ShardedStore) × (remove key s ≡ some (t, find key s.shards))
      × (get key s ≡ some (find key s.shards))
      × (get key t ≡ some none)
unfolding remove get
remove_returns key s v =
    let (out, e, u) = remove_in-Updates key s.shards v in
    (
      record { shards = out },
      ground arith,
      get_in-find key s.shards v.nonempty,
      rw (get_in-find key out u.routed.nonempty, u.finds key) (ground (arith, nat_beq_iff key key)),
    )
