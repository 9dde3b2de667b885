-- ===== src/Sharding/Examples.antt =====
-- Runs of the sharded store, and the theorems at concrete inputs.
use cosaci.Prelude.{ℕ, ◌≡◌, refl, none, some, List, [], ◌∷◌, arith, nat_key}
use cosaci.Sharding.{ShardedStore, new, get, remove, shard_of, mix, fresh_shards}
use cosaci.Sharding.Routing.{AreRouted, find, fresh_shards-AreRouted}
use cosaci.Sharding.Updates.{put_in-Updates}
use cosaci.Sharding.Store.{Op, puts, removes, rebalances, run, run_map, run_refines, remove_returns}

no_shards : shard_of 5 0 ≡ none
unfolding shard_of
no_shards = refl

mixed : shard_of 12345 1000 ≡ some 360
unfolding shard_of mix
mixed = refl

abbrev ops : List Op
ops = puts 1 10 ∷ puts 2 20 ∷ rebalances 3 ∷ puts 1 11 ∷ removes 2 ∷ rebalances 1 ∷ []

run_refines_example :
    (s : ShardedStore) × (t : ShardedStore) × (new 2 ≡ some s)
    × (run s ops ≡ some t)
    × ((j : ℕ) → get j t ≡ some (run_map (λ _. none) ops j))
run_refines_example =
    run_refines 2 ops (omega arith) (tt, (tt, (omega arith, (tt, (tt, (omega arith, tt))))))

abbrev fresh-AreRouted : AreRouted (fresh_shards 2)
fresh-AreRouted = fresh_shards-AreRouted 2 (omega arith)

abbrev store : ShardedStore
store = record { shards = (put_in-Updates 7 70 (fresh_shards 2) fresh-AreRouted).0 }

remove_returns_example :
    (t : ShardedStore) × (remove 7 store ≡ some (t, find 7 store.shards))
    × (get 7 store ≡ some (find 7 store.shards))
    × (get 7 t ≡ some none)
remove_returns_example =
    remove_returns 7 store (put_in-Updates 7 70 (fresh_shards 2) fresh-AreRouted).2.routed
