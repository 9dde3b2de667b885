-- ===== src/Handoff.antt =====
-- crates/cosaci-state/src/sharding_handoff.rs: `HandoffStore`, a sharded store that is rebalanced key
-- by key. An assertion that fails, or an index out of range, is `none`.
pub mod Contents
pub mod Migration
pub mod History
mod Examples
use cosaci.Prelude.{
  ℕ, ◌+◌, Bool, true, false, Option, none, some, List, if◌then◌else◌, nat_beq, length,
}
use cosaci.Sharding.{
  Shard, fresh_shards, put_in, get_in, remove_in, collect, insert_all, count_entries,
}

pub record HandoffStore : Type 0 where
  pub new_shards : List Shard
  pub old_shards : Option (List Shard)

unfoldable pub new : ℕ → Option HandoffStore
new n_shards =
    if nat_beq n_shards 0
    then none
    else some (record { new_shards = fresh_shards n_shards; old_shards = none })

unfoldable pub is_migrating : HandoffStore → Bool
is_migrating s = elim s.old_shards [ none ↦ false | some _ ↦ true ]

unfoldable pub n_shards : HandoffStore → ℕ
n_shards s = length s.new_shards

-- Removes the key from the old shards, where there are any.
unfoldable pub drop_old : ℕ → HandoffStore → Option (HandoffStore × Option ℕ)
drop_old key s = elim s.old_shards [
  | none ↦ some (s, none)
  | some old ↦ elim (remove_in key old) [
    | none ↦ none
    | some (rest, prior) ↦ some (record s { old_shards = some rest }, prior)
  ]
]

unfoldable pub put : ℕ → ℕ → HandoffStore → Option HandoffStore
put key value s = elim (put_in key value s.new_shards) [
  | none ↦ none
  | some shards ↦ elim (drop_old key (record s { new_shards = shards })) [
    | none ↦ none
    | some (t, prior) ↦ some t
  ]
]

unfoldable pub get : ℕ → HandoffStore → Option (Option ℕ)
get key s = elim (get_in key s.new_shards) [
  | none ↦ none
  | some found ↦ elim found [
    | some v ↦ some (some v)
    | none ↦ elim s.old_shards [ none ↦ some none | some old ↦ get_in key old ]
  ]
]

-- `from_new.or(from_old)`
abbrev pub or {ℓ} : {A : Type ℓ} → Option A → Option A → Option A
or none y = y
or (some x) y = some x

unfoldable pub remove : ℕ → HandoffStore → Option (HandoffStore × Option ℕ)
remove key s = elim (remove_in key s.new_shards) [
  | none ↦ none
  | some (shards, from_new) ↦ elim (drop_old key (record s { new_shards = shards })) [
    | none ↦ none
    | some (t, from_old) ↦ some (t, or from_new from_old)
  ]
]

unfoldable pub begin_rebalance : ℕ → HandoffStore → Option HandoffStore
begin_rebalance new_n s = if nat_beq new_n 0 then none else elim s.old_shards [
  | some _ ↦ none
  | none ↦ some (record { new_shards = fresh_shards new_n; old_shards = some s.new_shards })
]

unfoldable pub migrate_step : ℕ → HandoffStore → Option (HandoffStore × Bool)
migrate_step key s = elim s.old_shards [
  | none ↦ some (s, false)
  | some old ↦ elim (remove_in key old) [
    | none ↦ none
    | some (rest, prior) ↦ elim prior [
      | none ↦ some (s, false)
      | some v ↦ elim (put_in key v s.new_shards) [
        | none ↦ none
        | some shards ↦ some (record { new_shards = shards; old_shards = some rest }, true)
      ]
    ]
  ]
]

unfoldable pub complete_rebalance : HandoffStore → Option HandoffStore
complete_rebalance s = elim s.old_shards [
  | none ↦ some s
  | some old ↦ elim (insert_all (collect old) s.new_shards) [
    | none ↦ none
    | some shards ↦ some (record { new_shards = shards; old_shards = none })
  ]
]

unfoldable pub len : HandoffStore → ℕ
len s = count_entries s.new_shards + elim s.old_shards [ none ↦ 0 | some old ↦ count_entries old ]
