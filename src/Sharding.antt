-- ===== src/Sharding.antt =====
-- crates/cosaci-state/src/sharding.rs: `ShardedStore`. An assertion that fails, or an index out of
-- range, is `none`.
pub mod Routing
pub mod Updates
pub mod Collecting
pub mod Store
mod Examples
use cosaci.Prelude.{
  ℕ, ◌+◌, ◌*◌, ◌/◌, ◌%◌, ◌^◌, Bool, true, false, Option, none, some, List, [], ◌∷◌, ◌++◌,
  if◌then◌else◌, nat_key, nat_beq, length, xor_bits, get_elem?, set_elem, replicate,
}
use cosaci.Map.{Map, get as lookup, insert, remove as delete, len as size}

-- `wrapping_mul`, and `h ^ (h >> 33)`.
abbrev pub wrapping_mul : ℕ → ℕ → ℕ
wrapping_mul a b = a * b % 2 ^ 64

abbrev pub fold_high : ℕ → ℕ
fold_high h = xor_bits 64 h (h / 2 ^ 33)

-- The hash of `shard_of`, behind its assertion.
unfoldable pub mix : ℕ → ℕ
mix key = fold_high (
    wrapping_mul (fold_high (wrapping_mul (xor_bits 64 14695981039346656037 key) 1099511628211))
      18397679294719823053)

unfoldable pub shard_of : ℕ → ℕ → Option ℕ
shard_of key n_shards = if nat_beq n_shards 0 then none else some (mix key % n_shards)

pub record Shard : Type 0 where
  pub entries : Map ℕ ℕ

abbrev pub fresh_shards : ℕ → List Shard
fresh_shards n = replicate n (record { entries = [] })

-- `shards[idx].entries.insert(key, value)` with `idx` of `shard_of(key, shards.len())`.
unfoldable pub put_in : ℕ → ℕ → List Shard → Option (List Shard)
put_in key value shards = elim (shard_of key (length shards)) [
  | none ↦ none
  | some idx ↦ elim (get_elem? shards idx) [
    | none ↦ none
    | some shard ↦
        some (set_elem shards idx (record shard { entries = insert key value shard.entries }))
  ]
]

-- `shards[idx].entries.get(&key).copied()`
unfoldable pub get_in : ℕ → List Shard → Option (Option ℕ)
get_in key shards = elim (shard_of key (length shards)) [
  | none ↦ none
  | some idx ↦ elim (get_elem? shards idx) [
    | none ↦ none
    | some shard ↦ some (lookup key shard.entries)
  ]
]

-- `shards[idx].entries.remove(&key)`
unfoldable pub remove_in : ℕ → List Shard → Option (List Shard × Option ℕ)
remove_in key shards = elim (shard_of key (length shards)) [
  | none ↦ none
  | some idx ↦ elim (get_elem? shards idx) [
    | none ↦ none
    | some shard ↦ some (
      set_elem shards idx (record shard { entries = delete key shard.entries }),
      lookup key shard.entries,
    )
  ]
]

-- The entries of all shards, as they are drained.
unfoldable pub collect : List Shard → Map ℕ ℕ
collect [] = []
collect (shard ∷ shards) = shard.entries ++ collect shards

-- The loop that inserts what was drained.
unfoldable pub insert_all : Map ℕ ℕ → List Shard → Option (List Shard)
insert_all [] shards = some shards
insert_all ((k, v) ∷ rest) shards = elim (put_in k v shards) [
  | none ↦ none
  | some out ↦ insert_all rest out
]

pub record ShardedStore : Type 0 where
  pub shards : List Shard

unfoldable pub new : ℕ → Option ShardedStore
new n_shards = if nat_beq n_shards 0 then none else some (record { shards = fresh_shards n_shards })

unfoldable pub put : ℕ → ℕ → ShardedStore → Option ShardedStore
put key value s = elim (put_in key value s.shards) [
  | none ↦ none
  | some shards ↦ some (record s { shards = shards })
]

unfoldable pub get : ℕ → ShardedStore → Option (Option ℕ)
get key s = get_in key s.shards

unfoldable pub remove : ℕ → ShardedStore → Option (ShardedStore × Option ℕ)
remove key s = elim (remove_in key s.shards) [
  | none ↦ none
  | some (shards, prior) ↦ some (record s { shards = shards }, prior)
]

unfoldable pub rebalance : ℕ → ShardedStore → Option ShardedStore
rebalance new_n s =
    if nat_beq new_n 0 then none else elim (insert_all (collect s.shards) (fresh_shards new_n)) [
      | none ↦ none
      | some shards ↦ some (record s { shards = shards })
    ]

-- The entries of all shards, counted.
unfoldable pub count_entries : List Shard → ℕ
count_entries [] = 0
count_entries (shard ∷ shards) = size shard.entries + count_entries shards

unfoldable pub len : ShardedStore → ℕ
len s = count_entries s.shards

unfoldable pub shard_load : ℕ → ShardedStore → Option ℕ
shard_load idx s = elim (get_elem? s.shards idx) [
  | none ↦ none
  | some shard ↦ some (size shard.entries)
]
