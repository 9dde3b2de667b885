-- ===== src/Handoff/Contents.antt =====
-- What the store holds under each key while keys migrate, and that each operation keeps it so.
use cosaci.Prelude.{
  ℕ, ◌⊎◌, subst, ◌≡◌, refl, Option, none, some, List, arith, if◌then◌else◌, nat_beq, Option-cases,
  inl, inr, nat_key,
}
use cosaci.Sharding.{Shard}
use cosaci.Sharding.Routing.{AreRouted, find, get_in-find}
use cosaci.Sharding.Updates.{remove_in-Updates}
use cosaci.Handoff.{HandoffStore, is_migrating, drop_old, get, or}

-- What the old shards hold under a key, if there are any.
abbrev pub find_old : ℕ → HandoffStore → Option ℕ
find_old key s = elim s.old_shards [ none ↦ none | some old ↦ find key old ]

abbrev pub contents : ℕ → HandoffStore → Option ℕ
contents key s = or (find key s.new_shards) (find_old key s)

-- Both sets of shards are routed, and no key is in both.
pub record IsValid (s : HandoffStore) : Type 0 where
  pub routed : AreRouted s.new_shards
  pub old_routed : (old : List Shard) → s.old_shards ≡ some old → AreRouted old
  pub disjoint : (j : ℕ) → (find j s.new_shards ≡ none) ⊎ (find_old j s ≡ none)

pub get-contents : (key : ℕ) (s : HandoffStore) → IsValid s → get key s ≡ some (contents key s)
unfolding get
get-contents key s v = elim (Option-cases s.old_shards) [
  | inl e ↦ ground (arith, get_in-find key s.new_shards v.routed.nonempty)
  | inr (old, e) ↦ ground (
    arith,
    get_in-find key s.new_shards v.routed.nonempty,
    get_in-find key old (v.old_routed old e).nonempty,
  )
]

-- `drop_old` removes the key from the old shards, and returns what they held.
pub record Drops (key : ℕ) (s t : HandoffStore) : Type 0 where
  pub same_new : t.new_shards ≡ s.new_shards
  pub finds : (j : ℕ) → find_old j t ≡ (if nat_beq key j then none else find_old j s)
  pub old_routed : (old : List Shard) → t.old_shards ≡ some old → AreRouted old
  pub same_migrating : is_migrating t ≡ is_migrating s

pub drop_old-Drops :
    (key : ℕ) (s : HandoffStore)
    → ((old : List Shard) → s.old_shards ≡ some old → AreRouted old)
    → (t : HandoffStore) × (drop_old key s ≡ some (t, find_old key s)) × Drops key s t
unfolding drop_old is_migrating
drop_old-Drops key s r = elim (Option-cases s.old_shards) [
  | inl e ↦ (
    s,
    ground arith,
    record { same_new = refl; finds = λ j. ground arith; old_routed = r; same_migrating = refl },
  )
  | inr (old, e) ↦
      let (out, e', u) = remove_in-Updates key old (r old e) in
      (
        record s { old_shards = some out },
        ground arith,
        record {
          same_new = refl;
          finds = λ j. ground (arith, u.finds j);
          old_routed = λ other same. subst AreRouted (ground arith) u.routed;
          same_migrating = ground arith;
        },
      )
]
