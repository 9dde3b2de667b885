-- ===== src/Handoff/Migration.antt =====
-- The store is a map throughout a migration: no key is lost or doubled by a handoff.
use cosaci.Prelude.{
  subst, ℕ, ◌≤◌, ◌≡◌, refl, true, false, Bool, Option, none, some, List, arith, if◌then◌else◌,
  nat_beq, nat_beq_iff, Option-cases, inl, inr, nat_key,
}
use cosaci.Sharding.{Shard, collect, fresh_shards}
use cosaci.Sharding.Routing.{AreRouted, find, fresh_shards-AreRouted, find-fresh_shards}
use cosaci.Sharding.Updates.{Updates, put_in-Updates, remove_in-Updates, insert_all-Absorbs}
use cosaci.Sharding.Collecting.{lookup-collect, collect-HasDistinctKeys}
use cosaci.Handoff.{
  HandoffStore, is_migrating, put, remove, begin_rebalance, migrate_step, complete_rebalance,
}
use cosaci.Handoff.Contents.{IsValid, find_old, contents, Drops, drop_old-Drops}

-- A valid store that holds `m`, and migrates or does not.
pub record Holds (s : HandoffStore) (m : ℕ → Option ℕ) (migrating : Bool) : Type 0 where
  pub valid : IsValid s
  pub holds : (j : ℕ) → contents j s ≡ m j
  pub migrates : is_migrating s ≡ migrating

-- A map with another value under one key.
abbrev pub with_value : ℕ → Option ℕ → (ℕ → Option ℕ) → ℕ → Option ℕ
with_value key value m = λ j. if nat_beq key j then value else m j

-- New shards that were updated, and old ones that dropped the key.
drop-Holds :
    (key : ℕ) (value : Option ℕ) (s t : HandoffStore) (shards : List Shard)
    → Updates key value s.new_shards shards
    → Drops key (record s { new_shards = shards }) t
    → (m : ℕ → Option ℕ) (migrating : Bool) → Holds s m migrating
    → Holds t (with_value key value m) migrating
unfolding is_migrating
drop-Holds key value s t shards u d m migrating h = record {
  valid = record {
    routed = subst AreRouted (ground (arith, d.same_new)) u.routed;
    old_routed = d.old_routed;
    disjoint = λ j. ground (arith, h.valid.disjoint j, u.finds j, d.finds j, d.same_new);
  };
  holds = λ j. ground (arith, h.holds j, u.finds j, d.finds j, d.same_new);
  migrates = ground (arith, d.same_migrating, h.migrates);
}

pub put-Holds :
    (key value : ℕ) (s : HandoffStore) (m : ℕ → Option ℕ) (migrating : Bool)
    → Holds s m migrating
    → (t : HandoffStore) × (put key value s ≡ some t)
      × Holds t (with_value key (some value) m) migrating
unfolding put
put-Holds key value s m migrating h =
    let (shards, e, u) = put_in-Updates key value s.new_shards h.valid.routed in
    let (t, e', d) = drop_old-Drops key (record s { new_shards = shards }) h.valid.old_routed in
    (t, ground arith, drop-Holds key (some value) s t shards u d m migrating h)

-- `remove` returns what the store held.
pub remove-Holds :
    (key : ℕ) (s : HandoffStore) (m : ℕ → Option ℕ) (migrating : Bool)
    → Holds s m migrating
    → (t : HandoffStore) × (remove key s ≡ some (t, m key))
      × Holds t (with_value key none m) migrating
unfolding remove
remove-Holds key s m migrating h =
    let (shards, e, u) = remove_in-Updates key s.new_shards h.valid.routed in
    let (t, e', d) = drop_old-Drops key (record s { new_shards = shards }) h.valid.old_routed in
    (t, ground (arith, h.holds key), drop-Holds key none s t shards u d m migrating h)

pub begin_rebalance-Holds :
    (new_n : ℕ) (s : HandoffStore) (m : ℕ → Option ℕ)
    → 1 ≤ new_n
    → Holds s m false
    → (t : HandoffStore) × (begin_rebalance new_n s ≡ some t) × Holds t m true
unfolding begin_rebalance is_migrating
begin_rebalance-Holds new_n s m n h = (
  record { new_shards = fresh_shards new_n; old_shards = some s.new_shards },
  ground (arith, h.migrates),
  record {
    valid = record {
      routed = fresh_shards-AreRouted new_n n;
      old_routed = λ old e. subst AreRouted (ground arith) h.valid.routed;
      disjoint = λ j. inl (find-fresh_shards j new_n);
    };
    holds = λ j. ground (arith, h.holds j, h.migrates, find-fresh_shards j new_n);
    migrates = refl;
  },
)

-- `migrate_step` moves a key exactly if the old shards hold it.
pub migrate_step-Holds :
    (key : ℕ) (s : HandoffStore) (m : ℕ → Option ℕ) (migrating : Bool)
    → Holds s m migrating
    → (t : HandoffStore) × (migrate_step key s
        ≡ some (t, elim (find_old key s) [ none ↦ false | some _ ↦ true ]))
      × (find_old key t ≡ none)
      × Holds t m migrating
unfolding migrate_step is_migrating
migrate_step-Holds key s m migrating h = elim (Option-cases s.old_shards) [
  | inl e ↦ (s, ground arith, ground arith, h)
  | inr (old, e) ↦
      let (rest, e', d) = remove_in-Updates key old (h.valid.old_routed old e) in
      elim (Option-cases (find key old)) [
        | inl absent ↦ (s, ground arith, ground arith, h)
        | inr (v, found) ↦
            let (shards, e'', u) = put_in-Updates key v s.new_shards h.valid.routed in
            (
              record { new_shards = shards; old_shards = some rest },
              ground arith,
              ground (arith, d.finds key, nat_beq_iff key key),
              record {
                valid = record {
                  routed = u.routed;
                  old_routed = λ other same. subst AreRouted (ground arith) d.routed;
                  disjoint = λ j. ground (arith, h.valid.disjoint j, u.finds j, d.finds j);
                };
                holds = λ j.
                    ground (
                      arith,
                      h.holds j,
                      h.valid.disjoint j,
                      u.finds j,
                      d.finds j,
                      nat_beq_iff key j,
                    );
                migrates = ground (arith, h.migrates);
              },
            )
      ]
]

pub complete_rebalance-Holds :
    (s : HandoffStore) (m : ℕ → Option ℕ) (migrating : Bool)
    → Holds s m migrating
    → (t : HandoffStore) × (complete_rebalance s ≡ some t) × Holds t m false
unfolding complete_rebalance is_migrating
complete_rebalance-Holds s m migrating h = elim (Option-cases s.old_shards) [
  | inl e ↦ (s, ground arith, record { valid = h.valid; holds = h.holds; migrates = ground arith })
  | inr (old, e) ↦
      let routed = h.valid.old_routed old e in
      let (out, e', a) =
        insert_all-Absorbs (collect old) s.new_shards (collect-HasDistinctKeys old routed)
          h.valid.routed in
      (
        record { new_shards = out; old_shards = none },
        ground arith,
        record {
          valid = record {
            routed = a.routed;
            old_routed = λ other same. absurd (cc);
            disjoint = λ j. inr refl;
          };
          holds = λ j.
              ground (arith, h.holds j, h.valid.disjoint j, a.finds j, lookup-collect j old routed);
          migrates = refl;
        },
      )
]
