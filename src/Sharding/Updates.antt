-- ===== src/Sharding/Updates.antt =====
-- What an insertion and a removal do to routed shards.
use cosaci.Prelude.{
  ℕ, ◌≡◌, refl, Option, none, some, List, [], ◌∷◌, arith, if◌then◌else◌, nat_key, nat_beq,
  nat_beq_iff, length, get_elem?, length-set_elem,
}
use cosaci.Map.{
  Map, get as lookup, insert, remove as delete, get-insert, get-remove, HasDistinctKeys,
  insert-HasDistinctKeys, remove-HasDistinctKeys,
}
use cosaci.Sharding.{shard_of, Shard, put_in, remove_in, insert_all}
use cosaci.Sharding.Routing.{
  home, AreRouted, find, home_in, with_entries, find-with_entries, with_entries-AreRouted,
}

-- Shards that hold what `shards` do, but for one key.
pub record Updates (key : ℕ) (value : Option ℕ) (shards out : List Shard) : Type 0 where
  pub routed : AreRouted out
  pub same_length : length out ≡ length shards
  pub finds : (j : ℕ) → find j out ≡ (if nat_beq key j then value else find j shards)

abbrev put_at : ℕ → ℕ → Shard → List Shard → List Shard
put_at key value shard shards =
    with_entries (home key shards) (insert key value shard.entries) shards

abbrev remove_at : ℕ → Shard → List Shard → List Shard
remove_at key shard shards = with_entries (home key shards) (delete key shard.entries) shards

put_at-Updates :
    (key value : ℕ) (shard : Shard) (shards : List Shard)
    → AreRouted shards
    → get_elem? shards (home key shards) ≡ some shard
    → Updates key (some value) shards (put_at key value shard shards)
put_at-Updates key value shard shards v e = record {
  routed =
      let n = v.nonempty in
      with_entries-AreRouted (home key shards) (insert key value shard.entries) shards v
        (omega arith)
        (insert-HasDistinctKeys key value shard.entries (v.distinct (home key shards) shard e))
        λ k w h. ground (
          arith,
          get-insert key k value shard.entries,
          nat_beq_iff key k,
          v.routed (home key shards) shard k w e,
        );
  same_length = length-set_elem shards (home key shards) _;
  finds = λ j. ground (
    arith,
    find-with_entries key j (insert key value shard.entries) shards v.nonempty,
    get-insert key j value shard.entries,
    nat_beq_iff key j,
    nat_beq_iff (home key shards) (home j shards),
  );
}

remove_at-Updates :
    (key : ℕ) (shard : Shard) (shards : List Shard)
    → AreRouted shards
    → get_elem? shards (home key shards) ≡ some shard
    → Updates key none shards (remove_at key shard shards)
remove_at-Updates key shard shards v e = record {
  routed =
      let n = v.nonempty in
      with_entries-AreRouted (home key shards) (delete key shard.entries) shards v (omega arith)
        (remove-HasDistinctKeys key shard.entries (v.distinct (home key shards) shard e))
        λ k w h. ground (
          arith,
          get-remove key k shard.entries,
          nat_beq_iff key k,
          v.routed (home key shards) shard k w e,
        );
  same_length = length-set_elem shards (home key shards) _;
  finds = λ j. ground (
    arith,
    find-with_entries key j (delete key shard.entries) shards v.nonempty,
    get-remove key j shard.entries,
    nat_beq_iff key j,
    nat_beq_iff (home key shards) (home j shards),
  );
}

pub put_in-Updates :
    (key value : ℕ) (shards : List Shard)
    → AreRouted shards
    → (out : List Shard) × (put_in key value shards ≡ some out)
      × Updates key (some value) shards out
unfolding put_in shard_of
put_in-Updates key value shards v =
    let (shard, e) = home_in key shards v.nonempty in
    let n = v.nonempty in
    (put_at key value shard shards, ground arith, put_at-Updates key value shard shards v e)

pub remove_in-Updates :
    (key : ℕ) (shards : List Shard)
    → AreRouted shards
    → (out : List Shard) × (remove_in key shards ≡ some (out, find key shards))
      × Updates key none shards out
unfolding remove_in shard_of
remove_in-Updates key shards v =
    let (shard, e) = home_in key shards v.nonempty in
    let n = v.nonempty in
    (remove_at key shard shards, ground arith, remove_at-Updates key shard shards v e)

-- Shards into which the entries `m` have been put.
pub record Absorbs (m : Map ℕ ℕ) (shards out : List Shard) : Type 0 where
  pub routed : AreRouted out
  pub same_length : length out ≡ length shards
  pub finds : (j : ℕ) → find j out ≡ elim (lookup j m) [ none ↦ find j shards | some v ↦ some v ]

pub insert_all-Absorbs :
    (m : Map ℕ ℕ) (shards : List Shard)
    → HasDistinctKeys m
    → AreRouted shards
    → (out : List Shard) × (insert_all m shards ≡ some out) × Absorbs m shards out
unfolding insert_all lookup
insert_all-Absorbs [] shards d v =
    (shards, refl, record { routed = v; same_length = refl; finds = λ j. refl })
insert_all-Absorbs ((k, w) ∷ rest) shards d v =
    let (mid, e, u) = put_in-Updates k w shards v in
    let (out, e', a) = insert_all-Absorbs rest mid d.1 u.routed in
    (
      out,
      ground arith,
      record {
        routed = a.routed;
        same_length = ground (arith, a.same_length, u.same_length);
        finds = λ j. ground (arith, a.finds j, u.finds j, nat_beq_iff k j);
      },
    )
