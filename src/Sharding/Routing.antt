-- ===== src/Sharding/Routing.antt =====
-- How keys are routed to shards, and what `put_in`, `get_in` and `remove_in` do to the lookups.
use cosaci.Prelude.{
  [], Option-cases, inl, inr, subst, length-replicate, get_elem?-replicate, ℕ, ◌%◌, ◌≤◌, ◌<◌, ◌≡◌,
  Option, none, some, List, arith, if◌then◌else◌, nat_key, nat_beq, nat_beq_iff, length, get_elem?,
  set_elem, length-set_elem, get_elem?_in, get_elem?-set_elem,
}
use cosaci.Map.{Map, get as lookup, HasDistinctKeys}
use cosaci.Sharding.{fresh_shards, mix, shard_of, Shard, get_in}

-- The shard that a key belongs to.
abbrev pub home : ℕ → List Shard → ℕ
home key shards = mix key % length shards

-- There is a shard; each holds a key once, and only keys that belong to it.
pub record AreRouted (shards : List Shard) : Type 0 where
  pub nonempty : 1 ≤ length shards
  pub distinct :
      (i : ℕ) (shard : Shard) → get_elem? shards i ≡ some shard → HasDistinctKeys shard.entries
  pub routed :
      (i : ℕ) (shard : Shard) (key value : ℕ)
      → get_elem? shards i ≡ some shard
      → lookup key shard.entries ≡ some value
      → home key shards ≡ i

-- What the shard of a key holds under it.
abbrev pub find : ℕ → List Shard → Option ℕ
find key shards = elim (get_elem? shards (home key shards)) [
  | none ↦ none
  | some shard ↦ lookup key shard.entries
]

pub home_in :
    (key : ℕ) (shards : List Shard)
    → 1 ≤ length shards
    → (shard : Shard) × (get_elem? shards (home key shards) ≡ some shard)
home_in key shards h = get_elem?_in shards (home key shards) (omega arith)

pub get_in-find :
    (key : ℕ) (shards : List Shard) → 1 ≤ length shards → get_in key shards ≡ some (find key shards)
unfolding get_in shard_of
get_in-find key shards h = let (shard, e) = home_in key shards h in ground arith

-- Shards in which one shard's entries were changed.
abbrev pub with_entries : ℕ → Map ℕ ℕ → List Shard → List Shard
with_entries i entries shards = set_elem shards i (record { entries = entries })

pub find-with_entries :
    (key j : ℕ) (entries : Map ℕ ℕ) (shards : List Shard)
    → 1 ≤ length shards
    → find j (with_entries (home key shards) entries shards)
      ≡ (if nat_beq (home key shards) (home j shards) then lookup j entries else find j shards)
find-with_entries key j entries shards h = ground (
  arith,
  length-set_elem shards (home key shards) (record { entries = entries }),
  get_elem?-set_elem shards (home key shards) (home j shards) (record { entries = entries })
      (omega arith),
)

pub with_entries-AreRouted :
    (i : ℕ) (entries : Map ℕ ℕ) (shards : List Shard)
    → AreRouted shards
    → i < length shards
    → HasDistinctKeys entries
    → ((key value : ℕ) → lookup key entries ≡ some value → home key shards ≡ i)
    → AreRouted (with_entries i entries shards)
with_entries-AreRouted i entries shards v inside d r = record {
  nonempty = ground (arith, length-set_elem shards i (record { entries = entries }), v.nonempty);
  distinct = λ j shard e. ground (
    arith,
    get_elem?-set_elem shards i j (record { entries = entries }) inside,
    v.distinct j shard,
  );
  routed = λ j shard key value e l. ground (
    arith,
    get_elem?-set_elem shards i j (record { entries = entries }) inside,
    length-set_elem shards i (record { entries = entries }),
    v.routed j shard key value,
    nat_beq_iff i j,
    r key value,
  );
}

pub fresh_shards-AreRouted : (n : ℕ) → 1 ≤ n → AreRouted (fresh_shards n)
unfolding lookup
fresh_shards-AreRouted n h = record {
  nonempty = rw (length-replicate {A = Shard} n (record { entries = [] })) h;
  distinct = λ i shard e.
      subst (λ s. HasDistinctKeys s.entries)
        (get_elem?-replicate n i (record { entries = [] }) shard e) tt;
  routed = λ i shard key value e l.
      ground (arith, get_elem?-replicate n i (record { entries = [] }) shard e);
}

pub find-fresh_shards : (key n : ℕ) → find key (fresh_shards n) ≡ none
unfolding lookup
find-fresh_shards key n =
    elim (Option-cases (get_elem? (fresh_shards n) (home key (fresh_shards n)))) [
      | inl e ↦ ground arith
      | inr (shard, e) ↦ ground (
        arith,
        get_elem?-replicate n (home key (fresh_shards n)) (record { entries = [] }) shard e,
      )
    ]
