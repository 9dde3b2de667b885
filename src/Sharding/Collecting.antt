-- ===== src/Sharding/Collecting.antt =====
-- Draining the shards gives each key once, with what its shard holds.
use cosaci.Prelude.{
  ◌≤◌, ℕ, zero, suc, ◌+◌, ◌≡◌, refl, none, some, List, [], ◌∷◌, ◌++◌, arith, nat_key, nat_beq_iff,
  get_elem?, Option-cases, inl, inr,
}
use cosaci.Map.{Map, get as lookup, HasDistinctKeys}
use cosaci.Sharding.{Shard, collect}
use cosaci.Sharding.Routing.{home, AreRouted, find}

lookup-append :
    (j : ℕ) (m n : Map ℕ ℕ)
    → lookup j (m ++ n) ≡ elim (lookup j m) [ none ↦ lookup j n | some v ↦ some v ]
unfolding lookup
lookup-append j [] n = refl
lookup-append j ((k, v) ∷ m) n = ground (arith, lookup-append j m n)

append-HasDistinctKeys :
    (m n : Map ℕ ℕ)
    → HasDistinctKeys m
    → HasDistinctKeys n
    → ((k v : ℕ) → lookup k m ≡ some v → lookup k n ≡ none)
    → HasDistinctKeys (m ++ n)
unfolding lookup
append-HasDistinctKeys [] n d e h = e
append-HasDistinctKeys ((k, v) ∷ m) n d e h = (
  ground (arith, lookup-append k m n, h k v, nat_beq_iff k k),
  append-HasDistinctKeys m n d.1 e λ j w l. ground (arith, h j v, h j w, nat_beq_iff k j),
)

-- Each key of the shards from `offset` on stands in the shard that `place` gives.
abbrev Placed : (ℕ → ℕ) → ℕ → List Shard → Type 0
Placed place offset shards =
    (i : ℕ) (shard : Shard) (key value : ℕ)
    → get_elem? shards i ≡ some shard
    → lookup key shard.entries ≡ some value
    → place key ≡ offset + i

tail-Placed :
    (place : ℕ → ℕ) (offset : ℕ) (shard : Shard) (shards : List Shard)
    → Placed place offset (shard ∷ shards)
    → Placed place (suc offset) shards
tail-Placed place offset shard shards p i found key value e l =
    omega (arith, p (suc i) found key value e l)

-- A key that the shards hold is placed at `offset` or behind.
place-collect :
    (place : ℕ → ℕ) (offset j v : ℕ) (shards : List Shard)
    → Placed place offset shards
    → lookup j (collect shards) ≡ some v
    → offset ≤ place j
unfolding collect lookup
place-collect place offset j v [] p h = absurd (cc)
place-collect place offset j v (shard ∷ shards) p h = elim (Option-cases (lookup j shard.entries)) [
  | inl e ↦
      let deeper =
        place-collect place (suc offset) j v shards (tail-Placed place offset shard shards p) in
      ground (arith, lookup-append j shard.entries (collect shards), deeper)
  | inr (w, e) ↦ omega (arith, p 0 shard j w refl e)
]

lookup-collect-Placed :
    (place : ℕ → ℕ) (offset i j : ℕ) (shards : List Shard)
    → Placed place offset shards
    → place j ≡ offset + i
    → lookup j (collect shards)
      ≡ elim (get_elem? shards i) [ none ↦ none | some shard ↦ lookup j shard.entries ]
unfolding collect lookup
lookup-collect-Placed place offset i j [] p e = refl
lookup-collect-Placed place offset zero j (shard ∷ shards) p e =
    elim (Option-cases (lookup j (collect shards))) [
      | inl absent ↦ ground (arith, lookup-append j shard.entries (collect shards))
      | inr (v, found) ↦ absurd (
          omega (
            arith,
            place-collect place (suc offset) j v shards (tail-Placed place offset shard shards p)
                found,
          ))
    ]
lookup-collect-Placed place offset (suc i) j (shard ∷ shards) p e =
    let rest =
      lookup-collect-Placed place (suc offset) i j shards (tail-Placed place offset shard shards p)
        (omega arith) in
    elim (Option-cases (lookup j shard.entries)) [
      | inl absent ↦ ground (arith, lookup-append j shard.entries (collect shards), rest)
      | inr (v, found) ↦ absurd (omega (arith, p 0 shard j v refl found))
    ]

collect-HasDistinctKeys-Placed :
    (place : ℕ → ℕ) (offset : ℕ) (shards : List Shard)
    → Placed place offset shards
    → ((i : ℕ) (shard : Shard) → get_elem? shards i ≡ some shard → HasDistinctKeys shard.entries)
    → HasDistinctKeys (collect shards)
unfolding collect
collect-HasDistinctKeys-Placed place offset [] p d = tt
collect-HasDistinctKeys-Placed place offset (shard ∷ shards) p d =
    append-HasDistinctKeys shard.entries (collect shards) (d 0 shard refl)
      (collect-HasDistinctKeys-Placed place (suc offset) shards
        (tail-Placed place offset shard shards p) (λ i. d (suc i)))
      λ k v found. elim (Option-cases (lookup k (collect shards))) [
        | inl absent ↦ absent
        | inr (w, again) ↦ absurd (
            omega (
              arith,
              p 0 shard k v refl found,
              place-collect place (suc offset) k w shards (tail-Placed place offset shard shards p)
                  again,
            ))
      ]

routed-Placed : (shards : List Shard) → AreRouted shards → Placed (λ key. home key shards) 0 shards
routed-Placed shards r i shard key value e l = omega (arith, r.routed i shard key value e l)

pub lookup-collect :
    (j : ℕ) (shards : List Shard) → AreRouted shards → lookup j (collect shards) ≡ find j shards
lookup-collect j shards r =
    lookup-collect-Placed (λ key. home key shards) 0 (home j shards) j shards
      (routed-Placed shards r) (omega arith)

pub collect-HasDistinctKeys :
    (shards : List Shard) → AreRouted shards → HasDistinctKeys (collect shards)
collect-HasDistinctKeys shards r =
    collect-HasDistinctKeys-Placed (λ key. home key shards) 0 shards (routed-Placed shards r)
      r.distinct
