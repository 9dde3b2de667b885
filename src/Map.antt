-- ===== src/Map.antt =====
-- `std::collections::HashMap`, as the association list of its entries: a key stands in one entry
-- (`HasDistinctKeys`). A loop over the map takes the entries in the order of the list; where the
-- source chooses an entry by that order, which is random, the definition takes the order as an
-- argument (`iterate` in Rounds).
pub mod Sums
use cosaci.Prelude.{
  ℕ, ◌≡◌, refl, ◌≢◌, Bool, true, false, Option, none, some, List, [], ◌∷◌, arith, Key, ◌==◌,
  eq_refl, if◌then◌else◌, length,
}

abbrev pub Map {ℓ κ} : Type ℓ → Type κ → Type (ℓ ⊔ κ)
Map K V = List (K × V)

-- `map.len()`
abbrev pub len {ℓ κ} : {K : Type ℓ} {V : Type κ} → Map K V → ℕ
len m = length m

module _ {ℓ κ} {K : Type ℓ} {V : Type κ} ⦃key : Key K⦄ where
  -- `map.get(k)`
  unfoldable pub get : K → Map K V → Option V
  get k [] = none
  get k ((j, v) ∷ m) = if j == k then some v else get k m

  -- `map.insert(k, v)`
  unfoldable pub insert : K → V → Map K V → Map K V
  insert k v [] = (k, v) ∷ []
  insert k v (entry ∷ rest) = if entry.0 == k then (entry.0, v) ∷ rest else entry ∷ insert k v rest

  -- `map.remove(k)`
  unfoldable pub remove : K → Map K V → Map K V
  remove k [] = []
  remove k ((j, w) ∷ m) = let rest = remove k m in if j == k then rest else (j, w) ∷ rest

  -- `map.contains_key(k)`
  unfoldable pub contains_key : K → Map K V → Bool
  unfolding get
  contains_key k m = elim (get k m) [ none ↦ false | some _ ↦ true ]

  -- No key stands in two entries.
  abbrev pub HasDistinctKeys : Map K V → Type κ
  HasDistinctKeys [] = Unit
  HasDistinctKeys ((k, v) ∷ m) = (get k m ≡ none) × HasDistinctKeys m

  pub get-insert :
      (k j : K) (v : V) (m : Map K V) → get j (insert k v m) ≡ (if k == j then some v else get j m)
  unfolding get insert
  get-insert k j v [] = refl
  get-insert k j v ((i, w) ∷ m) =
      ground (arith, key.decides k j, key.decides i k, key.decides i j, get-insert k j v m)

  pub get-remove : (k j : K) (m : Map K V) → get j (remove k m) ≡ (if k == j then none else get j m)
  unfolding get remove
  get-remove k j [] = ground arith
  get-remove k j ((i, w) ∷ m) =
      ground (arith, key.decides k j, key.decides i k, key.decides i j, get-remove k j m)

  pub get-insert_self : (k : K) (v : V) (m : Map K V) → get k (insert k v m) ≡ some v
  get-insert_self k v m = ground (arith, get-insert k k v m, eq_refl k)

  pub get-insert_ne : (k j : K) (v : V) (m : Map K V) → k ≢ j → get j (insert k v m) ≡ get j m
  get-insert_ne k j v m h = ground (arith, get-insert k j v m, key.decides k j)

  pub get-remove_self : (k : K) (m : Map K V) → get k (remove k m) ≡ none
  get-remove_self k m = ground (arith, get-remove k k m, eq_refl k)

  pub get-remove_ne : (k j : K) (m : Map K V) → k ≢ j → get j (remove k m) ≡ get j m
  get-remove_ne k j m h = ground (arith, get-remove k j m, key.decides k j)

  pub insert-HasDistinctKeys :
      (k : K) (v : V) (m : Map K V) → HasDistinctKeys m → HasDistinctKeys (insert k v m)
  unfolding get insert
  insert-HasDistinctKeys k v [] h = (refl, tt)
  insert-HasDistinctKeys k v ((j, w) ∷ m) h = ground (
    arith,
    insert-HasDistinctKeys k v m h.1,
    get-insert k j v m,
    key.decides j k,
    key.decides k j,
  )

  pub remove-HasDistinctKeys :
      (k : K) (m : Map K V) → HasDistinctKeys m → HasDistinctKeys (remove k m)
  unfolding remove
  remove-HasDistinctKeys k [] h = tt
  remove-HasDistinctKeys k ((j, w) ∷ m) h =
      ground (arith, remove-HasDistinctKeys k m h.1, get-remove k j m)

  -- `map.retain(|k, v| keep(k, v))`
  unfoldable pub retain : (K → V → Bool) → Map K V → Map K V
  retain keep [] = []
  retain keep ((k, v) ∷ m) = let rest = retain keep m in if keep k v then (k, v) ∷ rest else rest

  retain_absent :
      (keep : K → V → Bool) (k : K) (m : Map K V) → get k m ≡ none → get k (retain keep m) ≡ none
  unfolding get retain
  retain_absent keep k [] h = refl
  retain_absent keep k ((j, w) ∷ m) h = ground (arith, retain_absent keep k m)

  pub retain-HasDistinctKeys :
      (keep : K → V → Bool) (m : Map K V) → HasDistinctKeys m → HasDistinctKeys (retain keep m)
  unfolding retain
  retain-HasDistinctKeys keep [] h = tt
  retain-HasDistinctKeys keep ((k, v) ∷ m) h =
      ground (arith, retain-HasDistinctKeys keep m h.1, retain_absent keep k m h.0)

  pub get-retain :
      (keep : K → V → Bool) (k : K) (m : Map K V)
      → HasDistinctKeys m
      → get k (retain keep m)
        ≡ elim (get k m) [ none ↦ none | some v ↦ if keep k v then some v else none ]
  unfolding get retain
  get-retain keep k [] h = refl
  get-retain keep k ((j, w) ∷ m) h =
      ground (arith, get-retain keep k m h.1, key.decides j k, retain_absent keep k m)
