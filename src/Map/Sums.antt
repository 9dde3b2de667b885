-- ===== src/Map/Sums.antt =====
-- Sums over the entries of a map, which depend on its lookups only.
use cosaci.Prelude.{ℕ, ◌+◌, ◌≡◌, refl, none, some, [], ◌∷◌, arith, Key, eq_refl}
use cosaci.Map.{Map, get, insert, remove, HasDistinctKeys, get-remove, remove-HasDistinctKeys}

-- `map.iter().map(f).sum()`, exact.
abbrev pub sum_map {ℓ κ} : {K : Type ℓ} {V : Type κ} → (K → V → ℕ) → Map K V → ℕ
sum_map f [] = 0
sum_map f ((k, v) ∷ m) = f k v + sum_map f m

module _ {ℓ κ} {K : Type ℓ} {V : Type κ} ⦃key : Key K⦄ where
  -- Two maps that read alike.
  abbrev pub SameLookups : Map K V → Map K V → Type (ℓ ⊔ κ)
  SameLookups m n = (k : K) → get k m ≡ get k n

  pub remove_absent : (k : K) (m : Map K V) → get k m ≡ none → remove k m ≡ m
  unfolding get remove
  remove_absent k [] h = refl
  remove_absent k ((j, v) ∷ m) h = ground (arith, remove_absent k m)

  pub sum_map-insert_fresh :
      (f : K → V → ℕ) (k : K) (v : V) (m : Map K V)
      → get k m ≡ none
      → sum_map f (insert k v m) ≡ f k v + sum_map f m
  unfolding get insert
  sum_map-insert_fresh f k v [] h = refl
  sum_map-insert_fresh f k v ((j, w) ∷ m) h = ground (arith, sum_map-insert_fresh f k v m)

  pub sum_map-remove :
      (f : K → V → ℕ) (k : K) (v : V) (m : Map K V)
      → HasDistinctKeys m
      → get k m ≡ some v
      → sum_map f m ≡ f k v + sum_map f (remove k m)
  unfolding get remove
  sum_map-remove f k v [] d h = absurd (cc)
  sum_map-remove f k v ((j, w) ∷ m) d h =
      ground (arith, sum_map-remove f k v m d.1, remove_absent k m, key.decides j k)

  empty_of_lookups : (m : Map K V) → SameLookups [] m → m ≡ []
  unfolding get
  empty_of_lookups [] h = refl
  empty_of_lookups ((k, v) ∷ m) h = ground (arith, h k, eq_refl k)

  same-remove :
      (k : K) (v : V) (m n : Map K V)
      → get k m ≡ none
      → SameLookups ((k, v) ∷ m) n
      → SameLookups m (remove k n)
  unfolding get
  same-remove k v m n h s j = ground (arith, s j, get-remove k j n, key.decides k j)

  -- The sum depends on the lookups only.
  pub sum_map-same :
      (f : K → V → ℕ) (m n : Map K V)
      → HasDistinctKeys m
      → HasDistinctKeys n
      → SameLookups m n
      → sum_map f m ≡ sum_map f n
  unfolding get
  sum_map-same f [] n dm dn s = ground (arith, empty_of_lookups n s)
  sum_map-same f ((k, v) ∷ m) n dm dn s = omega (
    arith,
    sum_map-remove f k v n dn (ground (arith, s k, eq_refl k)),
    sum_map-same f m (remove k n) dm.1 (remove-HasDistinctKeys k n dn) (same-remove k v m n dm.0 s),
  )
