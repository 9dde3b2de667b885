-- ===== src/Tenant/Examples.antt =====
-- Runs of the tenant file's fingerprints.
use cosaci.Prelude.{ℕ, ◌≡◌, refl, none, some, List, [], ◌∷◌, replicate}
use cosaci.Tenant.{hex_nibble, parse_pairs, parse_hex32, fingerprint_hex}

-- `0a` and `f3`.
hex : fingerprint_hex (10 ∷ 243 ∷ []) ≡ 48 ∷ 97 ∷ 102 ∷ 51 ∷ []
unfolding fingerprint_hex
hex = refl

pairs : parse_pairs (48 ∷ 97 ∷ 102 ∷ 51 ∷ []) ≡ some (10 ∷ 243 ∷ [])
unfolding parse_pairs hex_nibble
pairs = refl

upper_case : parse_hex32 (replicate 64 65) ≡ none
unfolding parse_hex32 parse_pairs hex_nibble
upper_case = refl

abbrev all_aa : List ℕ
all_aa = replicate 32 170
