-- ===== src/Text/Examples.antt =====
-- Runs of the text functions.
use cosaci.Prelude.{◌≡◌, refl, none, some, [], ◌∷◌}
use cosaci.Text.{
  codes, lines, trim, trim_start, trim_end, fields, split_whitespace, parse_u64, parse_digits,
  decimal, decimal_onto,
}

lines_run : lines (codes "ab\r\nc\n\nd") ≡ codes "ab" ∷ codes "c" ∷ [] ∷ codes "d" ∷ []
unfolding lines
lines_run = refl

fields_run : split_whitespace (codes "  ab c ") ≡ codes "ab" ∷ codes "c" ∷ []
unfolding fields
fields_run = refl

trim_run : trim (codes " a b ") ≡ codes "a b"
unfolding trim trim_start trim_end
trim_run = refl

parse_run : parse_u64 (codes "+1203") ≡ some 1203
unfolding parse_u64 parse_digits
parse_run = refl

parse_sign : parse_u64 (codes "+") ≡ none
unfolding parse_u64 parse_digits
parse_sign = refl

decimal_run : decimal 1203 ≡ codes "1203"
unfolding decimal decimal_onto
decimal_run = refl
