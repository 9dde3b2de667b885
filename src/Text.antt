-- ===== src/Text.antt =====
-- `str` of the standard library, on texts as the lists of their bytes. The files that the program
-- reads are ASCII; of the white space of `trim`, the six characters below 128 are modelled.
pub mod Lines
pub mod Fields
pub mod Numbers
pub mod Joined
mod Examples
use Prim.Native.Char.{code}
use Prim.Native.String.{String}
use cosaci.Prelude.{
  ℕ, zero, suc, ◌+◌, ◌-◌, ◌*◌, ◌/◌, ◌%◌, ◌^◌, Bool, true, false, ◌&&◌, ◌||◌, Option, none, some,
  List, [], ◌∷◌, ◌++◌, if◌then◌else◌, leb, ltb, nat_beq, u64_max,
}

-- What `read_to_string` finds at a path.
pub data File : Type 0 where
  missing_file unreadable_file : File
  text_file : (text : List ℕ) → File

-- The bytes of a literal.
abbrev pub codes : String → List ℕ
codes String.[] = []
codes (String.◌∷◌ c s) = code c ∷ codes s

abbrev pub is_empty {ℓ} : {A : Type ℓ} → List A → Bool
is_empty [] = true
is_empty (x ∷ xs) = false

-- `char::is_whitespace`, and `is_ascii_whitespace`, which leaves the vertical tab out.
abbrev pub is_whitespace : ℕ → Bool
is_whitespace b = (leb 9 b && leb b 13) || nat_beq b 32

abbrev pub is_ascii_whitespace : ℕ → Bool
is_ascii_whitespace b = is_whitespace b && ltb b 11 || is_whitespace b && ltb 11 b

abbrev pub begins_with : (ℕ → Bool) → List ℕ → Bool
begins_with holds [] = false
begins_with holds (b ∷ text) = holds b

-- `text.starts_with('#')`
abbrev pub starts_with : ℕ → List ℕ → Bool
starts_with c text = begins_with (λ b. nat_beq b c) text

-- `text.ends_with('\n')`
abbrev pub ends_with : ℕ → List ℕ → Bool
ends_with c [] = false
ends_with c (b ∷ text) = if is_empty text then nat_beq b c else ends_with c text

-- `text.strip_prefix(prefix)`
unfoldable pub strip_prefix : List ℕ → List ℕ → Option (List ℕ)
strip_prefix [] text = some text
strip_prefix (p ∷ prefix) [] = none
strip_prefix (p ∷ prefix) (b ∷ text) =
    let rest = strip_prefix prefix text in if nat_beq p b then rest else none

unfoldable pub trim_start : List ℕ → List ℕ
trim_start [] = []
trim_start (b ∷ text) = let rest = trim_start text in if is_whitespace b then rest else b ∷ text

unfoldable pub trim_end : List ℕ → List ℕ
trim_end [] = []
trim_end (b ∷ text) =
    let rest = trim_end text in if is_whitespace b && is_empty rest then [] else b ∷ rest

unfoldable pub trim : List ℕ → List ℕ
trim text = trim_start (trim_end text)

-- `b` in front of the first of the pieces.
abbrev pub onto_first : ℕ → List (List ℕ) → List (List ℕ)
onto_first b [] = (b ∷ []) ∷ []
onto_first b (piece ∷ pieces) = (b ∷ piece) ∷ pieces

-- `text.lines()`: a line ends in `\n` or `\r\n`, and what follows the last end is no line if empty.
unfoldable pub lines : List ℕ → List (List ℕ)
lines [] = []
lines (b ∷ text) =
    let rest = lines text in
    if nat_beq b 10
    then [] ∷ rest
    else if nat_beq b 13 && starts_with 10 text
    then rest
    else onto_first b rest

-- `text.split(sep)` without the empty pieces: `split_whitespace`, `split_ascii_whitespace`.
unfoldable pub fields : (ℕ → Bool) → List ℕ → List (List ℕ)
fields sep [] = []
fields sep (b ∷ text) =
    let rest = fields sep text in
    if sep b
    then rest
    else if is_empty text || begins_with sep text
    then (b ∷ []) ∷ rest
    else onto_first b rest

abbrev pub split_whitespace : List ℕ → List (List ℕ)
split_whitespace = fields is_whitespace

abbrev pub split_ascii_whitespace : List ℕ → List (List ℕ)
split_ascii_whitespace = fields is_ascii_whitespace

abbrev pub is_digit : ℕ → Bool
is_digit b = leb 48 b && leb b 57

-- The loop of `from_str_radix`, with its checked multiplication and addition.
unfoldable pub parse_digits : ℕ → ℕ → List ℕ → Option ℕ
parse_digits top n [] = some n
parse_digits top n (b ∷ text) =
    let value = n * 10 + (b - 48) in
    let rest = parse_digits top value text in if is_digit b && leb value top then rest else none

-- The digits without the sign `+`.
abbrev pub unsigned : List ℕ → List ℕ
unsigned [] = []
unsigned (b ∷ text) =
    if nat_beq b 43 && (if is_empty text then false else true) then text else b ∷ text

-- `text.parse::<u64>()`
unfoldable pub parse_u64 : List ℕ → Option ℕ
parse_u64 text = if is_empty text then none else parse_digits u64_max 0 (unsigned text)

unfoldable pub decimal_onto : ℕ → ℕ → List ℕ → List ℕ
decimal_onto zero n text = (48 + n % 10) ∷ text
decimal_onto (suc fuel) n text =
    let more = decimal_onto fuel (n / 10) ((48 + n % 10) ∷ text) in
    if leb n 9 then (48 + n % 10) ∷ text else more

-- A `u64` has at most 20 digits: `n.to_string()`.
unfoldable pub decimal : ℕ → List ℕ
decimal n = decimal_onto 19 n []

-- `text.parse::<i64>()`; the result is the 64-bit pattern of the number.
unfoldable pub parse_i64 : List ℕ → Option ℕ
parse_i64 [] = none
parse_i64 (b ∷ text) =
    if nat_beq b 45
    then (if is_empty text then none else elim (parse_digits (2 ^ 63) 0 text) [
      | none ↦ none
      | some n ↦ some ((2 ^ 64 - n) % 2 ^ 64)
    ])
    else parse_digits (2 ^ 63 - 1) 0 (unsigned (b ∷ text))

-- `n.to_string()` of an `i64` with this pattern.
unfoldable pub decimal_i64 : ℕ → List ℕ
decimal_i64 n = if ltb n (2 ^ 63) then decimal n else 45 ∷ decimal (2 ^ 64 - n)
