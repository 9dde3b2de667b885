-- ===== src/Enrollment.antt =====
-- crates/cosaci-state/src/enrollment.rs: the runners that may register. A text is its bytes, an
-- `i64` its 64-bit pattern; what the standard library reads of the text of an `f32` is an argument.
use Prim.Native.String.{String}
use cosaci.Prelude.{
  ℕ, ◌+◌, ◌-◌, ◌*◌, ◌/◌, ◌%◌, Bool, false, not, ◌&&◌, Option, none, some, List, [], ◌∷◌,
  if◌then◌else◌, leb, nat_beq, length, Result, ok, err, ◌>>=◌, nat_key, ◌==◌, bytes_key,
}
use cosaci.Map.{Map, get as lookup, insert as add}
use cosaci.Text.{
  File, missing_file, unreadable_file, text_file, lines, split_whitespace, parse_u64, parse_i64,
}
use cosaci.RecordFile.{load_lines}

pub record EnrolledRecord : Type 0 where
  pub runner_id : ℕ
  pub signing_fp : List ℕ
  pub vrf_fp : List ℕ
  pub enrolled_at_unix_ns : ℕ
  pub initial_reputation_milli : ℕ

pub record EnrollmentSet : Type 0 where
  pub records : Map ℕ EnrolledRecord

unfoldable pub new : EnrollmentSet
new = record { records = [] }

-- `HashMap::insert`; the record that stood there is returned.
unfoldable pub insert : EnrolledRecord → EnrollmentSet → EnrollmentSet × Option EnrolledRecord
insert row set =
    (record { records = add row.runner_id row set.records }, lookup row.runner_id set.records)

unfoldable pub get : ℕ → EnrollmentSet → Option EnrolledRecord
get runner_id set = lookup runner_id set.records

unfoldable pub is_enrolled : ℕ → List ℕ → List ℕ → EnrollmentSet → Bool
is_enrolled runner_id signing_fp vrf_fp set = elim (lookup runner_id set.records) [
  | some r ↦ r.signing_fp == signing_fp && r.vrf_fp == vrf_fp
  | none ↦ false
]

unfoldable pub hex_digit : ℕ → Option ℕ
hex_digit b =
    if leb 48 b && leb b 57
    then some (b - 48)
    else if leb 97 b && leb b 102
    then some (b - 97 + 10)
    else if leb 65 b && leb b 70
    then some (b - 65 + 10)
    else none

-- The loop of `parse_hex32`.
unfoldable pub parse_pairs : List ℕ → Option (List ℕ)
parse_pairs [] = some []
parse_pairs (b ∷ []) = some []
parse_pairs (b ∷ c ∷ text) =
    let rest = parse_pairs text in
    elim (hex_digit b) [
      | none ↦ none
      | some hi ↦ elim (hex_digit c) [
        | none ↦ none
        | some lo ↦ elim rest [ none ↦ none | some out ↦ some ((hi * 16 + lo) ∷ out) ]
      ]
    ]

unfoldable pub parse_hex32 : List ℕ → Option (List ℕ)
parse_hex32 text = if not (nat_beq (length text) 64) then none else parse_pairs text

unfoldable pub hex_nibble : ℕ → ℕ
hex_nibble n = if leb n 9 then 48 + n else 97 + n - 10

unfoldable pub fingerprint_hex : List ℕ → List ℕ
fingerprint_hex [] = []
fingerprint_hex (b ∷ fp) = hex_nibble (b / 16) ∷ hex_nibble (b % 16) ∷ fingerprint_hex fp

-- The text of an `f32` as the parser takes it: no number, one outside of `0.0..=1.0`, or
-- thousandths.
pub data Reputation : Type 0 where
  malformed outside : Reputation
  milli : (thousandths : ℕ) → Reputation

-- The messages of `InvalidData`, and the errors of the file.
pub data LoadError : Type 0 where
  not_found unreadable : LoadError
  invalid : (msg : String) → LoadError

abbrev pub next_field : List (List ℕ) → String → Result (List ℕ × List (List ℕ)) LoadError
next_field [] name = err (invalid name)
next_field (word ∷ it) name = ok (word, it)

abbrev pub ok_or_invalid {ℓ} : {A : Type ℓ} → Option A → String → Result A LoadError
ok_or_invalid none msg = err (invalid msg)
ok_or_invalid (some a) msg = ok a

abbrev pub no_more : List (List ℕ) → Result (Unit {0}) LoadError
no_more [] = ok tt
no_more (word ∷ it) = err (invalid "trailing fields after initial_reputation")

abbrev pub is_number : Reputation → Result (Unit {0}) LoadError
is_number malformed = err (invalid "initial_reputation")
is_number _ = ok tt

abbrev pub in_unit : Reputation → Result ℕ LoadError
in_unit (milli thousandths) = ok thousandths
in_unit _ = err (invalid "initial_reputation not in [0.0, 1.0]")

module _ (read_f32 : List ℕ → Reputation) where
  unfoldable pub parse_line : List ℕ → Result EnrolledRecord LoadError
  parse_line line = do
    (id_field, it₁) ← next_field (split_whitespace line) "runner_id"
    runner_id ← ok_or_invalid (parse_u64 id_field) "runner_id"
    (signing_fp_hex, it₂) ← next_field it₁ "signing_fp"
    (vrf_fp_hex, it₃) ← next_field it₂ "vrf_fp"
    (at_field, it₄) ← next_field it₃ "enrolled_at_unix_ns"
    enrolled_at_unix_ns ← ok_or_invalid (parse_i64 at_field) "enrolled_at_unix_ns"
    (reputation_field, it₅) ← next_field it₄ "initial_reputation"
    _ ← is_number (read_f32 reputation_field)
    _ ← no_more it₅
    thousandths ← in_unit (read_f32 reputation_field)
    signing_fp ← ok_or_invalid (parse_hex32 signing_fp_hex) "signing_fp"
    vrf_fp ← ok_or_invalid (parse_hex32 vrf_fp_hex) "vrf_fp"
    ok record {
      runner_id = runner_id;
      signing_fp = signing_fp;
      vrf_fp = vrf_fp;
      enrolled_at_unix_ns = enrolled_at_unix_ns;
      initial_reputation_milli = thousandths;
    }

  -- The body of the loop of `parse`; the line number stands in the message only.
  unfoldable pub read_line : ℕ → List ℕ → EnrollmentSet → Result EnrollmentSet LoadError
  read_line lineno trimmed set = elim (parse_line trimmed) [
    | err e ↦ err e
    | ok row ↦ ok (insert row set).0
  ]

  unfoldable pub parse : List ℕ → Result EnrollmentSet LoadError
  parse text = load_lines read_line 1 (lines text) new

  unfoldable pub load_from_path : File → Result EnrollmentSet LoadError
  load_from_path missing_file = err not_found
  load_from_path unreadable_file = err unreadable
  load_from_path (text_file text) = parse text
