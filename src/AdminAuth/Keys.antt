-- ===== src/AdminAuth/Keys.antt =====
-- The file of the admins' keys of crates/cosaci-state/src/admin_auth.rs.
use Prim.Native.String.{String}
use cosaci.Prelude.{
  ℕ, ◌+◌, ◌-◌, ◌*◌, not, ◌&&◌, Option, none, some, List, [], ◌∷◌, if◌then◌else◌, leb, nat_beq,
  length, Result, ok, err, ◌>>=◌,
}
use cosaci.Text.{
  File, missing_file, unreadable_file, text_file, lines, split_ascii_whitespace, parse_u64,
}
use cosaci.RecordFile.{load_lines}
use cosaci.AdminAuth.{AdminRecord, AdminKeySet, KeySetError, new, insert}

unfoldable pub hex_nibble : ℕ → Option ℕ
hex_nibble b =
    if leb 48 b && leb b 57
    then some (b - 48)
    else if leb 97 b && leb b 102
    then some (b - 97 + 10)
    else none

-- The loop of `parse_hex32`.
unfoldable pub parse_pairs : List ℕ → Option (List ℕ)
parse_pairs [] = some []
parse_pairs (b ∷ []) = some []
parse_pairs (b ∷ c ∷ text) =
    let rest = parse_pairs text in
    elim (hex_nibble b) [
      | none ↦ none
      | some hi ↦ elim (hex_nibble c) [
        | none ↦ none
        | some lo ↦ elim rest [ none ↦ none | some out ↦ some ((hi * 16 + lo) ∷ out) ]
      ]
    ]

unfoldable pub parse_hex32 : List ℕ → Option (List ℕ)
parse_hex32 text = if not (nat_beq (length text) 64) then none else parse_pairs text

-- `io::Error` of a line, which is counted from 1.
pub data LineError : Type 0 where
  missing : (lineno : ℕ) (name : String) → LineError
  invalid : (lineno : ℕ) (msg : String) → LineError
  repeated : KeySetError → LineError

-- `io::Error` of a file.
pub data LoadError : Type 0 where
  not_found unreadable : LoadError
  in_line : LineError → LoadError

abbrev pub next_field : List (List ℕ) → ℕ → String → Result (List ℕ × List (List ℕ)) LineError
next_field [] lineno name = err (missing lineno name)
next_field (word ∷ it) lineno name = ok (word, it)

-- `option.ok_or_else(|| invalid(lineno, msg))?`
abbrev pub ok_or_invalid {ℓ} : {A : Type ℓ} → Option A → ℕ → String → Result A LineError
ok_or_invalid none lineno msg = err (invalid lineno msg)
ok_or_invalid (some a) lineno msg = ok a

abbrev pub no_more : List (List ℕ) → ℕ → Result (Unit {0}) LineError
no_more [] lineno = ok tt
no_more (word ∷ it) lineno = err (invalid lineno "trailing fields after enrolled_at_unix_ns")

unfoldable pub parse_line : ℕ → List ℕ → Result AdminRecord LineError
parse_line lineno line = do
  (admin_id_s, it₁) ← next_field (split_ascii_whitespace line) lineno "admin_id"
  (signing_fp_s, it₂) ← next_field it₁ lineno "signing_fp_hex"
  (registered_s, it₃) ← next_field it₂ lineno "enrolled_at_unix_ns"
  _ ← no_more it₃ lineno
  admin_id ← ok_or_invalid (parse_u64 admin_id_s) lineno "admin_id not a u64"
  signing_fp ←
      ok_or_invalid (parse_hex32 signing_fp_s) lineno "signing_fp_hex not 64 lowercase-hex chars"
  enrolled_at_unix_ns ←
      ok_or_invalid (parse_u64 registered_s) lineno "enrolled_at_unix_ns not a u64"
  ok record {
    admin_id = admin_id;
    signing_fp = signing_fp;
    enrolled_at_unix_ns = enrolled_at_unix_ns;
  }

-- The body of the loop of `load_from_path`.
unfoldable pub read_line : ℕ → List ℕ → AdminKeySet → Result AdminKeySet LineError
read_line lineno trimmed set = elim (parse_line lineno trimmed) [
  | err e ↦ err e
  | ok admin ↦
      let (more, done) = insert admin set in elim done [ err e ↦ err (repeated e) | ok _ ↦ ok more ]
]

unfoldable pub load_from_path : File → Result AdminKeySet LoadError
load_from_path missing_file = err not_found
load_from_path unreadable_file = err unreadable
load_from_path (text_file text) = elim (load_lines read_line 1 (lines text) new) [
  | err e ↦ err (in_line e)
  | ok set ↦ ok set
]
