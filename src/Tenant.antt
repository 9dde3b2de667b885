-- ===== src/Tenant.antt =====
-- crates/cosaci-state/src/tenant.rs: the tenants that may submit jobs. A byte is a number below 256;
-- SHA-256 is the argument `sha256`.
pub mod Fingerprints
pub mod Files
mod Examples
use Prim.Native.String.{String}
use cosaci.RecordFile.{load_lines}
use cosaci.Text.{
  File, missing_file, unreadable_file, text_file, is_empty, starts_with, trim, lines,
  split_ascii_whitespace, parse_u64,
}
use cosaci.Prelude.{
  suc, ◌>>=◌, Bool, ◌||◌, some, none, ◌+◌, ◌-◌, ◌*◌, ◌/◌, ◌%◌, not, ◌&&◌, ◌∷◌, leb, nat_beq, length,
  ℕ, Option, List, [], if◌then◌else◌, Result, ok, err, nat_key,
}
use cosaci.Map.{Map, get as lookup, insert as add, contains_key}

pub record TenantRecord : Type 0 where
  pub tenant_id : ℕ
  pub signing_fp : List ℕ
  pub rate_capacity : ℕ
  pub rate_refill_per_sec : ℕ
  pub registered_at_unix_ns : ℕ

pub record TenantRegistry : Type 0 where
  pub by_id : Map ℕ TenantRecord

unfoldable pub new : TenantRegistry
new = record { by_id = [] }

pub data RegistryError : Type 0 where
  already_exists : (tenant_id : ℕ) → RegistryError

unfoldable pub insert :
    TenantRecord → TenantRegistry → TenantRegistry × Result (Unit {0}) RegistryError
insert t r =
    if contains_key t.tenant_id r.by_id
    then (r, err (already_exists t.tenant_id))
    else (record r { by_id = add t.tenant_id t r.by_id }, ok tt)

unfoldable pub get : ℕ → TenantRegistry → Option TenantRecord
get tenant_id r = lookup tenant_id r.by_id

-- `fingerprint`
abbrev pub fingerprint : (List ℕ → List ℕ) → List ℕ → List ℕ
fingerprint sha256 pubkey = sha256 pubkey

-- A text is its bytes. `hex_nibble`: the value of `0`..`9` and `a`..`f`.
unfoldable pub hex_nibble : ℕ → Option ℕ
hex_nibble b =
    if leb 48 b && leb b 57
    then some (b - 48)
    else if leb 97 b && leb b 102
    then some (b - 97 + 10)
    else none

-- The loop of `parse_hex32`, over pairs of digits.
unfoldable pub parse_pairs : List ℕ → Option (List ℕ)
parse_pairs [] = some []
parse_pairs (b ∷ []) = some []
parse_pairs (b ∷ c ∷ text) =
    let rest = parse_pairs text in
    elim (hex_nibble b) [
      | none ↦ none
      | some hi ↦ elim (hex_nibble c) [
        | none ↦ none
        | some lo ↦ elim rest [ none ↦ none | some out ↦ some ((hi * 16 + lo) ∷ out) ]
      ]
    ]

unfoldable pub parse_hex32 : List ℕ → Option (List ℕ)
parse_hex32 text = if not (nat_beq (length text) 64) then none else parse_pairs text

-- The digit of a value below 16, in lower case.
abbrev pub lower_digit : ℕ → ℕ
lower_digit n = if leb n 9 then 48 + n else 87 + n

unfoldable pub fingerprint_hex : List ℕ → List ℕ
fingerprint_hex [] = []
fingerprint_hex (b ∷ fp) = lower_digit (b / 16) ∷ lower_digit (b % 16) ∷ fingerprint_hex fp

-- `io::Error` of a line, which is counted from 1: it is malformed, or its tenant stands there twice.
pub data LineError : Type 0 where
  missing : (lineno : ℕ) (name : String) → LineError
  invalid : (lineno : ℕ) (msg : String) → LineError
  repeated : RegistryError → LineError

-- `io::Error` of a file.
pub data LoadError : Type 0 where
  not_found unreadable : LoadError
  in_line : LineError → LoadError

abbrev pub next_field : List (List ℕ) → ℕ → String → Result (List ℕ × List (List ℕ)) LineError
next_field [] lineno name = err (missing lineno name)
next_field (word ∷ it) lineno name = ok (word, it)

-- `option.ok_or_else(|| invalid(lineno, msg))?`
abbrev pub ok_or_invalid {ℓ} : {A : Type ℓ} → Option A → ℕ → String → Result A LineError
ok_or_invalid none lineno msg = err (invalid lineno msg)
ok_or_invalid (some a) lineno msg = ok a

abbrev pub no_more : List (List ℕ) → ℕ → Result (Unit {0}) LineError
no_more [] lineno = ok tt
no_more (word ∷ it) lineno = err (invalid lineno "trailing fields after registered_at_unix_ns")

-- The second half of `parse_line`, on the five fields as they are read.
abbrev pub row_of :
    ℕ → Option ℕ → Option (List ℕ) → Option ℕ → Option ℕ → Option ℕ → Result TenantRecord LineError
row_of lineno tenant_id_s signing_fp_s cap_s refill_s registered_s = do
  tenant_id ← ok_or_invalid tenant_id_s lineno "tenant_id not a u64"
  signing_fp ← ok_or_invalid signing_fp_s lineno "signing_fp_hex not 64 lowercase-hex chars"
  rate_capacity ← ok_or_invalid cap_s lineno "rate_capacity not a u64"
  rate_refill_per_sec ← ok_or_invalid refill_s lineno "rate_refill_per_sec not a u64"
  registered_at_unix_ns ← ok_or_invalid registered_s lineno "registered_at_unix_ns not a u64"
  ok record {
    tenant_id = tenant_id;
    signing_fp = signing_fp;
    rate_capacity = rate_capacity;
    rate_refill_per_sec = rate_refill_per_sec;
    registered_at_unix_ns = registered_at_unix_ns;
  }

unfoldable pub parse_line : ℕ → List ℕ → Result TenantRecord LineError
parse_line lineno line = do
  (tenant_id_s, it₁) ← next_field (split_ascii_whitespace line) lineno "tenant_id"
  (signing_fp_s, it₂) ← next_field it₁ lineno "signing_fp_hex"
  (cap_s, it₃) ← next_field it₂ lineno "rate_capacity"
  (refill_s, it₄) ← next_field it₃ lineno "rate_refill_per_sec"
  (registered_s, it₅) ← next_field it₄ lineno "registered_at_unix_ns"
  _ ← no_more it₅ lineno
  row_of lineno (parse_u64 tenant_id_s) (parse_hex32 signing_fp_s) (parse_u64 cap_s)
      (parse_u64 refill_s) (parse_u64 registered_s)

-- The body of the loop of `load_from_path`.
unfoldable pub read_line : ℕ → List ℕ → TenantRegistry → Result TenantRegistry LineError
read_line lineno trimmed reg = elim (parse_line lineno trimmed) [
  | err e ↦ err e
  | ok row ↦
      let (more, done) = insert row reg in elim done [ err e ↦ err (repeated e) | ok _ ↦ ok more ]
]

unfoldable pub load_from_path : File → Result TenantRegistry LoadError
load_from_path missing_file = err not_found
load_from_path unreadable_file = err unreadable
load_from_path (text_file text) = elim (load_lines read_line 1 (lines text) new) [
  | err e ↦ err (in_line e)
  | ok reg ↦ ok reg
]
