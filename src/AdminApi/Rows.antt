-- ===== src/AdminApi/Rows.antt =====
-- The lines that the sessions write are records that the loaders read.
use cosaci.Prelude.{
  ℕ, ◌/◌, ◌%◌, ◌^◌, ◌<◌, ◌≡◌, refl, ap, ◌∙◌, false, List, [], ◌∷◌, arith, length, All, ok,
}
use cosaci.Text.{decimal, trim, is_whitespace}
use cosaci.Text.Lines.{IsLine}
use cosaci.Text.Numbers.{decimal-All, decimal_nonempty, parse_u64-decimal}
use cosaci.Text.Joined.{
  IsWord, split_ascii-joined, trim-joined, joined-IsLine, digits-IsWord, joined_read,
}
use cosaci.RecordFile.{is_skipped}
use cosaci.Tenant.{TenantRecord, lower_digit, fingerprint_hex, parse_line}
use cosaci.Tenant.Fingerprints.{IsByte, parse_hex32-fingerprint_hex}
use cosaci.Tenant.Files.{IsRow-parse_line}
use cosaci.AdminApi.{tenant_line}

-- A record of `u64`s and a fingerprint of 32 bytes.
pub record FitsFile (t : TenantRecord) : Type 0 where
  pub id_fits : t.tenant_id < 2 ^ 64
  pub fp_size : length t.signing_fp ≡ 32
  pub fp_bytes : All IsByte t.signing_fp
  pub capacity_fits : t.rate_capacity < 2 ^ 64
  pub refill_fits : t.rate_refill_per_sec < 2 ^ 64
  pub registered_fits : t.registered_at_unix_ns < 2 ^ 64

abbrev later_words : TenantRecord → List (List ℕ)
later_words t =
    fingerprint_hex t.signing_fp
    ∷ decimal t.rate_capacity
    ∷ decimal t.rate_refill_per_sec
    ∷ decimal t.registered_at_unix_ns
    ∷ []

abbrev words_of : TenantRecord → List (List ℕ)
words_of t = decimal t.tenant_id ∷ later_words t

decimal-IsWord : (n : ℕ) → IsWord (decimal n)
decimal-IsWord n = digits-IsWord (decimal n) (decimal_nonempty n) (decimal-All n)

hex-All : (fp : List ℕ) → All IsByte fp → All (λ b. is_whitespace b ≡ false) (fingerprint_hex fp)
unfolding fingerprint_hex
hex-All [] a = tt
hex-All (b ∷ fp) a =
    let small = a.0 in
    let high : is_whitespace (lower_digit (b / 16)) ≡ false = ground arith in
    let low : is_whitespace (lower_digit (b % 16)) ≡ false = ground arith in
    (high, (low, hex-All fp a.1))

hex-IsWord : (fp : List ℕ) → length fp ≡ 32 → All IsByte fp → IsWord (fingerprint_hex fp)
unfolding fingerprint_hex
hex-IsWord [] h a = absurd (omega arith)
hex-IsWord (b ∷ fp) h a = (refl, hex-All (b ∷ fp) a)

words_of-All : (t : TenantRecord) → FitsFile t → All IsWord (words_of t)
words_of-All t f = (
  decimal-IsWord t.tenant_id,
  (
    hex-IsWord t.signing_fp f.fp_size f.fp_bytes,
    (
      decimal-IsWord t.rate_capacity,
      (decimal-IsWord t.rate_refill_per_sec, (decimal-IsWord t.registered_at_unix_ns, tt)),
    ),
  ),
)

pub tenant_line-IsLine : (t : TenantRecord) → FitsFile t → IsLine (tenant_line t)
unfolding tenant_line
tenant_line-IsLine t f = joined-IsLine (words_of t) (words_of-All t f)

pub tenant_line_trimmed : (t : TenantRecord) → FitsFile t → trim (tenant_line t) ≡ tenant_line t
unfolding tenant_line
tenant_line_trimmed t f = trim-joined (words_of t) (words_of-All t f)

pub tenant_line_read : (t : TenantRecord) → FitsFile t → is_skipped (trim (tenant_line t)) ≡ false
unfolding tenant_line
tenant_line_read t f =
    ap is_skipped (trim-joined (words_of t) (words_of-All t f))
    ∙ joined_read (decimal t.tenant_id) (later_words t) (decimal_nonempty t.tenant_id)
        (decimal-All t.tenant_id)

-- The line of a tenant is read as the tenant, on any line of the file.
pub parse_line-tenant_line :
    (n : ℕ) (t : TenantRecord) → FitsFile t → parse_line n (tenant_line t) ≡ ok t
unfolding tenant_line
parse_line-tenant_line n t f = IsRow-parse_line n (tenant_line t) t (record {
  id_text = decimal t.tenant_id;
  fp_text = fingerprint_hex t.signing_fp;
  capacity_text = decimal t.rate_capacity;
  refill_text = decimal t.rate_refill_per_sec;
  registered_text = decimal t.registered_at_unix_ns;
  five_fields = split_ascii-joined (words_of t) (words_of-All t f);
  id_read = parse_u64-decimal t.tenant_id f.id_fits;
  fp_read = parse_hex32-fingerprint_hex t.signing_fp f.fp_size f.fp_bytes;
  capacity_read = parse_u64-decimal t.rate_capacity f.capacity_fits;
  refill_read = parse_u64-decimal t.rate_refill_per_sec f.refill_fits;
  registered_read = parse_u64-decimal t.registered_at_unix_ns f.registered_fits;
})
