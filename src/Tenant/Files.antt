-- ===== src/Tenant/Files.antt =====
-- What a line of the tenant file is read as.
use cosaci.Prelude.{
  nat_key, ℕ, ◌≡◌, refl, Option, none, some, List, [], ◌∷◌, arith, ok, Option-cases, Result-cases,
  inl, inr,
}
use cosaci.Map.{get as lookup, contains_key}
use cosaci.Text.{split_ascii_whitespace, parse_u64}
use cosaci.RecordFile.Removing.{HasId}
use cosaci.Tenant.{
  TenantRecord, TenantRegistry, row_of, parse_hex32, parse_line, insert, get, read_line,
}

-- The five fields of a line and what they are read as.
pub record IsRow (line : List ℕ) (row : TenantRecord) : Type 0 where
  pub id_text : List ℕ
  pub fp_text : List ℕ
  pub capacity_text : List ℕ
  pub refill_text : List ℕ
  pub registered_text : List ℕ
  pub five_fields :
      split_ascii_whitespace line
      ≡ id_text ∷ fp_text ∷ capacity_text ∷ refill_text ∷ registered_text ∷ []
  pub id_read : parse_u64 id_text ≡ some row.tenant_id
  pub fp_read : parse_hex32 fp_text ≡ some row.signing_fp
  pub capacity_read : parse_u64 capacity_text ≡ some row.rate_capacity
  pub refill_read : parse_u64 refill_text ≡ some row.rate_refill_per_sec
  pub registered_read : parse_u64 registered_text ≡ some row.registered_at_unix_ns

pub IsRow-parse_line :
    (n : ℕ) (line : List ℕ) (row : TenantRecord) → IsRow line row → parse_line n line ≡ ok row
unfolding parse_line
IsRow-parse_line n line row h =
    rw (h.five_fields, h.id_read, h.fp_read, h.capacity_read, h.refill_read, h.registered_read) refl

row_of_ok :
    (n : ℕ) (id : Option ℕ) (fp : Option (List ℕ)) (capacity refill registered : Option ℕ)
    (row : TenantRecord)
    → row_of n id fp capacity refill registered ≡ ok row
    → (id ≡ some row.tenant_id)
      × (fp ≡ some row.signing_fp)
      × (capacity ≡ some row.rate_capacity)
      × (refill ≡ some row.rate_refill_per_sec)
      × (registered ≡ some row.registered_at_unix_ns)
row_of_ok n none fp capacity refill registered row e = absurd (cc)
row_of_ok n (some id) none capacity refill registered row e = absurd (cc)
row_of_ok n (some id) (some fp) none refill registered row e = absurd (cc)
row_of_ok n (some id) (some fp) (some capacity) none registered row e = absurd (cc)
row_of_ok n (some id) (some fp) (some capacity) (some refill) none row e = absurd (cc)
row_of_ok n (some id) (some fp) (some capacity) (some refill) (some registered) row e = ground arith

pub parse_line-IsRow :
    (n : ℕ) (line : List ℕ) (row : TenantRecord) → parse_line n line ≡ ok row → IsRow line row
unfolding parse_line
parse_line-IsRow n line row = go (split_ascii_whitespace line) refl
  where
    go :
        (words : List (List ℕ))
        → split_ascii_whitespace line ≡ words
        → parse_line n line ≡ ok row
        → IsRow line row
    go [] f e = absurd (cc (rw f at e))
    go (a ∷ []) f e = absurd (cc (rw f at e))
    go (a ∷ b ∷ []) f e = absurd (cc (rw f at e))
    go (a ∷ b ∷ c ∷ []) f e = absurd (cc (rw f at e))
    go (a ∷ b ∷ c ∷ d ∷ []) f e = absurd (cc (rw f at e))
    go (a ∷ b ∷ c ∷ d ∷ g ∷ h ∷ more) f e = absurd (cc (rw f at e))
    go (a ∷ b ∷ c ∷ d ∷ g ∷ []) f e =
        let (id, fp, capacity, refill, registered) = row_of_ok n _ _ _ _ _ row (rw f at e) in
        record {
          id_text = a;
          fp_text = b;
          capacity_text = c;
          refill_text = d;
          registered_text = g;
          five_fields = f;
          id_read = id;
          fp_read = fp;
          capacity_read = capacity;
          refill_read = refill;
          registered_read = registered;
        }

pub parse_line_numbered :
    (n : ℕ) (line : List ℕ) (row : TenantRecord)
    → parse_line n line ≡ ok row
    → HasId line row.tenant_id
parse_line_numbered n line row e =
    let h = parse_line-IsRow n line row e in rw h.five_fields h.id_read

-- A line that is read inserts a record whose id no record has.
pub read_line_ok :
    (n : ℕ) (line : List ℕ) (reg more : TenantRegistry)
    → read_line n line reg ≡ ok more
    → (row : TenantRecord) × (parse_line n line ≡ ok row)
      × (get row.tenant_id reg ≡ none)
      × (more ≡ (insert row reg).0)
unfolding read_line insert get
read_line_ok n line reg more e = elim (Result-cases (parse_line n line)) [
  | inr (fault, p) ↦ absurd (ground arith)
  | inl (row, p) ↦ elim (Option-cases (lookup row.tenant_id reg.by_id)) [
    | inr (other, g) ↦ absurd (unfold contains_key in ground arith)
    | inl g ↦ (row, p, g, (unfold contains_key in ground arith))
  ]
]

pub read_line-insert :
    (n : ℕ) (line : List ℕ) (reg : TenantRegistry) (row : TenantRecord)
    → parse_line n line ≡ ok row
    → get row.tenant_id reg ≡ none
    → read_line n line reg ≡ ok (insert row reg).0
unfolding read_line insert get contains_key
read_line-insert n line reg row p g = ground arith
