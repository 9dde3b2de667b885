-- ===== src/AdminApi/Revoking.antt =====
-- Revoking a tenant: the file and the registry are those of before without the tenant.
use cosaci.Prelude.{
  ℕ, ◌≡◌, refl, ap, sym, ◌∙◌, subst, Bool, true, false, ◌||◌, none, some, List, arith, nat_beq, ok,
  nat_key, if◌then◌else◌,
}
use cosaci.Map.{get-insert, contains_key, get as lookup}
use cosaci.Text.{text_file, lines}
use cosaci.Text.Lines.{lines-All}
use cosaci.RecordFile.{revoke_lines}
use cosaci.RecordFile.Removing.{HasId, load-revoke_lines, found-revoke_lines}
use cosaci.Tenant.{TenantRecord, TenantRegistry, get, insert, read_line, parse_line, load_from_path}
use cosaci.Tenant as Tenant
use cosaci.Tenant.Files.{
  parse_line_numbered, read_line_ok, read_line-insert, IsRow-parse_line, parse_line-IsRow,
}
use cosaci.Protocol.{admin_revoke_tenant_ack}
use cosaci.AdminApi.{AuthState, AdminState, reload_tenants_in_state, revoke_tenant}
use cosaci.AdminApi.Tenants.{text_load, load_text}

-- The second registry is the first without the tenant of this id.
abbrev pub IsWithout : ℕ → TenantRegistry → TenantRegistry → Type 0
IsWithout id reg kept = (j : ℕ) → get j kept ≡ (if nat_beq id j then none else get j reg)

get-insert_new :
    (row : TenantRecord) (reg : TenantRegistry) (j : ℕ)
    → get row.tenant_id reg ≡ none
    → get j (insert row reg).0 ≡ (if nat_beq row.tenant_id j then some row else get j reg)
unfolding get insert contains_key
get-insert_new row reg j h = ground (arith, get-insert row.tenant_id j row reg.by_id)

same_id :
    (line : List ℕ) (n other : ℕ) (row : TenantRecord)
    → parse_line n line ≡ ok row
    → HasId line other
    → row.tenant_id ≡ other
same_id line n other row p h = let own = parse_line_numbered n line row p in ground arith

module _ (id : ℕ) where
  keeps :
      (n m other : ℕ) (line : List ℕ) (s s' t : TenantRegistry)
      → IsWithout id s t
      → read_line n line s ≡ ok s'
      → HasId line other
      → nat_beq other id ≡ false
      → (t' : TenantRegistry) × (read_line m line t ≡ ok t') × IsWithout id s' t'
  keeps n m other line s s' t r e h d =
      let (row, p, g, made) = read_line_ok n line s s' e in
      let own = same_id line n other row p h in
      let differs : nat_beq id row.tenant_id ≡ false = ground arith in
      let absent : get row.tenant_id t ≡ none = r row.tenant_id ∙ rw (differs, g) refl in
      let again = IsRow-parse_line m line row (parse_line-IsRow n line row p) in
      (
        (insert row t).0,
        read_line-insert m line t row again absent,
        λ j.
            let left = get-insert_new row t j absent in
            let right = get-insert_new row s j g in
            let before = r j in
            left
            ∙ subst
                (λ u.
                  (if nat_beq row.tenant_id j then some row else get j t)
                  ≡ (if nat_beq id j then none else get j u))
                (sym made) (ground arith),
      )

  drops :
      (n other : ℕ) (line : List ℕ) (s s' t : TenantRegistry)
      → IsWithout id s t
      → read_line n line s ≡ ok s'
      → HasId line other
      → nat_beq other id ≡ true
      → IsWithout id s' t
  drops n other line s s' t r e h d =
      let (row, p, g, made) = read_line_ok n line s s' e in
      let own = same_id line n other row p h in
      λ j.
        let right = get-insert_new row s j g in
        let before = r j in
        subst (λ u. get j t ≡ (if nat_beq id j then none else get j u)) (sym made) (ground arith)

  numbered :
      (n : ℕ) (line : List ℕ) (s s' : TenantRegistry)
      → read_line n line s ≡ ok s'
      → (other : ℕ) × HasId line other
  numbered n line s s' e =
      let (row, p, g, made) = read_line_ok n line s s' e in
      (row.tenant_id, parse_line_numbered n line row p)

  abbrev has : TenantRegistry → Bool
  has reg = elim (get id reg) [ none ↦ false | some _ ↦ true ]

  brings :
      (n other : ℕ) (line : List ℕ) (s s' : TenantRegistry)
      → read_line n line s ≡ ok s'
      → HasId line other
      → has s' ≡ (nat_beq other id || has s)
  brings n other line s s' e h =
      let (row, p, g, made) = read_line_ok n line s s' e in
      let own = same_id line n other row p h in
      let right = get-insert_new row s id g in
      subst (λ u. has u ≡ (nat_beq other id || has s)) (sym made) (ground arith)

nothing_yet : (id : ℕ) → IsWithout id Tenant.new Tenant.new
unfolding get lookup Tenant.new
nothing_yet id j = ground arith

-- The file without the tenant's records is read as the registry without the tenant.
IsWithout-loads :
    (id : ℕ) (text : List ℕ) (reg : TenantRegistry)
    → load_from_path (text_file text) ≡ ok reg
    → (kept : TenantRegistry) × (load_from_path (text_file (revoke_lines id (lines text)).1)
        ≡ ok kept)
      × IsWithout id reg kept
IsWithout-loads id text reg e =
    let (kept, loaded, without) =
      load-revoke_lines read_line (numbered id) id (IsWithout id) (keeps id) (drops id) (lines text)
        1 1 Tenant.new Tenant.new reg (lines-All text) (nothing_yet id) (text_load text reg e) in
    (kept, load_text _ kept loaded, without)

has_none : (id : ℕ) → has id Tenant.new ≡ false
unfolding get lookup Tenant.new
has_none id = refl

found_iff :
    (id : ℕ) (text : List ℕ) (reg : TenantRegistry)
    → load_from_path (text_file text) ≡ ok reg
    → has id reg ≡ (revoke_lines id (lines text)).0
found_iff id text reg e =
    let found =
      found-revoke_lines read_line (numbered id) id (has id) (brings id) (lines text) 1 Tenant.new
        reg (text_load text reg e) in
    found ∙ ap (λ b. (revoke_lines id (lines text)).0 || b) (has_none id) ∙ or_false _
  where
    or_false : (b : Bool) → (b || false) ≡ b
    or_false true = refl
    or_false false = refl

-- Revoking a tenant that the file has is acknowledged, where the file is written; the file then
-- loads, and every other tenant is in it as before and this one no more, and submissions are
-- checked against just those.
pub revoke_tenant-loads :
    (id : ℕ) (s : AdminState) (text : List ℕ) (reg : TenantRegistry) (t : TenantRecord)
    → s.tenants ≡ text_file text
    → load_from_path (text_file text) ≡ ok reg
    → get id reg ≡ some t
    → (kept : TenantRegistry) × ((revoke_tenant true true id s).1 ≡ admin_revoke_tenant_ack)
      × (load_from_path (revoke_tenant true true id s).0.tenants ≡ ok kept)
      × IsWithout id reg kept
      × ((a : AuthState)
          → s.auth_state ≡ some a
          → (revoke_tenant true true id s).0.auth_state ≡ some (record a { registry = kept }))
unfolding revoke_tenant reload_tenants_in_state
revoke_tenant-loads id s text reg t file e g =
    let (kept, loaded, without) = IsWithout-loads id text reg e in
    let found : (revoke_lines id (lines text)).0 ≡ true =
      sym (found_iff id text reg e) ∙ rw (g, has) refl in
    (
      kept,
      rw (file, found, revoke_tenant) refl,
      rw (file, found, revoke_tenant) loaded,
      without,
      λ a h. rw (file, found, revoke_tenant) (rw (h, loaded, reload_tenants_in_state) refl),
    )

-- Revoking a tenant that the file does not have changes nothing.
pub revoke_tenant_absent :
    (id : ℕ) (s : AdminState) (text : List ℕ) (reg : TenantRegistry)
    → s.tenants ≡ text_file text
    → load_from_path (text_file text) ≡ ok reg
    → get id reg ≡ none
    → (revoke_tenant true true id s).0 ≡ s
unfolding revoke_tenant
revoke_tenant_absent id s text reg file e g =
    let found : (revoke_lines id (lines text)).0 ≡ false =
      sym (found_iff id text reg e) ∙ rw (g, has) refl in
    ground arith
