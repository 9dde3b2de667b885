-- ===== src/AdminApi/Tenants.antt =====
-- Adding and revoking a tenant: what the file says afterwards, and who is authorized.
use cosaci.Prelude.{
  ℕ, ◌+◌, ◌≡◌, refl, ap, sym, ◌∙◌, subst, true, none, some, List, [], arith, length, ok, nat_key,
  Result-cases, inl, inr,
}
use cosaci.Text.{File, missing_file, unreadable_file, text_file, lines}
use cosaci.RecordFile.{load_lines, appended}
use cosaci.RecordFile.Appending.{load-appended}
use cosaci.Tenant.{
  TenantRecord, TenantRegistry, get, insert, read_line, parse_line, load_from_path, not_found,
}
use cosaci.Tenant as Tenant
use cosaci.Tenant.Files.{read_line-insert}
use cosaci.Protocol.{admin_add_tenant_ack}
use cosaci.AdminApi.{
  AuthState, AdminState, tenant_line, existing_tenants, append_atomic, reload_tenants_in_state,
  add_tenant,
}
use cosaci.AdminApi.Rows.{
  FitsFile, tenant_line-IsLine, tenant_line_trimmed, tenant_line_read, parse_line-tenant_line,
}

-- The file after a tenant is appended to one that held `reg`.
appended_loads :
    (text : List ℕ) (reg : TenantRegistry) (t : TenantRecord)
    → FitsFile t
    → get t.tenant_id reg ≡ none
    → load_lines read_line 1 (lines text) Tenant.new ≡ ok reg
    → load_lines read_line 1 (lines (appended text (tenant_line t))) Tenant.new
      ≡ ok (insert t reg).0
appended_loads text reg t f g e =
    load-appended read_line text (tenant_line t) Tenant.new reg (insert t reg).0
      (tenant_line-IsLine t f) (tenant_line_read t f) e
      (subst (λ l. read_line (1 + length (lines text)) l reg ≡ ok (insert t reg).0)
        (sym (tenant_line_trimmed t f))
        (read_line-insert _ (tenant_line t) reg t (parse_line-tenant_line _ t f) g))

pub load_text :
    (text : List ℕ) (reg : TenantRegistry)
    → load_lines read_line 1 (lines text) Tenant.new ≡ ok reg
    → load_from_path (text_file text) ≡ ok reg
unfolding load_from_path
load_text text reg l = rw (l, load_from_path) refl

pub text_load :
    (text : List ℕ) (reg : TenantRegistry)
    → load_from_path (text_file text) ≡ ok reg
    → load_lines read_line 1 (lines text) Tenant.new ≡ ok reg
unfolding load_from_path
text_load text reg e = elim (Result-cases (load_lines read_line 1 (lines text) Tenant.new)) [
  | inl (found, l) ↦ let same : found ≡ reg = ground arith in l ∙ ap ok same
  | inr (fault, l) ↦ absurd (ground arith)
]

existing_text :
    (text : List ℕ) (reg : TenantRegistry)
    → existing_tenants (text_file text) ≡ some reg
    → load_from_path (text_file text) ≡ ok reg
unfolding load_from_path
existing_text text reg e = elim (Result-cases (load_lines read_line 1 (lines text) Tenant.new)) [
  | inl (found, l) ↦ let same : found ≡ reg = ground arith in rw (l, load_from_path) (ap ok same)
  | inr (fault, l) ↦ absurd (ground arith)
]

append_atomic-loads :
    (file : File) (reg : TenantRegistry) (t : TenantRecord)
    → FitsFile t
    → get t.tenant_id reg ≡ none
    → existing_tenants file ≡ some reg
    → ((append_atomic true file (tenant_line t)).1 ≡ true)
      × (load_from_path (append_atomic true file (tenant_line t)).0 ≡ ok (insert t reg).0)
unfolding append_atomic
append_atomic-loads missing_file reg t f g e =
    let same : Tenant.new ≡ reg = unfold load_from_path in ground arith in
    let blank : load_lines read_line 1 (lines []) Tenant.new ≡ ok reg =
      unfold lines load_lines in ap ok same in
    (refl, load_text _ _ (appended_loads [] reg t f g blank))
append_atomic-loads unreadable_file reg t f g e = absurd (unfold load_from_path in cc (e))
append_atomic-loads (text_file text) reg t f g e = (
  refl,
  load_text _ _ (appended_loads text reg t f g (text_load text reg (existing_text text reg e))),
)

-- Adding a tenant with `u64` fields, a fingerprint of 32 bytes and an id that the file does not
-- have is acknowledged, where the file is missing or loads and is written; the file then loads as
-- the registry of before with the new tenant, and so does the registry that submissions are
-- checked against.
pub add_tenant-loads :
    (t : TenantRecord) (s : AdminState) (reg : TenantRegistry)
    → FitsFile t
    → existing_tenants s.tenants ≡ some reg
    → get t.tenant_id reg ≡ none
    → ((add_tenant true true t s).1 ≡ admin_add_tenant_ack)
      × (load_from_path (add_tenant true true t s).0.tenants ≡ ok (insert t reg).0)
      × ((a : AuthState)
          → s.auth_state ≡ some a
          → (add_tenant true true t s).0.auth_state
            ≡ some (record a { registry = (insert t reg).0 }))
unfolding add_tenant reload_tenants_in_state
add_tenant-loads t s reg f e g =
    let (written, loads) = append_atomic-loads s.tenants reg t f g e in
    rw (e, g, written, add_tenant) (refl, loads, λ a h. rw (h, loads, reload_tenants_in_state) refl)
