-- ===== src/AdminApi/Examples.antt =====
-- Runs of the admin sessions, and the theorems about them. SHA-256 is the identity here, and a
-- signature the message itself.
use Prim.Native.Nat.{zero}
use cosaci.Prelude.{
  ℕ, suc, ap, sym, ◌∙◌, ◌≡◌, refl, ◌⊎◌, true, none, some, List, [], ◌∷◌, ok, bytes_key, ◌==◌, arith,
  All, replicate,
}
use cosaci.Map.{contains_key, insert as add, get as lookup}
use cosaci.Text.{missing_file, text_file}
use cosaci.RecordFile.{appended}
use cosaci.Tenant.Fingerprints.{IsByte}
use cosaci.Submission.{Primitives}
use cosaci.Tenant.{TenantRecord, TenantRegistry, get, insert, load_from_path}
use cosaci.Tenant as Tenant
use cosaci.AdminAuth.{signed_bytes}
use cosaci.Enrollment.{malformed}
use cosaci.Protocol.{
  Envelope, admin_hello, admin_hello_challenge, admin_welcome, admin_error, admin_list_tenants,
  admin_add_tenant_ack, admin_revoke_tenant_ack,
}
use cosaci.AdminApi.{
  AdminState, append_atomic, AuthState, Coord, tenant_line, add_tenant, revoke_tenant, answer,
  handle_admin_client, existing_tenants,
}
use cosaci.AdminApi.Rows.{FitsFile}
use cosaci.AdminApi.Tenants.{add_tenant-loads}
use cosaci.AdminApi.Revoking.{IsWithout, revoke_tenant-loads}
use cosaci.AdminApi.Sessions.{IsFromAdmin, session_answered}

abbrev fp : List ℕ
fp = replicate 32 170

abbrev tenant : TenantRecord
tenant = record {
  tenant_id = 3;
  signing_fp = fp;
  rate_capacity = 10;
  rate_refill_per_sec = 2;
  registered_at_unix_ns = 5;
}

bytes-All : (n : ℕ) → All IsByte (replicate n 170)
bytes-All zero = tt
bytes-All (suc n) = (omega arith, bytes-All n)

abbrev start : AdminState
start = record { enrollment = missing_file; tenants = missing_file; auth_state = none }

tenant-FitsFile : FitsFile tenant
tenant-FitsFile = record {
  id_fits = omega arith;
  fp_size = refl;
  fp_bytes = bytes-All 32;
  capacity_fits = omega arith;
  refill_fits = omega arith;
  registered_fits = omega arith;
}

starts_empty : existing_tenants start.tenants ≡ some Tenant.new
unfolding load_from_path
starts_empty = refl

no_tenant : get 3 Tenant.new ≡ none
unfolding get lookup Tenant.new
no_tenant = refl

abbrev added : AdminState
added = (add_tenant true true tenant start).0

add_tenant-loads_example :
    ((add_tenant true true tenant start).1 ≡ admin_add_tenant_ack)
    × (load_from_path added.tenants ≡ ok (insert tenant Tenant.new).0)
    × ((a : AuthState)
        → start.auth_state ≡ some a
        → added.auth_state ≡ some (record a { registry = (insert tenant Tenant.new).0 }))
add_tenant-loads_example =
    add_tenant-loads tenant start Tenant.new tenant-FitsFile starts_empty no_tenant

abbrev text : List ℕ
text = appended [] (tenant_line tenant)

abbrev stored : AdminState
stored = record { enrollment = missing_file; tenants = text_file text; auth_state = none }

added_text : added.tenants ≡ text_file text
unfolding add_tenant append_atomic load_from_path get lookup Tenant.new
added_text = refl

stored_loads : load_from_path (text_file text) ≡ ok (insert tenant Tenant.new).0
stored_loads =
    let (acknowledged, loads, reloads) =
      add_tenant-loads tenant start Tenant.new tenant-FitsFile starts_empty no_tenant in
    ap load_from_path (sym added_text) ∙ loads

stored_tenant : get 3 (insert tenant Tenant.new).0 ≡ some tenant
unfolding get insert lookup add Tenant.new contains_key
stored_tenant = refl

revoke_tenant-loads_example :
    (kept : TenantRegistry) × ((revoke_tenant true true 3 stored).1 ≡ admin_revoke_tenant_ack)
    × (load_from_path (revoke_tenant true true 3 stored).0.tenants ≡ ok kept)
    × IsWithout 3 (insert tenant Tenant.new).0 kept
    × ((a : AuthState)
        → stored.auth_state ≡ some a
        → (revoke_tenant true true 3 stored).0.auth_state ≡ some (record a { registry = kept }))
revoke_tenant-loads_example =
    revoke_tenant-loads 3 stored text (insert tenant Tenant.new).0 tenant refl stored_loads
      stored_tenant

abbrev primitives : Primitives
primitives = record {
  sha256 = λ bytes. bytes;
  encode_job = λ payload. none;
  encode_pipeline = λ payload. none;
  verify_strict = λ pubkey. some (λ message signature. message == signature);
}

abbrev coord : Coord
coord = record {
  primitives = primitives;
  admin_keys = record {
    by_fp = (7 ∷ [], record { admin_id = 3; signing_fp = 7 ∷ []; enrolled_at_unix_ns = 0 }) ∷ [];
  };
  tenants_configured = true;
  read_f32 = λ text. malformed;
  print_f32 = λ thousandths. [];
  log_root = none;
  log_len = 0;
}

abbrev hello : Envelope
hello = admin_hello (7 ∷ []) 5 (signed_bytes admin_hello_challenge 5)

session_answered_example :
    (IsFromAdmin coord 5 hello
      × (handle_admin_client coord 5 true (some hello) (some admin_list_tenants) start ≡ (
        (answer coord true admin_list_tenants start).0,
        admin_welcome ∷ (answer coord true admin_list_tenants start).1 ∷ [],
      )))
    ⊎ ((¬ IsFromAdmin coord 5 hello)
        × ((e : List ℕ) × (handle_admin_client coord 5 true
                (some hello)
                (some admin_list_tenants)
                start
              ≡ (start, admin_error e ∷ []))))
session_answered_example = session_answered coord 5 true hello admin_list_tenants start
