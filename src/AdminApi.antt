-- ===== src/AdminApi.antt =====
-- bins/cosaci-coordinator/src/main.rs: the admin sessions of the coordinator, which rewrite the
-- files of tenants and runners. A session's writes to its peer succeed; in the text of a refusal
-- the description of an input-output error is left out.
pub mod Rows
pub mod Tenants
pub mod Revoking
pub mod Sessions
mod Examples
use cosaci.Prelude.{
  ℕ, min, Bool, true, false, not, ◌&&◌, Option, none, some, List, [], ◌∷◌, ◌++◌, if◌then◌else◌, leb,
  map, Result, ok, err,
}
use cosaci.Map.{Map}
use cosaci.Text.{
  File, missing_file, unreadable_file, text_file, codes, lines, decimal, decimal_i64, is_empty,
}
use cosaci.Sorting.{sort}
use cosaci.RecordFile.{appended, revoke_lines}
use cosaci.Replay.{ReplayGuard}
use cosaci.RateLimit.{RateLimiter}
use cosaci.Tenant.{TenantRecord, TenantRegistry}
use cosaci.Tenant as Tenant
use cosaci.Enrollment.{EnrolledRecord, EnrollmentSet, Reputation}
use cosaci.Enrollment as Enrollment
use cosaci.Submission.{Primitives}
use cosaci.AdminAuth.{AdminKeySet, AdminAuthCheck, authorized, unauthorized, verify_admin_hello}
use cosaci.Protocol.{
  Envelope, AdminTenantRecord, AdminAgentRecord, admin_hello, admin_welcome, admin_error,
  admin_list_agents, admin_agent_list, admin_get_log_root, admin_log_root, admin_enroll_agent,
  admin_enroll_ack, admin_revoke_agent, admin_revoke_ack, admin_list_tenants, admin_tenant_list,
  admin_add_tenant, admin_add_tenant_ack, admin_revoke_tenant, admin_revoke_tenant_ack,
  admin_hello_challenge, admin_hello_freshness_ns,
}

pub record AuthState : Type 0 where
  pub registry : TenantRegistry
  pub limiter : RateLimiter
  pub replay : ReplayGuard

-- The two files, and what the reader of submissions consults.
pub record AdminState : Type 0 where
  pub enrollment : File
  pub tenants : File
  pub auth_state : Option AuthState

-- `write_atomic`: the file is replaced as a whole, or stays.
abbrev pub write_atomic : Bool → File → List ℕ → File × Bool
write_atomic writes file content = if writes then (text_file content, true) else (file, false)

unfoldable pub append_atomic : Bool → File → List ℕ → File × Bool
append_atomic writes missing_file line = write_atomic writes missing_file (appended [] line)
append_atomic writes unreadable_file line = (unreadable_file, false)
append_atomic writes (text_file text) line =
    write_atomic writes (text_file text) (appended text line)

-- `reload_tenants_in_state`
unfoldable pub reload_tenants_in_state : File → Option AuthState → Option AuthState × Bool
reload_tenants_in_state file none = (none, false)
reload_tenants_in_state file (some state) = elim (Tenant.load_from_path file) [
  | ok registry ↦ (some (record state { registry = registry }), true)
  | err _ ↦ (some state, false)
]

abbrev pub not_configured : List ℕ
not_configured = codes "tenants registry not configured (--tenants is empty)"

abbrev pub with_words : List ℕ → ℕ → List ℕ → Envelope
with_words front id back = admin_error (front ++ (decimal id ++ back))

-- The line of a tenant.
unfoldable pub tenant_line : TenantRecord → List ℕ
tenant_line t =
    decimal t.tenant_id
    ++ (32 ∷ Tenant.fingerprint_hex t.signing_fp
        ++ (32 ∷ decimal t.rate_capacity
            ++ (32 ∷ decimal t.rate_refill_per_sec ++ (32 ∷ decimal t.registered_at_unix_ns))))

-- The registry that a new tenant is checked against: a missing file is an empty one.
abbrev pub existing_tenants : File → Option TenantRegistry
existing_tenants file = elim (Tenant.load_from_path file) [
  | ok registry ↦ some registry
  | err Tenant.LoadError.not_found ↦ some Tenant.new
  | err _ ↦ none
]

module _ (tenants_configured writes : Bool) where
  unfoldable pub add_tenant : TenantRecord → AdminState → AdminState × Envelope
  add_tenant t s =
      if not tenants_configured
      then (s, admin_error not_configured)
      else elim (existing_tenants s.tenants) [
        | none ↦ (s, admin_error (codes "load tenants"))
        | some existing ↦ elim (Tenant.get t.tenant_id existing) [
          | some _ ↦ (s, with_words (codes "tenant_id ") t.tenant_id (codes " already registered"))
          | none ↦
              let (file, written) = append_atomic writes s.tenants (tenant_line t) in
              if not written then (s, admin_error (codes "write tenants")) else (
                record s {
                  tenants = file;
                  auth_state = (reload_tenants_in_state file s.auth_state).0;
                },
                admin_add_tenant_ack,
              )
        ]
      ]

  unfoldable pub revoke_tenant : ℕ → AdminState → AdminState × Envelope
  revoke_tenant tenant_id s =
      if not tenants_configured then (s, admin_error not_configured) else elim s.tenants [
        | text_file original ↦
            let (found, out) = revoke_lines tenant_id (lines original) in
            if not found
            then (s, with_words (codes "tenant_id ") tenant_id (codes " not registered"))
            else let (file, written) = write_atomic writes s.tenants out in
              if not written then (s, admin_error (codes "write tenants")) else (
                record s {
                  tenants = file;
                  auth_state = (reload_tenants_in_state file s.auth_state).0;
                },
                admin_revoke_tenant_ack,
              )
        | _ ↦ (s, admin_error (codes "read tenants"))
      ]

  abbrev pub tenant_row : ℕ × TenantRecord → AdminTenantRecord
  tenant_row (id, t) = record {
    tenant_id = t.tenant_id;
    signing_fp = t.signing_fp;
    rate_capacity = t.rate_capacity;
    rate_refill_per_sec = t.rate_refill_per_sec;
    registered_at_unix_ns = t.registered_at_unix_ns;
  }

  abbrev pub tenant_leb : AdminTenantRecord → AdminTenantRecord → Bool
  tenant_leb a b = leb a.tenant_id b.tenant_id

  unfoldable pub list_tenants : AdminState → Envelope
  list_tenants s =
      if not tenants_configured
      then admin_error not_configured
      else elim (Tenant.load_from_path s.tenants) [
        | ok registry ↦ admin_tenant_list (sort tenant_leb (map tenant_row registry.by_id))
        | err _ ↦ admin_error (codes "load tenants")
      ]

-- `f32`: what is read of a text, and the text of so many thousandths.
module _ (read_f32 : List ℕ → Reputation) (print_f32 : ℕ → List ℕ) (writes : Bool) where
  unfoldable pub agent_line : EnrolledRecord → List ℕ
  agent_line r =
      decimal r.runner_id
      ++ (32 ∷ Enrollment.fingerprint_hex r.signing_fp
          ++ (32 ∷ Enrollment.fingerprint_hex r.vrf_fp
              ++ (32 ∷ decimal_i64 r.enrolled_at_unix_ns
                  ++ (32 ∷ print_f32 (min r.initial_reputation_milli 1000)))))

  unfoldable pub enroll_agent : EnrolledRecord → AdminState → AdminState × Envelope
  enroll_agent r s = elim (Enrollment.load_from_path read_f32 s.enrollment) [
    | err _ ↦ (s, admin_error (codes "load enrollment"))
    | ok existing ↦ elim (Enrollment.get r.runner_id existing) [
      | some _ ↦ (s, with_words (codes "runner_id ") r.runner_id (codes " already enrolled"))
      | none ↦
          let (file, written) = append_atomic writes s.enrollment (agent_line r) in
          if not written
          then (s, admin_error (codes "write enrollment"))
          else (record s { enrollment = file }, admin_enroll_ack)
    ]
  ]

  unfoldable pub revoke_agent : ℕ → AdminState → AdminState × Envelope
  revoke_agent runner_id s = elim s.enrollment [
    | text_file original ↦
        let (found, out) = revoke_lines runner_id (lines original) in
        if not found
        then (s, with_words (codes "runner_id ") runner_id (codes " not enrolled"))
        else let (file, written) = write_atomic writes s.enrollment out in
          if not written
          then (s, admin_error (codes "write enrollment"))
          else (record s { enrollment = file }, admin_revoke_ack)
    | _ ↦ (s, admin_error (codes "read enrollment"))
  ]

  abbrev pub agent_row : ℕ × EnrolledRecord → AdminAgentRecord
  agent_row (id, r) = record {
    runner_id = r.runner_id;
    signing_fp = r.signing_fp;
    vrf_fp = r.vrf_fp;
    enrolled_at_unix_ns = r.enrolled_at_unix_ns;
    initial_reputation_thousandths = min r.initial_reputation_milli 1000;
  }

  abbrev pub agent_leb : AdminAgentRecord → AdminAgentRecord → Bool
  agent_leb a b = leb a.runner_id b.runner_id

  unfoldable pub list_agents : AdminState → Envelope
  list_agents s = elim (Enrollment.load_from_path read_f32 s.enrollment) [
    | ok set ↦ admin_agent_list (sort agent_leb (map agent_row set.records))
    | err _ ↦ admin_error (codes "enrollment file")
  ]

-- What a coordinator is started with, and the log that it anchors to.
pub record Coord : Type 0 where
  pub primitives : Primitives
  pub admin_keys : AdminKeySet
  pub tenants_configured : Bool
  pub read_f32 : List ℕ → Reputation
  pub print_f32 : ℕ → List ℕ
  pub log_root : Option (List ℕ)
  pub log_len : ℕ

-- The match on the request of an authorized session.
unfoldable pub answer : Coord → Bool → Envelope → AdminState → AdminState × Envelope
answer c writes admin_list_agents s = (s, list_agents c.read_f32 c.print_f32 writes s)
answer c writes admin_get_log_root s = (s, admin_log_root c.log_root c.log_len)
answer c writes (admin_enroll_agent runner_id signing_fp vrf_fp at thousandths) s =
    enroll_agent c.read_f32 c.print_f32 writes
      (record {
        runner_id = runner_id;
        signing_fp = signing_fp;
        vrf_fp = vrf_fp;
        enrolled_at_unix_ns = at;
        initial_reputation_milli = thousandths;
      })
      s
answer c writes (admin_revoke_agent runner_id) s =
    revoke_agent c.read_f32 c.print_f32 writes runner_id s
answer c writes admin_list_tenants s = (s, list_tenants c.tenants_configured writes s)
answer c writes (admin_add_tenant tenant_id signing_fp capacity refill at) s =
    add_tenant c.tenants_configured writes
      (record {
        tenant_id = tenant_id;
        signing_fp = signing_fp;
        rate_capacity = capacity;
        rate_refill_per_sec = refill;
        registered_at_unix_ns = at;
      })
      s
answer c writes (admin_revoke_tenant tenant_id) s =
    revoke_tenant c.tenants_configured writes tenant_id s
answer c writes _ s = (s, admin_error (codes "unsupported admin operation"))

-- `handle_admin_client`: the hello and the request, as they are read, and the clock; the replies.
unfoldable pub handle_admin_client :
    Coord → ℕ → Bool → Option Envelope → Option Envelope → AdminState → AdminState × List Envelope
handle_admin_client c now writes none request s = (s, [])
handle_admin_client c now writes (some (admin_hello admin_pubkey ts_unix_ns signature)) request s =
    elim (verify_admin_hello c.primitives c.admin_keys admin_pubkey ts_unix_ns signature
      admin_hello_challenge admin_hello_freshness_ns now) [
        | unauthorized ↦ (s, admin_error (codes "unauthorized") ∷ [])
        | authorized admin_id ↦ elim request [
          | none ↦ (s, admin_welcome ∷ [])
          | some req ↦ let (next, resp) = answer c writes req s in (next, admin_welcome ∷ resp ∷ [])
        ]
      ]
handle_admin_client c now writes (some _) request s =
    (s, admin_error (codes "expected AdminHello") ∷ [])
