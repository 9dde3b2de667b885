-- ===== src/Submission.antt =====
-- crates/cosaci-state/src/submission_auth.rs: the gate of a job submission. The cryptography and the
-- CBOR encoder are arguments.
pub mod Verdict
pub mod Histories
pub mod Once
mod Examples
use Prim.Native.String.{String}
use cosaci.Prelude.{
  ℕ, zero, suc, ◌+◌, ◌*◌, ◌/◌, ◌%◌, Bool, true, false, not, Option, none, some, List, [], ◌∷◌, ◌++◌,
  if◌then◌else◌, Result, ok, err, Key, ◌==◌, bytes_key,
}
use cosaci.Replay.{ReplayGuard, accept}
use cosaci.RateLimit.{RateLimiter, accept_with_config}
use cosaci.Tenant.{TenantRecord, TenantRegistry, get, fingerprint}

-- An `i32` is its 32-bit pattern.
pub record JobSubmissionPayload : Type 0 where
  pub tenant_id : ℕ
  pub kind : String
  pub a : ℕ
  pub b : ℕ
  pub deadline_secs : ℕ
  pub nonce : ℕ

pub record PipelineSubmissionPayload : Type 0 where
  pub tenant_id : ℕ
  pub pipeline_cbor : List ℕ
  pub deadline_secs : ℕ
  pub nonce : ℕ

-- What the gate calls of other crates: SHA-256, the encoder, and the strict ed25519 check under
-- the bytes of a public key, which is `none` if they are not those of a key.
pub record Primitives : Type 0 where
  pub sha256 : List ℕ → List ℕ
  pub encode_job : JobSubmissionPayload → Option (List ℕ)
  pub encode_pipeline : PipelineSubmissionPayload → Option (List ℕ)
  pub verify_strict : List ℕ → Option (List ℕ → List ℕ → Bool)

pub data AuthCheck : Type 0 where
  admitted unknown_tenant bad_signature rate_limited replay_detected : AuthCheck

-- `n.to_le_bytes()` of a number of `width` bytes, and `u64::from_le_bytes`.
abbrev pub to_le_bytes : ℕ → ℕ → List ℕ
to_le_bytes zero n = []
to_le_bytes (suc width) n = n % 256 ∷ to_le_bytes width (n / 256)

abbrev pub from_le_bytes : ℕ → List ℕ → ℕ
from_le_bytes zero bytes = 0
from_le_bytes (suc width) [] = 0
from_le_bytes (suc width) (byte ∷ bytes) = byte + 256 * from_le_bytes width bytes

abbrev pub fold_replay_key : (List ℕ → List ℕ) → ℕ → ℕ → ℕ
fold_replay_key sha256 tenant_id nonce =
    from_le_bytes 8 (sha256 (to_le_bytes 8 tenant_id ++ to_le_bytes 16 nonce))

-- The parsed key and `signing::verify`.
abbrev pub verifies : Primitives → List ℕ → List ℕ → List ℕ → Bool
verifies p pubkey signature bytes = elim (p.verify_strict pubkey) [
  | none ↦ false
  | some check ↦ check bytes signature
]

-- Stages 1 and 2 of the gate: the tenant, or the verdict.
abbrev pub authenticate :
    Primitives
    → TenantRegistry
    → ℕ
    → Option (List ℕ)
    → List ℕ
    → List ℕ
    → Result TenantRecord AuthCheck
authenticate p registry tenant_id encoded pubkey signature = elim (get tenant_id registry) [
  | none ↦ err unknown_tenant
  | some tenant ↦
      if not (fingerprint p.sha256 pubkey == tenant.signing_fp)
      then err bad_signature
      else elim encoded [
        | none ↦ err bad_signature
        | some bytes ↦ if verifies p pubkey signature bytes then ok tenant else err bad_signature
      ]
]

-- The objects that the gate changes.
pub record Gate : Type 0 where
  pub rate_limiter : RateLimiter
  pub replay_guard : ReplayGuard

-- The readings of the clocks: `now_ns` by the caller, two by the guard, one by the limiter.
pub record Times : Type 0 where
  pub now_ns : ℕ
  pub guard_sweeps : ℕ
  pub guard_accepts : ℕ
  pub limiter : ℕ

-- Stages 3 and 4.
unfoldable pub admit : Primitives → ℕ → ℕ → TenantRecord → Times → Gate → Gate × AuthCheck
admit p tenant_id nonce tenant at g =
    let key = fold_replay_key p.sha256 tenant_id nonce in
    let (guard, seen) = accept key at.now_ns at.guard_sweeps at.guard_accepts g.replay_guard in
    let (limiter, allowed) =
      accept_with_config tenant_id 1 tenant.rate_capacity tenant.rate_refill_per_sec at.limiter
        g.rate_limiter in
    elim seen [
      | err _ ↦ (record g { replay_guard = guard }, replay_detected)
      | ok _ ↦ (
        record { rate_limiter = limiter; replay_guard = guard },
        if allowed then admitted else rate_limited,
      )
    ]

unfoldable pub run_gate :
    Primitives
    → TenantRegistry
    → ℕ
    → ℕ
    → Option (List ℕ)
    → List ℕ
    → List ℕ
    → Times
    → Gate
    → Gate × AuthCheck
run_gate p registry tenant_id nonce encoded pubkey signature at g =
    elim (authenticate p registry tenant_id encoded pubkey signature) [
      | err verdict ↦ (g, verdict)
      | ok tenant ↦ admit p tenant_id nonce tenant at g
    ]

unfoldable pub verify_and_admit :
    Primitives
    → TenantRegistry
    → JobSubmissionPayload
    → List ℕ
    → List ℕ
    → Times
    → Gate
    → Gate × AuthCheck
verify_and_admit p registry payload pubkey signature =
    run_gate p registry payload.tenant_id payload.nonce (p.encode_job payload) pubkey signature

unfoldable pub verify_and_admit_pipeline :
    Primitives
    → TenantRegistry
    → PipelineSubmissionPayload
    → List ℕ
    → List ℕ
    → Times
    → Gate
    → Gate × AuthCheck
verify_and_admit_pipeline p registry payload pubkey signature =
    run_gate p registry payload.tenant_id payload.nonce (p.encode_pipeline payload) pubkey signature
