-- ===== src/Protocol.antt =====
-- crates/cosaci-protocol/src/proto.rs and proto_async.rs: the messages and their frames. The CBOR
-- codec is an argument; an `i64` is its 64-bit pattern.
pub mod Frames
mod Examples
use cosaci.Prelude.{
  ℕ, zero, suc, ◌+◌, ◌*◌, ◌/◌, ◌%◌, ◌^◌, Bool, Option, none, some, List, [], ◌∷◌, ◌++◌,
  if◌then◌else◌, ltb, length, take, drop, Result, ok, err, ◌>>=◌,
}
use cosaci.Text.{codes}
use cosaci.Attestations.{Attestation}
use cosaci.Capabilities.{Capabilities, JobRequirements}
use cosaci.Retrieval.{JobBundle}
use cosaci.Jobs.{CapturedOutput, Pipeline}

pub record AttestationBundle : Type 0 where
  pub attestation : Attestation
  pub captures : List CapturedOutput

abbrev pub from_attestation : Attestation → AttestationBundle
from_attestation a = record { attestation = a; captures = [] }

abbrev pub vrf_registration_challenge : List ℕ
vrf_registration_challenge = codes "cosaci-runner-registration-v1"

pub record AdminTenantRecord : Type 0 where
  pub tenant_id : ℕ
  pub signing_fp : List ℕ
  pub rate_capacity : ℕ
  pub rate_refill_per_sec : ℕ
  pub registered_at_unix_ns : ℕ

pub record AdminAgentRecord : Type 0 where
  pub runner_id : ℕ
  pub signing_fp : List ℕ
  pub vrf_fp : List ℕ
  pub enrolled_at_unix_ns : ℕ
  pub initial_reputation_thousandths : ℕ

pub data Envelope : Type 0 where
  register :
      (runner_id : ℕ) (signing_pubkey vrf_pubkey vrf_output vrf_proof : List ℕ) (stake : ℕ)
      (capabilities : Capabilities)
      → Envelope
  vrf_claim : (job_id : ℕ) (vrf_output vrf_proof : List ℕ) → Envelope
  submit_attestation : AttestationBundle → Envelope
  register_ack : Envelope
  job_seed : (job_id : ℕ) (seed : List ℕ) → Envelope
  assign :
      (job_id : ℕ) (pipeline : Pipeline) (requirements : JobRequirements) (deadline_unix_ns : ℕ)
      → Envelope
  shutdown : Envelope
  get_job : (job_id : ℕ) → Envelope
  get_log_root : Envelope
  job_bundle_response : JobBundle Attestation → Envelope
  job_not_found : (job_id : ℕ) → Envelope
  log_root : (root : Option (List ℕ)) (length : ℕ) → Envelope
  get_captures : (job_id runner_id : ℕ) → Envelope
  captures_response : (job_id runner_id : ℕ) (captures : List CapturedOutput) → Envelope
  captures_not_found : (job_id runner_id : ℕ) → Envelope
  admin_hello : (admin_pubkey : List ℕ) (ts_unix_ns : ℕ) (signature : List ℕ) → Envelope
  admin_welcome : Envelope
  admin_error : (reason : List ℕ) → Envelope
  admin_list_agents : Envelope
  admin_agent_list : (entries : List AdminAgentRecord) → Envelope
  admin_get_log_root : Envelope
  admin_log_root : (root : Option (List ℕ)) (length : ℕ) → Envelope
  admin_enroll_agent :
      (runner_id : ℕ) (signing_fp vrf_fp : List ℕ)
      (enrolled_at_unix_ns initial_reputation_thousandths : ℕ)
      → Envelope
  admin_enroll_ack : Envelope
  admin_revoke_agent : (runner_id : ℕ) → Envelope
  admin_revoke_ack : Envelope
  admin_list_tenants : Envelope
  admin_tenant_list : (entries : List AdminTenantRecord) → Envelope
  admin_add_tenant :
      (tenant_id : ℕ) (signing_fp : List ℕ)
      (rate_capacity rate_refill_per_sec registered_at_unix_ns : ℕ)
      → Envelope
  admin_add_tenant_ack : Envelope
  admin_revoke_tenant : (tenant_id : ℕ) → Envelope
  admin_revoke_tenant_ack : Envelope

abbrev pub admin_hello_challenge : List ℕ
admin_hello_challenge = codes "cosaci-admin-hello-v1"

abbrev pub admin_hello_freshness_ns : ℕ
admin_hello_freshness_ns = 60 * 1000000000

abbrev pub max_envelope_bytes : ℕ
max_envelope_bytes = 16 * 2 ^ 20

pub data IoError : Type 0 where
  unexpected_eof : IoError
  invalid_encoding : IoError
  too_long : (declared : ℕ) → IoError

-- `n.to_be_bytes()` of `width` bytes, and back.
abbrev pub to_be_bytes : ℕ → ℕ → List ℕ
to_be_bytes zero n = []
to_be_bytes (suc width) n = n / 256 ^ width % 256 ∷ to_be_bytes width n

abbrev pub from_be_bytes : ℕ → List ℕ → ℕ
from_be_bytes n [] = n
from_be_bytes n (b ∷ bytes) = from_be_bytes (n * 256 + b) bytes

-- `r.read_exact(&mut buf)` of a buffer of `n` bytes: them and what is left.
unfoldable pub read_exact : ℕ → List ℕ → Result (List ℕ × List ℕ) IoError
read_exact n stream =
    if ltb (length stream) n then err unexpected_eof else ok (take n stream, drop n stream)

pub record Codec : Type 0 where
  pub encode : Envelope → Option (List ℕ)
  pub decode : List ℕ → Option Envelope

module _ (c : Codec) where
  -- What is written; a writer that fails is not modelled.
  unfoldable pub write_envelope : Envelope → Result (List ℕ) IoError
  write_envelope env = elim (c.encode env) [
    | none ↦ err invalid_encoding
    | some buf ↦
        if ltb max_envelope_bytes (length buf)
        then err (too_long (length buf))
        else ok (to_be_bytes 4 (length buf) ++ buf)
  ]

  -- After the length: the payload and its decoding.
  unfoldable pub read_payload : ℕ → List ℕ → Result (Envelope × List ℕ) IoError
  read_payload len stream =
      if ltb max_envelope_bytes len then err (too_long len) else elim (read_exact len stream) [
        | err e ↦ err e
        | ok (buf, rest) ↦ elim (c.decode buf) [
          | none ↦ err invalid_encoding
          | some env ↦ ok (env, rest)
        ]
      ]

  -- The envelope, and what follows it in the stream.
  unfoldable pub read_envelope : List ℕ → Result (Envelope × List ℕ) IoError
  read_envelope stream = elim (read_exact 4 stream) [
    | err e ↦ err e
    | ok (len_bytes, rest) ↦ read_payload (from_be_bytes 0 len_bytes) rest
  ]
