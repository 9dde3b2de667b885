-- ===== src/Intake.antt =====
-- bins/cosaci-coordinator/src/main.rs: the submissions that are read from standard input, gated and
-- queued. JSON and CBOR are arguments. A `sync_channel` of at least one place is its queue.
pub mod Gated
pub mod Queue
mod Examples
use Prim.Native.String.{String}
use cosaci.Prelude.{
  ℕ, ◌+◌, ◌-◌, ◌*◌, ◌%◌, Bool, true, false, not, ◌&&◌, ◌||◌, Option, none, some, List, [], ◌∷◌,
  ◌++◌, if◌then◌else◌, ltb, leb, nat_beq, length,
}
use cosaci.Text.{trim, is_empty}
use cosaci.RecordFile.{is_skipped}
use cosaci.NetworkPolicy.{deny_all}
use cosaci.Replay.{ReplayGuard}
use cosaci.RateLimit.{RateLimiter}
use cosaci.Tenant.{TenantRegistry, parse_hex32}
use cosaci.Submission.{
  JobSubmissionPayload, PipelineSubmissionPayload, Primitives, AuthCheck, admitted, bad_signature,
  Gate, Times, verify_and_admit, verify_and_admit_pipeline,
}
use cosaci.Jobs.{Limits, Step, exec_wasm, Pipeline}
use cosaci.AdminApi.{AuthState}

pub data JobKind : Type 0 where
  add mul : JobKind

abbrev pub as_wire : JobKind → String
as_wire add = "add"
as_wire mul = "mul"

abbrev pub default_deadline_secs : ℕ
default_deadline_secs = 60

-- An `i32` is its 32-bit pattern.
pub record LegacyJobSubmission : Type 0 where
  pub kind : JobKind
  pub a : ℕ
  pub b : ℕ
  pub deadline_secs : ℕ
  pub tenant_id : Option ℕ
  pub nonce : Option ℕ
  pub pubkey_hex : Option (List ℕ)
  pub signature_hex : Option (List ℕ)

pub record PipelineJobSubmission : Type 0 where
  pub pipeline_cbor_hex : List ℕ
  pub deadline_secs : ℕ
  pub tenant_id : Option ℕ
  pub nonce : Option ℕ
  pub pubkey_hex : Option (List ℕ)
  pub signature_hex : Option (List ℕ)

pub data JobSubmission : Type 0 where
  legacy : LegacyJobSubmission → JobSubmission
  pipeline_shaped : PipelineJobSubmission → JobSubmission

pub data SubmissionOrigin : Type 0 where
  from_legacy from_pipeline : SubmissionOrigin

pub record RunSubmission : Type 0 where
  pub pipeline : Pipeline
  pub deadline_secs : ℕ
  pub origin : SubmissionOrigin

-- serde_json and ciborium: whether the value of a text has a field, the two readers of a text, the
-- decoder of a pipeline, and the encoder of two numbers, which does not fail.
pub record Formats : Type 0 where
  pub has_field : List ℕ → String → Option Bool
  pub read_pipeline : List ℕ → Option PipelineJobSubmission
  pub read_legacy : List ℕ → Option LegacyJobSubmission
  pub decode_pipeline : List ℕ → Option Pipeline
  pub encode_args : ℕ → ℕ → List ℕ

abbrev pub as_pipeline : Option PipelineJobSubmission → Option JobSubmission
as_pipeline none = none
as_pipeline (some p) = some (pipeline_shaped p)

abbrev pub as_legacy : Option LegacyJobSubmission → Option JobSubmission
as_legacy none = none
as_legacy (some l) = some (legacy l)

unfoldable pub parse_submission_line : Formats → List ℕ → Option JobSubmission
parse_submission_line f line = elim (f.has_field line "pipeline_cbor_hex") [
  | none ↦ none
  | some true ↦ as_pipeline (f.read_pipeline line)
  | some false ↦ as_legacy (f.read_legacy line)
]

unfoldable pub hex_nibble : ℕ → Option ℕ
hex_nibble b =
    if leb 48 b && leb b 57
    then some (b - 48)
    else if leb 97 b && leb b 102
    then some (b - 97 + 10)
    else none

-- The loop over the pairs of bytes.
unfoldable pub parse_pairs : List ℕ → Option (List ℕ)
parse_pairs [] = some []
parse_pairs (b ∷ []) = some []
parse_pairs (b ∷ c ∷ text) =
    let rest = parse_pairs text in
    elim (hex_nibble b) [
      | none ↦ none
      | some hi ↦ elim (hex_nibble c) [
        | none ↦ none
        | some lo ↦ elim rest [ none ↦ none | some out ↦ some ((hi * 16 + lo) ∷ out) ]
      ]
    ]

unfoldable pub parse_hex_bytes : List ℕ → Option (List ℕ)
parse_hex_bytes text = if not (nat_beq (length text % 2) 0) then none else parse_pairs text

unfoldable pub parse_hex64 : List ℕ → Option (List ℕ)
parse_hex64 text = if not (nat_beq (length text) 128) then none else parse_pairs text

-- The fields that a signed submission has, as the bytes that they stand for.
pub record Signed : Type 0 where
  pub tenant : ℕ
  pub nonce : ℕ
  pub pubkey : List ℕ
  pub signature : List ℕ

-- The four `let ... else` of the two checks.
unfoldable pub signed_fields :
    Option ℕ → Option ℕ → Option (List ℕ) → Option (List ℕ) → Option Signed
signed_fields (some tenant_id) (some nonce) (some pubkey_hex) (some signature_hex) =
    elim (parse_hex32 pubkey_hex) [
      | none ↦ none
      | some pubkey ↦ elim (parse_hex64 signature_hex) [
        | none ↦ none
        | some signature ↦
            some
              record { tenant = tenant_id; nonce = nonce; pubkey = pubkey; signature = signature }
      ]
    ]
signed_fields _ _ _ _ = none

abbrev pub legacy_payload : LegacyJobSubmission → Signed → JobSubmissionPayload
legacy_payload l s = record {
  tenant_id = s.tenant;
  kind = as_wire l.kind;
  a = l.a;
  b = l.b;
  deadline_secs = l.deadline_secs;
  nonce = s.nonce;
}

abbrev pub pipeline_payload : PipelineJobSubmission → Signed → List ℕ → PipelineSubmissionPayload
pipeline_payload sub s cbor = record {
  tenant_id = s.tenant;
  pipeline_cbor = cbor;
  deadline_secs = sub.deadline_secs;
  nonce = s.nonce;
}

module _ (p : Primitives) (registry : TenantRegistry) (at : Times) where
  unfoldable pub check_legacy : LegacyJobSubmission → Gate → Gate × AuthCheck
  check_legacy l g = elim (signed_fields l.tenant_id l.nonce l.pubkey_hex l.signature_hex) [
    | none ↦ (g, bad_signature)
    | some s ↦ verify_and_admit p registry (legacy_payload l s) s.pubkey s.signature at g
  ]

  unfoldable pub check_pipeline : PipelineJobSubmission → Gate → Gate × AuthCheck
  check_pipeline sub g =
      elim (signed_fields sub.tenant_id sub.nonce sub.pubkey_hex sub.signature_hex) [
        | none ↦ (g, bad_signature)
        | some s ↦ elim (parse_hex_bytes sub.pipeline_cbor_hex) [
          | none ↦ (g, bad_signature)
          | some cbor ↦
              verify_and_admit_pipeline p registry (pipeline_payload sub s cbor) s.pubkey
                s.signature at g
        ]
      ]

  unfoldable pub check_submission : JobSubmission → Gate → Gate × AuthCheck
  check_submission (legacy l) g = check_legacy l g
  check_submission (pipeline_shaped sub) g = check_pipeline sub g

-- `Limits::default()`
abbrev pub default_limits : Limits
default_limits = record { cpu_seconds = 0; memory_mb = 0; wall_seconds = 0; network = deny_all }

-- The two modules that a legacy job can run.
pub record Canned : Type 0 where
  pub add_wasm : List ℕ
  pub mul_wasm : List ℕ

abbrev pub module_of : Canned → JobKind → List ℕ
module_of canned add = canned.add_wasm
module_of canned mul = canned.mul_wasm

-- `let run_sub = match sub`
unfoldable pub resolve : Formats → Canned → JobSubmission → Option RunSubmission
resolve f canned (legacy l) = some record {
  pipeline = record {
    steps = exec_wasm (module_of canned l.kind) (f.encode_args l.a l.b) default_limits ∷ [];
  };
  deadline_secs = l.deadline_secs;
  origin = from_legacy;
}
resolve f canned (pipeline_shaped sub) = elim (parse_hex_bytes sub.pipeline_cbor_hex) [
  | none ↦ none
  | some cbor ↦ elim (f.decode_pipeline cbor) [
    | none ↦ none
    | some pipeline ↦
        some
          record { pipeline = pipeline; deadline_secs = sub.deadline_secs; origin = from_pipeline }
  ]
]

-- The reader's thread, the channel, and its receiver.
pub record Intake : Type 0 where
  pub auth_state : Option AuthState
  pub queue : List RunSubmission
  pub reading : Bool
  pub receiving : Bool

-- `tx.try_send(run_sub)`
unfoldable pub try_send : ℕ → RunSubmission → Intake → Intake
try_send queue_cap run_sub s =
    if not s.receiving
    then record s { reading = false }
    else if ltb (length s.queue) queue_cap
    then record s { queue = s.queue ++ (run_sub ∷ []) }
    else s

abbrev pub gate_of : AuthState → Gate
gate_of a = record { rate_limiter = a.limiter; replay_guard = a.replay }

abbrev pub with_gate : Gate → AuthState → AuthState
with_gate g a = record a { limiter = g.rate_limiter; replay = g.replay_guard }

module _ (p : Primitives) (f : Formats) (canned : Canned) (queue_cap : ℕ) where
  -- A submission that the gate lets through, or for which there is no gate.
  unfoldable pub enqueue : JobSubmission → Intake → Intake
  enqueue sub s = elim (resolve f canned sub) [
    | none ↦ s
    | some run_sub ↦ try_send queue_cap run_sub s
  ]

  unfoldable pub admit_line : Times → JobSubmission → Intake → Intake
  admit_line at sub s = elim s.auth_state [
    | none ↦ enqueue sub s
    | some a ↦
        let (g, verdict) = check_submission p a.registry at sub (gate_of a) in
        let checked = record s { auth_state = some (with_gate g a) } in
        elim verdict [ admitted ↦ enqueue sub checked | _ ↦ checked ]
  ]

  -- The body of the loop of the reader; a line that cannot be read ends it.
  unfoldable pub read_line : Times → Option (List ℕ) → Intake → Intake
  read_line at none s = record s { reading = false }
  read_line at (some line) s =
      if not s.reading
      then s
      else if is_skipped (trim line)
      then s
      else elim (parse_submission_line f (trim line)) [ none ↦ s | some sub ↦ admit_line at sub s ]
