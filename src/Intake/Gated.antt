-- ===== src/Intake/Gated.antt =====
-- The reader of submissions: what is queued was signed by a tenant and passed its gate.
use cosaci.Prelude.{
  ℕ, ◌≡◌, ◌≢◌, refl, sym, subst, ◌⊎◌, inl, inr, ◌<◌, Option, none, some, List, [], ◌∷◌, ◌++◌, arith,
  length, ltb, Option-cases, Bool-cases,
}
use cosaci.RecordFile.{is_skipped}
use cosaci.Text.{trim}
use cosaci.Tenant.{TenantRecord, TenantRegistry}
use cosaci.Submission.{
  Primitives, AuthCheck, admitted, unknown_tenant, bad_signature, rate_limited, replay_detected,
  Gate, Times, run_gate, verify_and_admit, verify_and_admit_pipeline,
}
use cosaci.Submission.Verdict.{IsAuthentic, authenticate_iff, authenticate-cases}
use cosaci.Jobs.{Pipeline, exec_wasm}
use cosaci.AdminApi.{AuthState}
use cosaci.Intake.{
  LegacyJobSubmission, PipelineJobSubmission, JobSubmission, legacy, pipeline_shaped, RunSubmission,
  Formats, Canned, Signed, Intake, signed_fields, legacy_payload, pipeline_payload, check_legacy,
  check_pipeline, check_submission, resolve, try_send, enqueue, admit_line, read_line,
  parse_submission_line, parse_hex_bytes, module_of, default_limits, gate_of, with_gate,
  from_legacy, from_pipeline,
}

abbrev pub legacy_run : Formats → Canned → LegacyJobSubmission → RunSubmission
legacy_run f canned l = record {
  pipeline = record {
    steps = exec_wasm (module_of canned l.kind) (f.encode_args l.a l.b) default_limits ∷ [];
  };
  deadline_secs = l.deadline_secs;
  origin = from_legacy;
}

abbrev pub decoded_run : PipelineJobSubmission → Pipeline → RunSubmission
decoded_run sub pipeline = record {
  pipeline = pipeline;
  deadline_secs = sub.deadline_secs;
  origin = from_pipeline;
}

module _ (p : Primitives) (f : Formats) (canned : Canned) where
  -- A registered tenant has signed the job that is run: the kind, the numbers and the deadline of a
  -- legacy job, or the bytes that the pipeline is decoded from.
  pub data IsVouched (registry : TenantRegistry) : RunSubmission → Type 0 where
    vouched_legacy :
        (l : LegacyJobSubmission) (s : Signed) (tenant : TenantRecord)
        → IsAuthentic p registry s.tenant
            (p.encode_job (legacy_payload l s))
            s.pubkey
            s.signature
            tenant
        → IsVouched registry (legacy_run f canned l)
    vouched_pipeline :
        (sub : PipelineJobSubmission) (s : Signed) (cbor : List ℕ) (pipeline : Pipeline)
        (tenant : TenantRecord)
        → IsAuthentic p registry s.tenant
            (p.encode_pipeline (pipeline_payload sub s cbor))
            s.pubkey
            s.signature
            tenant
        → f.decode_pipeline cbor ≡ some pipeline
        → IsVouched registry (decoded_run sub pipeline)

run_gate-IsAuthentic :
    (p : Primitives) (registry : TenantRegistry) (tenant_id nonce : ℕ) (encoded : Option (List ℕ))
    (pubkey signature : List ℕ) (at : Times) (g : Gate)
    → (run_gate p registry tenant_id nonce encoded pubkey signature at g).1 ≡ admitted
    → (tenant : TenantRecord) × IsAuthentic p registry tenant_id encoded pubkey signature tenant
unfolding run_gate
run_gate-IsAuthentic p registry tenant_id nonce encoded pubkey signature at g h =
    elim (authenticate-cases p registry tenant_id encoded pubkey signature) [
      | inl (tenant, e) ↦
          (tenant, (authenticate_iff p registry tenant_id encoded pubkey signature tenant).0 e)
      | inr (verdict, e, inl u) ↦ absurd (ground arith)
      | inr (verdict, e, inr u) ↦ absurd (ground arith)
    ]

module _ (p : Primitives) (f : Formats) (canned : Canned) (registry : TenantRegistry)
    (at : Times) where
  legacy-IsVouched :
      (l : LegacyJobSubmission) (g : Gate) (r : RunSubmission)
      → (check_legacy p registry at l g).1 ≡ admitted
      → resolve f canned (legacy l) ≡ some r
      → IsVouched p f canned registry r
  unfolding check_legacy resolve verify_and_admit
  legacy-IsVouched l g r h e =
      elim (Option-cases (signed_fields l.tenant_id l.nonce l.pubkey_hex l.signature_hex)) [
        | inl n ↦ absurd (ground arith)
        | inr (s, n) ↦
            let passed : (run_gate p registry s.tenant s.nonce (p.encode_job (legacy_payload l s))
                  s.pubkey s.signature at g).1
                ≡ admitted =
              ground arith in
            let (tenant, authentic) =
              run_gate-IsAuthentic p registry s.tenant s.nonce _ s.pubkey s.signature at g passed in
            let same : legacy_run f canned l ≡ r = ground arith in
            subst (IsVouched p f canned registry) same (vouched_legacy l s tenant authentic)
      ]

  pipeline-IsVouched :
      (sub : PipelineJobSubmission) (g : Gate) (r : RunSubmission)
      → (check_pipeline p registry at sub g).1 ≡ admitted
      → resolve f canned (pipeline_shaped sub) ≡ some r
      → IsVouched p f canned registry r
  unfolding check_pipeline resolve verify_and_admit_pipeline
  pipeline-IsVouched sub g r h e =
      elim (Option-cases (signed_fields sub.tenant_id sub.nonce sub.pubkey_hex sub.signature_hex)) [
        | inl n ↦ absurd (ground arith)
        | inr (s, n) ↦ elim (Option-cases (parse_hex_bytes sub.pipeline_cbor_hex)) [
          | inl c ↦ absurd (ground arith)
          | inr (cbor, c) ↦ elim (Option-cases (f.decode_pipeline cbor)) [
            | inl d ↦ absurd (ground arith)
            | inr (pipeline, d) ↦
                let passed : (run_gate p registry s.tenant s.nonce
                      (p.encode_pipeline (pipeline_payload sub s cbor)) s.pubkey s.signature at g).1
                    ≡ admitted =
                  ground arith in
                let (tenant, authentic) =
                  run_gate-IsAuthentic p registry s.tenant s.nonce _ s.pubkey s.signature at g
                    passed in
                let same : decoded_run sub pipeline ≡ r = ground arith in
                subst (IsVouched p f canned registry) same
                  (vouched_pipeline sub s cbor pipeline tenant authentic d)
          ]
        ]
      ]

  submission-IsVouched :
      (sub : JobSubmission) (g : Gate) (r : RunSubmission)
      → (check_submission p registry at sub g).1 ≡ admitted
      → resolve f canned sub ≡ some r
      → IsVouched p f canned registry r
  unfolding check_submission
  submission-IsVouched (legacy l) g r h e = legacy-IsVouched l g r h e
  submission-IsVouched (pipeline_shaped sub) g r h e = pipeline-IsVouched sub g r h e

-- The queue stays as it is, or one submission is added into a free place, and it is vouched for.
pub data Queues (queue_cap : ℕ) (P : RunSubmission → Type 0) (before after : List RunSubmission)
    : Type 0 where
  as_before : after ≡ before → Queues queue_cap P before after
  one_more :
      (r : RunSubmission)
      → P r
      → length before < queue_cap
      → after ≡ before ++ (r ∷ [])
      → Queues queue_cap P before after

module _ (p : Primitives) (f : Formats) (canned : Canned) (queue_cap : ℕ) where
  enqueue-Queues :
      (P : RunSubmission → Type 0) (sub : JobSubmission) (s : Intake)
      → ((r : RunSubmission) → resolve f canned sub ≡ some r → P r)
      → Queues queue_cap P s.queue (enqueue p f canned queue_cap sub s).queue
  unfolding enqueue try_send
  enqueue-Queues P sub s h = elim (Option-cases (resolve f canned sub)) [
    | inl e ↦ as_before (ground arith)
    | inr (r, e) ↦ elim (Bool-cases s.receiving) [
      | inr gone ↦ as_before (ground arith)
      | inl there ↦ elim (Bool-cases (ltb (length s.queue) queue_cap)) [
        | inr full ↦ as_before (ground arith)
        | inl free ↦ one_more r (h r e) (ground arith) (ground arith)
      ]
    ]
  ]

  verdict_cases : (v : AuthCheck) → (v ≡ admitted) ⊎ (v ≢ admitted)
  verdict_cases admitted = inl refl
  verdict_cases unknown_tenant = inr (λ e. absurd (cc (e)))
  verdict_cases bad_signature = inr (λ e. absurd (cc (e)))
  verdict_cases rate_limited = inr (λ e. absurd (cc (e)))
  verdict_cases replay_detected = inr (λ e. absurd (cc (e)))

  admit_line-Queues :
      (at : Times) (sub : JobSubmission) (s : Intake) (a : AuthState)
      → s.auth_state ≡ some a
      → Queues queue_cap
          (IsVouched p f canned a.registry)
          s.queue
          (admit_line p f canned queue_cap at sub s).queue
  unfolding admit_line
  admit_line-Queues at sub s a on =
      let checked : Intake = record s {
        auth_state = some (with_gate (check_submission p a.registry at sub (gate_of a)).0 a);
      } in
      elim (verdict_cases (check_submission p a.registry at sub (gate_of a)).1) [
        | inl passed ↦
            let same : admit_line p f canned queue_cap at sub s
                ≡ enqueue p f canned queue_cap sub checked =
              ground arith in
            subst
              (λ (t : Intake). Queues queue_cap (IsVouched p f canned a.registry) s.queue t.queue)
              (sym same)
              (enqueue-Queues (IsVouched p f canned a.registry) sub checked
                (λ r e. submission-IsVouched p f canned a.registry at sub (gate_of a) r passed e))
        | inr refused ↦ as_before (refused_line refused)
      ]
    where
      refused_line :
          (check_submission p a.registry at sub (gate_of a)).1 ≢ admitted
          → (admit_line p f canned queue_cap at sub s).queue ≡ s.queue
      refused_line refused = ground arith

-- A line that changes the queue or the gate is a submission.
pub read_line-cases :
    (p : Primitives) (f : Formats) (canned : Canned) (queue_cap : ℕ) (at : Times)
    (line : Option (List ℕ)) (s : Intake)
    → (((read_line p f canned queue_cap at line s).queue ≡ s.queue)
        × ((read_line p f canned queue_cap at line s).auth_state ≡ s.auth_state))
      ⊎ ((sub : JobSubmission) × (read_line p f canned queue_cap at line s
            ≡ admit_line p f canned queue_cap at sub s))
unfolding read_line
read_line-cases p f canned queue_cap at none s = inl (refl, refl)
read_line-cases p f canned queue_cap at (some line) s = elim (Bool-cases s.reading) [
  | inr stopped ↦ inl (ground arith, ground arith)
  | inl reads ↦ elim (Bool-cases (is_skipped (trim line))) [
    | inl skipped ↦ inl (ground arith, ground arith)
    | inr full ↦ elim (Option-cases (parse_submission_line f (trim line))) [
      | inl e ↦ inl (ground arith, ground arith)
      | inr (sub, e) ↦ inr (sub, ground arith)
    ]
  ]
]

-- Under a gate, a line adds at most one submission, into a free place of the queue, and only one
-- that a tenant of the registry has signed.
pub read_line-Queues :
    (p : Primitives) (f : Formats) (canned : Canned) (queue_cap : ℕ) (at : Times)
    (line : Option (List ℕ)) (s : Intake) (a : AuthState)
    → s.auth_state ≡ some a
    → Queues queue_cap
        (IsVouched p f canned a.registry)
        s.queue
        (read_line p f canned queue_cap at line s).queue
read_line-Queues p f canned queue_cap at line s a on =
    elim (read_line-cases p f canned queue_cap at line s) [
      | inl (queue, gate) ↦ as_before queue
      | inr (sub, same) ↦
          subst (λ (t : Intake). Queues queue_cap (IsVouched p f canned a.registry) s.queue t.queue)
            (sym same) (admit_line-Queues p f canned queue_cap at sub s a on)
    ]
