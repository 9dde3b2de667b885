-- ===== src/Submission/Histories.antt =====
-- Sequences of submissions, and the calls of the guard that they make.
use cosaci.Prelude.{
  sym, subst, Bool-cases, ℕ, ◌≤◌, ◌≡◌, refl, ◌≢◌, ◌⊎◌, inl, inr, List, [], ◌∷◌, arith, Result, ok,
  err, Result-cases, All,
}
use cosaci.Replay.{ReplayGuard, AcceptError, accept}
use cosaci.Replay.Repeats
use cosaci.Replay.Repeats.{Call, accepts, SweepsBy}
use cosaci.RateLimit.{accept_with_config}
use cosaci.Tenant.{TenantRecord, TenantRegistry}
use cosaci.Submission.{
  JobSubmissionPayload, PipelineSubmissionPayload, Primitives, AuthCheck, admitted, unknown_tenant,
  bad_signature, rate_limited, replay_detected, fold_replay_key, authenticate, Gate, Times, admit,
  run_gate, verify_and_admit, verify_and_admit_pipeline,
}
use cosaci.Submission.Verdict.{authenticate-cases}

-- A submission of either shape.
pub data Submission : Type 0 where
  job : (payload : JobSubmissionPayload) (pubkey signature : List ℕ) (at : Times) → Submission
  pipeline :
      (payload : PipelineSubmissionPayload) (pubkey signature : List ℕ) (at : Times) → Submission

unfoldable pub submit : Primitives → TenantRegistry → Gate → Submission → Gate × AuthCheck
submit p registry g (job payload pubkey signature at) =
    verify_and_admit p registry payload pubkey signature at g
submit p registry g (pipeline payload pubkey signature at) =
    verify_and_admit_pipeline p registry payload pubkey signature at g

unfoldable pub run : Primitives → TenantRegistry → Gate → List Submission → Gate
run p registry g [] = g
run p registry g (s ∷ submissions) = run p registry (submit p registry g s).0 submissions

abbrev pub tenant_of : Submission → ℕ
tenant_of (job payload pubkey signature at) = payload.tenant_id
tenant_of (pipeline payload pubkey signature at) = payload.tenant_id

abbrev pub nonce_of : Submission → ℕ
nonce_of (job payload pubkey signature at) = payload.nonce
nonce_of (pipeline payload pubkey signature at) = payload.nonce

abbrev pub times_of : Submission → Times
times_of (job payload pubkey signature at) = at
times_of (pipeline payload pubkey signature at) = at

-- Stages 1 and 2 of a submission.
abbrev pub authenticated : Primitives → TenantRegistry → Submission → Result TenantRecord AuthCheck
authenticated p registry (job payload pubkey signature at) =
    authenticate p registry payload.tenant_id (p.encode_job payload) pubkey signature
authenticated p registry (pipeline payload pubkey signature at) =
    authenticate p registry payload.tenant_id (p.encode_pipeline payload) pubkey signature

pub submit_lem :
    (p : Primitives) (registry : TenantRegistry) (g : Gate) (s : Submission)
    → submit p registry g s ≡ elim (authenticated p registry s) [
      | err verdict ↦ (g, verdict)
      | ok tenant ↦ admit p (tenant_of s) (nonce_of s) tenant (times_of s) g
    ]
unfolding submit verify_and_admit verify_and_admit_pipeline run_gate
submit_lem p registry g (job payload pubkey signature at) = refl
submit_lem p registry g (pipeline payload pubkey signature at) = refl

pub authenticated-cases :
    (p : Primitives) (registry : TenantRegistry) (s : Submission)
    → ((tenant : TenantRecord) × (authenticated p registry s ≡ ok tenant))
      ⊎ ((verdict : AuthCheck) × (authenticated p registry s ≡ err verdict)
          × ((verdict ≡ unknown_tenant) ⊎ (verdict ≡ bad_signature)))
authenticated-cases p registry (job payload pubkey signature at) =
    authenticate-cases p registry payload.tenant_id (p.encode_job payload) pubkey signature
authenticated-cases p registry (pipeline payload pubkey signature at) =
    authenticate-cases p registry payload.tenant_id (p.encode_pipeline payload) pubkey signature

abbrev pub replay_key : Primitives → Submission → ℕ
replay_key p s = fold_replay_key p.sha256 (tenant_of s) (nonce_of s)

-- The call of the guard that an authentic submission makes.
abbrev guard_call : Primitives → Submission → Call
guard_call p s =
    accepts (replay_key p s) (times_of s).now_ns (times_of s).guard_sweeps
      (times_of s).guard_accepts

abbrev pub accept_in : Primitives → Gate → Submission → ReplayGuard × Result (Unit {0}) AcceptError
accept_in p g s =
    accept (replay_key p s) (times_of s).now_ns (times_of s).guard_sweeps (times_of s).guard_accepts
      g.replay_guard

abbrev pub guard_calls : Primitives → TenantRegistry → List Submission → List Call
guard_calls p registry [] = []
guard_calls p registry (s ∷ submissions) =
    let rest = guard_calls p registry submissions in
    elim (authenticated p registry s) [ err _ ↦ rest | ok _ ↦ guard_call p s ∷ rest ]

-- The guard's time in every submission is at most `limit`.
abbrev pub SubmittedBy : ℕ → Submission → Type 0
SubmittedBy limit s = (times_of s).guard_sweeps ≤ limit

-- Stage 3 is passed: the submission is admitted, or refused for its rate.
abbrev pub PassesReplay : AuthCheck → Type 0
PassesReplay verdict = (verdict ≡ admitted) ⊎ (verdict ≡ rate_limited)

admit-guard :
    (p : Primitives) (tenant : TenantRecord) (g : Gate) (s : Submission)
    → (admit p (tenant_of s) (nonce_of s) tenant (times_of s) g).0.replay_guard
      ≡ (accept_in p g s).0
unfolding admit
admit-guard p tenant g s = elim (Result-cases (accept_in p g s).1) [
  | inl (x, e) ↦ ground arith
  | inr (x, e) ↦ ground arith
]

pub admit-verdict :
    (p : Primitives) (tenant : TenantRecord) (g : Gate) (s : Submission)
    → ((accept_in p g s).1 ≡ ok tt
        × PassesReplay (admit p (tenant_of s) (nonce_of s) tenant (times_of s) g).1)
      ⊎ ((accept_in p g s).1 ≢ ok tt
          × ((admit p (tenant_of s) (nonce_of s) tenant (times_of s) g).1 ≡ replay_detected))
unfolding admit
admit-verdict p tenant g s = elim (Result-cases (accept_in p g s).1) [
  | inl (x, e) ↦
      let at = times_of s in
      elim (Bool-cases
        (accept_with_config (tenant_of s) 1 tenant.rate_capacity tenant.rate_refill_per_sec
          at.limiter g.rate_limiter).1) [
            | inl taken ↦ inl (e, inl (ground arith))
            | inr empty ↦ inl (e, inr (ground arith))
          ]
  | inr (x, e) ↦ inr (λ h. ground arith, ground arith)
]

guard-submit :
    (p : Primitives) (registry : TenantRegistry) (g : Gate) (s : Submission)
    → (submit p registry g s).0.replay_guard ≡ elim (authenticated p registry s) [
      | err _ ↦ g.replay_guard
      | ok _ ↦ Repeats.step g.replay_guard (guard_call p s)
    ]
unfolding Repeats.step
guard-submit p registry g s = elim (authenticated-cases p registry s) [
  | inl (tenant, e) ↦ ground (arith, submit_lem p registry g s, admit-guard p tenant g s)
  | inr (verdict, e, early) ↦ ground (arith, submit_lem p registry g s)
]

pub guard-run :
    (p : Primitives) (registry : TenantRegistry) (submissions : List Submission) (g : Gate)
    → (run p registry g submissions).replay_guard
      ≡ Repeats.run g.replay_guard (guard_calls p registry submissions)
unfolding run Repeats.run
guard-run p registry [] g = refl
guard-run p registry (s ∷ submissions) g = elim (authenticated-cases p registry s) [
  | inl (tenant, e) ↦ ground (
    arith,
    guard-run p registry submissions (submit p registry g s).0,
    guard-submit p registry g s,
  )
  | inr (verdict, e, early) ↦ ground (
    arith,
    guard-run p registry submissions (submit p registry g s).0,
    guard-submit p registry g s,
  )
]

pub guard_calls-SweepsBy :
    (p : Primitives) (registry : TenantRegistry) (limit : ℕ) (submissions : List Submission)
    → All (SubmittedBy limit) submissions
    → All (SweepsBy limit) (guard_calls p registry submissions)
guard_calls-SweepsBy p registry limit [] h = tt
guard_calls-SweepsBy p registry limit (s ∷ submissions) h =
    let rest = guard_calls-SweepsBy p registry limit submissions h.1 in
    elim (authenticated-cases p registry s) [
      | inl (tenant, e) ↦
          let same : guard_calls p registry (s ∷ submissions)
              ≡ guard_call p s ∷ guard_calls p registry submissions =
            ground arith in
          subst (All (SweepsBy limit)) (sym same) (h.0, rest)
      | inr (verdict, e, early) ↦
          let same : guard_calls p registry (s ∷ submissions) ≡ guard_calls p registry submissions =
            ground arith in
          subst (All (SweepsBy limit)) (sym same) rest
    ]

pub passes-accept :
    (p : Primitives) (registry : TenantRegistry) (g : Gate) (s : Submission)
    → PassesReplay (submit p registry g s).1
    → ((accept_in p g s).1 ≡ ok tt) × ((submit p registry g s).0.replay_guard ≡ (accept_in p g s).0)
unfolding Repeats.step
passes-accept p registry g s passes = elim (authenticated-cases p registry s) [
  | inl (tenant, e) ↦
      let guard : (submit p registry g s).0.replay_guard ≡ (accept_in p g s).0 =
        ground (arith, guard-submit p registry g s) in
      elim (admit-verdict p tenant g s) [
        | inl (accepted, _) ↦ (accepted, guard)
        | inr (_, verdict) ↦ absurd (ground (arith, submit_lem p registry g s))
      ]
  | inr (verdict, e, early) ↦ absurd (ground (arith, submit_lem p registry g s))
]
