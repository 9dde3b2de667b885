-- ===== src/Submission/Examples.antt =====
-- Runs of the gate, and the theorems at concrete inputs. SHA-256 is the sum of the bytes here, the encoding
-- of a payload its nonce, and a signature the message itself.
use cosaci.Prelude.{
  ◌+◌, ℕ, ◌≡◌, ◌↔◌, refl, inl, some, List, [], ◌∷◌, arith, nat_key, bytes_key, ◌==◌,
}
use cosaci.Map.{get as lookup, insert, contains_key, retain}
use cosaci.Replay.{accept, admit as admit_nonce, sweep}
use cosaci.Replay
use cosaci.RateLimit
use cosaci.RateLimit.{accept_with_config, try_consume, refill, new_bucket}
use cosaci.Tenant.{TenantRecord, TenantRegistry, get}
use cosaci.Submission.{
  JobSubmissionPayload, Primitives, admitted, unknown_tenant, bad_signature, rate_limited,
  replay_detected, Gate, Times, admit, run_gate, verify_and_admit,
}
use cosaci.Submission.Verdict.{IsAuthentic, IsFresh, HasToken, verify_and_admit-admitted_iff}
use cosaci.Submission.Histories.{Submission, job, submit, run, PassesReplay}
use cosaci.Submission.Once.{nonce_spent, limited_then_replayed}

abbrev total : List ℕ → ℕ
total [] = 0
total (byte ∷ bytes) = byte + total bytes

abbrev primitives : Primitives
primitives = record {
  sha256 = λ bytes. total bytes ∷ [];
  encode_job = λ payload. some (payload.nonce ∷ []);
  encode_pipeline = λ payload. some (payload.nonce ∷ payload.pipeline_cbor);
  verify_strict = λ pubkey. some (λ message signature. message == signature);
}

abbrev tenant : TenantRecord
tenant = record {
  tenant_id = 1;
  signing_fp = 7 ∷ [];
  rate_capacity = 1;
  rate_refill_per_sec = 0;
  registered_at_unix_ns = 0;
}

abbrev registry : TenantRegistry
registry = record { by_id = (1, tenant) ∷ [] }

abbrev payload : ℕ → ℕ → JobSubmissionPayload
payload tenant_id nonce = record {
  tenant_id = tenant_id;
  kind = "add";
  a = 1;
  b = 2;
  deadline_secs = 30;
  nonce = nonce;
}

abbrev at : ℕ → Times
at now = record { now_ns = now; guard_sweeps = now; guard_accepts = now; limiter = now }

abbrev gate : Gate
gate = record { rate_limiter = RateLimit.new 0 0; replay_guard = Replay.new 100 }

abbrev first : Submission
first = job (payload 1 5) (7 ∷ []) (5 ∷ []) (at 10)

abbrev second : Submission
second = job (payload 1 6) (7 ∷ []) (6 ∷ []) (at 20)

abbrev spent : Gate
spent = (submit primitives registry gate first).0

admits_first : (submit primitives registry gate first).1 ≡ admitted
unfolding submit verify_and_admit run_gate admit accept admit_nonce sweep retain contains_key
    accept_with_config try_consume refill new_bucket get lookup insert RateLimit.new Replay.new
admits_first = refl

limits_second : (submit primitives registry spent second).1 ≡ rate_limited
unfolding submit verify_and_admit run_gate admit accept admit_nonce sweep retain contains_key
    accept_with_config try_consume refill new_bucket get lookup insert RateLimit.new Replay.new
limits_second = refl

stranger :
    (verify_and_admit primitives registry (payload 2 5) (7 ∷ []) (5 ∷ []) (at 10) gate).1
    ≡ unknown_tenant
unfolding verify_and_admit run_gate get lookup
stranger = refl

forged :
    (verify_and_admit primitives registry (payload 1 5) (7 ∷ []) (6 ∷ []) (at 10) gate).1
    ≡ bad_signature
unfolding verify_and_admit run_gate get lookup
forged = refl

verify_and_admit-admitted_iff_example :
    ((verify_and_admit primitives registry (payload 1 5) (7 ∷ []) (5 ∷ []) (at 10) gate).1
      ≡ admitted)
    ↔ ((owner : TenantRecord) × IsAuthentic primitives registry 1
          (some (5 ∷ []))
          (7 ∷ [])
          (5 ∷ [])
          owner
        × IsFresh primitives 1 5 (at 10) gate
        × HasToken owner 1 (at 10) gate)
unfolding Replay.new
verify_and_admit-admitted_iff_example =
    verify_and_admit-admitted_iff primitives registry (payload 1 5) (7 ∷ []) (5 ∷ []) (at 10) gate
      tt

abbrev renamed : Submission
renamed = job (payload 1 5) (7 ∷ []) (5 ∷ []) (at 90)

nonce_spent_example :
    ¬ PassesReplay
      (submit primitives registry (run primitives registry spent (second ∷ [])) renamed).1
unfolding Replay.new
nonce_spent_example =
    nonce_spent primitives registry gate first (second ∷ []) renamed tt (inl admits_first)
      (omega arith, tt) (omega arith) refl refl

limited_then_replayed_example :
    (submit primitives registry
      (run primitives registry (submit primitives registry spent second).0 (first ∷ []))
      (job (payload 1 6) (7 ∷ []) (6 ∷ []) (at 50))).1
    ≡ replay_detected
unfolding submit verify_and_admit run_gate admit accept admit_nonce sweep retain contains_key
    accept_with_config try_consume refill new_bucket get lookup insert RateLimit.new Replay.new
limited_then_replayed_example =
    limited_then_replayed primitives registry spent (payload 1 6) (7 ∷ []) (6 ∷ []) (at 20) (at 50)
      (first ∷ []) (refl, tt) limits_second (omega arith, tt) (omega arith)
