-- ===== src/Intake/Examples.antt =====
-- A run of the reader, and the theorem at it. Every signature of the tenant's key holds here, and
-- every line is the same legacy job.
use cosaci.Prelude.{
  ◌≡◌, ◌≤◌, refl, true, false, none, some, List, [], ◌∷◌, ◌++◌, length, All, replicate, nat_key,
}
use cosaci.Map.{contains_key, get as lookup, insert, retain}
use cosaci.NetworkPolicy.{deny_all}
use cosaci.Text.{codes, trim, trim_start, trim_end}
use cosaci.Tenant.{TenantRecord, TenantRegistry, get, parse_hex32}
use cosaci.Tenant as Tenant
use cosaci.Submission.{Primitives, Times, verify_and_admit, run_gate, admit}
use cosaci.Replay.{accept, sweep}
use cosaci.Replay as Replay
use cosaci.RateLimit.{accept_with_config, refill, try_consume, new_bucket}
use cosaci.AdminApi.{AuthState}
use cosaci.Intake.{
  LegacyJobSubmission, add, Formats, Canned, signed_fields, parse_hex64, parse_pairs, hex_nibble,
  check_legacy, check_submission, resolve, try_send, enqueue, admit_line, read_line,
  parse_submission_line,
}
use cosaci.Intake.Gated.{legacy_run}
use cosaci.Intake.Queue.{Event, arrives, taken, run, fresh, Accepted, run_vouched}

abbrev primitives : Primitives
primitives = record {
  sha256 = λ bytes. bytes;
  encode_job = λ payload. some [];
  encode_pipeline = λ payload. none;
  verify_strict = λ pubkey. some (λ message signature. true);
}

abbrev job : LegacyJobSubmission
job = record {
  kind = add;
  a = 1;
  b = 2;
  deadline_secs = 60;
  tenant_id = some 3;
  nonce = some 9;
  pubkey_hex = some (replicate 64 97);
  signature_hex = some (replicate 128 97);
}

abbrev formats : Formats
formats = record {
  has_field = λ line name. some false;
  read_pipeline = λ line. none;
  read_legacy = λ line. some job;
  decode_pipeline = λ bytes. none;
  encode_args = λ a b. a ∷ b ∷ [];
}

abbrev canned : Canned
canned = record { add_wasm = 0 ∷ []; mul_wasm = 1 ∷ [] }

abbrev registry : TenantRegistry
registry = record {
  by_id =
      (
        3,
        record {
          tenant_id = 3;
          signing_fp = replicate 32 170;
          rate_capacity = 5;
          rate_refill_per_sec = 1;
          registered_at_unix_ns = 0;
        },
      )
      ∷ [];
}

abbrev auth : AuthState
auth = record {
  registry = registry;
  limiter = record { buckets = []; default_capacity = 1; default_refill_per_sec = 1 };
  replay = record { ttl_ns = 100; accepted = [] };
}

abbrev at : Times
at = record { now_ns = 50; guard_sweeps = 50; guard_accepts = 50; limiter = 50 }

-- The job arrives twice and is taken once.
abbrev events : List Event
events = arrives at (some (codes "{}")) ∷ taken ∷ arrives at (some (codes "{}")) ∷ []

queued_once :
    (run primitives formats canned 1 events (fresh primitives formats canned 1 auth)).done
    ≡ legacy_run formats canned job ∷ []
unfolding run read_line trim trim_start trim_end parse_submission_line admit_line check_submission
    check_legacy signed_fields parse_hex32 Tenant.parse_pairs Tenant.hex_nibble parse_hex64
    parse_pairs hex_nibble verify_and_admit run_gate enqueue resolve try_send contains_key lookup
    insert retain deny_all accept_with_config new_bucket refill try_consume accept Replay.admit
    sweep admit get
queued_once = refl

run_vouched_example :
    (length
        (run primitives formats canned 1 events
          (fresh primitives formats canned 1 auth)).intake.queue
      ≤ 1)
    × All (Accepted primitives formats canned 1 (λ r. r ≡ registry)) (
        (run primitives formats canned 1 events (fresh primitives formats canned 1 auth)).done
        ++ (run primitives formats canned 1 events
            (fresh primitives formats canned 1 auth)).intake.queue)
run_vouched_example =
    run_vouched primitives formats canned 1 (λ r. r ≡ registry) auth events refl
      (tt, (tt, (tt, tt)))
