-- ===== src/Status/Checks.antt =====
-- crates/cosaci-state/src/github_checks.rs: the check run that reports a job. Texts are opaque.
use cosaci.Prelude.{◌≡◌, ◌↔◌, true, Option, none, some, arith, ◌≢◌}
use Prim.Native.String.{String}
use cosaci.Status.{Status, pending, running, quorum_verifying, success, failure, is_terminal}

pub data CheckStatus : Type 0 where
  queued in_progress check_completed : CheckStatus

pub data CheckConclusion : Type 0 where
  succeeded failed neutral cancelled skipped : CheckConclusion

pub record CheckOutput : Type 0 where
  pub title : String
  pub summary : String

pub record CheckRunPayload : Type 0 where
  pub name : String
  pub head_sha : String
  pub status : CheckStatus
  pub conclusion : Option CheckConclusion
  pub details_url : Option String
  pub output : CheckOutput

pub record JobContext : Type 0 where
  pub name : String
  pub commit_sha : String
  pub details_url : Option String
  pub summary : String
  pub title : String

unfoldable pub status_to_check_status : Status → CheckStatus × Option CheckConclusion
status_to_check_status pending = (queued, none)
status_to_check_status running = (in_progress, none)
status_to_check_status quorum_verifying = (in_progress, none)
status_to_check_status success = (check_completed, some succeeded)
status_to_check_status failure = (check_completed, some failed)

unfoldable pub build_payload : Status → JobContext → CheckRunPayload
build_payload s ctx = record {
  name = ctx.name;
  head_sha = ctx.commit_sha;
  status = (status_to_check_status s).0;
  conclusion = (status_to_check_status s).1;
  details_url = ctx.details_url;
  output = record { title = ctx.title; summary = ctx.summary };
}

-- A check run is completed exactly for a finished job, has a conclusion exactly then, and the
-- conclusion tells success from failure.
pub build_payload_terminal :
    (s : Status) (ctx : JobContext)
    → (((build_payload s ctx).status ≡ check_completed) ↔ (is_terminal s ≡ true))
      × (((build_payload s ctx).conclusion ≢ none) ↔ (is_terminal s ≡ true))
      × (((build_payload s ctx).conclusion ≡ some succeeded) ↔ (s ≡ success))
      × (((build_payload s ctx).conclusion ≡ some failed) ↔ (s ≡ failure))
unfolding build_payload status_to_check_status is_terminal
build_payload_terminal s ctx = ground arith
