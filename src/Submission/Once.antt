-- ===== src/Submission/Once.antt =====
-- A nonce of a tenant passes the gate once in a TTL, whatever else is submitted in between.
use cosaci.Prelude.{subst, ℕ, ◌-◌, ◌<◌, ◌≡◌, refl, inl, inr, List, arith, All}
use cosaci.Replay.Window
use cosaci.Replay.Repeats
use cosaci.Replay.Repeats.{nonce_once}
use cosaci.Tenant.{TenantRegistry}
use cosaci.Submission.{JobSubmissionPayload, Primitives, rate_limited, replay_detected, Gate, Times}
use cosaci.Submission.Histories.{
  Submission, job, submit, run, tenant_of, nonce_of, times_of, authenticated-cases, replay_key,
  accept_in, guard_calls, SubmittedBy, PassesReplay, admit-verdict, submit_lem, guard-run,
  guard_calls-SweepsBy, passes-accept,
}

-- A submission that passed the replay stage, admitted or refused for its rate, keeps its tenant's
-- nonce from passing again, in either shape and under any signature, for a TTL and whatever is
-- submitted in between, with a valid guard and as long as no submission in between sweeps it
-- later.
pub nonce_spent :
    (p : Primitives) (registry : TenantRegistry) (g : Gate) (s : Submission)
    (submissions : List Submission) (again : Submission)
    → Window.IsValid g.replay_guard
    → PassesReplay (submit p registry g s).1
    → All (SubmittedBy (times_of again).guard_sweeps) submissions
    → (times_of again).guard_sweeps - (times_of s).guard_accepts < g.replay_guard.ttl_ns
    → tenant_of again ≡ tenant_of s
    → nonce_of again ≡ nonce_of s
    → ¬ PassesReplay
        (submit p registry (run p registry (submit p registry g s).0 submissions) again).1
nonce_spent p registry g s submissions again v passes by near tenant nonce twice =
    let after = run p registry (submit p registry g s).0 submissions in
    let (accepted, first) = passes-accept p registry g s passes in
    let (accepted', _) = passes-accept p registry after again twice in
    let at = times_of s in
    let at' = times_of again in
    let key : replay_key p again ≡ replay_key p s = rw (tenant, nonce) refl in
    let guard : after.replay_guard
        ≡ Repeats.run (accept_in p g s).0 (guard_calls p registry submissions) =
      rw (guard-run p registry submissions (submit p registry g s).0, first) refl in
    nonce_once g.replay_guard (replay_key p s) at.now_ns at.guard_sweeps at.guard_accepts
      (guard_calls p registry submissions) at'.now_ns at'.guard_sweeps at'.guard_accepts v accepted
      (guard_calls-SweepsBy p registry at'.guard_sweeps submissions by) near (ground arith)

-- A job that was refused for its rate is refused as a replay when it is sent again within the TTL,
-- whatever is submitted in between, with a valid guard and as long as no submission in between
-- sweeps it later.
pub limited_then_replayed :
    (p : Primitives) (registry : TenantRegistry) (g : Gate) (payload : JobSubmissionPayload)
    (pubkey signature : List ℕ) (at later : Times) (submissions : List Submission)
    → Window.IsValid g.replay_guard
    → (submit p registry g (job payload pubkey signature at)).1 ≡ rate_limited
    → All (SubmittedBy later.guard_sweeps) submissions
    → later.guard_sweeps - at.guard_accepts < g.replay_guard.ttl_ns
    → (submit p registry
        (run p registry (submit p registry g (job payload pubkey signature at)).0 submissions)
        (job payload pubkey signature later)).1
      ≡ replay_detected
limited_then_replayed p registry g payload pubkey signature at later submissions v limited by near =
    let s = job payload pubkey signature at in
    let again = job payload pubkey signature later in
    let after = run p registry (submit p registry g s).0 submissions in
    let spent = nonce_spent p registry g s submissions again v (inr limited) by near refl refl in
    elim (authenticated-cases p registry again) [
      | inl (tenant, e) ↦ elim (admit-verdict p tenant after again) [
        | inl (_, passes) ↦
            absurd (
              spent (subst PassesReplay (ground (arith, submit_lem p registry after again)) passes))
        | inr (_, verdict) ↦ ground (arith, submit_lem p registry after again)
      ]
      | inr (verdict, e, early) ↦ absurd (ground (arith, submit_lem p registry g s))
    ]
