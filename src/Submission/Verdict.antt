-- ===== src/Submission/Verdict.antt =====
-- Which submissions the gate admits, and what a rejected one costs.
use cosaci.Prelude.{
  err, inl, inr, refl, ◌⊎◌, Bool-cases, Result-cases, bytes_beq, ℕ, ◌≤◌, ◌≡◌, ◌↔◌, true, Option,
  some, List, arith, ok, bytes_key, bytes_beq_iff, abs_diff, Option-cases, nat_key,
}
use cosaci.Replay.{accept}
use cosaci.Replay.Window.{Remembers, accept_iff}
use cosaci.Replay.Window
use cosaci.RateLimit.{accept_with_config, bucket_or_new, refill, try_consume}
use cosaci.Tenant.{TenantRecord, TenantRegistry, get, fingerprint}
use cosaci.Submission.{
  JobSubmissionPayload, AuthCheck, unknown_tenant, bad_signature, replay_detected, run_gate,
  verify_and_admit, Primitives, admitted, fold_replay_key, verifies, authenticate, Gate, Times,
  admit,
}

-- The tenant is registered with the fingerprint of the key, and the key verifies the signature of
-- the encoded payload.
pub record IsAuthentic (p : Primitives) (registry : TenantRegistry) (tenant_id : ℕ)
    (encoded : Option (List ℕ)) (pubkey signature : List ℕ) (tenant : TenantRecord) : Type 0 where
  pub registered : get tenant_id registry ≡ some tenant
  pub owns_key : fingerprint p.sha256 pubkey ≡ tenant.signing_fp
  pub signed :
      (bytes : List ℕ) × (encoded ≡ some bytes) × (verifies p pubkey signature bytes ≡ true)

pub authenticate_iff :
    (p : Primitives) (registry : TenantRegistry) (tenant_id : ℕ) (encoded : Option (List ℕ))
    (pubkey signature : List ℕ) (tenant : TenantRecord)
    → (authenticate p registry tenant_id encoded pubkey signature ≡ ok tenant)
      ↔ IsAuthentic p registry tenant_id encoded pubkey signature tenant
authenticate_iff p registry tenant_id encoded pubkey signature tenant = (forward, backward)
  where
    forward :
        authenticate p registry tenant_id encoded pubkey signature ≡ ok tenant
        → IsAuthentic p registry tenant_id encoded pubkey signature tenant
    forward h = elim (Option-cases (get tenant_id registry)) [
      | inl e ↦ absurd (ground arith)
      | inr (found, e) ↦ elim (Option-cases encoded) [
        | inl e' ↦ absurd (ground arith)
        | inr (bytes, e') ↦ record {
          registered = ground arith;
          owns_key = ground (arith, bytes_beq_iff (p.sha256 pubkey) found.signing_fp);
          signed = (bytes, e', ground arith);
        }
      ]
    ]

    backward :
        IsAuthentic p registry tenant_id encoded pubkey signature tenant
        → authenticate p registry tenant_id encoded pubkey signature ≡ ok tenant
    backward a =
        let (bytes, e, v) = a.signed in
        ground (arith, a.registered, a.owns_key, bytes_beq_iff (p.sha256 pubkey) tenant.signing_fp)

-- Stages 1 and 2 give the tenant, or one of two verdicts.
pub authenticate-cases :
    (p : Primitives) (registry : TenantRegistry) (tenant_id : ℕ) (encoded : Option (List ℕ))
    (pubkey signature : List ℕ)
    → ((tenant : TenantRecord) × (authenticate p registry tenant_id encoded pubkey signature
          ≡ ok tenant))
      ⊎ ((verdict : AuthCheck) × (authenticate p registry tenant_id encoded pubkey signature
            ≡ err verdict)
          × ((verdict ≡ unknown_tenant) ⊎ (verdict ≡ bad_signature)))
authenticate-cases p registry tenant_id encoded pubkey signature =
    elim (Option-cases (get tenant_id registry)) [
      | inl e ↦ inr (unknown_tenant, ground arith, inl refl)
      | inr (tenant, e) ↦ elim (Bool-cases (bytes_beq (p.sha256 pubkey) tenant.signing_fp)) [
        | inr other ↦ inr (bad_signature, ground arith, inr refl)
        | inl owns ↦ elim (Option-cases encoded) [
          | inl e' ↦ inr (bad_signature, ground arith, inr refl)
          | inr (bytes, e') ↦ elim (Bool-cases (verifies p pubkey signature bytes)) [
            | inl signed ↦ inl (tenant, ground arith)
            | inr forged ↦ inr (bad_signature, ground arith, inr refl)
          ]
        ]
      ]
    ]

-- The tenant's bucket has a token after its refill.
abbrev pub HasToken : TenantRecord → ℕ → Times → Gate → Type 0
HasToken tenant tenant_id at g =
    1
    ≤ (refill at.limiter (
        bucket_or_new tenant_id tenant.rate_capacity tenant.rate_refill_per_sec at.limiter
          g.rate_limiter)).tokens

-- The guard does not remember the nonce under the tenant, and the caller's time is the guard's up
-- to the TTL.
abbrev pub IsFresh : Primitives → ℕ → ℕ → Times → Gate → Type 0
IsFresh p tenant_id nonce at g =
    (abs_diff at.guard_accepts at.now_ns ≤ g.replay_guard.ttl_ns)
    × ¬ Remembers (fold_replay_key p.sha256 tenant_id nonce) at.guard_sweeps g.replay_guard

token_iff :
    (tenant : TenantRecord) (tenant_id : ℕ) (at : Times) (g : Gate)
    → ((accept_with_config tenant_id 1 tenant.rate_capacity tenant.rate_refill_per_sec at.limiter
          g.rate_limiter).1
        ≡ true)
      ↔ HasToken tenant tenant_id at g
unfolding accept_with_config try_consume
token_iff tenant tenant_id at g = ground arith

admit_iff :
    (p : Primitives) (tenant_id nonce : ℕ) (tenant : TenantRecord) (at : Times) (g : Gate)
    → Window.IsValid g.replay_guard
    → ((admit p tenant_id nonce tenant at g).1 ≡ admitted)
      ↔ (IsFresh p tenant_id nonce at g × HasToken tenant tenant_id at g)
unfolding admit
admit_iff p tenant_id nonce tenant at g v =
    let fresh =
      accept_iff (fold_replay_key p.sha256 tenant_id nonce) at.now_ns at.guard_sweeps
        at.guard_accepts g.replay_guard v in
    let token = token_iff tenant tenant_id at g in
    (
      λ h. (fresh.0 (ground arith), token.0 (ground arith)),
      λ (f, t). let f' = fresh.1 f in let t' = token.1 t in ground arith,
    )

-- With a valid guard, `verify_and_admit` admits a job exactly if some tenant is registered under
-- its id with the fingerprint of the key, the key verifies the signature of the encoded payload,
-- the guard does not remember the tenant's nonce, the caller's time is within the TTL of the
-- guard's, and the tenant's bucket has a token.
pub verify_and_admit-admitted_iff :
    (p : Primitives) (registry : TenantRegistry) (payload : JobSubmissionPayload)
    (pubkey signature : List ℕ) (at : Times) (g : Gate)
    → Window.IsValid g.replay_guard
    → ((verify_and_admit p registry payload pubkey signature at g).1 ≡ admitted) ↔ (
        (tenant : TenantRecord) × IsAuthentic p registry payload.tenant_id
          (p.encode_job payload)
          pubkey
          signature
          tenant
        × IsFresh p payload.tenant_id payload.nonce at g
        × HasToken tenant payload.tenant_id at g)
unfolding verify_and_admit run_gate
verify_and_admit-admitted_iff p registry payload pubkey signature at g v = (forward, backward)
  where
    forward :
        (verify_and_admit p registry payload pubkey signature at g).1 ≡ admitted
        → (tenant : TenantRecord) × IsAuthentic p registry payload.tenant_id
            (p.encode_job payload)
            pubkey
            signature
            tenant
          × IsFresh p payload.tenant_id payload.nonce at g
          × HasToken tenant payload.tenant_id at g
    forward h =
        elim (authenticate-cases p registry payload.tenant_id (p.encode_job payload) pubkey
          signature) [
            | inl (tenant, e) ↦
                let (f, t) =
                  (admit_iff p payload.tenant_id payload.nonce tenant at g v).0 (ground arith) in
                (
                  tenant,
                  (authenticate_iff p registry payload.tenant_id (p.encode_job payload) pubkey
                        signature tenant).0
                      e,
                  f,
                  t,
                )
            | inr (verdict, e, early) ↦ absurd (ground arith)
          ]

    backward :
        ((tenant : TenantRecord) × IsAuthentic p registry payload.tenant_id
            (p.encode_job payload)
            pubkey
            signature
            tenant
          × IsFresh p payload.tenant_id payload.nonce at g
          × HasToken tenant payload.tenant_id at g)
        → (verify_and_admit p registry payload pubkey signature at g).1 ≡ admitted
    backward (tenant, a, f, t) =
        let e =
          (authenticate_iff p registry payload.tenant_id (p.encode_job payload) pubkey signature
              tenant).1
            a in
        let admits = (admit_iff p payload.tenant_id payload.nonce tenant at g v).1 (f, t) in
        ground arith

-- An unknown tenant or a bad signature changes neither the limiter nor the guard, and a replay
-- does not change the limiter.
pub verify_and_admit_unspent :
    (p : Primitives) (registry : TenantRegistry) (payload : JobSubmissionPayload)
    (pubkey signature : List ℕ) (at : Times) (g : Gate)
    → let (after, verdict) = verify_and_admit p registry payload pubkey signature at g in
      ((verdict ≡ unknown_tenant) ⊎ (verdict ≡ bad_signature) → after ≡ g)
      × (verdict ≡ replay_detected → after.rate_limiter ≡ g.rate_limiter)
unfolding verify_and_admit run_gate admit
verify_and_admit_unspent p registry payload pubkey signature at g =
    elim (authenticate-cases p registry payload.tenant_id (p.encode_job payload) pubkey signature) [
      | inl (tenant, e) ↦
          elim (Result-cases
            (accept (fold_replay_key p.sha256 payload.tenant_id payload.nonce) at.now_ns
              at.guard_sweeps at.guard_accepts g.replay_guard).1) [
                | inl (x, seen) ↦
                    elim (Bool-cases
                      (accept_with_config payload.tenant_id 1 tenant.rate_capacity
                        tenant.rate_refill_per_sec at.limiter g.rate_limiter).1) [
                          | inl taken ↦ (λ h. ground arith, λ h. ground arith)
                          | inr empty ↦ (λ h. ground arith, λ h. ground arith)
                        ]
                | inr (x, seen) ↦ (λ h. ground arith, λ h. ground arith)
              ]
      | inr (verdict, e, early) ↦ (λ h. ground arith, λ h. ground arith)
    ]
