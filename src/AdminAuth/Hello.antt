-- ===== src/AdminAuth/Hello.antt =====
-- Which hellos of an admin are authorized.
use cosaci.Prelude.{ℕ, ◌≤◌, ◌≡◌, ◌↔◌, true, some, List, arith, abs_diff, inl, inr, Option-cases}
use cosaci.Submission.{Primitives, verifies}
use cosaci.AdminAuth.{AdminRecord, AdminKeySet, get, authorized, signed_bytes, verify_admin_hello}

-- The hello is fresh, its key is enrolled, and it signs the challenge and the time.
pub record IsGenuine (p : Primitives) (set : AdminKeySet) (pubkey : List ℕ) (ts_unix_ns : ℕ)
    (signature challenge : List ℕ) (freshness_ns now : ℕ) (admin : AdminRecord) : Type 0 where
  pub fresh : abs_diff now ts_unix_ns ≤ freshness_ns
  pub enrolled : get (p.sha256 pubkey) set ≡ some admin
  pub signed : verifies p pubkey signature (signed_bytes challenge ts_unix_ns) ≡ true

-- A hello is authorized under an id exactly if it is fresh, its key's fingerprint is that of an
-- enrolled admin with the id, and the key verifies the signature of the challenge and the time.
pub verify_admin_hello-authorized_iff :
    (p : Primitives) (set : AdminKeySet) (pubkey : List ℕ) (ts_unix_ns : ℕ)
    (signature challenge : List ℕ) (freshness_ns now id : ℕ)
    → (verify_admin_hello p set pubkey ts_unix_ns signature challenge freshness_ns now
        ≡ authorized id)
      ↔ ((admin : AdminRecord) × (admin.admin_id ≡ id)
          × IsGenuine p set pubkey ts_unix_ns signature challenge freshness_ns now admin)
unfolding verify_admin_hello
verify_admin_hello-authorized_iff p set pubkey ts_unix_ns signature challenge freshness_ns now id =
    (
      λ e. elim (Option-cases (get (p.sha256 pubkey) set)) [
        | inl unknown ↦ absurd (ground arith)
        | inr (admin, found) ↦ (
          admin,
          ground arith,
          record { fresh = ground arith; enrolled = found; signed = ground arith },
        )
      ],
      λ (admin, same, g). let fresh = g.fresh in ground (arith, g.enrolled, g.signed),
    )
