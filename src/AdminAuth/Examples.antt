-- ===== src/AdminAuth/Examples.antt =====
-- Runs of the admins' gate. SHA-256 is the identity here, and a signature the message itself.
use cosaci.Prelude.{ℕ, ◌≡◌, refl, none, some, List, [], ◌∷◌, bytes_key, ◌==◌}
use cosaci.Map.{get as lookup}
use cosaci.Submission.{Primitives}
use cosaci.AdminAuth.{AdminKeySet, get, authorized, unauthorized, verify_admin_hello}

abbrev primitives : Primitives
primitives = record {
  sha256 = λ bytes. bytes;
  encode_job = λ payload. none;
  encode_pipeline = λ payload. none;
  verify_strict = λ pubkey. some (λ message signature. message == signature);
}

abbrev admins : AdminKeySet
admins = record {
  by_fp = (7 ∷ [], record { admin_id = 3; signing_fp = 7 ∷ []; enrolled_at_unix_ns = 0 }) ∷ [];
}

abbrev signature : List ℕ
signature = 9 ∷ 5 ∷ 0 ∷ 0 ∷ 0 ∷ 0 ∷ 0 ∷ 0 ∷ 0 ∷ []

admits : verify_admin_hello primitives admins (7 ∷ []) 5 signature (9 ∷ []) 10 12 ≡ authorized 3
unfolding verify_admin_hello get lookup
admits = refl

stale : verify_admin_hello primitives admins (7 ∷ []) 5 signature (9 ∷ []) 10 16 ≡ unauthorized
unfolding verify_admin_hello get lookup
stale = refl
