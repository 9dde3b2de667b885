-- ===== src/AdminApi/Sessions.antt =====
-- handle_admin_client: whose sessions are answered.
use cosaci.Prelude.{ℕ, ◌≡◌, refl, ◌⊎◌, inl, inr, Bool, some, List, [], ◌∷◌}
use cosaci.Text.{codes}
use cosaci.AdminAuth.{AdminRecord, AdminAuthCheck, authorized, unauthorized, verify_admin_hello}
use cosaci.AdminAuth.Hello.{IsGenuine, verify_admin_hello-authorized_iff}
use cosaci.Protocol.{
  Envelope, admin_hello, admin_welcome, admin_error, admin_hello_challenge,
  admin_hello_freshness_ns,
}
use cosaci.AdminApi.{AdminState, Coord, answer, handle_admin_client}

-- The envelope is a hello that an enrolled admin has just signed.
abbrev pub IsFromAdmin : Coord → ℕ → Envelope → Type 0
IsFromAdmin c now (admin_hello admin_pubkey ts_unix_ns signature) =
    (admin : AdminRecord) × IsGenuine c.primitives c.admin_keys admin_pubkey ts_unix_ns signature
      admin_hello_challenge admin_hello_freshness_ns now admin
IsFromAdmin c now _ = ⊥

check_cases : (a : AdminAuthCheck) → (a ≡ unauthorized) ⊎ ((id : ℕ) × (a ≡ authorized id))
check_cases unauthorized = inl refl
check_cases (authorized id) = inr (id, refl)

-- An admin request is answered exactly if the hello before it is one that an enrolled admin has
-- just signed; after any other hello the state stays as it is and the one reply is an error.
pub session_answered :
    (c : Coord) (now : ℕ) (writes : Bool) (hello req : Envelope) (s : AdminState)
    → (IsFromAdmin c now hello
        × (handle_admin_client c now writes (some hello) (some req) s
            ≡ ((answer c writes req s).0, admin_welcome ∷ (answer c writes req s).1 ∷ [])))
      ⊎ ((¬ IsFromAdmin c now hello)
          × ((e : List ℕ) × (handle_admin_client c now writes (some hello) (some req) s
                ≡ (s, admin_error e ∷ []))))
unfolding handle_admin_client
session_answered c now writes (admin_hello key ts signature) req s =
    elim (check_cases (
      verify_admin_hello c.primitives c.admin_keys key ts signature admin_hello_challenge
        admin_hello_freshness_ns now)) [
          | inl refused ↦
              let not_genuine : ¬ IsFromAdmin c now (admin_hello key ts signature) = λ (admin, g).
                let accepted =
                  (verify_admin_hello-authorized_iff c.primitives c.admin_keys key ts signature
                      admin_hello_challenge admin_hello_freshness_ns now admin.admin_id).1
                    (admin, refl, g) in
                absurd (cc (refused, accepted)) in
              inr (not_genuine, (codes "unauthorized", rw (refused, handle_admin_client) refl))
          | inr (id, accepted) ↦
              let (admin, same, genuine) =
                (verify_admin_hello-authorized_iff c.primitives c.admin_keys key ts signature
                    admin_hello_challenge admin_hello_freshness_ns now id).0
                  accepted in
              inl ((admin, genuine), rw (accepted, handle_admin_client) refl)
        ]
session_answered c now writes _ req s = inr (λ h. h, (codes "expected AdminHello", refl))
