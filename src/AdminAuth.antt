-- ===== src/AdminAuth.antt =====
-- crates/cosaci-state/src/admin_auth.rs: which admins the coordinator listens to.
pub mod Hello
pub mod Keys
pub mod Loaded
mod Examples
use cosaci.Prelude.{
  ℕ, Bool, not, Option, none, some, List, [], ◌++◌, if◌then◌else◌, ltb, abs_diff, Result, ok, err,
  bytes_key,
}
use cosaci.Map.{Map, get as lookup, insert as add, contains_key}
use cosaci.Submission.{Primitives, to_le_bytes, verifies}

pub record AdminRecord : Type 0 where
  pub admin_id : ℕ
  pub signing_fp : List ℕ
  pub enrolled_at_unix_ns : ℕ

pub record AdminKeySet : Type 0 where
  pub by_fp : Map (List ℕ) AdminRecord

unfoldable pub new : AdminKeySet
new = record { by_fp = [] }

unfoldable pub get : List ℕ → AdminKeySet → Option AdminRecord
get fp set = lookup fp set.by_fp

pub data KeySetError : Type 0 where
  already_enrolled : KeySetError

unfoldable pub insert : AdminRecord → AdminKeySet → AdminKeySet × Result (Unit {0}) KeySetError
insert admin set =
    if contains_key admin.signing_fp set.by_fp
    then (set, err already_enrolled)
    else (record set { by_fp = add admin.signing_fp admin set.by_fp }, ok tt)

pub data AdminAuthCheck : Type 0 where
  authorized : (admin_id : ℕ) → AdminAuthCheck
  unauthorized : AdminAuthCheck

-- `challenge` and the eight bytes of the timestamp.
abbrev pub signed_bytes : List ℕ → ℕ → List ℕ
signed_bytes challenge ts_unix_ns = challenge ++ to_le_bytes 8 ts_unix_ns

-- `now` is the reading of the clock.
unfoldable pub verify_admin_hello :
    Primitives → AdminKeySet → List ℕ → ℕ → List ℕ → List ℕ → ℕ → ℕ → AdminAuthCheck
verify_admin_hello p set pubkey ts_unix_ns signature challenge freshness_ns now =
    if ltb freshness_ns (abs_diff now ts_unix_ns)
    then unauthorized
    else elim (get (p.sha256 pubkey) set) [
      | none ↦ unauthorized
      | some admin ↦
          if not (verifies p pubkey signature (signed_bytes challenge ts_unix_ns))
          then unauthorized
          else authorized admin.admin_id
    ]
