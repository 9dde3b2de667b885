-- ===== src/NetworkPolicy.antt =====
-- crates/cosaci-jobs/src/network.rs: which connections a job may open. An address is its number; the
-- standard library's reading of `base/prefix` is the argument `parse_cidr`, as the module only
-- decides on what it reads.
pub mod Egress
mod Examples
use Prim.Native.String.{String}
use cosaci.Prelude.{
  ℕ, ◌*◌, ◌/◌, ◌-◌, ◌^◌, Bool, true, false, ◌&&◌, ◌||◌, Option, none, some, List, [], ◌∷◌,
  if◌then◌else◌, nat_beq, leb, ltb, bytes_key, ◌==◌,
}

pub data EgressDefault : Type 0 where
  deny_rest audit_rest : EgressDefault

pub data Scheme : Type 0 where
  http https tcp : Scheme

pub data IpAddr : Type 0 where
  v4 v6 : (bits : ℕ) → IpAddr

-- A hostname and a CIDR are texts, as lists of their bytes.
pub data EgressTarget : Type 0 where
  host : (hostname : List ℕ) (port : ℕ) (scheme : Scheme) → EgressTarget
  cidr : (text : List ℕ) (port_range_start port_range_end : ℕ) → EgressTarget

pub record NetworkPolicy : Type 0 where
  pub allow : List EgressTarget
  pub default : EgressDefault

pub data Decision : Type 0 where
  allowed denied audited : Decision

pub record EgressAttempt : Type 0 where
  pub hostname : Option (List ℕ)
  pub addr : IpAddr
  pub port : ℕ
  pub scheme : Scheme

abbrev pub scheme_beq : Scheme → Scheme → Bool
scheme_beq http http = true
scheme_beq https https = true
scheme_beq tcp tcp = true
scheme_beq _ _ = false

abbrev pub is_tcp : Scheme → Bool
is_tcp http = false
is_tcp https = false
is_tcp tcp = true

unfoldable pub scheme_matches : Scheme → Scheme → Bool
scheme_matches allows attempted = is_tcp allows || scheme_beq allows attempted

-- `bits & (MAX << (width - prefix))`
abbrev pub masked : ℕ → ℕ → ℕ → ℕ
masked width prefix bits = bits / 2 ^ (width - prefix) * 2 ^ (width - prefix)

-- An arm of the match of `cidr_contains`.
unfoldable pub block_contains : ℕ → ℕ → ℕ → ℕ → Bool
block_contains width prefix base target =
    if ltb width prefix
    then false
    else if nat_beq prefix 0
    then true
    else nat_beq (masked width prefix base) (masked width prefix target)

unfoldable pub cidr_contains : Option (IpAddr × ℕ) → IpAddr → Bool
cidr_contains none addr = false
cidr_contains (some (v4 base, prefix)) (v4 target) = block_contains 32 prefix base target
cidr_contains (some (v6 base, prefix)) (v6 target) = block_contains 128 prefix base target
cidr_contains (some (v4 base, prefix)) (v6 target) = false
cidr_contains (some (v6 base, prefix)) (v4 target) = false

module _ (parse_cidr : List ℕ → Option (IpAddr × ℕ)) where
  unfoldable pub matches_target : EgressTarget → EgressAttempt → Bool
  matches_target (host hostname port scheme) attempt =
      let hostname_match : Bool = elim attempt.hostname [ none ↦ false | some h ↦ h == hostname ] in
      let port_match = nat_beq port 0 || nat_beq port attempt.port in
      hostname_match && port_match && scheme_matches scheme attempt.scheme
  matches_target (cidr text port_range_start port_range_end) attempt =
      let port_match =
        nat_beq port_range_start 0 && nat_beq port_range_end 0
        || leb port_range_start attempt.port && leb attempt.port port_range_end in
      port_match && cidr_contains (parse_cidr text) attempt.addr

  -- Does some target of the list match?
  unfoldable pub some_matches : List EgressTarget → EgressAttempt → Bool
  some_matches [] attempt = false
  some_matches (target ∷ targets) attempt =
      let rest = some_matches targets attempt in
      if matches_target target attempt then true else rest

  unfoldable pub evaluate : NetworkPolicy → EgressAttempt → Decision
  evaluate policy attempt =
      if some_matches policy.allow attempt
      then allowed
      else elim policy.default [ deny_rest ↦ denied | audit_rest ↦ audited ]

unfoldable pub deny_all : NetworkPolicy
deny_all = record { allow = []; default = deny_rest }
