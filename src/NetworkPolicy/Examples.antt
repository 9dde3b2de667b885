-- ===== src/NetworkPolicy/Examples.antt =====
-- Runs of the policy, and the theorem at a concrete input. The texts `1` and `2` stand for 10.0.0.0/8
-- and for no CIDR.
use cosaci.Prelude.{
  ℕ, ◌+◌, ◌*◌, ◌^◌, ◌≡◌, ◌↔◌, refl, Option, none, some, List, [], ◌∷◌, arith, nat_beq,
  if◌then◌else◌,
}
use cosaci.NetworkPolicy.{
  http, https, IpAddr, v4, host, cidr, NetworkPolicy, EgressAttempt, allowed, denied, deny_rest,
  evaluate, some_matches, matches_target, scheme_matches, cidr_contains, block_contains,
}
use cosaci.NetworkPolicy.Egress.{IsPermitted, ReadsAddresses, evaluate_iff}

abbrev ten : ℕ
ten = 10 * 2 ^ 24

abbrev read : List ℕ → Option (IpAddr × ℕ)
read [] = none
read (b ∷ text) = if nat_beq b 1 then some (v4 ten, 8) else none

read-ReadsAddresses : ReadsAddresses read
read-ReadsAddresses [] base prefix e = absurd (cc)
read-ReadsAddresses (b ∷ text) base prefix e = ground arith

abbrev policy : NetworkPolicy
policy = record {
  allow = host (5 ∷ []) 443 https ∷ cidr (1 ∷ []) 8000 9000 ∷ [];
  default = deny_rest;
}

abbrev attempt : ℕ → ℕ → EgressAttempt
attempt bits port = record { hostname = none; addr = v4 bits; port = port; scheme = http }

inside : evaluate read policy (attempt (ten + 77) 8080) ≡ allowed
unfolding evaluate some_matches matches_target cidr_contains block_contains scheme_matches
inside = refl

wrong_port : evaluate read policy (attempt (ten + 77) 443) ≡ denied
unfolding evaluate some_matches matches_target cidr_contains block_contains scheme_matches
wrong_port = refl

outside : evaluate read policy (attempt (ten + 2 ^ 24) 8080) ≡ denied
unfolding evaluate some_matches matches_target cidr_contains block_contains scheme_matches
outside = refl

evaluate_iff_example :
    ((evaluate read policy (attempt (ten + 77) 8080) ≡ allowed)
      ↔ IsPermitted read policy.allow (attempt (ten + 77) 8080))
    × (¬ IsPermitted read policy.allow (attempt (ten + 77) 8080)
        → evaluate read policy (attempt (ten + 77) 8080) ≡ denied)
evaluate_iff_example =
    evaluate_iff read read-ReadsAddresses policy (attempt (ten + 77) 8080) (omega arith)
