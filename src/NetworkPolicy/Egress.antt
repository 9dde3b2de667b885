-- ===== src/NetworkPolicy/Egress.antt =====
-- What the policy lets through.
use cosaci.Prelude.{
  Has, subst, [], ◌∷◌, Bool-cases, some, none, Option, List, ◌⊎◌, inl, inr, Option-cases,
  bytes_beq_iff, refl, ap, zero, suc, pow_positive, ℕ, ◌+◌, ◌-◌, ◌*◌, ◌/◌, ◌%◌, ◌^◌, ◌≤◌, ◌<◌, ◌≡◌,
  ◌↔◌, sym, true, arith, ltb, bytes_key, quotient_unique, division,
}
use cosaci.NetworkPolicy.{
  NetworkPolicy, allowed, denied, audited, deny_rest, audit_rest, some_matches, evaluate, tcp,
  Scheme, scheme_matches, IpAddr, v4, v6, EgressTarget, host, cidr, EgressAttempt, cidr_contains,
  matches_target, block_contains,
}

-- The first address of the block of `base`, and the size of the block.
abbrev pub InBlock : ℕ → ℕ → ℕ → ℕ → Type 0
InBlock width prefix base target =
    let size = 2 ^ (width - prefix) in
    (base / size * size ≤ target) × (target < base / size * size + size)

same_quotient :
    (size base target : ℕ)
    → 0 < size
    → base / size * size ≤ target
    → target < base / size * size + size
    → base / size ≡ target / size
same_quotient size base target h low high =
    let (whole, small) = division target size h in
    quotient_unique size (base / size) (target / size) (target - base / size * size) (target % size)
      (omega arith) small (omega arith)

small_quotient : (size n : ℕ) → 0 < size → n < size → n / size * size ≡ 0
small_quotient size n h small =
    let (whole, rest) = division n size h in
    let none_there : 0 ≡ n / size =
      quotient_unique size 0 (n / size) n (n % size) small rest (omega arith) in
    rw (sym none_there) (omega arith)

-- An address is in a CIDR's block exactly if the prefix is no longer than an address and the address
-- lies in the range of `2 ^ (width - prefix)` addresses that holds the base.
block_contains_iff :
    (width prefix base target : ℕ)
    → base < 2 ^ width
    → target < 2 ^ width
    → (block_contains width prefix base target ≡ true)
      ↔ ((prefix ≤ width) × InBlock width prefix base target)
unfolding block_contains
block_contains_iff width zero base target b t =
    let flat : width - 0 ≡ width = omega arith in
    let positive = pow_positive (width - 0) in
    let base_small : base < 2 ^ (width - 0) = rw flat b in
    let target_small : target < 2 ^ (width - 0) = rw flat t in
    let first = small_quotient (2 ^ (width - 0)) base positive base_small in
    (λ e. (omega arith, (omega arith, omega arith)), λ h. ground arith)
block_contains_iff width (suc prefix) base target b t =
    let size = 2 ^ (width - suc prefix) in
    let positive = pow_positive (width - suc prefix) in
    let (whole, small) = division target size positive in
    (
      λ e. elim (Bool-cases (ltb width (suc prefix))) [
        | inl longer ↦ absurd (ground arith)
        | inr fits ↦
            let same : base / size * size ≡ target / size * size = ground arith in
            (ground arith, (omega arith, omega arith))
      ],
      λ (fits, (low, high)).
          let same = ap (λ q. q * size) (same_quotient size base target positive low high) in
          ground arith,
    )

-- The text is a block of the address's family that holds it.
abbrev pub Covers : Option (IpAddr × ℕ) → IpAddr → Type 0
Covers none addr = ⊥
Covers (some (v4 base, prefix)) (v4 target) = (prefix ≤ 32) × InBlock 32 prefix base target
Covers (some (v6 base, prefix)) (v6 target) = (prefix ≤ 128) × InBlock 128 prefix base target
Covers (some (v4 base, prefix)) (v6 target) = ⊥
Covers (some (v6 base, prefix)) (v4 target) = ⊥

-- The number fits an address of its family.
abbrev pub IsAddress : IpAddr → Type 0
IsAddress (v4 bits) = bits < 2 ^ 32
IsAddress (v6 bits) = bits < 2 ^ 128

cidr_contains_iff :
    (block : Option (IpAddr × ℕ)) (addr : IpAddr)
    → ((base : IpAddr) (prefix : ℕ) → block ≡ some (base, prefix) → IsAddress base)
    → IsAddress addr
    → (cidr_contains block addr ≡ true) ↔ Covers block addr
unfolding cidr_contains
cidr_contains_iff none addr b a = (λ e. absurd (cc), λ h. absurd h)
cidr_contains_iff (some (v4 base, prefix)) (v4 target) b a =
    block_contains_iff 32 prefix base target (b (v4 base) prefix refl) a
cidr_contains_iff (some (v6 base, prefix)) (v6 target) b a =
    block_contains_iff 128 prefix base target (b (v6 base) prefix refl) a
cidr_contains_iff (some (v4 base, prefix)) (v6 target) b a = (λ e. absurd (cc), λ h. absurd h)
cidr_contains_iff (some (v6 base, prefix)) (v4 target) b a = (λ e. absurd (cc), λ h. absurd h)

module _ (parse_cidr : List ℕ → Option (IpAddr × ℕ)) where
  -- What a target permits: its host under its port and scheme, where port 0 is any port and TCP any
  -- scheme; or its block under its ports, where 0 to 0 are all of them.
  abbrev pub Permits : EgressTarget → EgressAttempt → Type 0
  Permits (host hostname port scheme) attempt =
      (attempt.hostname ≡ some hostname)
      × ((port ≡ 0) ⊎ (port ≡ attempt.port))
      × ((scheme ≡ tcp) ⊎ (scheme ≡ attempt.scheme))
  Permits (cidr text first last) attempt =
      (((first ≡ 0) × (last ≡ 0)) ⊎ ((first ≤ attempt.port) × (attempt.port ≤ last)))
      × Covers (parse_cidr text) attempt.addr

  scheme_matches_iff :
      (scheme attempted : Scheme)
      → (scheme_matches scheme attempted ≡ true) ↔ ((scheme ≡ tcp) ⊎ (scheme ≡ attempted))
  unfolding scheme_matches
  scheme_matches_iff scheme attempted = ground arith

  -- The standard library reads addresses that fit their family.
  abbrev pub ReadsAddresses : Type 0
  ReadsAddresses =
      (text : List ℕ) (base : IpAddr) (prefix : ℕ)
      → parse_cidr text ≡ some (base, prefix)
      → IsAddress base

  matches_target_iff :
      ReadsAddresses
      → (target : EgressTarget) (attempt : EgressAttempt) → IsAddress attempt.addr
      → (matches_target parse_cidr target attempt ≡ true) ↔ Permits target attempt
  unfolding matches_target
  matches_target_iff reads (host hostname port scheme) attempt a =
      let schemes = scheme_matches_iff scheme attempt.scheme in
      elim (Option-cases attempt.hostname) [
        | inl e ↦ (λ m. absurd (ground arith), λ (h, p, s). absurd (ground arith))
        | inr (name, e) ↦
            let names = bytes_beq_iff name hostname in
            (
              λ m. (ground (arith, names.0 (ground arith)), ground arith, schemes.0 (ground arith)),
              λ (h, p, s).
                  let same : name ≡ hostname = ground arith in
                  ground (arith, schemes.1 s, names.1 same),
            )
      ]
  matches_target_iff reads (cidr text first last) attempt a =
      let blocks = cidr_contains_iff (parse_cidr text) attempt.addr (reads text) a in
      (λ m. (ground arith, blocks.0 (ground arith)), λ (p, c). ground (arith, blocks.1 c))

  -- Some target of the list permits the attempt.
  abbrev pub IsPermitted : List EgressTarget → EgressAttempt → Type 0
  IsPermitted targets attempt =
      (target : EgressTarget) × Has target targets × Permits target attempt

  some_matches_iff :
      ReadsAddresses
      → (targets : List EgressTarget) (attempt : EgressAttempt) → IsAddress attempt.addr
      → (some_matches parse_cidr targets attempt ≡ true) ↔ IsPermitted targets attempt
  unfolding some_matches
  some_matches_iff reads [] attempt a = (λ e. absurd (cc), λ (target, h, p). absurd h.lower)
  some_matches_iff reads (target ∷ targets) attempt a =
      let first = matches_target_iff reads target attempt a in
      let rest = some_matches_iff reads targets attempt a in
      (
        λ e. elim (Bool-cases (matches_target parse_cidr target attempt)) [
          | inl matched ↦ (target, inl refl, first.0 matched)
          | inr unmatched ↦ let (other, has, p) = rest.0 (ground arith) in (other, inr has, p)
        ],
        λ (other, has, p). elim has [
          | inl same ↦ ground (arith, first.1 (subst (λ x. Permits x attempt) same p))
          | inr there ↦ ground (arith, rest.1 (other, there, p))
        ],
      )

  -- Where addresses fit their family, the decision on a connection is `Allow` exactly if some
  -- target permits it: by host, port and scheme, or by an address in its block and a port in its
  -- range; every other connection gets the decision of the policy's default: refused, or let
  -- through and recorded.
  pub evaluate_iff :
      ReadsAddresses
      → (policy : NetworkPolicy) (attempt : EgressAttempt) → IsAddress attempt.addr
      → ((evaluate parse_cidr policy attempt ≡ allowed) ↔ IsPermitted policy.allow attempt)
        × (¬ IsPermitted policy.allow attempt
            → evaluate parse_cidr policy attempt
              ≡ elim policy.default [ deny_rest ↦ denied | audit_rest ↦ audited ])
  unfolding evaluate
  evaluate_iff reads policy attempt a =
      let found = some_matches_iff reads policy.allow attempt a in
      elim (Bool-cases (some_matches parse_cidr policy.allow attempt)) [
        | inl matched ↦
            let permitted = found.0 matched in
            ((λ e. permitted, λ p. ground arith), λ not_any. absurd (not_any permitted))
        | inr unmatched ↦
            ((λ e. absurd (ground arith), λ p. ground (arith, found.1 p)), λ not_any. ground arith)
      ]
