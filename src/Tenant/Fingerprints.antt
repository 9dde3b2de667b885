-- ===== src/Tenant/Fingerprints.antt =====
-- Fingerprints in the tenant file: what is printed is parsed back, and nothing else is.
use cosaci.Prelude.{
  subst, ◌-◌, ℕ, ◌+◌, ◌*◌, ◌/◌, ◌%◌, ◌<◌, ◌≡◌, ◌↔◌, refl, some, List, [], ◌∷◌, arith, length, All,
  Option-cases, inl, inr,
}
use cosaci.Tenant.{hex_nibble, parse_pairs, parse_hex32, lower_digit, fingerprint_hex}

abbrev pub IsByte : ℕ → Type 0
IsByte b = b < 256

hex_nibble-lower_digit : (n : ℕ) → n < 16 → hex_nibble (lower_digit n) ≡ some n
unfolding hex_nibble
hex_nibble-lower_digit n h = ground arith

lower_digit-hex_nibble : (b n : ℕ) → hex_nibble b ≡ some n → (lower_digit n ≡ b) × (n < 16)
unfolding hex_nibble
lower_digit-hex_nibble b n h = ground arith

length-fingerprint_hex : (fp : List ℕ) → length (fingerprint_hex fp) ≡ 2 * length fp
unfolding fingerprint_hex
length-fingerprint_hex [] = refl
length-fingerprint_hex (b ∷ fp) = omega (arith, length-fingerprint_hex fp)

parse_pairs-fingerprint_hex :
    (fp : List ℕ) → All IsByte fp → parse_pairs (fingerprint_hex fp) ≡ some fp
unfolding parse_pairs fingerprint_hex
parse_pairs-fingerprint_hex [] a = refl
parse_pairs-fingerprint_hex (b ∷ fp) a =
    let small = a.0 in
    ground (
      arith,
      hex_nibble-lower_digit (b / 16) (omega arith),
      hex_nibble-lower_digit (b % 16) (omega arith),
      parse_pairs-fingerprint_hex fp a.1,
    )

-- The text of a fingerprint is parsed back to it.
pub parse_hex32-fingerprint_hex :
    (fp : List ℕ) → length fp ≡ 32 → All IsByte fp → parse_hex32 (fingerprint_hex fp) ≡ some fp
unfolding parse_hex32
parse_hex32-fingerprint_hex fp h a =
    ground (arith, length-fingerprint_hex fp, parse_pairs-fingerprint_hex fp a)

-- The text is that of the fingerprint, which has `half` bytes.
abbrev IsTextOf : List ℕ → ℕ → List ℕ → Type 0
IsTextOf text half fp = (fingerprint_hex fp ≡ text) × (length fp ≡ half) × All IsByte fp

fingerprint_hex-parse_pairs :
    (text fp : List ℕ) (half : ℕ)
    → length text ≡ 2 * half
    → parse_pairs text ≡ some fp
    → IsTextOf text half fp
unfolding parse_pairs fingerprint_hex
fingerprint_hex-parse_pairs [] fp half h e =
    let same : [] ≡ fp = ground arith in subst (IsTextOf [] half) same (refl, omega arith, tt)
fingerprint_hex-parse_pairs (b ∷ []) fp half h e = absurd (omega arith)
fingerprint_hex-parse_pairs (b ∷ c ∷ text) fp half h e = elim (Option-cases (hex_nibble b)) [
  | inl e₁ ↦ absurd (ground arith)
  | inr (hi, e₁) ↦ elim (Option-cases (hex_nibble c)) [
    | inl e₂ ↦ absurd (ground arith)
    | inr (lo, e₂) ↦ elim (Option-cases (parse_pairs text)) [
      | inl e₃ ↦ absurd (ground arith)
      | inr (out, e₃) ↦
          let (back, size, bytes) =
            fingerprint_hex-parse_pairs text out (half - 1) (omega arith) e₃ in
          let (high, high_small) = lower_digit-hex_nibble b hi e₁ in
          let (low, low_small) = lower_digit-hex_nibble c lo e₂ in
          let same : (hi * 16 + lo) ∷ out ≡ fp = ground arith in
          let upper : (hi * 16 + lo) / 16 ≡ hi = omega arith in
          let lower : (hi * 16 + lo) % 16 ≡ lo = omega arith in
          subst (IsTextOf (b ∷ c ∷ text) half) same
            (rw (upper, lower, high, low, back) refl, omega (arith, size), (omega arith, bytes))
    ]
  ]
]

-- `parse_hex32` accepts exactly the texts that `fingerprint_hex` writes of 32 bytes: a fingerprint
-- has one text, and an upper-case digit is refused.
pub parse_hex32_iff :
    (text fp : List ℕ)
    → (parse_hex32 text ≡ some fp)
      ↔ ((fingerprint_hex fp ≡ text) × (length fp ≡ 32) × All IsByte fp)
unfolding parse_hex32
parse_hex32_iff text fp = (
  λ e. fingerprint_hex-parse_pairs text fp 32 (ground arith) (ground arith),
  λ (e, size, bytes).
      subst (λ t. parse_hex32 t ≡ some fp) e (parse_hex32-fingerprint_hex fp size bytes),
)
