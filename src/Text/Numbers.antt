-- ===== src/Text/Numbers.antt =====
-- Numbers in decimal: what is printed is read back.
use cosaci.Prelude.{
  ltb, nat_beq, Bool-cases, inl, inr, ap, ◌∙◌, ℕ, zero, suc, ◌+◌, ◌-◌, ◌*◌, ◌/◌, ◌%◌, ◌^◌, ◌≤◌, ◌<◌,
  ◌≡◌, refl, false, some, List, [], ◌∷◌, arith, All, u64_max,
}
use cosaci.Text.{
  parse_i64, decimal_i64, unsigned, is_empty, parse_digits, parse_u64, decimal_onto, decimal,
}

parse_digits_step :
    (top n d : ℕ) (text : List ℕ)
    → d < 10
    → n * 10 + d ≤ top
    → parse_digits top n ((48 + d) ∷ text) ≡ parse_digits top (n * 10 + d) text
unfolding parse_digits
parse_digits_step top n d text h fits =
    let same : 48 + d - 48 ≡ d = omega arith in rw same (ground arith)

parse_digits-decimal_onto :
    (fuel top n : ℕ) (text : List ℕ)
    → n < 10 ^ suc fuel
    → n ≤ top
    → parse_digits top 0 (decimal_onto fuel n text) ≡ parse_digits top n text
unfolding decimal_onto
parse_digits-decimal_onto zero top n text h fits =
    ground (arith, parse_digits_step top 0 (n % 10) text)
parse_digits-decimal_onto (suc fuel) top n text h fits = ground (
  arith,
  parse_digits_step top 0 (n % 10) text,
  parse_digits_step top (n / 10) (n % 10) text,
  parse_digits-decimal_onto fuel top (n / 10) ((48 + n % 10) ∷ text),
)

-- A decimal digit.
abbrev pub IsDigit : ℕ → Type 0
IsDigit b = (48 ≤ b) × (b ≤ 57)

decimal_onto-All :
    (fuel n : ℕ) (text : List ℕ) → All IsDigit text → All IsDigit (decimal_onto fuel n text)
unfolding decimal_onto
decimal_onto-All zero n text h = ((omega arith, omega arith), h)
decimal_onto-All (suc fuel) n text h =
    let head : IsDigit (48 + n % 10) = (omega arith, omega arith) in
    ground (arith, decimal_onto-All fuel (n / 10) ((48 + n % 10) ∷ text) (head, h))

pub decimal-All : (n : ℕ) → All IsDigit (decimal n)
unfolding decimal
decimal-All n = decimal_onto-All 19 n [] tt

decimal_onto_nonempty : (fuel n : ℕ) (text : List ℕ) → is_empty (decimal_onto fuel n text) ≡ false
unfolding decimal_onto
decimal_onto_nonempty zero n text = refl
decimal_onto_nonempty (suc fuel) n text =
    ground (arith, decimal_onto_nonempty fuel (n / 10) ((48 + n % 10) ∷ text))

pub decimal_nonempty : (n : ℕ) → is_empty (decimal n) ≡ false
unfolding decimal
decimal_nonempty n = decimal_onto_nonempty 19 n []

parse_u64_digits :
    (text : List ℕ)
    → is_empty text ≡ false
    → All IsDigit text
    → parse_u64 text ≡ parse_digits u64_max 0 text
unfolding parse_u64
parse_u64_digits [] h a = absurd (cc)
parse_u64_digits (b ∷ text) h a = let range = a.0 in ground arith

digits_of_decimal : (n top : ℕ) → n < 10 ^ 20 → n ≤ top → parse_digits top 0 (decimal n) ≡ some n
unfolding decimal
digits_of_decimal n top h fits =
    parse_digits-decimal_onto 19 top n [] h fits ∙ (unfold parse_digits in refl)

-- A `u64` is printed and read back.
pub parse_u64-decimal : (n : ℕ) → n < 2 ^ 64 → parse_u64 (decimal n) ≡ some n
parse_u64-decimal n h =
    parse_u64_digits (decimal n) (decimal_nonempty n) (decimal-All n)
    ∙ digits_of_decimal n u64_max (omega arith) (omega arith)

unsigned_digits : (text : List ℕ) → All IsDigit text → unsigned text ≡ text
unsigned_digits [] a = refl
unsigned_digits (b ∷ text) a = let range = a.0 in ground arith

parse_i64_plain :
    (text : List ℕ)
    → is_empty text ≡ false
    → All IsDigit text
    → parse_i64 text ≡ parse_digits (2 ^ 63 - 1) 0 text
unfolding parse_i64
parse_i64_plain [] h a = absurd (cc)
parse_i64_plain (b ∷ text) h a =
    let range = a.0 in
    let plain : nat_beq b 45 ≡ false = ground arith in
    rw plain (ap (parse_digits (2 ^ 63 - 1) 0) (unsigned_digits (b ∷ text) a))

parse_i64_minus :
    (text : List ℕ) (n : ℕ)
    → is_empty text ≡ false
    → parse_digits (2 ^ 63) 0 text ≡ some n
    → parse_i64 (45 ∷ text) ≡ some ((2 ^ 64 - n) % 2 ^ 64)
unfolding parse_i64
parse_i64_minus text n h e = rw (h, e) refl

-- An `i64` is printed and read back.
pub parse_i64-decimal_i64 : (n : ℕ) → n < 2 ^ 64 → parse_i64 (decimal_i64 n) ≡ some n
unfolding decimal_i64
parse_i64-decimal_i64 n h = elim (Bool-cases (ltb n (2 ^ 63))) [
  | inl small ↦
      let bound : n < 2 ^ 63 = ground arith in
      rw small (
        parse_i64_plain (decimal n) (decimal_nonempty n) (decimal-All n)
        ∙ digits_of_decimal n (2 ^ 63 - 1) (omega arith) (omega arith))
  | inr big ↦
      let bound : 2 ^ 63 ≤ n = ground arith in
      let digits = digits_of_decimal (2 ^ 64 - n) (2 ^ 63) (omega arith) (omega arith) in
      let back : (2 ^ 64 - (2 ^ 64 - n)) % 2 ^ 64 ≡ n = omega arith in
      rw big (
        parse_i64_minus (decimal (2 ^ 64 - n)) _ (decimal_nonempty (2 ^ 64 - n)) digits
        ∙ ap some back)
]
