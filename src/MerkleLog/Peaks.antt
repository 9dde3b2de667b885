-- ===== src/MerkleLog/Peaks.antt =====
-- The peaks of a log of some length: complete subtrees, from the largest down, that share out its
-- entries.
use cosaci.Prelude.{
  pow_positive, quotient_unique, division, ℕ, zero, suc, ◌+◌, ◌*◌, ◌/◌, ◌%◌, ◌^◌, ◌≤◌, ◌<◌, ◌≡◌,
  List, [], ◌∷◌, arith, nat_beq, inl, inr, Bool-cases,
}
use cosaci.MerkleLog.{heights_below, peak_heights}

-- The bit above `q` and what lies below it.
remainder_split :
    (q b bit d r e : ℕ)
    → bit < 2
    → r < q
    → e < 2 * q
    → (2 * b + bit) * q + r ≡ d * (2 * q) + e
    → e ≡ bit * q + r
remainder_split q b zero d r e h k l same =
    let expand : (2 * b + 0) * q ≡ b * (2 * q) = grind arith in
    let quotient = quotient_unique (2 * q) b d r e (omega arith) l (omega arith) in grind arith
remainder_split q b (suc zero) d r e h k l same =
    let expand : (2 * b + 1) * q ≡ b * (2 * q) + q = grind arith in
    let quotient = quotient_unique (2 * q) b d (q + r) e (omega arith) l (omega arith) in
    grind arith
remainder_split q b (suc (suc more)) d r e h k l same = absurd (omega arith)

mod_split : (n q : ℕ) → 0 < q → n % (2 * q) ≡ (n / q % 2) * q + n % q
mod_split n q h =
    let (whole, small) = division n q h in
    let (whole', small') = division n (2 * q) (omega arith) in
    let halves : 2 * (n / q / 2) + n / q % 2 ≡ n / q = omega arith in
    remainder_split q (n / q / 2) (n / q % 2) (n / (2 * q)) (n % q) (n % (2 * q)) (omega arith)
      small small' (rw halves (omega arith))

-- The entries under peaks of these heights.
abbrev pub covered : List ℕ → ℕ
covered [] = 0
covered (h ∷ heights) = 2 ^ h + covered heights

covered-heights_below : (bits n : ℕ) → covered (heights_below bits n) ≡ n % 2 ^ bits
unfolding heights_below
covered-heights_below zero n = omega arith
covered-heights_below (suc h) n =
    let rest = covered-heights_below h n in
    let split = mod_split n (2 ^ h) (pow_positive h) in
    elim (Bool-cases (nat_beq (n / 2 ^ h % 2) 1)) [
      | inl odd ↦ ground (arith, rest, split)
      | inr even ↦ ground (arith, rest, split)
    ]

-- The heights go down, from below `bound`.
abbrev pub Descends : ℕ → List ℕ → Type 0
Descends bound [] = Unit
Descends bound (h ∷ heights) = (h < bound) × Descends h heights

Descends-weaken :
    (low high : ℕ) (heights : List ℕ) → low ≤ high → Descends low heights → Descends high heights
Descends-weaken low high [] h d = tt
Descends-weaken low high (k ∷ heights) h d = (omega arith, d.1)

heights_below-Descends : (bits n : ℕ) → Descends bits (heights_below bits n)
unfolding heights_below
heights_below-Descends zero n = tt
heights_below-Descends (suc h) n =
    let rest = heights_below-Descends h n in
    elim (Bool-cases (nat_beq (n / 2 ^ h % 2) 1)) [
      | inl odd ↦ rw odd (omega arith, rest)
      | inr even ↦ rw even (Descends-weaken h (suc h) (heights_below h n) (omega arith) rest)
    ]

-- The peaks of a log of fewer than 2 ^ 64 entries cover its entries exactly, and no two are of one
-- size.
pub peak_heights-covered :
    (n : ℕ) → n < 2 ^ 64 → (covered (peak_heights n) ≡ n) × Descends 64 (peak_heights n)
unfolding peak_heights
peak_heights-covered n h =
    let sum = covered-heights_below 64 n in (omega arith, heights_below-Descends 64 n)
