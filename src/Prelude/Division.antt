-- ===== src/Prelude/Division.antt =====
-- Division by a number that is not a literal.
use Prim.Native.Nat.{ℕ, zero, suc, ◌+◌, ◌*◌, ◌/◌, ◌%◌, ◌^◌, ◌<◌}
use mathlib.Core.Path.{◌≡◌, refl, ap}
use native.Mathlib.Omega.{arith}

pub quotient_unique : (q a b r s : ℕ) → r < q → s < q → a * q + r ≡ b * q + s → a ≡ b
quotient_unique q zero zero r s h k e = refl
quotient_unique q zero (suc b) r s h k e = absurd (omega arith)
quotient_unique q (suc a) zero r s h k e = absurd (omega arith)
quotient_unique q (suc a) (suc b) r s h k e = ap suc (quotient_unique q a b r s h k (omega arith))

pub division : (n q : ℕ) → 0 < q → (n / q * q + n % q ≡ n) × (n % q < q)
division n q h = omega arith

pub pow_positive : (h : ℕ) → 0 < 2 ^ h
pow_positive zero = omega arith
pow_positive (suc h) = let rest = pow_positive h in omega arith
