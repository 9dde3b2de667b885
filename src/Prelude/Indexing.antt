-- ===== src/Prelude/Indexing.antt =====
-- `v[i]` as a read that may fail and as a write, and `u64` bits.
use Prim.Native.Nat.{◌≤◌, ◌-◌, ℕ, zero, suc, ◌+◌, ◌*◌, ◌/◌, ◌%◌, ◌<◌}
use mathlib.Core.Path.{◌≡◌, refl, ap}
use mathlib.Core.Option.{Option, none, some}
use mathlib.Core.List.{List, [], ◌∷◌, ◌++◌}
use native.Mathlib.Omega.{arith}
use cosaci.Prelude.Tests.{if◌then◌else◌}
use cosaci.Prelude.Equality.{nat_beq, nat_beq_iff}
use cosaci.Prelude.Lists.{length}

-- `xs.get(i)`
abbrev pub get_elem? {ℓ} : {A : Type ℓ} → List A → ℕ → Option A
get_elem? [] i = none
get_elem? (x ∷ xs) zero = some x
get_elem? (x ∷ xs) (suc i) = get_elem? xs i

-- `xs[i] = y`
abbrev pub set_elem {ℓ} : {A : Type ℓ} → List A → ℕ → A → List A
set_elem [] i y = []
set_elem (x ∷ xs) zero y = y ∷ xs
set_elem (x ∷ xs) (suc i) y = x ∷ set_elem xs i y

-- `vec![x; n]`
abbrev pub replicate {ℓ} : {A : Type ℓ} → ℕ → A → List A
replicate zero x = []
replicate (suc n) x = x ∷ replicate n x

module _ {ℓ} {A : Type ℓ} where
  pub length-set_elem : (xs : List A) (i : ℕ) (y : A) → length (set_elem xs i y) ≡ length xs
  length-set_elem [] i y = refl
  length-set_elem (x ∷ xs) zero y = refl
  length-set_elem (x ∷ xs) (suc i) y = ground (arith, length-set_elem xs i y)

  pub length-replicate : (n : ℕ) (x : A) → length (replicate n x) ≡ n
  length-replicate zero x = refl
  length-replicate (suc n) x = ground (arith, length-replicate n x)

  pub get_elem?_in : (xs : List A) (i : ℕ) → i < length xs → (x : A) × (get_elem? xs i ≡ some x)
  get_elem?_in [] i h = absurd (omega arith)
  get_elem?_in (x ∷ xs) zero h = (x, refl)
  get_elem?_in (x ∷ xs) (suc i) h = get_elem?_in xs i (omega arith)

  pub get_elem?-set_elem :
      (xs : List A) (i j : ℕ) (y : A)
      → i < length xs
      → get_elem? (set_elem xs i y) j ≡ (if nat_beq i j then some y else get_elem? xs j)
  get_elem?-set_elem [] i j y h = absurd (omega arith)
  get_elem?-set_elem (x ∷ xs) zero zero y h = refl
  get_elem?-set_elem (x ∷ xs) zero (suc j) y h = ground arith
  get_elem?-set_elem (x ∷ xs) (suc i) zero y h = ground arith
  get_elem?-set_elem (x ∷ xs) (suc i) (suc j) y h = ground (
    arith,
    get_elem?-set_elem xs i j y (omega arith),
    nat_beq_iff i j,
    nat_beq_iff (suc i) (suc j),
  )

  pub get_elem?-replicate : (n i : ℕ) (x y : A) → get_elem? (replicate n x) i ≡ some y → x ≡ y
  get_elem?-replicate zero i x y h = absurd (cc)
  get_elem?-replicate (suc n) zero x y h = ground arith
  get_elem?-replicate (suc n) (suc i) x y h = get_elem?-replicate n i x y h

-- The exclusive or of the `bits` lowest bits.
abbrev pub xor_bits : ℕ → ℕ → ℕ → ℕ
xor_bits zero a b = 0
xor_bits (suc bits) a b = (a + b) % 2 + 2 * xor_bits bits (a / 2) (b / 2)

-- `xs[..n]` and `xs[n..]`, as far as they go.
abbrev pub take {ℓ} : {A : Type ℓ} → ℕ → List A → List A
take zero xs = []
take (suc n) [] = []
take (suc n) (x ∷ xs) = x ∷ take n xs

abbrev pub drop {ℓ} : {A : Type ℓ} → ℕ → List A → List A
drop zero xs = xs
drop (suc n) [] = []
drop (suc n) (x ∷ xs) = drop n xs

module _ {ℓ} {A : Type ℓ} where
  pub take-append : (n : ℕ) (xs ys : List A) → n ≤ length xs → take n (xs ++ ys) ≡ take n xs
  take-append zero xs ys h = refl
  take-append (suc n) [] ys h = absurd (omega arith)
  take-append (suc n) (x ∷ xs) ys h = ap (λ zs. x ∷ zs) (take-append n xs ys (omega arith))

  pub drop-append : (n : ℕ) (xs ys : List A) → n ≤ length xs → drop n (xs ++ ys) ≡ drop n xs ++ ys
  drop-append zero xs ys h = refl
  drop-append (suc n) [] ys h = absurd (omega arith)
  drop-append (suc n) (x ∷ xs) ys h = drop-append n xs ys (omega arith)

  pub length-take : (n : ℕ) (xs : List A) → n ≤ length xs → length (take n xs) ≡ n
  length-take zero xs h = refl
  length-take (suc n) [] h = absurd (omega arith)
  length-take (suc n) (x ∷ xs) h = ground (arith, length-take n xs (omega arith))

  pub length-drop : (n : ℕ) (xs : List A) → length (drop n xs) ≡ length xs - n
  length-drop zero xs = omega arith
  length-drop (suc n) [] = omega arith
  length-drop (suc n) (x ∷ xs) = omega (arith, length-drop n xs)

  pub take_whole : (xs ys : List A) (n : ℕ) → length xs ≡ n → take n (xs ++ ys) ≡ xs
  take_whole [] ys zero h = refl
  take_whole [] ys (suc n) h = absurd (omega arith)
  take_whole (x ∷ xs) ys zero h = absurd (omega arith)
  take_whole (x ∷ xs) ys (suc n) h = ap (λ zs. x ∷ zs) (take_whole xs ys n (omega arith))

  pub drop_whole : (xs ys : List A) (n : ℕ) → length xs ≡ n → drop n (xs ++ ys) ≡ ys
  drop_whole [] ys zero h = refl
  drop_whole [] ys (suc n) h = absurd (omega arith)
  drop_whole (x ∷ xs) ys zero h = absurd (omega arith)
  drop_whole (x ∷ xs) ys (suc n) h = drop_whole xs ys n (omega arith)

  pub get_elem?-take : (n i : ℕ) (xs : List A) → i < n → get_elem? (take n xs) i ≡ get_elem? xs i
  get_elem?-take zero i xs h = absurd (omega arith)
  get_elem?-take (suc n) i [] h = refl
  get_elem?-take (suc n) zero (x ∷ xs) h = refl
  get_elem?-take (suc n) (suc i) (x ∷ xs) h = get_elem?-take n i xs (omega arith)

pub take-drop {ℓ} : {A : Type ℓ} (n : ℕ) (xs : List A) → take n xs ++ drop n xs ≡ xs
take-drop zero xs = refl
take-drop (suc n) [] = refl
take-drop (suc n) (x ∷ xs) = ap (λ ys. x ∷ ys) (take-drop n xs)
