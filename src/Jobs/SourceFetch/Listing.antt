-- ===== src/Jobs/SourceFetch/Listing.antt =====
-- The bytes that are hashed for a tree say which tree it is.
use cosaci.Prelude.{
  ℕ, zero, suc, ◌/◌, ◌%◌, ◌^◌, ◌<◌, ◌≡◌, refl, ap, sym, ◌∙◌, List, [], ◌∷◌, ◌++◌, arith, length,
  All,
}
use cosaci.Submission.{to_le_bytes}
use cosaci.Jobs.SourceFetch.{Row, listing}

length-to_le_bytes : (width n : ℕ) → length (to_le_bytes width n) ≡ width
length-to_le_bytes zero n = refl
length-to_le_bytes (suc width) n = ap suc (length-to_le_bytes width (n / 256))

head_injective : (x y : ℕ) (xs ys : List ℕ) → x ∷ xs ≡ y ∷ ys → (x ≡ y) × (xs ≡ ys)
head_injective x y xs ys e = ground arith

-- A number below `256 ^ width` is known from its bytes.
to_le_bytes_injective :
    (width n m : ℕ)
    → n < 256 ^ width
    → m < 256 ^ width
    → to_le_bytes width n ≡ to_le_bytes width m
    → n ≡ m
to_le_bytes_injective zero n m h k e = omega arith
to_le_bytes_injective (suc width) n m h k e =
    let (low, high) = head_injective (n % 256) (m % 256) _ _ e in
    let rest = to_le_bytes_injective width (n / 256) (m / 256) (omega arith) (omega arith) high in
    omega arith

-- Two ways to cut a text at one place.
append_injective :
    (xs ys us vs : List ℕ) → length xs ≡ length ys → xs ++ us ≡ ys ++ vs → (xs ≡ ys) × (us ≡ vs)
append_injective [] [] us vs h e = (refl, e)
append_injective [] (y ∷ ys) us vs h e = absurd (omega arith)
append_injective (x ∷ xs) [] us vs h e = absurd (omega arith)
append_injective (x ∷ xs) (y ∷ ys) us vs h e =
    let (first, more) = head_injective x y (xs ++ us) (ys ++ vs) e in
    let (rest, tail) = append_injective xs ys us vs (omega arith) more in (ground arith, tail)

-- A row as the walk makes it: a `u64` length, a `u32` mode, a hash of 32 bytes.
pub record IsRow (row : Row) : Type 0 where
  pub path_fits : length row.path < 2 ^ 64
  pub mode_fits : row.mode < 2 ^ 32
  pub hash_size : length row.blob_sha ≡ 32

-- Two lists of rows with 64-bit path lengths, 32-bit modes and hashes of 32 bytes are hashed as
-- the same bytes only if they are the same: no path, mode or content can pass for part of another
-- row.
pub listing_injective :
    (rows others : List Row)
    → All IsRow rows
    → All IsRow others
    → listing rows ≡ listing others
    → rows ≡ others
unfolding listing
listing_injective [] [] a b e = refl
listing_injective [] (o ∷ others) a b e = absurd (omega (arith, ap length e))
listing_injective (r ∷ rows) [] a b e = absurd (omega (arith, ap length e))
listing_injective (r ∷ rows) (o ∷ others) a b e =
    let (count, e₁) =
      append_injective (to_le_bytes 8 (length r.path)) (to_le_bytes 8 (length o.path)) _ _
        (length-to_le_bytes 8 (length r.path) ∙ sym (length-to_le_bytes 8 (length o.path))) e in
    let same_length =
      to_le_bytes_injective 8 (length r.path) (length o.path) (omega (arith, a.0.path_fits))
        (omega (arith, b.0.path_fits)) count in
    let (path, e₂) = append_injective r.path o.path _ _ same_length e₁ in
    let (mode_bytes, e₃) =
      append_injective (to_le_bytes 4 r.mode) (to_le_bytes 4 o.mode) _ _
        (length-to_le_bytes 4 r.mode ∙ sym (length-to_le_bytes 4 o.mode)) e₂ in
    let mode =
      to_le_bytes_injective 4 r.mode o.mode (omega (arith, a.0.mode_fits))
        (omega (arith, b.0.mode_fits)) mode_bytes in
    let (blob, e₄) =
      append_injective r.blob_sha o.blob_sha _ _ (a.0.hash_size ∙ sym b.0.hash_size) e₃ in
    let rest = listing_injective rows others a.1 b.1 e₄ in ground arith
