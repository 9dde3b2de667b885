-- ===== src/Jobs/Reading.antt =====
-- What is captured of a pipe is the beginning of what the child wrote, however it arrived.
use cosaci.Prelude.{
  ℕ, zero, suc, ◌-◌, ◌≤◌, ◌≡◌, refl, ap, sym, ◌∙◌, Option, none, some, List, [], ◌∷◌, ◌++◌, arith,
  min, if◌then◌else◌, ltb, length, take, append_nil, append_assoc, u64_max, saturating_add,
  Bool-cases, inl, inr, Option-cases, subst, ◌≢◌,
}
use cosaci.Jobs.Native.{read_loop, read_capped}

-- What is done to bytes, if there are any.
abbrev pub on_some : (List ℕ → List ℕ) → Option (List ℕ) → Option (List ℕ)
on_some f none = none
on_some f (some bytes) = some (f bytes)

-- The bytes up to the end or the first error; none while the pipe is open.
unfoldable pub contents : List (Option (List ℕ)) → Option (List ℕ)
contents [] = none
contents (none ∷ reads) = some []
contents (some [] ∷ reads) = some []
contents (some (b ∷ chunk) ∷ reads) = on_some (λ rest. (b ∷ chunk) ++ rest) (contents reads)

take_empty : (n : ℕ) → take {A = ℕ} n [] ≡ []
take_empty zero = refl
take_empty (suc n) = refl

take_split :
    (n : ℕ) (xs ys : List ℕ)
    → take n (xs ++ ys) ≡ take (min n (length xs)) xs ++ take (n - length xs) ys
take_split n [] ys = let same : n - 0 ≡ n = omega arith in rw (take_empty (min n 0), same) refl
take_split zero (x ∷ xs) ys = ground arith
take_split (suc n) (x ∷ xs) ys = ground (arith, take_split n xs ys)

take_short : (n : ℕ) (xs : List ℕ) → length (take n xs) ≤ n
take_short zero xs = ground arith
take_short (suc n) [] = ground arith
take_short (suc n) (x ∷ xs) = ground (arith, take_short n xs)

nothing_more : (n : ℕ) (out : List ℕ) → out ≡ out ++ take n []
nothing_more n out = sym (ap (λ t. out ++ t) (take_empty n) ∙ append_nil out)

-- The room that is left after a read; the total saturates above the limit only.
room : (limit total n : ℕ) → limit ≤ u64_max → limit - saturating_add total n ≡ limit - total - n
room limit total n h = ground arith

after_read : (limit total : ℕ) → List ℕ → List ℕ → List ℕ
after_read limit total out chunk =
    if ltb total limit then out ++ take (min (limit - total) (length chunk)) chunk else out

read_loop_step :
    (limit total b : ℕ) (out chunk : List ℕ) (reads : List (Option (List ℕ)))
    → read_loop limit total out (some (b ∷ chunk) ∷ reads)
      ≡ read_loop limit
          (saturating_add total (length (b ∷ chunk)))
          (after_read limit total out (b ∷ chunk))
          reads
unfolding read_loop after_read
read_loop_step limit total b out chunk reads = ground arith

after_read-take :
    (limit total : ℕ) (out chunk more : List ℕ)
    → limit ≤ u64_max
    → after_read limit total out chunk ++ take (limit - saturating_add total (length chunk)) more
      ≡ out ++ take (limit - total) (chunk ++ more)
unfolding after_read
after_read-take limit total out chunk more h = elim (Bool-cases (ltb total limit)) [
  | inl open_room ↦ rw open_room (
      append_assoc out _ _
      ∙ ap (λ k. out ++ (take (min (limit - total) (length chunk)) chunk ++ take k more))
          (room limit total (length chunk) h)
      ∙ ap (λ t. out ++ t) (sym (take_split (limit - total) chunk more)))
  | inr full ↦
      let closed : limit - total ≡ 0 = ground arith in
      let shut : limit - saturating_add total (length chunk) ≡ 0 = ground arith in
      rw (full, shut, closed) refl
]

read_loop-contents :
    (limit total : ℕ) (out : List ℕ) (reads : List (Option (List ℕ)))
    → limit ≤ u64_max
    → read_loop limit total out reads
      ≡ on_some (λ all. out ++ take (limit - total) all) (contents reads)
unfolding read_loop contents
read_loop-contents limit total out [] h = refl
read_loop-contents limit total out (none ∷ reads) h = ap some (nothing_more (limit - total) out)
read_loop-contents limit total out (some [] ∷ reads) h = ap some (nothing_more (limit - total) out)
read_loop-contents limit total out (some (b ∷ chunk) ∷ reads) h =
    let later =
      read_loop_step limit total b out chunk reads
      ∙ read_loop-contents limit (saturating_add total (length (b ∷ chunk)))
          (after_read limit total out (b ∷ chunk)) reads h in
    elim (Option-cases (contents reads)) [
      | inl open_pipe ↦ rw open_pipe (rw open_pipe at later)
      | inr (all, e) ↦
          rw e (rw e at later ∙ ap some (after_read-take limit total out (b ∷ chunk) all h))
    ]

-- The capture is the first `limit` bytes of what was written, however the pipe cut it into reads.
pub read_capped-take :
    (reads : List (Option (List ℕ))) (limit : ℕ)
    → limit ≤ u64_max
    → read_capped reads limit ≡ on_some (take limit) (contents reads)
unfolding read_capped
read_capped-take reads limit h =
    let whole : limit - 0 ≡ limit = omega arith in
    read_loop-contents limit 0 [] reads h ∙ ap (λ k. on_some (take k) (contents reads)) whole

pub length-read_capped :
    (reads : List (Option (List ℕ))) (limit : ℕ) (out : List ℕ)
    → limit ≤ u64_max
    → read_capped reads limit ≡ some out
    → length out ≤ limit
length-read_capped reads limit out h e =
    let known = read_capped-take reads limit h in
    elim (Option-cases (contents reads)) [
      | inl open_pipe ↦ absurd (cc)
      | inr (all, c) ↦
          let same : take limit all ≡ out = ground (arith, known, c) in
          subst (λ bytes. length bytes ≤ limit) same (take_short limit all)
    ]

-- The reader of a pipe that closes returns.
pub read_capped_closed :
    (reads : List (Option (List ℕ))) (limit : ℕ)
    → limit ≤ u64_max
    → contents reads ≢ none
    → (out : List ℕ) × (read_capped reads limit ≡ some out)
read_capped_closed reads limit h closes = elim (Option-cases (contents reads)) [
  | inl open_pipe ↦ absurd (closes open_pipe)
  | inr (all, c) ↦ (take limit all, read_capped-take reads limit h ∙ ap (on_some (take limit)) c)
]
