-- ===== src/Text/Joined.antt =====
-- Words joined by spaces, as a line of a file.
use cosaci.Prelude.{ℕ, ◌≡◌, refl, ap, ◌∙◌, Bool, true, false, ◌||◌, List, [], ◌∷◌, ◌++◌, arith, All}
use cosaci.Text.{
  is_empty, is_whitespace, is_ascii_whitespace, fields, trim, trim_start, trim_end, starts_with,
}
use cosaci.Text.Fields.{IsField, fields_last, fields-append}
use cosaci.Text.Lines.{IsLine}
use cosaci.Text.Numbers.{IsDigit}

abbrev pub joined : List (List ℕ) → List ℕ
joined [] = []
joined (w ∷ []) = w
joined (w ∷ v ∷ words) = w ++ (32 ∷ joined (v ∷ words))

-- Not empty, and without white space.
abbrev pub IsWord : List ℕ → Type 0
IsWord word = (is_empty word ≡ false) × All (λ b. is_whitespace b ≡ false) word

fields-joined :
    (sep : ℕ → Bool) (words : List (List ℕ))
    → sep 32 ≡ true
    → All (IsField sep) words
    → fields sep (joined words) ≡ words
fields-joined sep [] s a = unfold fields in refl
fields-joined sep (w ∷ []) s a = fields_last sep w a.0
fields-joined sep (w ∷ v ∷ words) s a =
    fields-append sep w 32 (joined (v ∷ words)) a.0 s
    ∙ ap (λ ws. w ∷ ws) (fields-joined sep (v ∷ words) s a.1)

All-ascii :
    (word : List ℕ)
    → All (λ b. is_whitespace b ≡ false) word
    → All (λ b. is_ascii_whitespace b ≡ false) word
All-ascii [] a = tt
All-ascii (b ∷ word) a = let inside = a.0 in (rw inside refl, All-ascii word a.1)

AreAsciiFields :
    (words : List (List ℕ)) → All IsWord words → All (IsField is_ascii_whitespace) words
AreAsciiFields [] a = tt
AreAsciiFields (w ∷ words) a = ((a.0.0, All-ascii w a.0.1), AreAsciiFields words a.1)

AreFields : (words : List (List ℕ)) → All IsWord words → All (IsField is_whitespace) words
AreFields [] a = tt
AreFields (w ∷ words) a = (a.0, AreFields words a.1)

-- The words are the fields of their line, either way of splitting it.
pub split_ascii-joined :
    (words : List (List ℕ)) → All IsWord words → fields is_ascii_whitespace (joined words) ≡ words
split_ascii-joined words a = fields-joined is_ascii_whitespace words refl (AreAsciiFields words a)

pub split-joined :
    (words : List (List ℕ)) → All IsWord words → fields is_whitespace (joined words) ≡ words
split-joined words a = fields-joined is_whitespace words refl (AreFields words a)

trim_end-append :
    (text tail : List ℕ)
    → is_empty tail ≡ false
    → trim_end tail ≡ tail
    → trim_end (text ++ tail) ≡ text ++ tail
unfolding trim_end
trim_end-append [] tail h e = e
trim_end-append (b ∷ text) tail h e =
    let rest = trim_end-append text tail h e in
    let full : is_empty (text ++ tail) ≡ false = nonempty text tail h in
    rw (rest, full) (ground arith)
  where
    nonempty : (text tail : List ℕ) → is_empty tail ≡ false → is_empty (text ++ tail) ≡ false
    nonempty [] tail h = h
    nonempty (b ∷ text) tail h = refl

trim_end_word : (word : List ℕ) → All (λ b. is_whitespace b ≡ false) word → trim_end word ≡ word
unfolding trim_end
trim_end_word [] a = refl
trim_end_word (b ∷ word) a = let inside = a.0 in rw (inside, trim_end_word word a.1) refl

joined_nonempty :
    (w : List ℕ) (words : List (List ℕ)) → IsWord w → is_empty (joined (w ∷ words)) ≡ false
joined_nonempty w [] a = a.0
joined_nonempty [] (v ∷ words) a = absurd (cc (a.0))
joined_nonempty (b ∷ w) (v ∷ words) a = refl

trim_end-joined :
    (words : List (List ℕ)) → All IsWord words → trim_end (joined words) ≡ joined words
trim_end-joined [] a = unfold trim_end in refl
trim_end-joined (w ∷ []) a = trim_end_word w a.0.1
trim_end-joined (w ∷ v ∷ words) a =
    let rest = trim_end-joined (v ∷ words) a.1 in
    let full = joined_nonempty v words a.1.0 in
    trim_end-append w (32 ∷ joined (v ∷ words)) refl
      (trim_end-append (32 ∷ []) (joined (v ∷ words)) full rest)

trim_start-joined :
    (words : List (List ℕ)) → All IsWord words → trim_start (joined words) ≡ joined words
unfolding trim_start
trim_start-joined [] a = refl
trim_start-joined ([] ∷ words) a = absurd (cc (a.0.0))
trim_start-joined ((b ∷ w) ∷ []) a = let inside = a.0.1.0 in rw inside refl
trim_start-joined ((b ∷ w) ∷ v ∷ words) a = let inside = a.0.1.0 in rw inside refl

-- A line of words has no white space to trim.
pub trim-joined : (words : List (List ℕ)) → All IsWord words → trim (joined words) ≡ joined words
unfolding trim
trim-joined words a = ap trim_start (trim_end-joined words a) ∙ trim_start-joined words a

IsLine-append : (text tail : List ℕ) → IsLine text → IsLine tail → IsLine (text ++ tail)
IsLine-append [] tail a b = b
IsLine-append (x ∷ text) tail a b = (a.0, IsLine-append text tail a.1 b)

IsLine-word : (word : List ℕ) → All (λ b. is_whitespace b ≡ false) word → IsLine word
IsLine-word [] a = tt
IsLine-word (b ∷ word) a = let inside = a.0 in ((ground arith), IsLine-word word a.1)

pub joined-IsLine : (words : List (List ℕ)) → All IsWord words → IsLine (joined words)
joined-IsLine [] a = tt
joined-IsLine (w ∷ []) a = IsLine-word w a.0.1
joined-IsLine (w ∷ v ∷ words) a =
    IsLine-append w (32 ∷ joined (v ∷ words)) (IsLine-word w a.0.1)
      (refl, joined-IsLine (v ∷ words) a.1)

All-digits : (word : List ℕ) → All IsDigit word → All (λ b. is_whitespace b ≡ false) word
All-digits [] a = tt
All-digits (b ∷ word) a = let range = a.0 in ((ground arith), All-digits word a.1)

-- A number is a word.
pub digits-IsWord : (word : List ℕ) → is_empty word ≡ false → All IsDigit word → IsWord word
digits-IsWord word h a = (h, All-digits word a)

-- A line that begins with a number is not skipped.
pub joined_read :
    (w : List ℕ) (words : List (List ℕ))
    → is_empty w ≡ false
    → All IsDigit w
    → (is_empty (joined (w ∷ words)) || starts_with 35 (joined (w ∷ words))) ≡ false
joined_read [] words h a = absurd (cc)
joined_read (b ∷ w) [] h a = let range = a.0 in ground arith
joined_read (b ∷ w) (v ∷ words) h a = let range = a.0 in ground arith
