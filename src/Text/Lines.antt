-- ===== src/Text/Lines.antt =====
-- The lines of a text that was written line by line.
use cosaci.Prelude.{
  sym, subst, ℕ, ◌≡◌, refl, ap, ◌∙◌, ◌⊎◌, true, false, ◌&&◌, List, [], ◌∷◌, ◌++◌, arith, All,
  Bool-cases, inl, inr, nat_beq, if◌then◌else◌,
}
use cosaci.Text.{
  is_empty, lines, onto_first, starts_with, ends_with, trim, trim_start, trim_end, is_whitespace,
}

abbrev pub IsLine : List ℕ → Type 0
IsLine line = All (λ b. nat_beq b 10 ≡ false) line

-- A line without a carriage return at its end.
abbrev pub strip_cr : List ℕ → List ℕ
strip_cr [] = []
strip_cr (b ∷ line) = if nat_beq b 13 && is_empty line then [] else b ∷ strip_cr line

pub lines_nonempty : (b : ℕ) (text : List ℕ) → is_empty (lines (b ∷ text)) ≡ false
unfolding lines
lines_nonempty b [] = elim (Bool-cases (nat_beq b 10)) [
  | inl e ↦ rw e refl
  | inr e ↦ elim (Bool-cases (nat_beq b 13)) [ inl f ↦ rw (e, f) refl | inr f ↦ rw (e, f) refl ]
]
lines_nonempty b (c ∷ text) = ground (arith, lines_nonempty c text)

lines_inside :
    (b c : ℕ) (text : List ℕ)
    → nat_beq b 10 ≡ false
    → nat_beq c 10 ≡ false
    → lines (b ∷ c ∷ text) ≡ onto_first b (lines (c ∷ text))
unfolding lines
lines_inside b c text inside next = elim (Bool-cases (nat_beq b 13)) [
  | inl e ↦ rw (inside, e, next) refl
  | inr e ↦ rw (inside, e) refl
]

lines_end :
    (b : ℕ) (text : List ℕ)
    → nat_beq b 10 ≡ false
    → lines (b ∷ 10 ∷ text) ≡ strip_cr (b ∷ []) ∷ lines text
unfolding lines
lines_end b text inside = elim (Bool-cases (nat_beq b 13)) [
  | inl e ↦ rw (inside, e) refl
  | inr e ↦ rw (inside, e) refl
]

onto_first-strip_cr :
    (b c : ℕ) (line : List ℕ) (ls : List (List ℕ))
    → onto_first b (strip_cr (c ∷ line) ∷ ls) ≡ strip_cr (b ∷ c ∷ line) ∷ ls
onto_first-strip_cr b c line ls = elim (Bool-cases (nat_beq b 13)) [
  | inl e ↦ rw e refl
  | inr e ↦ rw e refl
]

-- A written line is read back, but for a carriage return at its end.
pub lines_first :
    (line text : List ℕ) → IsLine line → lines (line ++ (10 ∷ text)) ≡ strip_cr line ∷ lines text
lines_first [] text a = unfold lines in refl
lines_first (b ∷ []) text a = lines_end b text a.0
lines_first (b ∷ c ∷ line) text a =
    lines_inside b c (line ++ (10 ∷ text)) a.0 a.1.0
    ∙ ap (onto_first b) (lines_first (c ∷ line) text a.1)
    ∙ onto_first-strip_cr b c line (lines text)

onto_first-append :
    (b : ℕ) (ls more : List (List ℕ))
    → is_empty ls ≡ false
    → onto_first b (ls ++ more) ≡ onto_first b ls ++ more
onto_first-append b [] more h = absurd (cc)
onto_first-append b (l ∷ ls) more h = refl

-- The text is empty or its last line is ended.
abbrev pub IsEnded : List ℕ → Type 0
IsEnded text = (is_empty text ≡ true) ⊎ (ends_with 10 text ≡ true)

-- What follows the end of a line is read on its own.
pub lines-append :
    (text more : List ℕ) → IsEnded text → lines (text ++ more) ≡ lines text ++ lines more
unfolding lines
lines-append [] more h = refl
lines-append (b ∷ []) more (inl h) = absurd (cc)
lines-append (b ∷ []) more (inr h) = rw h refl
lines-append (b ∷ c ∷ text) more (inl h) = absurd (cc)
lines-append (b ∷ c ∷ text) more (inr h) =
    let rest : lines ((c ∷ text) ++ more) ≡ lines (c ∷ text) ++ lines more =
      lines-append (c ∷ text) more (inr h) in
    let some_line = lines_nonempty c text in
    let onto = onto_first-append b (lines (c ∷ text)) (lines more) some_line in
    elim (Bool-cases (nat_beq b 10)) [
      | inl e ↦ rw (e, rest) refl
      | inr e ↦ elim (Bool-cases (nat_beq b 13 && starts_with 10 (c ∷ text))) [
        | inl f ↦ rw (e, f, rest) refl
        | inr f ↦ rw (e, f, rest, onto) refl
      ]
    ]

onto_first-All :
    (b : ℕ) (ls : List (List ℕ))
    → nat_beq b 10 ≡ false
    → All IsLine ls
    → All IsLine (onto_first b ls)
onto_first-All b [] e a = ((e, tt), tt)
onto_first-All b (l ∷ ls) e a = ((e, a.0), a.1)

-- No line has a line feed.
pub lines-All : (text : List ℕ) → All IsLine (lines text)
unfolding lines
lines-All [] = tt
lines-All (b ∷ text) = elim (Bool-cases (nat_beq b 10)) [
  | inl e ↦ rw e (tt, lines-All text)
  | inr e ↦ elim (Bool-cases (nat_beq b 13 && starts_with 10 text)) [
    | inl f ↦ rw (e, f) (lines-All text)
    | inr f ↦ rw (e, f) (onto_first-All b (lines text) e (lines-All text))
  ]
]

pub trim_end-strip_cr : (line : List ℕ) → trim_end (strip_cr line) ≡ trim_end line
unfolding trim_end
trim_end-strip_cr [] = refl
trim_end-strip_cr (b ∷ []) = elim (Bool-cases (nat_beq b 13)) [
  | inl e ↦ let white : is_whitespace b ≡ true = ground arith in rw (e, white) refl
  | inr e ↦ rw e refl
]
trim_end-strip_cr (b ∷ c ∷ line) =
    let rest = trim_end-strip_cr (c ∷ line) in
    elim (Bool-cases (nat_beq b 13)) [ inl e ↦ rw (e, rest) refl | inr e ↦ rw (e, rest) refl ]

-- A carriage return at the end of a line is no part of what is trimmed.
pub trim-strip_cr : (line : List ℕ) → trim (strip_cr line) ≡ trim line
unfolding trim
trim-strip_cr line = ap trim_start (trim_end-strip_cr line)

-- Lines that differ in the white space at their ends only.
abbrev pub SameLines : List (List ℕ) → List (List ℕ) → Type 0
SameLines [] [] = Unit
SameLines [] (m ∷ ms) = ⊥
SameLines (l ∷ ls) [] = ⊥
SameLines (l ∷ ls) (m ∷ ms) = (trim_end l ≡ trim_end m) × SameLines ls ms

pub SameLines-refl : (ls : List (List ℕ)) → SameLines ls ls
SameLines-refl [] = tt
SameLines-refl (l ∷ ls) = (refl, SameLines-refl ls)

SameLines-onto_first :
    (b : ℕ) (ls ms : List (List ℕ))
    → SameLines ls ms
    → SameLines (onto_first b ls) (onto_first b ms)
unfolding trim_end
SameLines-onto_first b [] [] h = (refl, tt)
SameLines-onto_first b [] (m ∷ ms) h = absurd h
SameLines-onto_first b (l ∷ ls) [] h = absurd h
SameLines-onto_first b (l ∷ ls) (m ∷ ms) h = (rw h.0 refl, h.1)

-- A line feed after the last line, if it has none, ends that line.
pub lines_ended :
    (text : List ℕ)
    → is_empty text ≡ false
    → ends_with 10 text ≡ false
    → SameLines (lines (text ++ (10 ∷ []))) (lines text)
unfolding lines
lines_ended [] h k = absurd (cc)
lines_ended (b ∷ []) h k =
    let one : lines (b ∷ []) ≡ (b ∷ []) ∷ [] = unfold lines in rw k (ground arith) in
    subst (λ ls. SameLines ls (lines (b ∷ []))) (sym (lines_end b [] k))
      (subst (SameLines (strip_cr (b ∷ []) ∷ [])) (sym one) (trim_end-strip_cr (b ∷ []), tt))
lines_ended (b ∷ c ∷ text) h k =
    let rest : SameLines (lines ((c ∷ text) ++ (10 ∷ []))) (lines (c ∷ text)) =
      lines_ended (c ∷ text) refl k in
    elim (Bool-cases (nat_beq b 10)) [
      | inl e ↦ rw e (refl, rest)
      | inr e ↦ elim (Bool-cases (nat_beq b 13 && starts_with 10 (c ∷ text))) [
        | inl f ↦ rw (e, f) rest
        | inr f ↦ rw (e, f) (SameLines-onto_first b _ _ rest)
      ]
    ]
