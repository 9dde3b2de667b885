-- ===== src/RecordFile/Words.antt =====
-- The first word of a line. A revocation looks for it in the line without the white space in
-- front; the loaders look in the trimmed line, and split it at ASCII white space.
use cosaci.Prelude.{
  arith, ◌&&◌, if◌then◌else◌, some, ◌+◌, ◌*◌, ◌-◌, leb, nat_beq, u64_max, ◌⊎◌, ℕ, ◌≡◌, refl, ap,
  sym, ◌∙◌, subst, Bool, true, false, List, [], ◌∷◌, All, Bool-cases, inl, inr, if◌then◌else◌,
}
use cosaci.Text.{
  parse_digits, parse_u64, is_digit, is_empty, fields, onto_first, is_whitespace,
  is_ascii_whitespace, trim, trim_start, trim_end, split_whitespace, split_ascii_whitespace,
}
use cosaci.Text.Fields.{fields_inside, fields_end, fields_single}
use cosaci.RecordFile.{first_of, is_skipped}

-- What comes before the first separator.
prefix : (ℕ → Bool) → List ℕ → List ℕ
prefix sep [] = []
prefix sep (b ∷ text) = let rest = prefix sep text in if sep b then [] else b ∷ rest

first_of-onto_first :
    (b : ℕ) (words : List (List ℕ)) → first_of (onto_first b words) ≡ b ∷ first_of words
first_of-onto_first b [] = refl
first_of-onto_first b (w ∷ words) = refl

module _ (sep : ℕ → Bool) where
  prefix_inside :
      (b : ℕ) (text : List ℕ) → sep b ≡ false → prefix sep (b ∷ text) ≡ b ∷ prefix sep text
  unfolding prefix
  prefix_inside b text h = rw h refl

  prefix_end : (b : ℕ) (text : List ℕ) → sep b ≡ true → prefix sep (b ∷ text) ≡ []
  unfolding prefix
  prefix_end b text h = rw h refl

  -- The first word of a text that begins with one.
  first_of-fields :
      (b : ℕ) (text : List ℕ)
      → sep b ≡ false
      → first_of (fields sep (b ∷ text)) ≡ b ∷ prefix sep text
  first_of-fields b [] h = ap first_of (fields_single sep b h) ∙ (unfold prefix in refl)
  first_of-fields b (c ∷ text) h = elim (Bool-cases (sep c)) [
    | inl e ↦
        ap first_of (fields_end sep b c text h e) ∙ ap (λ w. b ∷ w) (sym (prefix_end c text e))
    | inr e ↦
        ap first_of (fields_inside sep b c text h e)
        ∙ first_of-onto_first b (fields sep (c ∷ text))
        ∙ ap (λ w. b ∷ w) (first_of-fields c text e ∙ sym (prefix_inside c text e))
  ]

-- No white space inside.
abbrev pub IsWord : List ℕ → Type 0
IsWord word = All (λ b. is_whitespace b ≡ false) word

trim_end_inside :
    (b : ℕ) (text : List ℕ) → is_whitespace b ≡ false → trim_end (b ∷ text) ≡ b ∷ trim_end text
unfolding trim_end
trim_end_inside b text h = rw h refl

ascii_inside : (b : ℕ) → is_whitespace b ≡ false → is_ascii_whitespace b ≡ false
ascii_inside b h = rw h refl

prefix_white :
    (b : ℕ) (text : List ℕ)
    → is_whitespace b ≡ true
    → IsWord (prefix is_ascii_whitespace (trim_end (b ∷ text)))
    → prefix is_ascii_whitespace (trim_end (b ∷ text)) ≡ []
unfolding trim_end prefix
prefix_white b text h = elim (Bool-cases (is_empty (trim_end text))) [
  | inl e ↦ rw (h, e) (λ w. refl)
  | inr e ↦ elim (Bool-cases (is_ascii_whitespace b)) [
    | inl a ↦ rw (h, e, a) (λ w. refl)
    | inr a ↦ rw (h, e, a) (λ w. absurd (cc (w.0, h)))
  ]
]

-- A word of the trimmed text that has no white space is one of the text.
prefix-trim_end :
    (text : List ℕ)
    → IsWord (prefix is_ascii_whitespace (trim_end text))
    → prefix is_whitespace text ≡ prefix is_ascii_whitespace (trim_end text)
prefix-trim_end [] w = unfold prefix trim_end in refl
prefix-trim_end (b ∷ text) w = elim (Bool-cases (is_whitespace b)) [
  | inr h ↦
      let ends = trim_end_inside b text h in
      let word = prefix_inside is_ascii_whitespace b (trim_end text) (ascii_inside b h) in
      let more = subst (λ t. IsWord (prefix is_ascii_whitespace t)) ends w in
      let (_, rest) = subst IsWord word more in
      prefix_inside is_whitespace b text h
      ∙ ap (λ t. b ∷ t) (prefix-trim_end text rest)
      ∙ sym word
      ∙ ap (prefix is_ascii_whitespace) (sym ends)
  | inl h ↦ prefix_end is_whitespace b text h ∙ sym (prefix_white b text h w)
]

trim_start-cases :
    (line : List ℕ)
    → (trim_start line ≡ [])
      ⊎ ((b : ℕ) × (text : List ℕ) × (trim_start line ≡ b ∷ text) × (is_whitespace b ≡ false))
unfolding trim_start
trim_start-cases [] = inl refl
trim_start-cases (b ∷ line) = elim (Bool-cases (is_whitespace b)) [
  | inl h ↦ rw h (trim_start-cases line)
  | inr h ↦ rw h (inr (b, line, refl, h))
]

trim_start-trim_end : (line : List ℕ) → trim_start (trim_end line) ≡ trim_end (trim_start line)
unfolding trim_start trim_end
trim_start-trim_end [] = refl
trim_start-trim_end (b ∷ line) = elim (Bool-cases (is_whitespace b)) [
  | inr h ↦ rw h (rw h refl)
  | inl h ↦ elim (Bool-cases (is_empty (trim_end line))) [
    | inl e ↦
        rw (h, e) (ap trim_start (sym (empty-nil (trim_end line) e)) ∙ trim_start-trim_end line)
    | inr e ↦ rw (h, e) (rw h (trim_start-trim_end line))
  ]
]
  where
    empty-nil : (text : List ℕ) → is_empty text ≡ true → text ≡ []
    empty-nil [] e = refl
    empty-nil (b ∷ text) e = absurd (cc)

-- The two ways to the first word agree, where that has no white space, such as a number.
pub first_word :
    (line word : List ℕ)
    → is_empty (trim line) ≡ false
    → first_of (split_ascii_whitespace (trim line)) ≡ word
    → IsWord word
    → first_of (split_whitespace (trim_start line)) ≡ word
unfolding trim
first_word line word h e w =
    let swap = trim_start-trim_end line in
    elim (trim_start-cases line) [
      | inl none_left ↦
          let nothing : trim_end [] ≡ [] = unfold trim_end in refl in
          let blank = ap is_empty (swap ∙ ap trim_end none_left ∙ nothing) in absurd (cc (h))
      | inr (b, text, s, inside) ↦
          let ends = trim_end_inside b text inside in
          let shape : trim_start (trim_end line) ≡ b ∷ trim_end text =
            swap ∙ ap trim_end s ∙ ends in
          let found : b ∷ prefix is_ascii_whitespace (trim_end text) ≡ word =
            sym (first_of-fields is_ascii_whitespace b (trim_end text) (ascii_inside b inside))
            ∙ ap (λ t. first_of (split_ascii_whitespace t)) (sym shape)
            ∙ e in
          let (_, rest) = subst IsWord (sym found) w in
          ap (λ t. first_of (split_whitespace t)) s
          ∙ first_of-fields is_whitespace b text inside
          ∙ ap (λ t. b ∷ t) (prefix-trim_end text rest)
          ∙ found
    ]

-- A line that is skipped when it is read stays when a record is removed.
pub is_skipped-trim : (line : List ℕ) → is_skipped (trim_start line) ≡ is_skipped (trim line)
unfolding trim
is_skipped-trim line =
    let swap = trim_start-trim_end line in
    elim (trim_start-cases line) [
      | inl none_left ↦
          let nothing : trim_end [] ≡ [] = unfold trim_end in refl in
          ap is_skipped none_left ∙ sym (ap is_skipped (swap ∙ ap trim_end none_left ∙ nothing))
      | inr (b, text, s, inside) ↦
          ap is_skipped s
          ∙ sym (ap is_skipped (swap ∙ ap trim_end s ∙ trim_end_inside b text inside))
    ]

parse_digits-IsWord : (top n m : ℕ) (word : List ℕ) → parse_digits top n word ≡ some m → IsWord word
unfolding parse_digits
parse_digits-IsWord top n m [] e = tt
parse_digits-IsWord top n m (b ∷ word) e = elim (Bool-cases (is_digit b)) [
  | inr h ↦ absurd (ground arith)
  | inl h ↦ elim (Bool-cases (leb (n * 10 + (b - 48)) top)) [
    | inr k ↦ absurd (ground arith)
    | inl k ↦
        let white : is_whitespace b ≡ false = ground arith in
        (white, parse_digits-IsWord top (n * 10 + (b - 48)) m word (rw (h, k) at e))
  ]
]

-- The text of a number is a word.
pub parse_u64-IsWord : (n : ℕ) (word : List ℕ) → parse_u64 word ≡ some n → IsWord word
unfolding parse_u64
parse_u64-IsWord n [] e = tt
parse_u64-IsWord n (b ∷ word) e =
    elim (Bool-cases (nat_beq b 43 && (if is_empty word then false else true))) [
      | inl h ↦
          let plus : is_whitespace b ≡ false = ground arith in
          (plus, parse_digits-IsWord u64_max 0 n word (rw h at e))
      | inr h ↦ parse_digits-IsWord u64_max 0 n (b ∷ word) (rw h at e)
    ]
