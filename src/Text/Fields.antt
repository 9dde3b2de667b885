-- ===== src/Text/Fields.antt =====
-- The fields of a text that was joined with separators.
use cosaci.Prelude.{ℕ, ◌≡◌, refl, ap, ◌∙◌, Bool, true, false, List, [], ◌∷◌, ◌++◌, All}
use cosaci.Text.{is_empty, fields, onto_first}

-- A field: not empty, and without a separator.
abbrev pub IsField : (ℕ → Bool) → List ℕ → Type 0
IsField sep word = (is_empty word ≡ false) × All (λ b. sep b ≡ false) word

module _ (sep : ℕ → Bool) where
  pub fields_inside :
      (b c : ℕ) (text : List ℕ)
      → sep b ≡ false
      → sep c ≡ false
      → fields sep (b ∷ c ∷ text) ≡ onto_first b (fields sep (c ∷ text))
  unfolding fields
  fields_inside b c text inside next = rw (inside, next) refl

  pub fields_end :
      (b s : ℕ) (text : List ℕ)
      → sep b ≡ false
      → sep s ≡ true
      → fields sep (b ∷ s ∷ text) ≡ (b ∷ []) ∷ fields sep text
  unfolding fields
  fields_end b s text inside e = rw (inside, e) refl

  pub fields_single : (b : ℕ) → sep b ≡ false → fields sep (b ∷ []) ≡ (b ∷ []) ∷ []
  unfolding fields
  fields_single b inside = rw inside refl

  -- The last field.
  pub fields_last : (word : List ℕ) → IsField sep word → fields sep word ≡ word ∷ []
  fields_last [] (h, a) = absurd (cc)
  fields_last (b ∷ []) (h, a) = fields_single b a.0
  fields_last (b ∷ c ∷ word) (h, a) =
      fields_inside b c word a.0 a.1.0 ∙ ap (onto_first b) (fields_last (c ∷ word) (refl, a.1))

  -- A field, and its separator, in front of others.
  pub fields-append :
      (word : List ℕ) (s : ℕ) (text : List ℕ)
      → IsField sep word
      → sep s ≡ true
      → fields sep (word ++ (s ∷ text)) ≡ word ∷ fields sep text
  fields-append [] s text (h, a) e = absurd (cc)
  fields-append (b ∷ []) s text (h, a) e = fields_end b s text a.0 e
  fields-append (b ∷ c ∷ word) s text (h, a) e =
      fields_inside b c (word ++ (s ∷ text)) a.0 a.1.0
      ∙ ap (onto_first b) (fields-append (c ∷ word) s text (refl, a.1) e)
