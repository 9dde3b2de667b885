-- ===== src/RecordFile/Loading.antt =====
-- Reading a file of records line by line.
use cosaci.Prelude.{
  ℕ, suc, ◌+◌, ◌≡◌, refl, ap, subst, ◌∙◌, true, false, List, [], ◌∷◌, ◌++◌, arith, length, Result,
  ok, Result-cases, Bool-cases, inl, inr,
}
use cosaci.Text.{trim, trim_start, trim_end}
use cosaci.Text.Lines.{SameLines}
use cosaci.RecordFile.{is_skipped, load_lines}

module _ {S E : Type 0} (read : ℕ → List ℕ → S → Result S E) where
  pub load_lines_skip :
      (n : ℕ) (line : List ℕ) (rest : List (List ℕ)) (set : S)
      → is_skipped (trim line) ≡ true
      → load_lines read n (line ∷ rest) set ≡ load_lines read (suc n) rest set
  unfolding load_lines
  load_lines_skip n line rest set h = rw h refl

  pub load_lines-read :
      (n : ℕ) (line : List ℕ) (rest : List (List ℕ)) (set more : S)
      → is_skipped (trim line) ≡ false
      → read n (trim line) set ≡ ok more
      → load_lines read n (line ∷ rest) set ≡ load_lines read (suc n) rest more
  unfolding load_lines
  load_lines-read n line rest set more h e = rw (h, e) refl

  -- A line of a file that is read.
  pub data Loads (n : ℕ) (line : List ℕ) (rest : List (List ℕ)) (set last : S) : Type 0 where
    skips :
        is_skipped (trim line) ≡ true
        → load_lines read (suc n) rest set ≡ ok last
        → Loads n line rest set last
    reads :
        (more : S)
        → is_skipped (trim line) ≡ false
        → read n (trim line) set ≡ ok more
        → load_lines read (suc n) rest more ≡ ok last
        → Loads n line rest set last

  pub load_lines_cases :
      (n : ℕ) (line : List ℕ) (rest : List (List ℕ)) (set last : S)
      → load_lines read n (line ∷ rest) set ≡ ok last
      → Loads n line rest set last
  unfolding load_lines
  load_lines_cases n line rest set last e = elim (Bool-cases (is_skipped (trim line))) [
    | inl h ↦ skips h (rw h at e)
    | inr h ↦ elim (Result-cases (read n (trim line) set)) [
      | inr (fault, p) ↦ absurd (ground arith)
      | inl (more, p) ↦ reads more h p (rw (h, p) at e)
    ]
  ]

  -- Lines that follow those of a file that is read.
  pub load_lines-append :
      (n : ℕ) (ls ms : List (List ℕ)) (set last : S)
      → load_lines read n ls set ≡ ok last
      → load_lines read n (ls ++ ms) set ≡ load_lines read (n + length ls) ms last
  load_lines-append n [] ms set last e =
      let same : set ≡ last = unfold load_lines in ground arith in
      let here : n + 0 ≡ n = omega arith in rw (same, here) refl
  load_lines-append n (l ∷ ls) ms set last e =
      let count : suc n + length ls ≡ n + suc (length ls) = omega arith in
      elim (load_lines_cases n l ls set last e) [
        | skips h more ↦
            load_lines_skip n l (ls ++ ms) set h
            ∙ load_lines-append (suc n) ls ms set last more
            ∙ ap (λ m. load_lines read m ms last) count
        | reads next h p more ↦
            load_lines-read n l (ls ++ ms) set next h p
            ∙ load_lines-append (suc n) ls ms next last more
            ∙ ap (λ m. load_lines read m ms last) count
      ]

  -- The white space at the end of a line is no part of its record.
  pub load_lines-same :
      (n : ℕ) (ls ms : List (List ℕ)) (set : S)
      → SameLines ls ms
      → load_lines read n ls set ≡ load_lines read n ms set
  unfolding load_lines trim
  load_lines-same n [] [] set h = refl
  load_lines-same n [] (m ∷ ms) set h = absurd h
  load_lines-same n (l ∷ ls) [] set h = absurd h
  load_lines-same n (l ∷ ls) (m ∷ ms) set h =
      elim (Bool-cases (is_skipped (trim_start (trim_end m)))) [
        | inl e ↦ rw (h.0, e) (load_lines-same (suc n) ls ms set h.1)
        | inr e ↦
            rw (h.0, e)
              (elim (Result-cases (read n (trim_start (trim_end m)) set)) [
                | inr (fault, p) ↦ rw p refl
                | inl (next, p) ↦ rw p (load_lines-same (suc n) ls ms next h.1)
              ])
      ]

  -- What every line keeps holds of what is loaded.
  pub load_lines_keep :
      (P : S → Type 0)
      → ((n : ℕ) (line : List ℕ) (set more : S) → P set → read n line set ≡ ok more → P more)
      → (n : ℕ) (ls : List (List ℕ)) (set last : S) → P set
      → load_lines read n ls set ≡ ok last
      → P last
  load_lines_keep P keep n [] set last p e =
      let same : set ≡ last = unfold load_lines in ground arith in subst P same p
  load_lines_keep P keep n (l ∷ ls) set last p e = elim (load_lines_cases n l ls set last e) [
    | skips h rest ↦ load_lines_keep P keep (suc n) ls set last p rest
    | reads more h r rest ↦
        load_lines_keep P keep (suc n) ls more last (keep n (trim l) set more p r) rest
  ]
