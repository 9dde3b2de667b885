-- ===== src/RecordFile/Appending.antt =====
-- A line that is appended to a file is the last that is read.
use cosaci.Prelude.{
  ℕ, suc, ◌+◌, ◌≡◌, refl, ap, sym, subst, ◌∙◌, true, false, List, [], ◌∷◌, ◌++◌, length, Result, ok,
  Bool-cases, inl, inr,
}
use cosaci.Text.{is_empty, lines, trim, ends_with}
use cosaci.Text.Lines.{
  SameLines, IsLine, IsEnded, lines_first, lines-append, lines_ended, trim_end-strip_cr,
}
use cosaci.RecordFile.{is_skipped, load_lines, appended}
use cosaci.RecordFile.Loading.{load_lines-read, load_lines-append, load_lines-same}

ends_with-append : (text : List ℕ) → ends_with 10 (text ++ (10 ∷ [])) ≡ true
ends_with-append [] = refl
ends_with-append (b ∷ []) = refl
ends_with-append (b ∷ c ∷ text) = ends_with-append (c ∷ text)

length-SameLines : (ls ms : List (List ℕ)) → SameLines ls ms → length ls ≡ length ms
length-SameLines [] [] h = refl
length-SameLines [] (m ∷ ms) h = absurd h
length-SameLines (l ∷ ls) [] h = absurd h
length-SameLines (l ∷ ls) (m ∷ ms) h = ap suc (length-SameLines ls ms h.1)

module _ {S E : Type 0} (read : ℕ → List ℕ → S → Result S E) where
  load_last :
      (n : ℕ) (line : List ℕ) (last more : S)
      → IsLine line
      → is_skipped (trim line) ≡ false
      → read n (trim line) last ≡ ok more
      → load_lines read n (lines (line ++ (10 ∷ []))) last ≡ ok more
  unfolding lines
  load_last n line last more a h e =
      ap (λ ls. load_lines read n ls last) (lines_first line [] a)
      ∙ load_lines-same read n _ (line ∷ []) last (trim_end-strip_cr line, tt)
      ∙ load_lines-read read n line [] last more h e
      ∙ (unfold load_lines in refl)

  load_ended :
      (existing line : List ℕ) (set last more : S)
      → IsEnded existing
      → IsLine line
      → is_skipped (trim line) ≡ false
      → load_lines read 1 (lines existing) set ≡ ok last
      → read (1 + length (lines existing)) (trim line) last ≡ ok more
      → load_lines read 1 (lines (existing ++ (line ++ (10 ∷ [])))) set ≡ ok more
  load_ended existing line set last more ended a h e f =
      ap (λ ls. load_lines read 1 ls set) (lines-append existing (line ++ (10 ∷ [])) ended)
      ∙ load_lines-append read 1 (lines existing) _ set last e
      ∙ load_last _ line last more a h f

  -- The file with the line appended is read as the file before, and then the line.
  pub load-appended :
      (existing line : List ℕ) (set last more : S)
      → IsLine line
      → is_skipped (trim line) ≡ false
      → load_lines read 1 (lines existing) set ≡ ok last
      → read (1 + length (lines existing)) (trim line) last ≡ ok more
      → load_lines read 1 (lines (appended existing line)) set ≡ ok more
  unfolding appended
  load-appended existing line set last more a h e f = elim (Bool-cases (is_empty existing)) [
    | inl empty ↦ rw empty (load_ended existing line set last more (inl empty) a h e f)
    | inr full ↦ elim (Bool-cases (ends_with 10 existing)) [
      | inl ended ↦ rw (full, ended) (load_ended existing line set last more (inr ended) a h e f)
      | inr open_line ↦
          let same = lines_ended existing full open_line in
          let before = load_lines-same read 1 _ _ set same ∙ e in
          let count = length-SameLines _ _ same in
          rw (full, open_line)
            (load_ended (existing ++ (10 ∷ [])) line set last more (inr (ends_with-append existing))
              a h before (subst (λ n. read (1 + n) (trim line) last ≡ ok more) (sym count) f))
    ]
  ]
