-- ===== src/RecordFile/Removing.antt =====
-- A file without the records of an id is read as the file with them, but for those records.
use cosaci.Prelude.{
  ℕ, suc, ◌≡◌, refl, ap, sym, ◌∙◌, subst, Bool, true, false, ◌||◌, some, List, [], ◌∷◌, ◌++◌, arith,
  All, nat_beq, Result, ok, Bool-cases, inl, inr,
}
use cosaci.Text.{lines, trim, is_empty, parse_u64, split_ascii_whitespace}
use cosaci.Text.Lines.{SameLines-refl, IsLine, lines_first, trim_end-strip_cr}
use cosaci.RecordFile.{is_skipped, load_lines, first_of, is_record_of, revoke_lines}
use cosaci.RecordFile.Loading.{
  load_lines_skip, load_lines-read, load_lines_cases, load_lines-same, skips, reads,
}
use cosaci.RecordFile.Words.{first_word, is_skipped-trim, parse_u64-IsWord}

-- The id in front of a trimmed line.
abbrev pub HasId : List ℕ → ℕ → Type 0
HasId trimmed id = parse_u64 (first_of (split_ascii_whitespace trimmed)) ≡ some id

is_record_of_skipped :
    (id : ℕ) (line : List ℕ) → is_skipped (trim line) ≡ true → is_record_of id line ≡ false
is_record_of_skipped id line h = rw (is_skipped-trim line, h) refl

is_record_of_read :
    (id other : ℕ) (line : List ℕ)
    → is_skipped (trim line) ≡ false
    → HasId (trim line) other
    → is_record_of id line ≡ nat_beq other id
is_record_of_read id other line h e =
    let full : is_empty (trim line) ≡ false = ground arith in
    let word = first_word line _ full refl (parse_u64-IsWord other _ e) in
    rw (is_skipped-trim line, h, word, e) refl

revoke_lines_stays :
    (id : ℕ) (line : List ℕ) (rest : List (List ℕ))
    → is_record_of id line ≡ false
    → (revoke_lines id (line ∷ rest)).1 ≡ line ++ (10 ∷ (revoke_lines id rest).1)
unfolding revoke_lines
revoke_lines_stays id line rest h = rw h refl

revoke_lines_goes :
    (id : ℕ) (line : List ℕ) (rest : List (List ℕ))
    → is_record_of id line ≡ true
    → (revoke_lines id (line ∷ rest)).1 ≡ (revoke_lines id rest).1
unfolding revoke_lines
revoke_lines_goes id line rest h = rw h refl

revoke_lines-found :
    (id : ℕ) (line : List ℕ) (rest : List (List ℕ))
    → (revoke_lines id (line ∷ rest)).0 ≡ (is_record_of id line || (revoke_lines id rest).0)
unfolding revoke_lines
revoke_lines-found id line rest = ground arith

module _ {S E : Type 0} (read : ℕ → List ℕ → S → Result S E)
    (numbered : (n : ℕ) (line : List ℕ) (s s' : S)
      → read n line s ≡ ok s'
      → (id : ℕ) × HasId line id)
    (id : ℕ) where
  load_stays :
      (n : ℕ) (line : List ℕ) (rest : List (List ℕ)) (s : S)
      → IsLine line
      → is_record_of id line ≡ false
      → load_lines read n (lines (revoke_lines id (line ∷ rest)).1) s
        ≡ load_lines read n (line ∷ lines (revoke_lines id rest).1) s
  load_stays n line rest s a h =
      let out = (revoke_lines id rest).1 in
      ap (λ t. load_lines read n (lines t) s) (revoke_lines_stays id line rest h)
      ∙ ap (λ ls. load_lines read n ls s) (lines_first line out a)
      ∙ load_lines-same read n _ (line ∷ lines out) s
          (trim_end-strip_cr line, SameLines-refl (lines out))

  -- Where a state is related to one without the id, and reading a line keeps that, the whole file
  -- is related to the one without the records of the id.
  pub load-revoke_lines :
      (R : S → S → Type 0)
      → ((n m other : ℕ) (line : List ℕ) (s s' t : S)
          → R s t
          → read n line s ≡ ok s'
          → HasId line other
          → nat_beq other id ≡ false
          → (t' : S) × (read m line t ≡ ok t') × R s' t')
      → ((n other : ℕ) (line : List ℕ) (s s' t : S)
          → R s t
          → read n line s ≡ ok s'
          → HasId line other
          → nat_beq other id ≡ true
          → R s' t)
      → (ls : List (List ℕ)) (n m : ℕ) (s t last : S) → All IsLine ls
      → R s t
      → load_lines read n ls s ≡ ok last
      → (kept : S) × (load_lines read m (lines (revoke_lines id ls).1) t ≡ ok kept) × R last kept
  load-revoke_lines R keeps drops [] n m s t last a r e =
      let same : s ≡ last = unfold load_lines in ground arith in
      (t, (unfold lines revoke_lines load_lines in refl), subst (λ u. R u t) same r)
  load-revoke_lines R keeps drops (line ∷ ls) n m s t last a r e =
      elim (load_lines_cases read n line ls s last e) [
        | skips h more ↦
            let (kept, loaded, related) =
              load-revoke_lines R keeps drops ls (suc n) (suc m) s t last a.1 r more in
            (
              kept,
              load_stays m line ls t a.0 (is_record_of_skipped id line h)
                  ∙ load_lines_skip read m line _ t h
                  ∙ loaded,
              related,
            )
        | reads s' h p more ↦
            let (other, has_id) = numbered n (trim line) s s' p in
            let test = is_record_of_read id other line h has_id in
            elim (Bool-cases (nat_beq other id)) [
              | inl same ↦
                  let (kept, loaded, related) =
                    load-revoke_lines R keeps drops ls (suc n) m s' t last a.1
                      (drops n other (trim line) s s' t r p has_id same) more in
                  (
                    kept,
                    ap (λ u. load_lines read m (lines u) t)
                          (revoke_lines_goes id line ls (test ∙ same))
                        ∙ loaded,
                    related,
                  )
              | inr differs ↦
                  let (t', q, r') = keeps n m other (trim line) s s' t r p has_id differs in
                  let (kept, loaded, related) =
                    load-revoke_lines R keeps drops ls (suc n) (suc m) s' t' last a.1 r' more in
                  (
                    kept,
                    load_stays m line ls t a.0 (test ∙ differs)
                        ∙ load_lines-read read m line _ t t' h q
                        ∙ loaded,
                    related,
                  )
            ]
      ]

  -- A record is found exactly if reading the file brings the id in.
  pub found-revoke_lines :
      (has : S → Bool)
      → ((n other : ℕ) (line : List ℕ) (s s' : S)
          → read n line s ≡ ok s'
          → HasId line other
          → has s' ≡ (nat_beq other id || has s))
      → (ls : List (List ℕ)) (n : ℕ) (s last : S) → load_lines read n ls s ≡ ok last
      → has last ≡ ((revoke_lines id ls).0 || has s)
  found-revoke_lines has brings [] n s last e =
      let same : s ≡ last = unfold load_lines in ground arith in
      unfold revoke_lines in ap has (sym same)
  found-revoke_lines has brings (line ∷ ls) n s last e =
      let found = revoke_lines-found id line ls in
      elim (load_lines_cases read n line ls s last e) [
        | skips h more ↦
            let rest = found-revoke_lines has brings ls (suc n) s last more in
            rw (found, is_record_of_skipped id line h) rest
        | reads s' h p more ↦
            let (other, has_id) = numbered n (trim line) s s' p in
            let test = is_record_of_read id other line h has_id in
            let rest = found-revoke_lines has brings ls (suc n) s' last more in
            let here = brings n other (trim line) s s' p has_id in
            rw (found, test, rest, here) (ground arith)
      ]
