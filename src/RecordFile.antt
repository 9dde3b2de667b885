-- ===== src/RecordFile.antt =====
-- The text files of tenants, enrolled runners and admin keys: a record on each line, blank lines
-- and comments between. The loop is that of the three loaders (tenant.rs, enrollment.rs and
-- admin_auth.rs of crates/cosaci-state); the rewriting of a file is that of
-- bins/cosaci-coordinator/src/main.rs.
pub mod Loading
pub mod Appending
pub mod Words
pub mod Removing
mod Examples
use cosaci.Prelude.{
  ℕ, suc, Bool, true, false, not, ◌&&◌, ◌||◌, Option, none, some, List, [], ◌∷◌, ◌++◌,
  if◌then◌else◌, nat_beq, Result, ok, err,
}
use cosaci.Text.{
  is_empty, starts_with, ends_with, trim, trim_start, split_whitespace, parse_u64, lines,
}

-- A blank line or a comment.
abbrev pub is_skipped : List ℕ → Bool
is_skipped trimmed = is_empty trimmed || starts_with 35 trimmed

-- The loop of the loaders: `read` parses the record of a line, counted from 1, and inserts it.
module _ {S E : Type 0} (read : ℕ → List ℕ → S → Result S E) where
  unfoldable pub load_lines : ℕ → List (List ℕ) → S → Result S E
  load_lines lineno [] set = ok set
  load_lines lineno (line ∷ rest) set =
      if is_skipped (trim line)
      then load_lines (suc lineno) rest set
      else elim (read lineno (trim line) set) [
        | err e ↦ err e
        | ok more ↦ load_lines (suc lineno) rest more
      ]

-- The new content that `append_atomic` writes.
unfoldable pub appended : List ℕ → List ℕ → List ℕ
appended existing line =
    (if not (is_empty existing) && not (ends_with 10 existing)
      then existing ++ (10 ∷ [])
      else existing)
    ++ (line ++ (10 ∷ []))

-- `fields.next().unwrap_or("")`
abbrev pub first_of : List (List ℕ) → List ℕ
first_of [] = []
first_of (word ∷ it) = word

-- The line carries this id: it is one of the records that a revocation drops.
abbrev pub is_record_of : ℕ → List ℕ → Bool
is_record_of id line =
    not (is_skipped (trim_start line))
    && elim (parse_u64 (first_of (split_whitespace (trim_start line)))) [
      | none ↦ false
      | some other ↦ nat_beq other id
    ]

-- The loop of a revocation: whether a record was found, and what stays.
unfoldable pub revoke_lines : ℕ → List (List ℕ) → Bool × List ℕ
revoke_lines id [] = (false, [])
revoke_lines id (line ∷ rest) =
    let (found, out) = revoke_lines id rest in
    if is_record_of id line then (true, out) else (found, line ++ (10 ∷ out))
