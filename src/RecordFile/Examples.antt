-- ===== src/RecordFile/Examples.antt =====
-- Runs on the text of a file of records.
use cosaci.Prelude.{◌≡◌, refl, true, false}
use cosaci.Text.{codes, lines, trim_start, parse_u64, fields, parse_digits}
use cosaci.RecordFile.{appended, revoke_lines}

onto_a_cut_line : appended (codes "1 a") (codes "2 b") ≡ codes "1 a\n2 b\n"
unfolding appended
onto_a_cut_line = refl

revoke_run : revoke_lines 1 (lines (codes "# c\n1 a\n\n2 b\n")) ≡ (true, codes "# c\n\n2 b\n")
unfolding revoke_lines lines trim_start parse_u64 fields parse_digits
revoke_run = refl

revoke_absent : revoke_lines 3 (lines (codes "1 a\n")) ≡ (false, codes "1 a\n")
unfolding revoke_lines lines trim_start parse_u64 fields parse_digits
revoke_absent = refl
