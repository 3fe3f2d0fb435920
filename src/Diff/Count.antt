-- ===== src/Diff/Count.antt =====
-- `changed_line_count` of core/diffparse.py.
pub mod Laws
use lgtmaybe.Prelude.{
  ℕ, ◌+◌, ◌≡◌, refl, List, [], ◌∷◌, Bool, true, false, ◌||◌, ◌==◌, Option, none, some, is_some,
  if◌then◌else◌,
}
use lgtmaybe.Text.{Text, codes}
use lgtmaybe.Text.Lines.{lines}
use lgtmaybe.Diff.Header.{parse_hunk_header, is_file_header}

-- `line[:1] in ("+", "-")`
abbrev pub has_marker : Text → Bool
has_marker [] = false
has_marker (c ∷ s) = c == b'+' || c == b'-'

-- one round: the count, and whether the next line is in a hunk
unfoldable pub count_line : ℕ → Bool → Text → ℕ × Bool
count_line count in_hunk line =
    if is_some (parse_hunk_header line)
    then (count, true)
    else if is_file_header line
    then (count, false)
    else if in_hunk
    then (if has_marker line then count + 1 else count, in_hunk)
    else (count, in_hunk)

unfoldable pub count_lines : ℕ → Bool → List Text → ℕ
unfolding count_line
count_lines count in_hunk [] = count
count_lines count in_hunk (line ∷ rest) =
    count_lines (count_line count in_hunk line).0 (count_line count in_hunk line).1 rest

unfoldable pub changed_line_count : Text → ℕ
unfolding count_lines lines
changed_line_count diff = count_lines 0 false (lines diff)
