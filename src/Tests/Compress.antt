-- ===== src/Tests/Compress.antt =====
-- Concrete inputs for the theorems on patch fitting (engine/compress.py).
use lgtmaybe.Prelude.{
  ◌≤◌, ◌≡◌, refl, List, [], ◌∷◌, ◌++◌, true, false, some, arith, map, concat, All, length, take,
  drop, ◌-◌, ◌+◌,
}
use lgtmaybe.Text.{Text, codes}
use lgtmaybe.Text.Lines.{unlines, lines}
use lgtmaybe.Text.Decimal.{digit_value, decimal}
use lgtmaybe.Diff.Header.{HunkHeader, parse_hunk_header, render_hunk_header}
use lgtmaybe.Compress.Tokens.{Counter}
use lgtmaybe.Compress.Hunks.{
  is_hunk_line, split_patch_into_hunks, OneHunk, units_for, split_patch_into_hunks-units_for,
}
use lgtmaybe.Compress.Expand.{Hunk, first_new, first_old, leading, group_hunks, expand_hunks}
use lgtmaybe.Compress.Expand.Bounds.{group_hunks-leading}
use lgtmaybe.Compress.Expand.Laws.{changes}
use lgtmaybe.Compress.Expand.Whole.{expand_hunks-changes}
use lgtmaybe.Compress.Slices.{old_advance, new_advance, slice_header}
use lgtmaybe.Compress.Slices.Positions.{total, parse-slice_header}
use lgtmaybe.Compress.Batch.{Patch, batch_files, file_units}
use lgtmaybe.Compress.Batch.Laws.{IsBatch, batch_files-IsBatch, concat-batch_files}

-- a token for each character
abbrev counter : Counter
counter = some length

abbrev header_line : Text
header_line = codes "@@ -3,2 +3,3 @@ def f():"

abbrev parsed : HunkHeader
parsed = record {
  old_start = 3;
  old_len = 2;
  new_start = 3;
  new_len = 3;
  section = codes " def f():";
}

abbrev body : List Text
body = unlines (codes " x" ∷ []) ∷ unlines (codes "+y" ∷ []) ∷ unlines (codes " z" ∷ []) ∷ []

abbrev unit : Text
unit =
    unlines
      (codes "--- a/f" ∷ codes "+++ b/f" ∷ header_line ∷ codes " x" ∷ codes "+y" ∷ codes " z" ∷ [])

header_line-parsed : parse_hunk_header header_line ≡ some parsed
unfolding parse_hunk_header digit_value
header_line-parsed = refl

split_patch_into_hunks-units_for_example :
    (header : List Text) × (hunks : List (List Text)) × (split_patch_into_hunks unit
      ≡ units_for unit header hunks)
    × (concat (header ++ concat hunks) ≡ unit)
    × All (λ m. is_hunk_line m ≡ false) header
    × All OneHunk hunks
split_patch_into_hunks-units_for_example = split_patch_into_hunks-units_for unit

parse-slice_header_example :
    parse_hunk_header (render_hunk_header (slice_header counter [] parsed body 50 1 3))
    ≡ some (record {
      old_start = 3 + total old_advance (take 1 body);
      old_len = total old_advance (take (3 - 1) (drop 1 body));
      new_start = 3 + total new_advance (take 1 body);
      new_len = total new_advance (take (3 - 1) (drop 1 body));
      section = codes " def f():";
    })
parse-slice_header_example =
    parse-slice_header counter [] header_line parsed body 50 1 3 header_line-parsed (omega arith)

abbrev files : List Patch
files = (codes "a", codes "123456") ∷ (codes "b", codes "12") ∷ (codes "c", codes "123") ∷ []

batch_files-IsBatch_example : All (IsBatch counter 5) (batch_files counter 5 true files)
batch_files-IsBatch_example = batch_files-IsBatch counter 5 true files

concat-batch_files_example :
    concat (batch_files counter 5 true files) ≡ concat (map (file_units counter 5) files)
concat-batch_files_example = concat-batch_files counter 5 true files

abbrev two_hunks : Text
two_hunks = unlines (
    codes "--- a/f"
    ∷ codes "+++ b/f"
    ∷ codes "@@ -2 +2 @@ s"
    ∷ codes "-b"
    ∷ codes "+B"
    ∷ codes "@@ -5 +5 @@"
    ∷ codes "-e"
    ∷ codes "+E"
    ∷ [])

abbrev head_text : Text
head_text =
    unlines (codes "a" ∷ codes "B" ∷ codes "c" ∷ codes "d" ∷ codes "E" ∷ codes "f" ∷ codes "g" ∷ [])

expand_hunks-changes_example :
    changes (lines (expand_hunks two_hunks (some head_text) 1 1 [])) ≡ changes (lines two_hunks)
expand_hunks-changes_example = expand_hunks-changes two_hunks (some head_text) 1 1 []

abbrev both : List Hunk
both =
    record { header = parsed; body = codes "+y" ∷ [] }
    ∷ record { header = record parsed { old_start = 9; new_start = 10 }; body = codes "+z" ∷ [] }
    ∷ []

group_hunks-leading_example :
    All
      (λ g.
        (length (leading (lines head_text) 9 1 [] g) ≤ first_old g.first - 1)
        × (length (leading (lines head_text) 9 1 [] g) ≤ first_new g.first - 1))
      (group_hunks (lines head_text) 9 1 [] both)
group_hunks-leading_example = group_hunks-leading (lines head_text) 9 1 [] both

-- hunks whose windows meet are merged
expand_runs :
    expand_hunks two_hunks (some head_text) 1 1 []
    ≡ unlines (
        codes "--- a/f"
        ∷ codes "+++ b/f"
        ∷ codes "@@ -1,6 +1,6 @@ s"
        ∷ codes " a"
        ∷ codes "-b"
        ∷ codes "+B"
        ∷ codes " c"
        ∷ codes " d"
        ∷ codes "-e"
        ∷ codes "+E"
        ∷ codes " f"
        ∷ [])
unfolding expand_hunks parse_hunk_header render_hunk_header lines lgtmaybe.Text.Lines.join_lines
    digit_value decimal
expand_runs = refl
