-- ===== src/Tests/Diff.antt =====
-- Concrete inputs for the theorems on diffs (core/diffparse.py, core/diff.py, core/diffbuild.py).
use lgtmaybe.Prelude.{
  ℕ, ◌≡◌, refl, [], ◌∷◌, true, false, none, some, arith, map, concat, All, any, length, keep_if,
  List, ◌++◌, Option,
}
use lgtmaybe.Text.{Text, codes}
use lgtmaybe.Text.Decimal.{digit_value}
use lgtmaybe.Diff.Header.{rename_to}
use lgtmaybe.Diff.Walk.{deleted, step, content}
use lgtmaybe.Text.Lines.{unlines, lines}
use lgtmaybe.Collections.{text_is_eq, nat_is_eq, pair_is_eq}
use lgtmaybe.Collections.Set.{has}
use lgtmaybe.Collections.Dict.{items}
use lgtmaybe.Diff.Header.{is_file_header, fallback_path, parse_hunk_header, render_hunk_header}
use lgtmaybe.Diff.Header.RoundTrip.{parse-render_hunk_header}
use lgtmaybe.Diff.Index.{left, side_is_eq, changed_line_index, build_commentable_lines}
use lgtmaybe.Diff.Index.Laws.{
  all_changed_at, anchors, items-changed_line_index, has-build_commentable_lines,
  changed_line_index-commentable,
}
use lgtmaybe.Diff.Count.{changed_line_count}
use lgtmaybe.Diff.Count.Laws.{is_changed, changed_line_count-walk_diff}
use lgtmaybe.Text.Words.{contains}
use lgtmaybe.Diff.Skip.{is_reviewable, is_scannable_manifest, name, suffix, fnmatchcase}
use lgtmaybe.Diff.Hunk.{Line, Hunk, IsHunk}
use lgtmaybe.Diff.Walk.{added, context, walk_diff}
use lgtmaybe.Diff.Build.{has_unsafe_path_chars}
use lgtmaybe.Diff.Build.Files.{FileDiff, IsFileDiff, diff_of, file_entries}
use lgtmaybe.Diff.Build.RoundTrip
use lgtmaybe.Diff.Split.{split_by_file}
use lgtmaybe.Diff.Split.Laws.{texts, whole_or, concat-split_by_file}
use lgtmaybe.Text.Lines.{split_lines, join_lines}
use lgtmaybe.Text.Groups.{groups, cut, from, before, IsGroup}
use lgtmaybe.Diff.Header.{old_file_header, new_file_header, before_tab}
use lgtmaybe.Diff.Locate.{patch_for, hunk_for_line, is_hunk_header}
use lgtmaybe.Diff.Locate.Ranges.{stands}
use lgtmaybe.Compress.Slices.{old_advance, new_advance}
use lgtmaybe.Diff.Locate.Laws.{First, hunk_for_line-First}
use mathlib.Core.Option

-- an added line that reads like a file header
abbrev forged : Line
forged = record { kind = added; text = codes "++ b/evil" }

abbrev hunk : Hunk
hunk = record {
  header = record {
    old_start = 3;
    old_len = 1;
    new_start = 3;
    new_len = 2;
    section = codes " def f():";
  };
  body = record { kind = context; text = codes "x" } ∷ forged ∷ [];
}

abbrev changed : FileDiff
changed = record {
  old_path = some (codes "a.py");
  new_path = some (codes "b.py");
  old_mode = none;
  new_mode = none;
  hunks = hunk ∷ [];
}

hunk-IsHunk : IsHunk hunk
hunk-IsHunk = record { section = omega arith; body = omega arith }

changed-IsFileDiff : IsFileDiff changed
unfolding has_unsafe_path_chars
changed-IsFileDiff = record {
  named = refl;
  old_path = (λ e. cc, refl);
  new_path = (λ e. cc, refl);
  old_mode = tt;
  new_mode = tt;
  hunks = (hunk-IsHunk, tt);
}

walk_diff-patch_from_hunks_example :
    (diff : Text) × (diff_of (changed ∷ []) ≡ some diff)
    × (walk_diff diff ≡ concat (map file_entries (changed ∷ [])))
walk_diff-patch_from_hunks_example =
    RoundTrip.walk_diff-patch_from_hunks (changed ∷ []) (changed-IsFileDiff, tt)

abbrev small : Text
small = unlines (
    codes "diff --git a/f b/f"
    ∷ codes "--- a/f"
    ∷ codes "+++ b/f"
    ∷ codes "@@ -1,2 +1 @@"
    ∷ codes "-a"
    ∷ codes " b"
    ∷ [])

items-changed_line_index_example :
    items (codes "f", left) (changed_line_index small)
    ≡ all_changed_at (codes "f") left (walk_diff small)
items-changed_line_index_example = items-changed_line_index small (codes "f") left

has-build_commentable_lines_example :
    has (codes "f", (2, left)) (build_commentable_lines small)
    ≡ any (anchors (codes "f", (2, left))) (walk_diff small)
has-build_commentable_lines_example = has-build_commentable_lines small (codes "f", (2, left))

changed_line_index-commentable_example :
    All
      (λ (l : ℕ × Text). has (codes "f", (l.0, left)) (build_commentable_lines small) ≡ true)
      (items (codes "f", left) (changed_line_index small))
changed_line_index-commentable_example = changed_line_index-commentable small (codes "f") left

changed_line_count-walk_diff_example :
    changed_line_count small ≡ length (keep_if is_changed (walk_diff small))
unfolding lines is_file_header fallback_path
changed_line_count-walk_diff_example =
    changed_line_count-walk_diff small (codes "diff --git a/f b/f")
      (codes "--- a/f" ∷ codes "+++ b/f" ∷ codes "@@ -1,2 +1 @@" ∷ codes "-a" ∷ codes " b" ∷ [])
      refl refl (λ h. refl, (λ h. cc, (λ h. cc, (λ h. cc, (λ h. cc, (λ h. cc, tt))))))

parse-render_hunk_header_example :
    parse_hunk_header (render_hunk_header hunk.header) ≡ some hunk.header
parse-render_hunk_header_example = parse-render_hunk_header hunk.header (omega arith)

concat-split_by_file_example :
    concat (texts (split_by_file small []))
    ≡ whole_or small (from is_file_header (split_lines small))
concat-split_by_file_example = concat-split_by_file small []

hunk_for_line-First_example :
    (answer : Option (List Text)) × (hunk_for_line small (codes "f") 2 left
      ≡ Option.map (λ g. join_lines (before is_hunk_header (lines small) ++ g)) answer)
    × First (stands (codes "f") left 2) (groups is_hunk_header (lines small)) answer
    × All (IsGroup is_hunk_header) (groups is_hunk_header (lines small))
unfolding split_by_file groups cut from split_lines lines join_lines is_file_header old_file_header
    new_file_header before_tab patch_for old_advance new_advance parse_hunk_header digit_value
hunk_for_line-First_example =
    hunk_for_line-First small (codes "f") small 2 left refl
      (((refl, refl), (refl, (refl, (refl, tt)))), tt)

two_hunks :
    walk_diff (
      unlines (
        codes "diff --git a/f b/f"
        ∷ codes "--- a/f"
        ∷ codes "+++ b/f"
        ∷ codes "@@ -3 +3,2 @@"
        ∷ codes "-a"
        ∷ codes "+b"
        ∷ codes "+++ b/x"
        ∷ []))
    ≡ record { path = codes "f"; kind = deleted; old_line = 3; new_line = 3; text = codes "a" }
      ∷ record { path = codes "f"; kind = added; old_line = 4; new_line = 3; text = codes "b" }
      ∷ record { path = codes "f"; kind = added; old_line = 4; new_line = 4; text = codes "++ b/x" }
      ∷ []
unfolding walk_diff step content parse_hunk_header is_file_header old_file_header new_file_header
    before_tab fallback_path digit_value
two_hunks = refl

two_files :
    split_by_file
      (unlines (
        codes "diff --git a/x b/x"
        ∷ codes "--- a/x"
        ∷ codes "+++ b/x"
        ∷ codes "diff --git a/y b/z"
        ∷ codes "rename to z"
        ∷ []))
      []
    ≡ (codes "x", unlines (codes "diff --git a/x b/x" ∷ codes "--- a/x" ∷ codes "+++ b/x" ∷ []))
      ∷ (codes "z", unlines (codes "diff --git a/y b/z" ∷ codes "rename to z" ∷ []))
      ∷ []
unfolding split_by_file groups split_lines join_lines is_file_header old_file_header new_file_header
    rename_to fallback_path before_tab
two_files = refl

skips_run :
    (is_reviewable (codes "src/a.min.js") ≡ false)
    × (is_reviewable (codes "img/.png") ≡ true)
    × (is_reviewable (codes "img/a.PNG") ≡ false)
    × (is_reviewable (codes "./src//main.py") ≡ true)
    × (is_scannable_manifest (codes "a/requirements-dev.txt") ≡ true)
unfolding is_reviewable is_scannable_manifest has name suffix fnmatchcase contains
skips_run = (refl, refl, refl, refl, refl)
