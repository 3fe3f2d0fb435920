-- ===== src/Diff/Walk.antt =====
-- `walk_diff` of core/diffparse.py: a loop over the lines of a diff that yields the lines inside
-- hunks, each with its file, its marker and its line numbers.
pub mod Hunks
use lgtmaybe.Prelude.{
  ℕ, zero, suc, ◌+◌, ◌≡◌, refl, List, [], ◌∷◌, ◌++◌, Bool, true, false, Option, none, some, arith,
  ◌==◌, if◌then◌else◌, ◌>>=◌, ◌<|>◌, is_some, map,
}
use lgtmaybe.Text.{Text, nl, codes}
use lgtmaybe.Text.Lines.{lines, unlines}
use lgtmaybe.Text.Decimal.{digit_value}
use lgtmaybe.Diff.Header.{
  HunkHeader, parse_hunk_header, is_file_header, old_file_header, new_file_header, fallback_path,
  before_tab,
}

-- the marker of a line: "-", "+" and " "
pub data Kind : Type 0 where
  deleted added context : Kind

-- one tuple that `walk_diff` yields
pub record Entry : Type 0 where
  pub path : Text
  pub kind : Kind
  pub old_line : ℕ
  pub new_line : ℕ
  pub text : Text

-- the variables of the loop
pub record Walk : Type 0 where
  pub current_file : Option Text
  pub old_line : ℕ
  pub new_line : ℕ
  pub in_hunk : Bool

abbrev pub start : Walk
start = record { current_file = none; old_line = 0; new_line = 0; in_hunk = false }

-- a line inside a hunk
unfoldable pub content : Walk → Text → Text → Walk × Option Entry
content w path [] = (
  record w { old_line = w.old_line + 1; new_line = w.new_line + 1 },
  some (record {
    path = path;
    kind = context;
    old_line = w.old_line;
    new_line = w.new_line;
    text = [];
  }),
)
content w path (c ∷ text) =
    if c == b'\\'
    then (w, none)
    else if c == b'-'
    then (
      record w { old_line = w.old_line + 1 },
      some (record {
        path = path;
        kind = deleted;
        old_line = w.old_line;
        new_line = w.new_line;
        text = text;
      }),
    )
    else if c == b'+'
    then (
      record w { new_line = w.new_line + 1 },
      some (record {
        path = path;
        kind = added;
        old_line = w.old_line;
        new_line = w.new_line;
        text = text;
      }),
    )
    else (
      record w { old_line = w.old_line + 1; new_line = w.new_line + 1 },
      some (record {
        path = path;
        kind = context;
        old_line = w.old_line;
        new_line = w.new_line;
        text = text;
      }),
    )

-- a line that is no file header: a hunk header, hunk content, or nothing
unfoldable pub in_file : Walk → Option Text → Text → Walk × Option Entry
in_file w none raw_line = (w, none)
in_file w (some path) raw_line = elim (parse_hunk_header raw_line) [
  | some hunk ↦
      (record w { old_line = hunk.old_start; new_line = hunk.new_start; in_hunk = true }, none)
  | none ↦ if w.in_hunk then content w path raw_line else (w, none)
]

-- the `---` and `+++` lines, which are headers only outside hunks
abbrev pub preamble_path : Bool → Text → Option Text
preamble_path true raw_line = none
preamble_path false raw_line = old_file_header raw_line <|> new_file_header raw_line

-- one round of the loop
unfoldable pub step : Walk → Text → Walk × Option Entry
unfolding in_file
step w raw_line =
    if is_file_header raw_line
    then (record w { current_file = fallback_path raw_line; in_hunk = false }, none)
    else elim (preamble_path w.in_hunk raw_line) [
      | some path ↦ (record w { current_file = some path }, none)
      | none ↦ in_file w w.current_file raw_line
    ]

abbrev pub yield_to : Option Entry → List Entry → List Entry
yield_to none es = es
yield_to (some e) es = e ∷ es

unfoldable pub walk_lines : Walk → List Text → List Entry
walk_lines w [] = []
walk_lines w (raw_line ∷ rest) = yield_to (step w raw_line).1 (walk_lines (step w raw_line).0 rest)

unfoldable pub walk_diff : Text → List Entry
unfolding walk_lines lines
walk_diff diff = walk_lines start (lines diff)
