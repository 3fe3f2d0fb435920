-- ===== src/Diff/Header.antt =====
-- The regexes of core/diffparse.py on one line of a diff, and `parse_hunk_header`.
pub mod RoundTrip
pub mod Section
use lgtmaybe.Prelude.{
  ℕ, zero, suc, ◌+◌, ◌≡◌, refl, List, [], ◌∷◌, ◌++◌, Bool, true, false, Option, none, some, arith,
  ◌==◌, if◌then◌else◌, ◌>>=◌, ◌<|>◌, is_some, map, append_assoc,
}
use mathlib.Core.Option
use lgtmaybe.Text.{Text, nl, codes, strip_prefix, Lacks, strip_prefix-append}
use lgtmaybe.Text.Decimal.{number, decimal, NoDigit, number-decimal, digit_value, scan_digits}

-- The parsed numbers of a hunk header.
pub record HunkHeader : Type 0 where
  pub old_start : ℕ
  pub old_len : ℕ
  pub new_start : ℕ
  pub new_len : ℕ
  pub section : Text

-- `(?:,(\d+))?` with 1 for a length that is left out. A comma with no digits behind it matches
-- nothing that may follow, so the whole match fails.
optional_length : Text → Option (ℕ × Text)
optional_length [] = some (1, [])
optional_length (c ∷ s) = if c == b',' then number s else some (1, c ∷ s)

-- `(.*)$` with no MULTILINE flag: `$` also matches in front of one final newline.
rest_of_line : Text → Option Text
rest_of_line [] = some []
rest_of_line (c ∷ []) = if c == nl then some [] else some (c ∷ [])
rest_of_line (c ∷ d ∷ s) =
    let rest = rest_of_line (d ∷ s) in if c == nl then none else Option.map (λ t. c ∷ t) rest

-- the four numbers of HUNK_HEADER_RE, "@@ -old_start[,old_len] +new_start[,new_len] @@", and what
-- follows
unfoldable pub hunk_numbers : Text → Option (ℕ × ℕ × ℕ × ℕ × Text)
unfolding optional_length number scan_digits
hunk_numbers line = do
  s ← strip_prefix (codes "@@ -") line
  (old_start, s) ← number s
  (old_len, s) ← optional_length s
  s ← strip_prefix (codes " +") s
  (new_start, s) ← number s
  (new_len, s) ← optional_length s
  s ← strip_prefix (codes " @@") s
  some (old_start, old_len, new_start, new_len, s)

unfoldable pub with_section : ℕ × ℕ × ℕ × ℕ × Text → Option HunkHeader
unfolding rest_of_line
with_section (old_start, old_len, new_start, new_len, s) =
    Option.map
      (λ section. record {
        old_start = old_start;
        old_len = old_len;
        new_start = new_start;
        new_len = new_len;
        section = section;
      })
      (rest_of_line s)

unfoldable pub parse_hunk_header : Text → Option HunkHeader
unfolding hunk_numbers with_section
parse_hunk_header line = hunk_numbers line >>= with_section

-- FILE_HEADER_RE, `^diff --git .+$`
unfoldable pub is_file_header : Text → Bool
is_file_header line = elim (strip_prefix (codes "diff --git ") line) [
  | none ↦ false
  | some [] ↦ false
  | some (c ∷ s) ↦ true
]

-- the text up to the first tab
unfoldable pub before_tab : Text → Text
before_tab [] = []
before_tab (c ∷ s) = let rest = before_tab s in if c == 9 then [] else c ∷ rest

-- `(.+?)(?:\t.*)?$`: one character, and all up to a tab behind it
abbrev pub lazy_path : Text → Option Text
lazy_path [] = none
lazy_path (c ∷ s) = some (c ∷ before_tab s)

abbrev pub nonempty : Text → Option Text
nonempty [] = none
nonempty (c ∷ s) = some (c ∷ s)

-- OLD_FILE_HEADER_RE
unfoldable pub old_file_header : Text → Option Text
old_file_header line = strip_prefix (codes "--- a/") line >>= lazy_path

-- NEW_FILE_HEADER_RE
unfoldable pub new_file_header : Text → Option Text
new_file_header line = strip_prefix (codes "+++ b/") line >>= lazy_path

-- RENAME_TO_RE
unfoldable pub rename_to : Text → Option Text
rename_to line = strip_prefix (codes "rename to ") line >>= nonempty

-- `.+ b/(.+)$`: a greedy `.+` leaves the rest behind the last " b/" that has one
unfoldable pub behind_last_b : Text → Option Text
behind_last_b [] = none
behind_last_b (c ∷ s) = behind_last_b s <|> (strip_prefix (codes " b/") s >>= nonempty)

-- _FALLBACK_FILE_HEADER_RE
unfoldable pub fallback_path : Text → Option Text
unfolding behind_last_b
fallback_path line = strip_prefix (codes "diff --git a/") line >>= behind_last_b

-- how the program writes a hunk header: `@@ -a,b +c,d @@` and the section
unfoldable pub render_hunk_header : HunkHeader → Text
render_hunk_header h =
    codes "@@ -"
    ++ (decimal h.old_start
        ++ b','
          ∷ (decimal h.old_len
              ++ (codes " +"
                  ++ (decimal h.new_start
                      ++ b',' ∷ (decimal h.new_len ++ (codes " @@" ++ h.section))))))

header_runs :
    parse_hunk_header (codes "@@ -3 +40,2 @@ def f():\n")
    ≡ some (record {
      old_start = 3;
      old_len = 1;
      new_start = 40;
      new_len = 2;
      section = codes " def f():";
    })
unfolding parse_hunk_header digit_value
header_runs = refl

fallback_runs : fallback_path (codes "diff --git a/x b/y b/x b/y") ≡ some (codes "y")
unfolding fallback_path
fallback_runs = refl

tab_runs : new_file_header (codes "+++ b/a b.py\t2024") ≡ some (codes "a b.py")
unfolding new_file_header before_tab
tab_runs = refl
