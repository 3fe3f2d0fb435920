-- ===== src/Diff/Locate.antt =====
-- `hunk_for_line` of core/diffparse.py.
pub mod Laws
pub mod Ranges
use mathlib.Core.Option
use lgtmaybe.Prelude.{
  ℕ, zero, suc, ◌+◌, ◌≡◌, ◌≢◌, refl, List, [], ◌∷◌, ◌++◌, Bool, true, false, ◌&&◌, Option, none,
  some, ◌>>=◌, is_some, arith, if◌then◌else◌, leb, ltb, any, map, All, Bool-cases, inl, inr, ◌⊎◌,
}
use lgtmaybe.Text.{Text, codes, nl, text_eq}
use lgtmaybe.Text.Lines.{lines, join_lines}
use lgtmaybe.Text.Groups.{groups, before, IsGroup, groups-IsGroup}
use lgtmaybe.Diff.Header.{HunkHeader, parse_hunk_header}
use lgtmaybe.Diff.Index.{Side, left, right}
use lgtmaybe.Diff.Split.{split_by_file}

abbrev pub is_hunk_header : Text → Bool
is_hunk_header line = is_some (parse_hunk_header line)

-- `lo <= line <= hi`, where `hi` is `start + len - 1`
abbrev pub within : ℕ → ℕ → ℕ → Bool
within start len line = leb start line && ltb line (start + len)

unfoldable pub covers : Side → ℕ → HunkHeader → Bool
covers left line hunk = within hunk.old_start hunk.old_len line
covers right line hunk = within hunk.new_start hunk.new_len line

-- the hunk header of a group of lines
abbrev pub group_header : List Text → Option HunkHeader
group_header [] = none
group_header (l ∷ ls) = parse_hunk_header l

abbrev pub covers_some : Side → ℕ → Option HunkHeader → Bool
covers_some side line none = false
covers_some side line (some hunk) = covers side line hunk

-- the loop over the hunks
unfoldable pub find_hunk : Side → ℕ → List (List Text) → Option (List Text)
find_hunk side line [] = none
find_hunk side line (g ∷ gs) =
    let rest = find_hunk side line gs in
    if covers_some side line (group_header g) then some g else rest

-- what is done with the patch of the path
unfoldable pub hunk_in_patch : Side → ℕ → Text → Option Text
unfolding find_hunk
hunk_in_patch side line patch =
    let ls = lines patch in
    Option.map (λ g. join_lines (before is_hunk_header ls ++ g))
      (find_hunk side line (groups is_hunk_header ls))

-- the first patch of the path, if there is one
unfoldable pub patch_for : Text → List (Text × Text) → Option Text
patch_for path [] = none
patch_for path ((p, patch) ∷ ps) =
    let rest = patch_for path ps in if text_eq p path then some patch else rest

unfoldable pub hunk_for_line : Text → Text → ℕ → Side → Option Text
unfolding hunk_in_patch patch_for
hunk_for_line diff path line side =
    patch_for path (split_by_file diff (path ∷ [])) >>= hunk_in_patch side line
