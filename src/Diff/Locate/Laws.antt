-- ===== src/Diff/Locate/Laws.antt =====
-- Which hunk `hunk_for_line` of core/diffparse.py returns.
use mathlib.Core.Option
use lgtmaybe.Prelude.{
  ℕ, ◌≡◌, refl, ap, ◌∙◌, List, [], ◌∷◌, ◌++◌, Bool, true, false, Option, none, some, ◌>>=◌, All,
  Bool-cases, inl, inr,
}
use lgtmaybe.Text.{Text}
use lgtmaybe.Text.Lines.{lines, join_lines}
use lgtmaybe.Text.Groups.{groups, before, IsGroup, groups-IsGroup}
use lgtmaybe.Diff.Index.{Side}
use lgtmaybe.Diff.Split.{split_by_file}
use lgtmaybe.Diff.Locate.{
  is_hunk_header, group_header, covers_some, find_hunk, hunk_in_patch, patch_for, hunk_for_line,
}
use lgtmaybe.Diff.Locate.Ranges.{stands, IsWhole, covers_some-stands}

module _ (test : List Text → Bool) where
  -- the first hunk that passes, or none of them does
  abbrev pub First : List (List Text) → Option (List Text) → Type 0
  First gs none = All (λ g. test g ≡ false) gs
  First gs (some g) =
      (earlier : List (List Text)) × (later : List (List Text)) × (gs ≡ earlier ++ g ∷ later)
      × All (λ h. test h ≡ false) earlier
      × (test g ≡ true)

  First-cons :
      (g : List Text) (gs : List (List Text)) (o : Option (List Text))
      → test g ≡ false
      → First gs o
      → First (g ∷ gs) o
  First-cons g gs none m h = (m, h)
  First-cons g gs (some f) m (earlier, later, e, misses, found) =
      (g ∷ earlier, later, ap (λ l. g ∷ l) e, (m, misses), found)

  find_hunk-First :
      (side : Side) (line : ℕ) (gs : List (List Text))
      → All (λ g. covers_some side line (group_header g) ≡ test g) gs
      → First gs (find_hunk side line gs)
  unfolding find_hunk
  find_hunk-First side line [] same = tt
  find_hunk-First side line (g ∷ gs) same = elim (Bool-cases (test g)) [
    | inl e ↦ rw (same.0 ∙ e) ([], gs, refl, tt, e)
    | inr e ↦
        rw (same.0 ∙ e)
          (First-cons g gs (find_hunk side line gs) e (find_hunk-First side line gs same.1))
  ]

covers_some-all :
    (path : Text) (side : Side) (line : ℕ) (gs : List (List Text))
    → All (IsGroup is_hunk_header) gs
    → All IsWhole gs
    → All (λ g. covers_some side line (group_header g) ≡ stands path side line g) gs
covers_some-all path side line [] group whole = tt
covers_some-all path side line (g ∷ gs) group whole = (
  covers_some-stands path side line g group.0 whole.0,
  covers_some-all path side line gs group.1 whole.1,
)

-- Where the diff has a patch for the path, and each of its hunks has as many lines of the old and of
-- the new file as its header states and no line of it is a `diff --git` line, `hunk_for_line` returns
-- the file header and the first hunk that has a line which the loop of `walk_diff`, run over the
-- hunk, yields with that number on that side: of the hunks that the patch is cut into, each with one
-- hunk header, at its first line. It returns nothing exactly where no hunk of the patch has one.
pub hunk_for_line-First :
    (diff path patch : Text) (line : ℕ) (side : Side)
    → patch_for path (split_by_file diff (path ∷ [])) ≡ some patch
    → All IsWhole (groups is_hunk_header (lines patch))
    → (answer : Option (List Text)) × (hunk_for_line diff path line side
        ≡ Option.map (λ g. join_lines (before is_hunk_header (lines patch) ++ g)) answer)
      × First (stands path side line) (groups is_hunk_header (lines patch)) answer
      × All (IsGroup is_hunk_header) (groups is_hunk_header (lines patch))
unfolding hunk_for_line hunk_in_patch
hunk_for_line-First diff path patch line side e whole =
    let gs = groups is_hunk_header (lines patch) in
    (
      find_hunk side line gs,
      ap (λ o. o >>= hunk_in_patch side line) e,
      find_hunk-First (stands path side line) side line gs
          (covers_some-all path side line gs (groups-IsGroup is_hunk_header (lines patch)) whole),
      groups-IsGroup is_hunk_header (lines patch),
    )
