-- ===== src/Diff/Split.antt =====
-- `split_by_file` of core/diffparse.py.
pub mod Laws
use lgtmaybe.Prelude.{
  ℕ, zero, suc, ◌+◌, ◌≡◌, refl, List, [], ◌∷◌, ◌++◌, Bool, true, false, Option, none, some, ◌<|>◌,
  map,
}
use lgtmaybe.Text.{Text, codes, nl}
use lgtmaybe.Text.Lines.{split_lines, join_lines, unlines}
use lgtmaybe.Text.Groups.{groups, before, from, cut}
use lgtmaybe.Diff.Header.{
  is_file_header, old_file_header, new_file_header, rename_to, fallback_path, before_tab,
}

-- `RE.search(patch)`: the first line of the patch that the regex matches
unfoldable pub search_lines : (Text → Option Text) → List Text → Option Text
search_lines match [] = none
search_lines match (l ∷ ls) = match l <|> search_lines match ls

-- `changed_files[i]` if there is one
abbrev pub nth_or_unknown : List Text → ℕ → Text
nth_or_unknown [] i = codes "unknown"
nth_or_unknown (f ∷ fs) zero = f
nth_or_unknown (f ∷ fs) (suc i) = nth_or_unknown fs i

abbrev pub some_or : Option Text → Text → Text
some_or none d = d
some_or (some t) d = t

-- the path of the `i`-th patch
unfoldable pub patch_path : List Text → ℕ → List Text → Text
unfolding search_lines
patch_path changed_files i patch =
    some_or
      (search_lines new_file_header patch
        <|> search_lines rename_to patch
        <|> search_lines old_file_header patch
        <|> search_lines fallback_path patch)
      (nth_or_unknown changed_files i)

-- the patches from the `i`-th on: each runs to the next header, its newline included
unfoldable pub patches_from : List Text → ℕ → List (List Text) → List (Text × Text)
unfolding patch_path
patches_from changed_files i [] = []
patches_from changed_files i (g ∷ []) = (patch_path changed_files i g, join_lines g) ∷ []
patches_from changed_files i (g ∷ h ∷ gs) =
    (patch_path changed_files i g, join_lines g ++ nl ∷ [])
    ∷ patches_from changed_files (suc i) (h ∷ gs)

abbrev pub or_whole : List Text → Text → List (List Text) → List (Text × Text)
or_whole changed_files diff [] = (nth_or_unknown changed_files 0, diff) ∷ []
or_whole changed_files diff (g ∷ gs) = patches_from changed_files 0 (g ∷ gs)

unfoldable pub split_by_file : Text → List Text → List (Text × Text)
unfolding patches_from
split_by_file diff changed_files =
    or_whole changed_files diff (groups is_file_header (split_lines diff))
