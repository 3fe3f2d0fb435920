-- ===== src/Recovery/Split.antt =====
-- `_split_batch` of engine/recovery.py, and `files_not_visible` of engine/stages.py.
pub mod Laws
use lgtmaybe.Prelude.{
  ℕ, zero, suc, ◌/◌, Bool, true, false, ◌||◌, ◌&&◌, List, [], ◌∷◌, ◌++◌, if◌then◌else◌, ltb, leb,
  ◌==◌, length, take, drop, map, max, not, any, keep_if,
}
use lgtmaybe.Text.{Text, text_eq}
use lgtmaybe.Compress.Tokens.{Counter, count_tokens}
use lgtmaybe.Compress.Hunks.{split_patch_into_hunks}
use lgtmaybe.Compress.Slices.{split_hunk_by_budget}
use lgtmaybe.Compress.Batch.{Patch}

-- `[xs[:middle], xs[middle:]]`
abbrev pub halves {ℓ} : {A : Type ℓ} → List A → List (List A)
halves xs = let middle = length xs / 2 in take middle xs ∷ drop middle xs ∷ []

-- `[(path, hunk) for hunk in hunks]`
abbrev pub of_path : Text → List Text → List Patch
of_path path hunks = map (λ hunk. (path, hunk)) hunks

abbrev pub alone : Patch → List Patch
alone f = f ∷ []

-- each slice is a piece of its own; a lone slice is no split
abbrev pub sliced : Text → List Text → List (List Patch)
sliced path [] = []
sliced path (s ∷ []) = []
sliced path (s ∷ t ∷ slices) = map alone (of_path path (s ∷ t ∷ slices))

-- one file, by its hunks
abbrev pub split_file : Counter → Bool → Text → List Text → List (List Patch)
split_file counter slice_hunks path [] = []
split_file counter slice_hunks path (hunk ∷ []) =
    if slice_hunks
    then sliced path (split_hunk_by_budget counter hunk (max 1 (count_tokens counter hunk / 2)))
    else []
split_file counter slice_hunks path (hunk ∷ h ∷ hunks) =
    map (of_path path) (halves (hunk ∷ h ∷ hunks))

unfoldable pub split_batch : Counter → Bool → List Patch → List (List Patch)
split_batch counter slice_hunks [] = []
split_batch counter slice_hunks ((path, patch) ∷ []) =
    split_file counter slice_hunks path (split_patch_into_hunks patch)
split_batch counter slice_hunks (f ∷ g ∷ batch) = halves (f ∷ g ∷ batch)

-- `s < t` on texts
abbrev pub text_lt : Text → Text → Bool
text_lt s [] = false
text_lt [] (d ∷ t) = true
text_lt (c ∷ s) (d ∷ t) = ltb c d || (c == d && text_lt s t)

-- an element of a set, at its place in the sorted list
unfoldable pub insert_path : Text → List Text → List Text
insert_path p [] = p ∷ []
insert_path p (q ∷ qs) =
    let rest = insert_path p qs in
    if text_eq p q then q ∷ qs else if text_lt p q then p ∷ q ∷ qs else q ∷ rest

unfoldable pub sorted_set : List Text → List Text
unfolding insert_path
sorted_set [] = []
sorted_set (p ∷ ps) = insert_path p (sorted_set ps)

-- `sorted(set(changed_files) - batch_paths)`
unfoldable pub files_not_visible : List Text → List Text → List Text
unfolding sorted_set
files_not_visible changed_files batch_paths =
    sorted_set (keep_if (λ p. not (any (text_eq p) batch_paths)) changed_files)

-- `{path for path, _ in piece}`
abbrev pub paths_of : List Patch → List Text
paths_of piece = map (λ (f : Patch). f.0) piece
