-- ===== src/Diff/Build.antt =====
-- core/diffbuild.py: a file's patch from hunks or texts. `difflib.unified_diff` is a parameter.
pub mod Files
pub mod RoundTrip
use lgtmaybe.Prelude.{
  ℕ, ◌+◌, ◌≡◌, refl, List, [], ◌∷◌, ◌++◌, Bool, true, false, Option, none, some, arith, ◌==◌, ◌||◌,
  ◌&&◌, not, if◌then◌else◌, ◌>>=◌, ◌<|>◌, is_some, map, ltb, any, drop,
}
use lgtmaybe.Text.{Text, nl, codes, text_eq}
use lgtmaybe.Text.Lines.{split_lines, unlines, endswith_nl, join_lines}

-- _UNSAFE_PATH_CHARS: the C0 control characters and DEL
unfoldable pub has_unsafe_path_chars : Text → Bool
has_unsafe_path_chars path = any (λ c. ltb c 0x20 || c == 0x7f) path

-- `list.pop()`, the list that it leaves
pop : List Text → List Text
pop [] = []
pop (l ∷ []) = []
pop (l ∷ m ∷ ls) = l ∷ pop (m ∷ ls)

-- `_lines` of core/diffbuild.py: no line for no text, none behind a final newline
unfoldable pub text_lines : Text → List Text
unfolding pop
text_lines [] = []
text_lines (c ∷ s) = if endswith_nl (c ∷ s) then pop (split_lines (c ∷ s)) else split_lines (c ∷ s)

-- `x or default` for an optional text
abbrev pub text_or : Option Text → Text → Text
text_or none default = default
text_or (some []) default = default
text_or (some (c ∷ s)) default = c ∷ s

-- a path that an f-string prints, `None` where both are missing
abbrev pub path_or : Option Text → Option Text → Text
path_or (some p) other = p
path_or none (some q) = q
path_or none none = codes "None"

unfoldable pub mode_lines : Option Text → Option Text → List Text
mode_lines (some (c ∷ o)) (some (d ∷ n)) =
    if text_eq (c ∷ o) (d ∷ n)
    then []
    else (codes "old mode " ++ c ∷ o) ∷ (codes "new mode " ++ d ∷ n) ∷ []
mode_lines _ _ = []

unfoldable pub rename_lines : Text → Text → List Text
rename_lines old new =
    if text_eq old new then [] else (codes "rename from " ++ old) ∷ (codes "rename to " ++ new) ∷ []

-- what `_header` says behind its first line
unfoldable pub metadata : Option Text → Option Text → Option Text → Option Text → List Text
unfolding mode_lines rename_lines
metadata none new_path old_mode new_mode =
    (codes "new file mode " ++ text_or new_mode (codes "100644")) ∷ []
metadata (some old) none old_mode new_mode =
    (codes "deleted file mode " ++ text_or old_mode (codes "100644")) ∷ []
metadata (some old) (some new) old_mode new_mode =
    mode_lines old_mode new_mode ++ rename_lines old new

-- the `diff --git` line
unfoldable pub git_line : Option Text → Option Text → Text
git_line old_path new_path =
    codes "diff --git a/"
    ++ (path_or old_path new_path ++ (codes " b/" ++ path_or new_path old_path))

-- `_header`
unfoldable pub header : Option Text → Option Text → Option Text → Option Text → List Text
header old_path new_path old_mode new_mode =
    git_line old_path new_path ∷ metadata old_path new_path old_mode new_mode

-- the `---` and `+++` lines
unfoldable pub old_label_line : Option Text → Text
old_label_line none = codes "--- /dev/null"
old_label_line (some p) = codes "--- a/" ++ p

unfoldable pub new_label_line : Option Text → Text
new_label_line none = codes "+++ /dev/null"
new_label_line (some p) = codes "+++ b/" ++ p

abbrev pub both_missing : Option Text → Option Text → Bool
both_missing none none = true
both_missing _ _ = false

unfoldable pub ended : Text → Text
ended hunks = if endswith_nl hunks then hunks else hunks ++ nl ∷ []

-- `none` is the ValueError for no path at all.
unfoldable pub patch_from_hunks :
    Option Text → Option Text → Option Text → Option Text → Text → Option Text
unfolding ended
patch_from_hunks old_path new_path old_mode new_mode hunks =
    let head = header old_path new_path old_mode new_mode in
    if both_missing old_path new_path then none else elim hunks [
      | [] ↦ some (join_lines head ++ nl ∷ [])
      | c ∷ s ↦ some (
          join_lines (head ++ old_label_line old_path ∷ new_label_line new_path ∷ [])
          ++ nl ∷ ended (c ∷ s))
    ]

-- `header.insert(1, "similarity index 100%")`
unfoldable pub insert_similarity : List Text → List Text
insert_similarity [] = codes "similarity index 100%" ∷ []
insert_similarity (l ∷ ls) = l ∷ codes "similarity index 100%" ∷ ls

unfoldable pub renamed : Option Text → Option Text → Bool
renamed (some old) (some new) = not (text_eq old new)
renamed _ _ = false

-- `difflib.unified_diff` of two lists of lines, with three lines of context, its own two header
-- lines included
module _ (unified_diff : List Text → List Text → List Text) where
  unfoldable pub file_patch : Option Text → Option Text → Text → Text → Option Text
  file_patch old_path new_path old_text new_text =
      let head = header old_path new_path none none in
      if both_missing old_path new_path
      then none
      else elim (drop 2 (unified_diff (text_lines old_text) (text_lines new_text))) [
        | [] ↦ some (
            join_lines (if renamed old_path new_path then insert_similarity head else head)
            ++ nl ∷ [])
        | l ∷ ls ↦ some (
            join_lines (head ++ old_label_line old_path ∷ new_label_line new_path ∷ l ∷ ls)
            ++ nl ∷ [])
      ]

side_label : Text → Option Text → Text
side_label prefix none = codes "/dev/null"
side_label prefix (some p) = prefix ++ p

unfoldable pub binary_file_patch : Option Text → Option Text → Option Text
unfolding side_label
binary_file_patch old_path new_path =
    if both_missing old_path new_path
    then none
    else some (
        join_lines (
          header old_path new_path none none
          ++ (codes "Binary files "
              ++ (side_label (codes "a/") old_path
                  ++ (codes " and " ++ (side_label (codes "b/") new_path ++ codes " differ"))))
            ∷ [])
        ++ nl ∷ [])

rename_runs :
    patch_from_hunks
      (some (codes "a"))
      (some (codes "b"))
      (some (codes "100644"))
      (some (codes "100755"))
      []
    ≡ some (
        unlines (
          codes "diff --git a/a b/b"
          ∷ codes "old mode 100644"
          ∷ codes "new mode 100755"
          ∷ codes "rename from a"
          ∷ codes "rename to b"
          ∷ []))
unfolding patch_from_hunks header metadata git_line join_lines
rename_runs = refl
