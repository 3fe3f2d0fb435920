-- ===== src/Diff/Build/Files.antt =====
-- A changed file by its parts, and the lines of the patch that `patch_from_hunks` writes for it.
pub mod OneLine
use lgtmaybe.Prelude.{
  ℕ, ◌+◌, ◌≡◌, ◌≢◌, refl, sym, ap, ◌∙◌, append-nil, List, [], ◌∷◌, ◌++◌, Bool, true, false, Option,
  none, some, arith, ◌==◌, ltb, map, concat, All, ◌>>=◌, All-append, append_assoc, any, Bool-cases,
  inl, inr,
}
use lgtmaybe.Text.{Text, nl, codes, Lacks, text_eq}
use lgtmaybe.Text.Lines.{
  unlines, unlines-append, unlines-join, join_lines, endswith_nl, endswith-unlines,
}
use lgtmaybe.Text.Decimal.{decimal, decimal-Lacks}
use lgtmaybe.Diff.Header.{HunkHeader, render_hunk_header}
use lgtmaybe.Diff.Hunk.{Line, Hunk, marked, marker, hunk_lines, hunk_entries, IsHunk}
use lgtmaybe.Diff.Walk.{Entry, deleted, added, context, Kind}
use lgtmaybe.Diff.Build.{
  has_unsafe_path_chars, header, metadata, mode_lines, rename_lines, git_line, path_or, text_or,
  old_label_line, new_label_line, patch_from_hunks, both_missing, ended,
}

pub record FileDiff : Type 0 where
  pub old_path : Option Text
  pub new_path : Option Text
  pub old_mode : Option Text
  pub new_mode : Option Text
  pub hunks : List Hunk

-- a path that `has_unsafe_path_chars` lets through, if there is one
abbrev pub SafePath : Option Text → Type 0
SafePath none = Unit {0}
SafePath (some p) = (p ≢ []) × (has_unsafe_path_chars p ≡ false)

abbrev pub OneLine : Option Text → Type 0
OneLine none = Unit {0}
OneLine (some m) = Lacks nl m

pub record IsFileDiff (f : FileDiff) : Type 0 where
  pub named : both_missing f.old_path f.new_path ≡ false
  pub old_path : SafePath f.old_path
  pub new_path : SafePath f.new_path
  pub old_mode : OneLine f.old_mode
  pub new_mode : OneLine f.new_mode
  pub hunks : All IsHunk f.hunks

abbrev pub hunks_text : List Hunk → Text
hunks_text hs = unlines (concat (map hunk_lines hs))

-- the call of `patch_from_hunks` for the file
abbrev pub patch_of : FileDiff → Option Text
patch_of f = patch_from_hunks f.old_path f.new_path f.old_mode f.new_mode (hunks_text f.hunks)

-- the name that the file is reviewed under
abbrev pub path_of : FileDiff → Text
path_of f = path_or f.new_path f.old_path

abbrev pub file_entries : FileDiff → List Entry
file_entries f = concat (map (hunk_entries (path_of f)) f.hunks)

abbrev pub label_lines : Option Text → Option Text → List Hunk → List Text
label_lines old_path new_path [] = []
label_lines old_path new_path (h ∷ hs) = old_label_line old_path ∷ new_label_line new_path ∷ []

abbrev pub file_lines : FileDiff → List Text
file_lines f =
    git_line f.old_path f.new_path
    ∷ (metadata f.old_path f.new_path f.old_mode f.new_mode
        ++ (label_lines f.old_path f.new_path f.hunks ++ concat (map hunk_lines f.hunks)))

ended-unlines : (ls : List Text) → ls ≢ [] → ended (unlines ls) ≡ unlines ls
unfolding ended
ended-unlines ls n = rw (endswith-unlines ls n)

-- lines that are joined, and the text of more lines behind them
join-unlines : (ls ms : List Text) → ls ≢ [] → join_lines ls ++ nl ∷ unlines ms ≡ unlines (ls ++ ms)
join-unlines ls ms n =
    sym (append_assoc (join_lines ls) (nl ∷ []) (unlines ms))
    ∙ ap (λ t. t ++ unlines ms) (sym (unlines-join ls n))
    ∙ sym (unlines-append ls ms)

append_nl-ne-nil : (l s : Text) → l ++ nl ∷ s ≢ []
append_nl-ne-nil [] s h = cc
append_nl-ne-nil (c ∷ l) s h = cc

module _ (old new old_mode new_mode : Option Text) (named : both_missing old new ≡ false) where
  patch_without_hunks :
      patch_from_hunks old new old_mode new_mode []
      ≡ some (join_lines (header old new old_mode new_mode) ++ nl ∷ [])
  unfolding patch_from_hunks
  patch_without_hunks = rw named

  patch_with_hunks :
      (hunks : Text)
      → hunks ≢ []
      → patch_from_hunks old new old_mode new_mode hunks
        ≡ some (
            join_lines
              (header old new old_mode new_mode ++ old_label_line old ∷ new_label_line new ∷ [])
            ++ nl ∷ ended hunks)
  unfolding patch_from_hunks
  patch_with_hunks [] n = absurd (n refl)
  patch_with_hunks (c ∷ s) n = rw named

  patch-lines :
      (hs : List Hunk)
      → patch_from_hunks old new old_mode new_mode (hunks_text hs)
        ≡ some (
            unlines (
              git_line old new
              ∷ (metadata old new old_mode new_mode
                  ++ (label_lines old new hs ++ concat (map hunk_lines hs)))))
  unfolding header
  patch-lines [] =
      let head = git_line old new ∷ metadata old new old_mode new_mode in
      patch_without_hunks
      ∙ ap some (sym (unlines-join head (λ e. cc)) ∙ ap unlines (sym (append-nil head)))
  patch-lines (h ∷ hs) =
      let head = git_line old new ∷ metadata old new old_mode new_mode in
      let labels = old_label_line old ∷ new_label_line new ∷ [] in
      let body : List Text = concat (map hunk_lines (h ∷ hs)) in
      patch_with_hunks (hunks_text (h ∷ hs)) (append_nl-ne-nil (render_hunk_header h.header) _)
      ∙ ap (λ t. some (join_lines (head ++ labels) ++ nl ∷ t)) (ended-unlines body (λ e. cc))
      ∙ ap some (join-unlines (head ++ labels) body (λ e. cc))
      ∙ ap (λ ls. some (unlines ls)) (append_assoc head labels body)

-- A patch is its lines, each with a newline.
pub patch_of-lines : (f : FileDiff) → IsFileDiff f → patch_of f ≡ some (unlines (file_lines f))
patch_of-lines f ok = patch-lines f.old_path f.new_path f.old_mode f.new_mode ok.named f.hunks

-- the patches of several files, one behind the other
abbrev pub diff_of : List FileDiff → Option Text
diff_of [] = some []
diff_of (f ∷ fs) = do patch ← patch_of f; rest ← diff_of fs; some (patch ++ rest)
