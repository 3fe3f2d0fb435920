-- ===== src/Diff/Build/RoundTrip.antt =====
-- `walk_diff` of core/diffparse.py on the patches of core/diffbuild.py.
use lgtmaybe.Prelude.{
  ℕ, ◌≡◌, refl, ap, ◌∙◌, List, [], ◌∷◌, ◌++◌, Bool, true, false, Option, none, some, arith, map,
  concat, All, All-append, if◌then◌else◌, append_assoc, ◌<|>◌,
}
use lgtmaybe.Text.{Text, nl, codes, Lacks, text_eq}
use lgtmaybe.Text.Lines.{unlines, lines-unlines, unlines-append}
use lgtmaybe.Diff.Header.{
  is_file_header, old_file_header, new_file_header, before_tab, parse_hunk_header, lazy_path,
  fallback_path,
}
use lgtmaybe.Diff.Hunk.{Hunk, hunk_lines, hunk_entries, IsHunk}
use lgtmaybe.Diff.Walk.{Walk, start, step, walk_lines, walk_diff}
use lgtmaybe.Diff.Walk.Hunks.{after_hunks, walk_lines-hunks}
use lgtmaybe.Diff.Build.{
  metadata, mode_lines, rename_lines, git_line, path_or, old_label_line, new_label_line,
  both_missing,
}
use lgtmaybe.Diff.Build.Files.{
  FileDiff, SafePath, IsFileDiff, label_lines, file_lines, file_entries, diff_of, patch_of-lines,
}
use lgtmaybe.Diff.Build.Files.OneLine.{any-Lacks, file_lines-Lacks}

abbrev outside : Option Text → ℕ → ℕ → Walk
outside o a b = record { current_file = o; old_line = a; new_line = b; in_hunk = false }

-- a line that the walk passes over outside hunks
abbrev Inert : Text → Type 0
Inert l = (o : Option Text) (a b : ℕ) → step (outside o a b) l ≡ (outside o a b, none)

walk_lines-Inert :
    (ms : List Text) (o : Option Text) (a b : ℕ) (rest : List Text)
    → All Inert ms
    → walk_lines (outside o a b) (ms ++ rest) ≡ walk_lines (outside o a b) rest
unfolding walk_lines
walk_lines-Inert [] o a b rest h = refl
walk_lines-Inert (m ∷ ms) o a b rest h = rw (h.0 o a b) (walk_lines-Inert ms o a b rest h.1)

step-git_line :
    (w : Walk) (p q : Option Text)
    → step w (git_line p q)
      ≡ (record w { current_file = fallback_path (git_line p q); in_hunk = false }, none)
unfolding step is_file_header
step-git_line w p q = unfold git_line in refl

-- outside hunks, a line that begins like none of the headers
Inert-of_miss :
    (l : Text)
    → is_file_header l ≡ false
    → old_file_header l ≡ none
    → new_file_header l ≡ none
    → parse_hunk_header l ≡ none
    → Inert l
unfolding step
Inert-of_miss l a b c d none x y = ground arith
Inert-of_miss l a b c d (some p) x y = ground arith

All-if : (b : Bool) (ls : List Text) → All Inert ls → All Inert (if b then [] else ls)
All-if true ls h = tt
All-if false ls h = h

mode_lines-Inert : (m n : Option Text) → All Inert (mode_lines m n)
unfolding mode_lines is_file_header old_file_header new_file_header parse_hunk_header
mode_lines-Inert (some (c ∷ o)) (some (d ∷ n)) =
    All-if (text_eq (c ∷ o) (d ∷ n)) _
      (Inert-of_miss _ refl refl refl refl, (Inert-of_miss _ refl refl refl refl, tt))
mode_lines-Inert (some []) n = tt
mode_lines-Inert none n = tt
mode_lines-Inert (some (c ∷ o)) n = tt

rename_lines-Inert : (p q : Text) → All Inert (rename_lines p q)
unfolding rename_lines is_file_header old_file_header new_file_header parse_hunk_header
rename_lines-Inert p q =
    All-if (text_eq p q) _
      (Inert-of_miss _ refl refl refl refl, (Inert-of_miss _ refl refl refl refl, tt))

metadata-Inert : (p q m n : Option Text) → All Inert (metadata p q m n)
unfolding metadata is_file_header old_file_header new_file_header parse_hunk_header
metadata-Inert none q m n = (Inert-of_miss _ refl refl refl refl, tt)
metadata-Inert (some p) none m n = (Inert-of_miss _ refl refl refl refl, tt)
metadata-Inert (some p) (some q) m n =
    All-append Inert (mode_lines m n) (rename_lines p q) (mode_lines-Inert m n)
      (rename_lines-Inert p q)

before_tab-line : (s : Text) → Lacks 9 s → before_tab s ≡ s
unfolding before_tab
before_tab-line [] h = refl
before_tab-line (c ∷ s) h = ground (arith, before_tab-line s h.1)

lazy_path-safe : (p : Text) → SafePath (some p) → lazy_path p ≡ some p
lazy_path-safe [] h = absurd (h.0 refl)
lazy_path-safe (c ∷ s) h =
    ap (λ t. some (c ∷ t)) (before_tab-line s (any-Lacks (c ∷ s) 9 refl h.1).1)

step-old_label :
    (p o : Option Text) (a b : ℕ)
    → SafePath p
    → step (outside o a b) (old_label_line p) ≡ (outside (p <|> o) a b, none)
unfolding step is_file_header old_file_header new_file_header parse_hunk_header old_label_line
step-old_label none o a b h = Inert-of_miss (codes "--- /dev/null") refl refl refl refl o a b
step-old_label (some p) o a b h = rw (lazy_path-safe p h)

step-new_label :
    (p o : Option Text) (a b : ℕ)
    → SafePath p
    → step (outside o a b) (new_label_line p) ≡ (outside (p <|> o) a b, none)
unfolding step is_file_header old_file_header new_file_header parse_hunk_header new_label_line
step-new_label none o a b h = Inert-of_miss (codes "+++ /dev/null") refl refl refl refl o a b
step-new_label (some p) o a b h = rw (lazy_path-safe p h)

-- the file that the label lines leave in force
label_path : (p q o : Option Text) → both_missing p q ≡ false → q <|> (p <|> o) ≡ some (path_or q p)
label_path none none o h = cc
label_path (some p) none o h = refl
label_path p (some q) o h = refl

walk_lines-two_labels :
    (p q o : Option Text) (a b : ℕ) (ls : List Text)
    → SafePath p
    → SafePath q
    → walk_lines (outside o a b) (old_label_line p ∷ new_label_line q ∷ ls)
      ≡ walk_lines (outside (q <|> (p <|> o)) a b) ls
unfolding walk_lines
walk_lines-two_labels p q o a b ls hp hq =
    rw (step-old_label p o a b hp, step-new_label q (p <|> o) a b hq)

walk_lines-labels :
    (p q o : Option Text) (hs : List Hunk) (a b : ℕ)
    → SafePath p
    → SafePath q
    → both_missing p q ≡ false
    → All IsHunk hs
    → (w : Walk) × ((rest : List Text)
        → walk_lines (outside o a b) (label_lines p q hs ++ (concat (map hunk_lines hs) ++ rest))
          ≡ concat (map (hunk_entries (path_or q p)) hs) ++ walk_lines w rest)
walk_lines-labels p q o [] a b hp hq named ok = (outside o a b, λ rest. refl)
walk_lines-labels p q o (h ∷ hs) a b hp hq named ok =
    let w = outside (q <|> (p <|> o)) a b in
    (
      after_hunks w (path_or q p) (h ∷ hs),
      λ rest.
          walk_lines-two_labels p q o a b (concat (map hunk_lines (h ∷ hs)) ++ rest) hp hq
          ∙ walk_lines-hunks w (path_or q p) (h ∷ hs) rest (label_path p q o named) ok,
    )

walk_lines-git_line :
    (w : Walk) (p q : Option Text) (ls : List Text)
    → walk_lines w (git_line p q ∷ ls)
      ≡ walk_lines (outside (fallback_path (git_line p q)) w.old_line w.new_line) ls
unfolding walk_lines
walk_lines-git_line w p q ls = rw (step-git_line w p q)

-- One file's patch yields its lines from any state, and leaves a state that only it determines.
walk_lines-file :
    (w : Walk) (f : FileDiff)
    → IsFileDiff f
    → (w' : Walk) × ((rest : List Text)
        → walk_lines w (file_lines f ++ rest) ≡ file_entries f ++ walk_lines w' rest)
walk_lines-file w f ok =
    let o = fallback_path (git_line f.old_path f.new_path) in
    let meta = metadata f.old_path f.new_path f.old_mode f.new_mode in
    let labels = label_lines f.old_path f.new_path f.hunks in
    let body = concat (map hunk_lines f.hunks) in
    let (w', reads) =
      walk_lines-labels f.old_path f.new_path o f.hunks w.old_line w.new_line ok.old_path
        ok.new_path ok.named ok.hunks in
    (
      w',
      λ rest.
          walk_lines-git_line w f.old_path f.new_path ((meta ++ (labels ++ body)) ++ rest)
          ∙ ap (walk_lines (outside o w.old_line w.new_line)) (
              append_assoc meta (labels ++ body) rest
              ∙ ap (λ ls. meta ++ ls) (append_assoc labels body rest))
          ∙ walk_lines-Inert meta o w.old_line w.new_line (labels ++ (body ++ rest))
              (metadata-Inert f.old_path f.new_path f.old_mode f.new_mode)
          ∙ reads rest,
    )

walk_lines-files :
    (w : Walk) (fs : List FileDiff)
    → All IsFileDiff fs
    → walk_lines w (concat (map file_lines fs)) ≡ concat (map file_entries fs)
walk_lines-files w [] ok = unfold walk_lines in refl
walk_lines-files w (f ∷ fs) ok =
    let (w', reads) = walk_lines-file w f ok.0 in
    reads (concat (map file_lines fs))
    ∙ ap (λ es. file_entries f ++ es) (walk_lines-files w' fs ok.1)

diff_of-lines :
    (fs : List FileDiff)
    → All IsFileDiff fs
    → diff_of fs ≡ some (unlines (concat (map file_lines fs)))
diff_of-lines [] ok = refl
diff_of-lines (f ∷ fs) ok =
    rw (patch_of-lines f ok.0, diff_of-lines fs ok.1, unlines-append (file_lines f))

files-Lacks : (fs : List FileDiff) → All IsFileDiff fs → All (Lacks nl) (concat (map file_lines fs))
files-Lacks [] ok = tt
files-Lacks (f ∷ fs) ok =
    All-append (Lacks nl) (file_lines f) _ (file_lines-Lacks f ok.0) (files-Lacks fs ok.1)

walk_diff-unlines :
    (fs : List FileDiff)
    → All IsFileDiff fs
    → walk_diff (unlines (concat (map file_lines fs))) ≡ concat (map file_entries fs)
unfolding walk_diff step is_file_header old_file_header new_file_header
walk_diff-unlines [] ok = refl
walk_diff-unlines (f ∷ fs) ok =
    ap (walk_lines start)
      (lines-unlines (concat (map file_lines (f ∷ fs))) (λ e. cc) (files-Lacks (f ∷ fs) ok))
    ∙ walk_lines-files start (f ∷ fs) ok

-- For files with safe paths and one-line modes, at least one path each, and hunks of one-line
-- parts, `patch_from_hunks` returns a patch for each, and `walk_diff` of these patches one behind
-- the other yields exactly the content lines of the hunks, each with its file's new path (the old
-- one where the file is deleted), its marker, its text, and the line numbers counted from its hunk
-- header. So no content line is read as a header, whatever its text.
pub walk_diff-patch_from_hunks :
    (fs : List FileDiff)
    → All IsFileDiff fs
    → (diff : Text) × (diff_of fs ≡ some diff) × (walk_diff diff ≡ concat (map file_entries fs))
walk_diff-patch_from_hunks fs ok =
    (unlines (concat (map file_lines fs)), diff_of-lines fs ok, walk_diff-unlines fs ok)
