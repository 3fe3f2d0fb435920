-- ===== src/Diff/Walk/Hunks.antt =====
-- `walk_lines` on written hunks (core/diffparse.py on the lines of core/diffbuild.py).
use lgtmaybe.Prelude.{
  ℕ, ◌+◌, ◌≡◌, refl, ap, ◌∙◌, List, [], ◌∷◌, ◌++◌, map, All, concat, Bool, true, false, Option,
  none, some, arith, append_assoc,
}
use native.Mathlib.Nat.{add-zero}
use lgtmaybe.Text.{Text, nl, Lacks}
use lgtmaybe.Diff.Header.{
  HunkHeader, render_hunk_header, parse_hunk_header, is_file_header, old_file_header,
  new_file_header,
}
use lgtmaybe.Diff.Header.RoundTrip.{parse-render_hunk_header}
use lgtmaybe.Diff.Walk.{
  Kind, deleted, added, context, Walk, step, content, in_file, preamble_path, walk_lines,
}
use lgtmaybe.Diff.Hunk.{
  Line, marker, Hunk, marked, hunk_lines, old_step, new_step, numbered, hunk_entries, IsHunk,
}

abbrev pub inside : Text → ℕ → ℕ → Walk
inside path o n = record { current_file = some path; old_line = o; new_line = n; in_hunk = true }

step-kind :
    (path : Text) (o n : ℕ) (k : Kind) (text : Text)
    → step (inside path o n) (marker k ∷ text) ≡ (
      inside path (o + old_step k) (n + new_step k),
      some (record { path = path; kind = k; old_line = o; new_line = n; text = text }),
    )
unfolding step content is_file_header parse_hunk_header
step-kind path o n deleted text = rw add-zero
step-kind path o n added text = rw add-zero
step-kind path o n context text = refl

-- A content line is content whatever its text is: no text makes it a file header or a hunk header.
pub step-marked :
    (path : Text) (o n : ℕ) (l : Line)
    → step (inside path o n) (marked l) ≡ (
      inside path (o + old_step l.kind) (n + new_step l.kind),
      some (record { path = path; kind = l.kind; old_line = o; new_line = n; text = l.text }),
    )
step-marked path o n l = step-kind path o n l.kind l.text

header_is_no_file_header : (h : HunkHeader) → is_file_header (render_hunk_header h) ≡ false
unfolding is_file_header render_hunk_header
header_is_no_file_header h = refl

header_is_no_preamble : (h : HunkHeader) (b : Bool) → preamble_path b (render_hunk_header h) ≡ none
unfolding old_file_header new_file_header render_hunk_header
header_is_no_preamble h true = refl
header_is_no_preamble h false = refl

in_file-header :
    (w : Walk) (o : Option Text) (path : Text) (h : HunkHeader)
    → o ≡ some path
    → Lacks nl h.section
    → in_file w o (render_hunk_header h)
      ≡ (record w { old_line = h.old_start; new_line = h.new_start; in_hunk = true }, none)
unfolding in_file
in_file-header w none path h e lacks = cc
in_file-header w (some p) path h e lacks = rw (parse-render_hunk_header h lacks, in_file)

pub step-header :
    (w : Walk) (path : Text) (h : HunkHeader)
    → w.current_file ≡ some path
    → Lacks nl h.section
    → step w (render_hunk_header h) ≡ (inside path h.old_start h.new_start, none)
unfolding step
step-header w path h e lacks = ground (
  arith,
  header_is_no_file_header h,
  header_is_no_preamble h w.in_hunk,
  in_file-header w w.current_file path h e lacks,
)

-- the state behind some content lines
abbrev pub after : Text → ℕ → ℕ → List Line → Walk
after path o n [] = inside path o n
after path o n (l ∷ ls) = after path (o + old_step l.kind) (n + new_step l.kind) ls

walk_lines-body :
    (path : Text) (o n : ℕ) (ls : List Line) (rest : List Text)
    → walk_lines (inside path o n) (map marked ls ++ rest)
      ≡ numbered path o n ls ++ walk_lines (after path o n ls) rest
unfolding walk_lines
walk_lines-body path o n [] rest = refl
walk_lines-body path o n (l ∷ ls) rest = rw step-marked (
    ap (λ es. record { path = path; kind = l.kind; old_line = o; new_line = n; text = l.text } ∷ es)
      (walk_lines-body path (o + old_step l.kind) (n + new_step l.kind) ls rest))

current_file-after :
    (path : Text) (o n : ℕ) (ls : List Line) → (after path o n ls).current_file ≡ some path
current_file-after path o n [] = refl
current_file-after path o n (l ∷ ls) =
    current_file-after path (o + old_step l.kind) (n + new_step l.kind) ls

-- the state behind some hunks
abbrev pub after_hunks : Walk → Text → List Hunk → Walk
after_hunks w path [] = w
after_hunks w path (h ∷ hs) =
    after_hunks (after path h.header.old_start h.header.new_start h.body) path hs

-- In a file, the walk of written hunks yields their lines, and goes on behind them.
pub walk_lines-hunks :
    (w : Walk) (path : Text) (hs : List Hunk) (rest : List Text)
    → w.current_file ≡ some path
    → All IsHunk hs
    → walk_lines w (concat (map hunk_lines hs) ++ rest)
      ≡ concat (map (hunk_entries path) hs) ++ walk_lines (after_hunks w path hs) rest
unfolding walk_lines
walk_lines-hunks w path [] rest e ok = refl
walk_lines-hunks w path (h ∷ hs) rest e ok =
    let a = after path h.header.old_start h.header.new_start h.body in
    rw (step-header w path h.header e ok.0.section) (
      simp append_assoc (
        walk_lines-body path h.header.old_start h.header.new_start h.body
          (concat (map hunk_lines hs) ++ rest)
        ∙ ap (λ es. hunk_entries path h ++ es)
            (walk_lines-hunks a path hs rest
              (current_file-after path h.header.old_start h.header.new_start h.body) ok.1)))
