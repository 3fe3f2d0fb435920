-- ===== src/Diff/Locate/Ranges.antt =====
-- Where the lines of one hunk stand, by the walk of Diff.Walk and by the ranges in the hunk's header.
use lgtmaybe.Prelude.{
  ℕ, ◌+◌, ◌≤◌, ◌≡◌, refl, ap, sym, subst, ◌∙◌, List, [], ◌∷◌, Bool, true, false, ◌&&◌, ◌||◌, Option,
  none, some, arith, ◌==◌, any, All, is_some,
}
use lgtmaybe.Text.{Text, text_eq, text_eq_iff}
use lgtmaybe.Text.Groups.{IsGroup}
use lgtmaybe.Diff.Header.{HunkHeader, parse_hunk_header, is_file_header}
use lgtmaybe.Diff.Walk.{Walk, Entry, step, in_file, content, walk_lines, yield_to}
use lgtmaybe.Diff.Index.{Side, left, right}
use lgtmaybe.Diff.Index.Laws.{anchors}
use lgtmaybe.Diff.Locate.{is_hunk_header, within, covers, covers_some, group_header}
use lgtmaybe.Compress.Slices.{old_advance, new_advance}
use lgtmaybe.Compress.Slices.Positions.{total}

-- the walk inside a hunk of the file
abbrev inside : Text → ℕ → ℕ → Walk
inside path o n = record { current_file = some path; old_line = o; new_line = n; in_hunk = true }

-- whether the walk of the lines puts one of them at the file's line and side
abbrev pub stands : Text → Side → ℕ → List Text → Bool
stands path side line g = any (anchors (path, (line, side))) (walk_lines (inside path 0 0) g)

-- The header states how many lines the hunk has on each side, and no line of it is of another file.
abbrev pub StatesLengths : Option HunkHeader → List Text → Type 0
StatesLengths none body = Unit
StatesLengths (some h) body =
    (h.old_len ≡ total old_advance body) × (h.new_len ≡ total new_advance body)

abbrev pub IsWhole : List Text → Type 0
IsWhole [] = Unit
IsWhole (l ∷ body) =
    StatesLengths (parse_hunk_header l) body × All (λ m. is_file_header m ≡ false) (l ∷ body)

abbrev start_of : Side → ℕ → ℕ → ℕ
start_of left o n = o
start_of right o n = n

abbrev advance_of : Side → Text → ℕ
advance_of left = old_advance
advance_of right = new_advance

same_path : (path : Text) → text_eq path path ≡ true
same_path path = (text_eq_iff path path).1 refl

content-moves :
    (path l : Text) (o n : ℕ)
    → (content (inside path o n) path l).0 ≡ inside path (o + old_advance l) (n + new_advance l)
unfolding content old_advance new_advance
content-moves path [] o n = refl
content-moves path (c ∷ s) o n = ground arith

content-stands :
    (path l : Text) (o n line : ℕ) (side : Side) (es : List Entry)
    → any (anchors (path, (line, side))) (yield_to (content (inside path o n) path l).1 es) ≡ (
        (advance_of side l == 1 && line == start_of side o n)
        || any (anchors (path, (line, side))) es)
unfolding content old_advance new_advance
content-stands path [] o n line left es = ground (arith, same_path path)
content-stands path [] o n line right es = ground (arith, same_path path)
content-stands path (c ∷ s) o n line left es = ground (arith, same_path path)
content-stands path (c ∷ s) o n line right es = ground (arith, same_path path)

step-content :
    (path l : Text) (o n : ℕ)
    → is_file_header l ≡ false
    → is_hunk_header l ≡ false
    → step (inside path o n) l ≡ content (inside path o n) path l
unfolding step in_file
step-content path l o n f h = ground arith

within-suc :
    (start len k line : ℕ)
    → k ≤ 1
    → (((k == 1) && (line == start)) || within (start + k) len line) ≡ within start (k + len) line
within-suc start len k line h = ground arith

advance-leq : (side : Side) (l : Text) → advance_of side l ≤ 1
unfolding old_advance new_advance
advance-leq left [] = omega arith
advance-leq left (c ∷ s) = ground arith
advance-leq right [] = omega arith
advance-leq right (c ∷ s) = ground arith

start_of-moves :
    (side : Side) (o n : ℕ) (l : Text)
    → start_of side (o + old_advance l) (n + new_advance l) ≡ start_of side o n + advance_of side l
start_of-moves left o n l = refl
start_of-moves right o n l = refl

ranges :
    (side : Side) (h : HunkHeader) (body : List Text)
    → (h.old_len ≡ total old_advance body) × (h.new_len ≡ total new_advance body)
    → (line : ℕ)
    → covers side line h
      ≡ within (start_of side h.old_start h.new_start) (total (advance_of side) body) line
unfolding covers
ranges left h body lengths line = ap (λ n. within h.old_start n line) lengths.0
ranges right h body lengths line = ap (λ n. within h.new_start n line) lengths.1

step-hunk :
    (path l : Text) (h : HunkHeader)
    → is_file_header l ≡ false
    → parse_hunk_header l ≡ some h
    → step (inside path 0 0) l ≡ (inside path h.old_start h.new_start, none)
unfolding step in_file parse_hunk_header
step-hunk path l h f e = rw (f, e) refl

some_of : (o : Option HunkHeader) → is_some o ≡ true → (h : HunkHeader) × (o ≡ some h)
some_of none e = cc
some_of (some h) e = (h, refl)

module _ (path : Text) (side : Side) (line : ℕ) where
  -- The walk of a hunk's lines puts one at the line exactly if the range of so many lines has it.
  walk_lines-within :
      (o n : ℕ) (body : List Text)
      → All (λ m. is_file_header m ≡ false) body
      → All (λ m. is_hunk_header m ≡ false) body
      → any (anchors (path, (line, side))) (walk_lines (inside path o n) body)
        ≡ within (start_of side o n) (total (advance_of side) body) line
  unfolding walk_lines
  walk_lines-within o n [] f h = ground arith
  walk_lines-within o n (l ∷ body) f h =
      rw (step-content path l o n f.0 h.0, content-moves path l o n)
        (content-stands path l o n line side
            (walk_lines (inside path (o + old_advance l) (n + new_advance l)) body)
          ∙ ap (λ b. (advance_of side l == 1 && line == start_of side o n) || b)
              (walk_lines-within (o + old_advance l) (n + new_advance l) body f.1 h.1
                ∙ ap (λ s. within s (total (advance_of side) body) line)
                    (start_of-moves side o n l))
          ∙ within-suc (start_of side o n) (total (advance_of side) body) (advance_of side l) line
              (advance-leq side l))

  covers-stands :
      (l : Text) (body : List Text) (h : HunkHeader)
      → parse_hunk_header l ≡ some h
      → IsWhole (l ∷ body)
      → All (λ m. is_hunk_header m ≡ false) body
      → covers side line h ≡ stands path side line (l ∷ body)
  unfolding walk_lines
  covers-stands l body h e whole group =
      ranges side h body (subst (λ o. StatesLengths o body) e whole.0) line
      ∙ sym (walk_lines-within h.old_start h.new_start body whole.1.1 group)
      ∙ ap
          (λ (s : Walk × Option Entry).
            any (anchors (path, (line, side))) (yield_to s.1 (walk_lines s.0 body)))
          (sym (step-hunk path l h whole.1.0 e))

  -- In a whole group of lines, the test of the header's range is whether a line of it stands there.
  pub covers_some-stands :
      (g : List Text)
      → IsGroup is_hunk_header g
      → IsWhole g
      → covers_some side line (group_header g) ≡ stands path side line g
  covers_some-stands [] group whole = absurd group
  covers_some-stands (l ∷ body) group whole =
      let (h, e) = some_of (parse_hunk_header l) group.0 in
      ap (covers_some side line) e ∙ covers-stands l body h e whole group.1
