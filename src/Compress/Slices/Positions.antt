-- ===== src/Compress/Slices/Positions.antt =====
-- Where the lines of a slice stand in the file, for `split_hunk_by_budget` of engine/compress.py.
use lgtmaybe.Prelude.{
  ℕ, zero, suc, ◌+◌, ◌-◌, ◌≤◌, ◌≡◌, refl, sym, ap, ◌∙◌, List, [], ◌∷◌, ◌++◌, some, arith, take,
  drop,
}
use lgtmaybe.Text.{Text}
use lgtmaybe.Diff.Header.{HunkHeader, parse_hunk_header, render_hunk_header}
use lgtmaybe.Diff.Header.RoundTrip.{parse-render_hunk_header}
use lgtmaybe.Diff.Header.Section.{parse_hunk_header-section}
use lgtmaybe.Compress.Tokens.{Counter}
use lgtmaybe.Compress.Slices.{old_advance, new_advance, position, slice_header}

-- how many lines of one side there are among some body lines
abbrev pub total : (Text → ℕ) → List Text → ℕ
total advance [] = 0
total advance (l ∷ ls) = advance l + total advance ls

total-append :
    (advance : Text → ℕ) (ls ms : List Text)
    → total advance (ls ++ ms) ≡ total advance ls + total advance ms
total-append advance [] ms = omega arith
total-append advance (l ∷ ls) ms = omega (arith, total-append advance ls ms)

position-total :
    (advance : Text → ℕ) (at : ℕ) (body : List Text) (n : ℕ)
    → position advance at body n ≡ at + total advance (take n body)
unfolding position
position-total advance at body zero = omega arith
position-total advance at [] (suc n) = omega arith
position-total advance at (l ∷ body) (suc n) =
    omega (arith, position-total advance (at + advance l) body n)

take-nil : (n : ℕ) → ◌≡◌ {A = List Text} (take n []) []
take-nil zero = refl
take-nil (suc n) = refl

take-append_range :
    (a b : ℕ) (body : List Text) → a ≤ b → take b body ≡ take a body ++ take (b - a) (drop a body)
take-append_range zero b body h = let e : b - 0 ≡ b = omega arith in rw e
take-append_range (suc a) zero body h = absurd (omega arith)
take-append_range (suc a) (suc b) [] h = sym (take-nil (suc b - suc a))
take-append_range (suc a) (suc b) (l ∷ body) h =
    let e : suc b - suc a ≡ b - a = omega arith in
    rw e (ap (λ ls. l ∷ ls) (take-append_range a b body (omega arith)))

position_range :
    (advance : Text → ℕ) (at a b : ℕ) (body : List Text)
    → a ≤ b
    → position advance at body b - position advance at body a
      ≡ total advance (take (b - a) (drop a body))
position_range advance at a b body h = omega (
  arith,
  position-total advance at body a,
  position-total advance at body b,
  ap (total advance) (take-append_range a b body h),
  total-append advance (take a body) (take (b - a) (drop a body)),
)

-- For body lines from `a` to `b` of a hunk whose "@@" line was parsed, the "@@" line that
-- `split_hunk_by_budget` writes is read back by `parse_hunk_header` as this: the old start is the
-- hunk's old start plus the number of the old file's lines in front of the slice, the old length is
-- the number of the old file's lines in the slice (lines that are not added, nor the "\ No newline"
-- marker), the same holds on the new side, and the section is the hunk's.
pub parse-slice_header :
    (counter : Counter) (header line : Text) (parsed : HunkHeader) (body : List Text)
    (max_tokens a b : ℕ)
    → parse_hunk_header line ≡ some parsed
    → a ≤ b
    → parse_hunk_header
        (render_hunk_header (slice_header counter header parsed body max_tokens a b))
      ≡ some (record {
        old_start = parsed.old_start + total old_advance (take a body);
        old_len = total old_advance (take (b - a) (drop a body));
        new_start = parsed.new_start + total new_advance (take a body);
        new_len = total new_advance (take (b - a) (drop a body));
        section = parsed.section;
      })
parse-slice_header counter header line parsed body max_tokens a b e h =
    parse-render_hunk_header (slice_header counter header parsed body max_tokens a b)
      (parse_hunk_header-section line parsed e)
    ∙ λ i. some (record {
      old_start = position-total old_advance parsed.old_start body a i;
      old_len = position_range old_advance parsed.old_start a b body h i;
      new_start = position-total new_advance parsed.new_start body a i;
      new_len = position_range new_advance parsed.new_start a b body h i;
      section = parsed.section;
    })
