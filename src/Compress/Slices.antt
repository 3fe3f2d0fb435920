-- ===== src/Compress/Slices.antt =====
-- `split_hunk_by_budget` of engine/compress.py: cutting inside one hunk.
pub mod Laws
pub mod Positions
use lgtmaybe.Prelude.{
  ℕ, zero, suc, ◌+◌, ◌-◌, ◌*◌, ◌/◌, ◌≡◌, ◌≢◌, refl, List, [], ◌∷◌, ◌++◌, Bool, true, false, ◌&&◌,
  ◌||◌, Option, none, some, arith, if◌then◌else◌, ◌==◌, concat, length, take, drop, leb, ltb, max,
  map,
}
use lgtmaybe.Text.{Text, codes, nl}
use lgtmaybe.Text.Lines.{lines_keepends}
use lgtmaybe.Text.Decimal.{decimal}
use lgtmaybe.Diff.Header.{HunkHeader, parse_hunk_header, render_hunk_header}
use lgtmaybe.Compress.Tokens.{Counter, count_tokens}
use lgtmaybe.Compress.Hunks.{is_hunk_line, before_hunk, from_hunk}

-- `0 if marker in ("+", "\\") else 1`, and the same for the new side
unfoldable pub old_advance : Text → ℕ
old_advance [] = 1
old_advance (c ∷ s) = if c == b'+' || c == b'\\' then 0 else 1

unfoldable pub new_advance : Text → ℕ
new_advance [] = 1
new_advance (c ∷ s) = if c == b'-' || c == b'\\' then 0 else 1

-- `old_at[i]` and `new_at[i]`: the position in front of the body's line `i`
unfoldable pub position : (Text → ℕ) → ℕ → List Text → ℕ → ℕ
position advance at body zero = at
position advance at [] (suc i) = at
position advance at (l ∷ body) (suc i) = position advance (at + advance l) body i

-- `slices if len(slices) > 1 else [unit]`
abbrev pub several : Text → List Text → List Text
several unit [] = unit ∷ []
several unit (s ∷ []) = unit ∷ []
several unit (s ∷ t ∷ slices) = s ∷ t ∷ slices

module _ (counter : Counter) (header : Text) (parsed : HunkHeader) (body : List Text)
    (max_tokens : ℕ) where
  -- `old_at`, `new_at`
  abbrev pub old_at : ℕ → ℕ
  old_at = position old_advance parsed.old_start body

  abbrev pub new_at : ℕ → ℕ
  new_at = position new_advance parsed.new_start body

  -- the header that `render` writes for body[start:end]
  abbrev pub slice_header : ℕ → ℕ → HunkHeader
  slice_header start end = record {
    old_start = old_at start;
    old_len = old_at end - old_at start;
    new_start = new_at start;
    new_len = new_at end - new_at start;
    section = parsed.section;
  }

  unfoldable pub render : ℕ → ℕ → Text
  render start end =
      header
      ++ (render_hunk_header (slice_header start end)
          ++ nl ∷ concat (take (end - start) (drop start body)))

  -- the first inner loop, over the costs of the lines from `end` on
  unfoldable pub grow : ℕ → ℕ → List Text → ℕ
  grow used end [] = end
  grow used end (line ∷ lines) =
      let cost = count_tokens counter line in
      let more = grow (used + cost) (end + 1) lines in
      if leb (used + cost) max_tokens then more else end

  -- the second inner loop; `end` falls each round, so `end - start` rounds are enough
  unfoldable pub shrink : ℕ → ℕ → ℕ → ℕ
  shrink zero start end = end
  shrink (suc fuel) start end =
      let actual = count_tokens counter (render start end) in
      let less =
        shrink fuel start (max (start + 1) (start + (end - start) * max_tokens / actual)) in
      if ltb (start + 1) end then (if leb actual max_tokens then end else less) else end

  -- one round of the outer loop: the end of the slice that begins at `start`
  unfoldable pub slice_end : ℕ → Text → List Text → ℕ
  unfolding grow shrink
  slice_end start line rest =
      let grown = grow (count_tokens counter line) (start + 1) rest in
      shrink (grown - start) start grown

  -- the outer loop; `start` grows each round, so the length of the body is fuel enough
  unfoldable pub slice_from : ℕ → ℕ → List Text
  slice_from zero start = []
  slice_from (suc fuel) start = elim (drop start body) [
    | [] ↦ []
    | line ∷ rest ↦ let end = slice_end start line rest in render start end ∷ slice_from fuel end
  ]

  unfoldable pub body_slices : Text → List Text
  unfolding slice_from
  body_slices unit = several unit (slice_from (length body) 0)

-- what is done with the lines from the "@@" line on
unfoldable pub split_unit : Counter → ℕ → Text → Text → List Text → List Text
split_unit counter max_tokens unit header [] = unit ∷ []
split_unit counter max_tokens unit header (line ∷ []) = unit ∷ []
split_unit counter max_tokens unit header (line ∷ l ∷ body) = elim (parse_hunk_header line) [
  | none ↦ unit ∷ []
  | some parsed ↦ body_slices counter header parsed (l ∷ body) max_tokens unit
]

unfoldable pub split_hunk_by_budget : Counter → Text → ℕ → List Text
unfolding split_unit
split_hunk_by_budget counter unit max_tokens =
    let lines = lines_keepends unit in
    split_unit counter max_tokens unit (concat (before_hunk lines)) (from_hunk lines)
