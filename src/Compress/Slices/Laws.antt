-- ===== src/Compress/Slices/Laws.antt =====
-- The slices of a hunk, for `split_hunk_by_budget` of engine/compress.py.
use lgtmaybe.Prelude.{ℕ, ◌+◌, ◌-◌, ◌≤◌, ◌<◌, ◌≡◌, ◌⊎◌, List, [], ◌∷◌, take, drop}
use lgtmaybe.Text.{Text}
use lgtmaybe.Diff.Header.{HunkHeader}
use lgtmaybe.Compress.Tokens.{Counter, count_tokens}
use lgtmaybe.Compress.Slices.{render}

-- ranges that follow one another from `start` to `finish`, none of them empty
abbrev pub Chain : ℕ → List (ℕ × ℕ) → ℕ → Type 0
Chain start [] finish = start ≡ finish
Chain start ((a, b) ∷ rs) finish = (a ≡ start) × (a < b) × Chain b rs finish

-- the lines of a range
abbrev pub range_lines : List Text → ℕ × ℕ → List Text
range_lines body (a, b) = take (b - a) (drop a body)

module _ (counter : Counter) (header : Text) (parsed : HunkHeader) (body : List Text)
    (max_tokens : ℕ) where
  abbrev pub render_range : ℕ × ℕ → Text
  render_range (a, b) = render counter header parsed body max_tokens a b

  -- a slice of one line, or one that is within the budget
  abbrev pub Fits : ℕ × ℕ → Type 0
  Fits r = (r.1 ≡ r.0 + 1) ⊎ (count_tokens counter (render_range r) ≤ max_tokens)
