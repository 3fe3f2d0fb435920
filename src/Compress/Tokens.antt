-- ===== src/Compress/Tokens.antt =====
-- `count_tokens`, `take_lines` and the budgets of context lines of engine/compress.py. The
-- tokenizer (tiktoken) is a parameter; without one the program estimates by characters.
use lgtmaybe.Prelude.{
  ℕ, ◌+◌, ◌/◌, ◌≤◌, ◌<◌, ◌≡◌, refl, ap, subst, List, [], ◌∷◌, ◌++◌, Option, none, some, arith,
  if◌then◌else◌, ltb, leb, length, min, max, Bool-cases, inl, inr,
}
use native.Mathlib.Nat.{zero-add}
use lgtmaybe.Text.{Text}

-- `_counter_for()`: `none` where no tokenizer could be loaded
abbrev pub Counter : Type 0
Counter = Option (Text → ℕ)

abbrev pub fallback_chars_per_token : ℕ
fallback_chars_per_token = 3

unfoldable pub count_tokens : Counter → Text → ℕ
count_tokens none text = max 1 (length text / fallback_chars_per_token)
count_tokens (some counter) text = counter text

abbrev pub max_context_lines : ℕ
max_context_lines = 20

abbrev pub scale : ℕ
scale = 5000

unfoldable pub context_lines_for_budget : ℕ → ℕ
context_lines_for_budget remaining_tokens = max 0 (min (remaining_tokens / scale) max_context_lines)

unfoldable pub trailing_context_lines : ℕ → ℕ
trailing_context_lines before = if leb before 0 then 0 else max 1 (before / 4)

module _ (counter : Counter) where
  -- the loop of `take_lines`: `used` is what the kept lines cost
  unfoldable pub take_within : ℕ → ℕ → List Text → List Text
  take_within budget used [] = []
  take_within budget used (line ∷ lines) =
      let used' = used + (count_tokens counter line + 1) in
      let rest = take_within budget used' lines in if ltb budget used' then [] else line ∷ rest

  unfoldable pub take_lines : List Text → ℕ → List Text
  unfolding take_within
  take_lines lines budget = take_within budget 0 lines

  -- what a list of lines costs, a newline for each
  abbrev pub cost : List Text → ℕ
  cost [] = 0
  cost (line ∷ lines) = count_tokens counter line + 1 + cost lines

  -- the next line would go over the budget, or there is none
  abbrev pub Full : ℕ → ℕ → List Text → Type 0
  Full budget used [] = Unit {0}
  Full budget used (line ∷ lines) = budget < used + (count_tokens counter line + 1)

  take_within_lem :
      (budget used : ℕ) (lines : List Text)
      → used ≤ budget
      → (rest : List Text) × (lines ≡ take_within budget used lines ++ rest)
        × (used + cost (take_within budget used lines) ≤ budget)
        × Full budget (used + cost (take_within budget used lines)) rest
  unfolding take_within
  take_within_lem budget used [] h = ([], refl, omega arith, tt)
  take_within_lem budget used (line ∷ lines) h =
      elim (Bool-cases (ltb budget (used + (count_tokens counter line + 1)))) [
        | inl e ↦ rw (e, take_within) (line ∷ lines, refl, omega arith, ground arith)
        | inr e ↦
            let (rest, whole, within, full) =
              take_within_lem budget (used + (count_tokens counter line + 1)) lines
                (ground arith) in
            let kept = take_within budget (used + (count_tokens counter line + 1)) lines in
            let moved : used + (count_tokens counter line + 1) + cost kept
                ≡ used + (count_tokens counter line + 1 + cost kept) =
              omega arith in
            rw (e, take_within)
              (
                rest,
                ap (λ ls. line ∷ ls) whole,
                omega arith,
                subst (λ n. Full budget n rest) moved full,
              )
      ]

  -- `take_lines` returns a prefix of the lines whose cost, a token more for each line's newline, is
  -- within the budget, and the longest one: with the next line the cost would pass the budget.
  take_lines-longest :
      (lines : List Text) (budget : ℕ)
      → (rest : List Text) × (lines ≡ take_lines lines budget ++ rest)
        × (cost (take_lines lines budget) ≤ budget)
        × Full budget (cost (take_lines lines budget)) rest
  unfolding take_lines
  take_lines-longest lines budget =
      let (rest, whole, within, full) = take_within_lem budget 0 lines (omega arith) in
      (
        rest,
        whole,
        omega arith,
        subst (λ n. Full budget n rest) (zero-add (cost (take_within budget 0 lines))) full,
      )
