-- ===== src/Text/Regex.antt =====
-- Python's `re` on a text: whether `search` finds a match. A pattern is matched by trying its ways in
-- turn, each with what is to match behind it.
use lgtmaybe.Prelude.{
  ℕ, zero, suc, ◌-◌, Bool, true, false, not, ◌&&◌, ◌||◌, Option, none, some, List, [], ◌∷◌, length,
  leb, ◌==◌,
}
use lgtmaybe.Text.{Text}

pub data Regex : Type 0 where
  empty : Regex
  -- a character that passes a test
  one : (ℕ → Bool) → Regex
  both : Regex → Regex → Regex
  either : Regex → Regex → Regex
  repeated : Regex → Regex
  -- no character that passes a test stands in front, or behind; the latter also for `$`
  not_behind : (ℕ → Bool) → Regex
  not_ahead : (ℕ → Bool) → Regex

abbrev pub fails : (ℕ → Bool) → Option ℕ → Bool
fails test none = true
fails test (some c) = not (test c)

abbrev pub first : Text → Option ℕ
first [] = none
first (c ∷ s) = some c

-- What is to match behind: it is given the character in front of it and the rest of the text.
abbrev pub Next : Type 0
Next = Option ℕ → Text → Bool

abbrev pub step_one : (ℕ → Bool) → Text → Next → Bool
step_one test [] next = false
step_one test (c ∷ s) next = test c && next (some c) s

-- at most `n` times
abbrev pub times : (Option ℕ → Text → Next → Bool) → ℕ → Option ℕ → Text → Next → Bool
times r zero p s next = next p s
times r (suc n) p s next = next p s || r p s (λ q t. times r n q t next)

-- Whether the pattern and what is behind it match at a place. A repetition that gets on matches at
-- most as often as there are characters left.
unfoldable pub matches : Regex → Option ℕ → Text → Next → Bool
matches empty p s next = next p s
matches (one test) p s next = step_one test s next
matches (both r q) p s next = matches r p s (λ p' s'. matches q p' s' next)
matches (either r q) p s next = matches r p s next || matches q p s next
matches (repeated r) p s next = times (matches r) (length s) p s next
matches (not_behind test) p s next = fails test p && next p s
matches (not_ahead test) p s next = fails test (first s) && next p s

unfoldable pub search_from : Regex → Option ℕ → Text → Bool
unfolding matches
search_from r p [] = matches r p [] (λ q t. true)
search_from r p (c ∷ s) = matches r p (c ∷ s) (λ q t. true) || search_from r (some c) s

unfoldable pub search : Regex → Text → Bool
unfolding search_from
search r s = search_from r none s

-- a literal in lower case, without regard to case: of the letters, "i", "k" and "s" have further forms
abbrev pub same_letter : ℕ → ℕ → Bool
same_letter p c =
    c == p
    || (leb 97 p
        && leb p 122
        && (c == p - 32
            || (p == b'i' && (c == 304 || c == 305))
            || (p == b'k' && c == 8490)
            || (p == b's' && c == 383)))

abbrev pub literal : Text → Regex
literal [] = empty
literal (c ∷ s) = both (one (same_letter c)) (literal s)

abbrev pub choice : List Regex → Regex
choice [] = one (λ c. false)
choice (r ∷ []) = r
choice (r ∷ q ∷ rs) = either r (choice (q ∷ rs))

abbrev pub optional : Regex → Regex
optional r = either r empty

-- `$`, which a newline at the end may follow
abbrev pub at_end : Regex
at_end = either (not_ahead (λ c. true)) (both (one (λ c. c == 10)) (not_ahead (λ c. true)))
