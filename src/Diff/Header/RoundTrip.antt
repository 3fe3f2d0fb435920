-- ===== src/Diff/Header/RoundTrip.antt =====
-- Reading hunk headers that the program writes, with `parse_hunk_header` of core/diffparse.py.
use lgtmaybe.Prelude.{ℕ, ◌≡◌, refl, [], ◌∷◌, ◌++◌, some, arith}
use lgtmaybe.Text.{Text, nl, Lacks}
use lgtmaybe.Text.Decimal.{number, decimal, number-decimal, digit_value}
use lgtmaybe.Diff.Header.{
  HunkHeader, parse_hunk_header, render_hunk_header, optional_length, rest_of_line,
}

number-decimal_comma : (n : ℕ) (s : Text) → number (decimal n ++ b',' ∷ s) ≡ some (n, b',' ∷ s)
number-decimal_comma n s = number-decimal n _ (unfold digit_value in refl)

optional_length-decimal :
    (n : ℕ) (s : Text) → optional_length (b',' ∷ (decimal n ++ b' ' ∷ s)) ≡ some (n, b' ' ∷ s)
unfolding optional_length
optional_length-decimal n s = number-decimal n _ (unfold digit_value in refl)

rest_of_line-line : (s : Text) → Lacks nl s → rest_of_line s ≡ some s
unfolding rest_of_line
rest_of_line-line [] h = refl
rest_of_line-line (c ∷ []) h = ground arith
rest_of_line-line (c ∷ d ∷ s) h = ground (arith, rest_of_line-line (d ∷ s) h.1)

-- Every written hunk header whose section is one line is read back, numbers and section.
pub parse-render_hunk_header :
    (h : HunkHeader) → Lacks nl h.section → parse_hunk_header (render_hunk_header h) ≡ some h
unfolding parse_hunk_header render_hunk_header
parse-render_hunk_header h lacks =
    simp (number-decimal_comma, optional_length-decimal, rest_of_line-line h.section lacks)
