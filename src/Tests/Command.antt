-- ===== src/Tests/Command.antt =====
-- Concrete inputs for the theorem on slash commands (cli/slash.py), and runs of it.
use lgtmaybe.Prelude.{◌≡◌, refl, none, some, [], ◌∷◌, ◌++◌}
use lgtmaybe.Text.{codes}
use lgtmaybe.Text.Words.{is_space, strip, lstrip, rstrip}
use lgtmaybe.Command.{ask, review, value, slash_command, first_word, behind_word, parse_command}
use lgtmaybe.Command.Laws.{parse_command-value}

bare_run : parse_command (codes " /Review\n") ≡ some (record { name = review; arg = [] })
unfolding parse_command slash_command first_word behind_word strip
bare_run = refl

other_run : parse_command (codes "/reviews all") ≡ none
unfolding parse_command slash_command first_word behind_word strip
other_run = refl

parse_command-value_example :
    parse_command (b'/' ∷ (value ask ++ b' ' ∷ ([] ++ codes "why so slow?")))
    ≡ some (record { name = ask; arg = codes "why so slow?" })
unfolding is_space lstrip rstrip
parse_command-value_example =
    parse_command-value ask b' ' [] (codes "why so slow?") (refl, tt) refl refl (λ e. cc)
