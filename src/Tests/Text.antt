-- ===== src/Tests/Text.antt =====
-- Runs of the text methods.
use lgtmaybe.Prelude.{◌≡◌, refl, true, false}
use lgtmaybe.Text.{codes}
use lgtmaybe.Text.Words.{strip, words, join_words, contains}

strip_run : strip (codes "  a b\t\n") ≡ codes "a b"
unfolding strip
strip_run = refl

words_run : join_words (words (codes "  ab  c\td ")) ≡ codes "ab c d"
unfolding words join_words
words_run = refl

contains_run : contains (codes "bc") (codes "abcd") ≡ true
unfolding contains
contains_run = refl

contains-not_run : contains (codes "bd") (codes "abcd") ≡ false
unfolding contains
contains-not_run = refl
