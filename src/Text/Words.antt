-- ===== src/Text/Words.antt =====
-- `str.strip()`, `str.split()`, `" ".join(...)` and `in` on texts.
use lgtmaybe.Prelude.{ℕ, List, [], ◌∷◌, ◌++◌, Bool, ◌&&◌, ◌||◌, if◌then◌else◌, ◌==◌, leb, any}
use lgtmaybe.Text.{Text, starts_with}

abbrev pub in_range : ℕ → ℕ → ℕ → Bool
in_range low high c = leb low c && leb c high

-- `str.isspace` of one character
unfoldable pub is_space : ℕ → Bool
is_space c =
    in_range 9 13 c
    || in_range 28 32 c
    || in_range 8192 8202 c
    || any (λ d. c == d) (133 ∷ 160 ∷ 5760 ∷ 8232 ∷ 8233 ∷ 8239 ∷ 8287 ∷ 12288 ∷ [])

unfoldable pub lstrip : Text → Text
unfolding is_space
lstrip [] = []
lstrip (c ∷ s) = let rest = lstrip s in if is_space c then rest else c ∷ s

-- the characters that are not white space keep those in front of them
abbrev pub keep_last : ℕ → Text → Text
keep_last c [] = if is_space c then [] else c ∷ []
keep_last c (d ∷ s) = c ∷ d ∷ s

unfoldable pub rstrip : Text → Text
unfolding is_space
rstrip [] = []
rstrip (c ∷ s) = keep_last c (rstrip s)

unfoldable pub strip : Text → Text
unfolding lstrip rstrip
strip s = rstrip (lstrip s)

abbrev pub word_of : Text → List Text
word_of [] = []
word_of (c ∷ s) = (c ∷ s) ∷ []

-- `word` is the word begun
unfoldable pub words_from : Text → Text → List Text
unfolding is_space
words_from word [] = word_of word
words_from word (c ∷ s) =
    let ended = word_of word ++ words_from [] s in
    let grown = words_from (word ++ c ∷ []) s in if is_space c then ended else grown

-- `s.split()`
unfoldable pub words : Text → List Text
unfolding words_from
words s = words_from [] s

-- `" ".join(words)`
unfoldable pub join_words : List Text → Text
join_words [] = []
join_words (w ∷ []) = w
join_words (w ∷ v ∷ ws) = w ++ b' ' ∷ join_words (v ∷ ws)

-- `needle in s`
unfoldable pub contains : Text → Text → Bool
contains needle [] = starts_with [] needle
contains needle (c ∷ s) = starts_with (c ∷ s) needle || contains needle s
