-- ===== src/Text/Glob.antt =====
-- `fnmatch.fnmatchcase` of Python's library, with `*`, `?`, `[seq]` and `[!seq]`, and `_matches_glob` of
-- engine/stages.py. A pattern is first read as tokens, as `fnmatch.translate` reads it.
use lgtmaybe.Prelude.{
  ℕ, zero, suc, ◌+◌, Bool, true, false, not, ◌&&◌, ◌||◌, Option, none, some, List, [], ◌∷◌,
  if◌then◌else◌, ◌==◌, leb, any, take, drop, keep_if,
}
use mathlib.Core.Option
use lgtmaybe.Text.{Text, codes, starts_with}

-- a range of characters: one character is a range from itself to itself
abbrev pub Range : Type 0
Range = ℕ × ℕ

pub data Token : Type 0 where
  star : Token
  question : Token
  set : Bool → List Range → Token
  literal : ℕ → Token

-- how many characters stand in front of the "]" that closes a set; a "]" in front of all is one of them
abbrev closing : Text → Option ℕ
closing [] = none
closing (c ∷ s) = if c == b']' then some 0 else Option.map suc (closing s)

abbrev closing_behind : Text → Option ℕ
closing_behind [] = none
closing_behind (c ∷ s) = Option.map suc (closing s)

abbrev set_length : Text → Option ℕ
set_length [] = none
set_length (c ∷ s) = if c == b'!' then Option.map suc (closing_behind s) else closing_behind (c ∷ s)

-- `skip` characters belong to the range in front of them
unfoldable ranges_from : ℕ → Text → List Range
ranges_from skip [] = []
ranges_from (suc skip) (c ∷ s) = ranges_from skip s
ranges_from zero (c ∷ []) = (c, c) ∷ []
ranges_from zero (c ∷ d ∷ []) = (c, c) ∷ ranges_from zero (d ∷ [])
ranges_from zero (c ∷ d ∷ e ∷ s) =
    let range = (c, e) ∷ ranges_from 2 (d ∷ e ∷ s) in
    let single = (c, c) ∷ ranges_from zero (d ∷ e ∷ s) in if d == b'-' then range else single

-- the "!" in front is no end of a range
unfoldable ranges : Text → List Range
unfolding ranges_from
ranges [] = []
ranges (c ∷ s) =
    let negated = (c, c) ∷ ranges_from 0 s in if c == b'!' then negated else ranges_from 0 (c ∷ s)

-- a "!" in front of what is left, when the empty ranges are removed, turns the set around
unfoldable set_of : List Range → Token
set_of [] = set false []
set_of ((a, b) ∷ rs) =
    if a == b'!'
    then set true (if b == b'!' then rs else (b'-', b'-') ∷ (b, b) ∷ rs)
    else set false ((a, b) ∷ rs)

unfoldable read_set : Text → Token
unfolding ranges set_of
read_set s = set_of (keep_if (λ (r : Range). leb r.0 r.1) (ranges s))

abbrev bracket : Text → Option ℕ → Token
bracket s none = literal b'['
bracket s (some n) = read_set (take n s)

abbrev behind : Option ℕ → ℕ
behind none = 0
behind (some n) = n + 1

-- `skip` characters belong to the set in front of them
unfoldable tokens_from : ℕ → Text → List Token
unfolding read_set
tokens_from skip [] = []
tokens_from (suc skip) (c ∷ s) = tokens_from skip s
tokens_from zero (c ∷ s) =
    let one = tokens_from 0 s in
    let in_set = tokens_from (behind (set_length s)) s in
    if c == b'*'
    then star ∷ one
    else if c == b'?'
    then question ∷ one
    else if c == b'['
    then bracket s (set_length s) ∷ in_set
    else literal c ∷ one

abbrev in_ranges : ℕ → List Range → Bool
in_ranges c rs = any (λ (r : Range). leb r.0 c && leb c r.1) rs

abbrev takes : Token → ℕ → Bool
takes star c = false
takes question c = true
takes (set turned rs) c = if turned then not (in_ranges c rs) else in_ranges c rs
takes (literal d) c = c == d

abbrev ends : Text → Bool
ends [] = true
ends (c ∷ s) = false

abbrev behind_any : (Text → Bool) → Text → Bool
behind_any rest [] = rest []
behind_any rest (c ∷ s) = rest (c ∷ s) || behind_any rest s

abbrev behind_one : Token → (Text → Bool) → Text → Bool
behind_one token rest [] = false
behind_one token rest (c ∷ s) = takes token c && rest s

unfoldable matches_tokens : List Token → Text → Bool
matches_tokens [] s = ends s
matches_tokens (star ∷ ts) s = behind_any (matches_tokens ts) s
matches_tokens (question ∷ ts) s = behind_one question (matches_tokens ts) s
matches_tokens (set turned rs ∷ ts) s = behind_one (set turned rs) (matches_tokens ts) s
matches_tokens (literal c ∷ ts) s = behind_one (literal c) (matches_tokens ts) s

-- `fnmatchcase(path, pattern)`
unfoldable pub glob : Text → Text → Bool
unfolding tokens_from matches_tokens
glob path pattern = matches_tokens (tokens_from 0 pattern) path

unfoldable pub matches_glob : Text → Text → Bool
unfolding glob
matches_glob path pattern =
    glob path pattern || (starts_with pattern (codes "**/") && glob path (drop 3 pattern))
