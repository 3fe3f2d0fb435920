-- ===== src/Findings/Anchor.antt =====
-- Placing a finding on the diff line that it quotes: `_match_anchor`, `_snap_one` and
-- `_snap_findings` of engine/engine.py.
pub mod Laws
use lgtmaybe.Prelude.{
  ℕ, Bool, true, false, not, ◌&&◌, ◌||◌, Option, none, some, List, [], ◌∷◌, if◌then◌else◌, leb, ltb,
  any, map, keep_if, length, ◌==◌,
}
use lgtmaybe.Text.{Text, text_eq}
use lgtmaybe.Text.Words.{strip, words, join_words, contains}
use lgtmaybe.Collections.{text_is_eq, pair_is_eq}
use lgtmaybe.Collections.Dict.{items}
use lgtmaybe.Diff.Index.{Side, side_is_eq, LineIndex, changed_line_index}
use lgtmaybe.Findings.Model.{ReviewFinding}
use lgtmaybe.Findings.Conflicts.{distance}

abbrev pub min_substring_anchor : ℕ
min_substring_anchor = 8

-- `_PreparedCandidate`
pub record Candidate : Type 0 where
  pub line : ℕ
  pub text : Text
  pub stripped : Text
  pub norm : Text

unfoldable pub prepare : ℕ × Text → Candidate
prepare (line, text) = record {
  line = line;
  text = text;
  stripped = strip text;
  norm = join_words (words text);
}

abbrev pub Prepared : Type 0
Prepared = List ((Text × Side) × List Candidate)

unfoldable pub prepare_candidates : LineIndex → Prepared
unfolding prepare
prepare_candidates [] = []
prepare_candidates ((key, candidates) ∷ index) =
    (key, map prepare candidates) ∷ prepare_candidates index

-- the lines of the candidates that pass a test
abbrev pub lines_where : (Candidate → Bool) → List Candidate → List ℕ
lines_where test candidates = map (λ c. c.line) (keep_if test candidates)

unfoldable pub quotes : Text → Candidate → Bool
quotes target c =
    contains target c.text
    || (leb min_substring_anchor (length c.stripped) && contains c.stripped target)

-- the only one of a list
abbrev pub only : List ℕ → List ℕ
only [] = []
only (n ∷ []) = n ∷ []
only (n ∷ m ∷ ns) = []

abbrev pub or_else : List ℕ → List ℕ → List ℕ
or_else [] other = other
or_else (n ∷ ns) other = n ∷ ns

unfoldable pub match_anchor : Text → List Candidate → List ℕ
unfolding quotes
match_anchor anchor candidates =
    let target = strip anchor in
    or_else (lines_where (λ c. text_eq c.stripped target) candidates) (
      or_else (lines_where (λ c. text_eq c.norm (join_words (words target))) candidates) (
        if leb min_substring_anchor (length target)
        then only (lines_where (quotes target) candidates)
        else []))

-- `min(matches, key=lambda line: abs(line - n))`: the first of the nearest, `best` so far
unfoldable pub nearest : ℕ → ℕ → List ℕ → ℕ
nearest n best [] = best
nearest n best (m ∷ ms) =
    let closer = nearest n m ms in
    let same = nearest n best ms in if ltb (distance m n) (distance best n) then closer else same

-- `not finding.anchor or not finding.anchor.strip()`
abbrev pub is_blank : Option Text → Bool
is_blank none = true
is_blank (some anchor) = text_eq (strip anchor) []

abbrev pub matches_of : Option Text → List Candidate → List ℕ
matches_of none candidates = []
matches_of (some anchor) candidates = match_anchor anchor candidates

-- what is done with the matches
unfoldable pub snap_to : ReviewFinding → List ℕ → ReviewFinding
unfolding nearest
snap_to finding [] = record finding { anchored = false }
snap_to finding (m ∷ ms) =
    if any (λ n. n == finding.line) (m ∷ ms)
    then finding
    else record finding { line = nearest finding.line m ms }

unfoldable pub snap_one : ReviewFinding → Prepared → ReviewFinding
unfolding snap_to
snap_one finding index =
    if is_blank finding.anchor
    then finding
    else snap_to finding (matches_of finding.anchor (items (finding.path, finding.side) index))

unfoldable pub snap_findings : List ReviewFinding → Text → List ReviewFinding
unfolding snap_one prepare_candidates
snap_findings findings diff =
    let index = prepare_candidates (changed_line_index diff) in map (λ f. snap_one f index) findings
