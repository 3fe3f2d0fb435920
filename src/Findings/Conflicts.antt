-- ===== src/Findings/Conflicts.antt =====
-- `resolve_conflicts` of engine/conflicts.py.
pub mod Laws
use lgtmaybe.Prelude.{
  ℕ, zero, suc, ◌+◌, ◌-◌, Bool, true, false, not, ◌&&◌, ◌||◌, Option, none, some, List, [], ◌∷◌,
  if◌then◌else◌, leb, ltb, any, keep_if,
}
use lgtmaybe.Text.{Text, text_eq}
use lgtmaybe.Collections.{eq, text_is_eq, option_is_eq}
use lgtmaybe.Diff.Index.{side_beq}
use lgtmaybe.Findings.Model.{
  ReviewFinding, security, correctness, performance, tests, complexity, ponytail, or_empty,
}

-- `PRECEDENCE`, highest first
abbrev pub precedence : List Text
precedence = correctness ∷ security ∷ performance ∷ tests ∷ complexity ∷ ponytail ∷ []

-- `OPPOSED`, a list of pairs
abbrev pub opposed : List (Text × Text)
opposed = (ponytail, correctness) ∷ (ponytail, security) ∷ []

abbrev pub near_lines : ℕ
near_lines = 3

-- `_RANK[category]`; `none` where the category has no rank and the code raises KeyError
unfoldable pub rank_of : Text → List Text → Option ℕ
rank_of category [] = none
rank_of category (c ∷ cs) = if text_eq c category then some 0 else later (rank_of category cs)
  where
    later : Option ℕ → Option ℕ
    later none = none
    later (some n) = some (suc n)

-- `frozenset({a, b}) in _OPPOSED`
unfoldable pub is_opposed : Option Text → Option Text → Bool
is_opposed a b =
    any
      (λ (pair : Text × Text).
        (eq a (some pair.0) && eq b (some pair.1)) || (eq a (some pair.1) && eq b (some pair.0)))
      opposed

-- `abs(a - b)`
abbrev pub distance : ℕ → ℕ → ℕ
distance a b = (a - b) + (b - a)

abbrev pub precedes : Option ℕ → Option ℕ → Bool
precedes (some a) (some b) = ltb a b
precedes _ _ = false

unfoldable pub outranked_by : ReviewFinding → ReviewFinding → Bool
unfolding rank_of is_opposed
outranked_by loser winner =
    if not (text_eq loser.path winner.path) || not (side_beq loser.side winner.side)
    then false
    else if ltb near_lines (distance loser.line winner.line)
    then false
    else if not (is_opposed loser.category winner.category)
    then false
    else precedes (rank_of (or_empty winner.category) precedence)
        (rank_of (or_empty loser.category) precedence)

-- the loop over the findings, judged against the input set
unfoldable pub resolve_conflicts : List ReviewFinding → List ReviewFinding
unfolding outranked_by
resolve_conflicts findings = keep_if (λ f. not (any (outranked_by f) findings)) findings
