-- ===== src/Findings/Labels.antt =====
-- features/labels.py: the labels that a finished review earns.
pub mod Laws
use lgtmaybe.Prelude.{
  ℕ, ◌+◌, Bool, true, false, ◌&&◌, Option, none, some, List, [], ◌∷◌, ◌++◌, if◌then◌else◌, any, leb,
  ltb, length, keep_if, map, ◌==◌,
}
use lgtmaybe.Text.{Text, codes}
use lgtmaybe.Text.Decimal.{decimal}
use lgtmaybe.Collections.{text_is_eq}
use lgtmaybe.Collections.Set.{add}
use lgtmaybe.Diff.Count.{changed_line_count}
use lgtmaybe.Findings.Model.{ReviewFinding, at_least, high}
use lgtmaybe.Findings.Suppress.{is_security_finding}

abbrev pub security_label : Text
security_label = codes "possible-security-issue"

abbrev pub splitting_label : Text
splitting_label = codes "consider-splitting"

abbrev pub effort_thresholds : List ℕ
effort_thresholds = 50 ∷ 200 ∷ 500 ∷ 1000 ∷ []

-- the loop over the thresholds
unfoldable pub score_from : ℕ → ℕ → List ℕ → ℕ
score_from changed score [] = score
score_from changed score (threshold ∷ thresholds) =
    score_from changed (if leb threshold changed then score + 1 else score) thresholds

unfoldable pub effort_score : Text → ℕ
unfolding score_from
effort_score diff = score_from (changed_line_count diff) 1 effort_thresholds

-- `path.split("/", 1)[0]`
unfoldable pub top_level : Text → Text
top_level [] = []
top_level (c ∷ s) = let rest = top_level s in if c == b'/' then [] else c ∷ rest

abbrev pub add_all : List Text → List Text
add_all [] = []
add_all (d ∷ ds) = add d (add_all ds)

unfoldable pub sprawls : List Text → Bool
unfolding top_level
sprawls changed_files =
    if ltb (length changed_files) 10
    then false
    else leb 4 (
        length
          (add_all (map top_level (keep_if (λ path. any (λ c. c == b'/') path) changed_files))))

-- `append` under a condition
abbrev pub append_if : Bool → Text → List Text → List Text
append_if true label labels = labels ++ label ∷ []
append_if false label labels = labels

abbrev pub append_risk : Option Text → List Text → List Text
append_risk none labels = labels
append_risk (some level) labels = labels ++ (codes "risk/" ++ level) ∷ []

-- `risk_level` is `ctx.risk.level`, none where there is no risk verdict
unfoldable pub compute_labels : List ReviewFinding → Text → List Text → Option Text → List Text
unfolding effort_score sprawls
compute_labels findings diff changed_files risk_level = append_risk risk_level (
    append_if (sprawls changed_files) splitting_label (
      append_if (any (λ f. is_security_finding f && at_least f.severity high) findings)
        security_label ((codes "review-effort/" ++ decimal (effort_score diff)) ∷ [])))
