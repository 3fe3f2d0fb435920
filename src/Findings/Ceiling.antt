-- ===== src/Findings/Ceiling.antt =====
-- engine/severity.py: the ceiling on the severity of advisory findings.
pub mod Laws
use lgtmaybe.Prelude.{Bool, true, false, Option, none, some, List, [], ◌∷◌, if◌then◌else◌, leb, map}
use lgtmaybe.Text.{Text}
use lgtmaybe.Collections.{text_is_eq}
use lgtmaybe.Collections.Dict.{get}
use lgtmaybe.Findings.Model.{
  ReviewFinding, Severity, medium, rank, or_empty, complexity, ponytail, documentation, tests,
}

-- `CATEGORY_SEVERITY_CEILING`
abbrev pub category_severity_ceiling : List (Text × Severity)
category_severity_ceiling =
    (complexity, medium) ∷ (ponytail, medium) ∷ (documentation, medium) ∷ (tests, medium) ∷ []

-- what is done with a finding under a ceiling
unfoldable pub clamp_to : Option Severity → ReviewFinding → ReviewFinding
clamp_to none finding = finding
clamp_to (some ceiling) finding =
    if leb (rank finding.severity) (rank ceiling)
    then finding
    else record finding { severity = ceiling }

-- one round of the loop
unfoldable pub clamp_finding : ReviewFinding → ReviewFinding
unfolding clamp_to
clamp_finding finding = clamp_to (get (or_empty finding.category) category_severity_ceiling) finding

unfoldable pub clamp_to_category_ceiling : List ReviewFinding → List ReviewFinding
unfolding clamp_finding
clamp_to_category_ceiling findings = map clamp_finding findings
