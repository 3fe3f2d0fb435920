-- ===== src/Findings/Ceiling/Laws.antt =====
-- Which severities engine/severity.py leaves.
use lgtmaybe.Prelude.{
  ◌≡◌, inl, inr, refl, ◌∙◌, Bool, ◌||◌, Option, none, some, List, [], ◌∷◌, if◌then◌else◌, arith,
  leb, map, Bool-cases,
}
use lgtmaybe.Text.{Text, text_eq}
use lgtmaybe.Collections.{text_is_eq}
use lgtmaybe.Collections.Dict.{get}
use lgtmaybe.Findings.Model.{
  ReviewFinding, Severity, medium, rank, or_empty, complexity, ponytail, documentation, tests,
}
use lgtmaybe.Findings.Ceiling.{
  category_severity_ceiling, clamp_to, clamp_finding, clamp_to_category_ceiling,
}

-- whether a finding is of an advisory category
abbrev pub is_advisory : ReviewFinding → Bool
is_advisory f =
    text_eq complexity (or_empty f.category)
    || text_eq ponytail (or_empty f.category)
    || text_eq documentation (or_empty f.category)
    || text_eq tests (or_empty f.category)

abbrev ceiling_of : Text → Option Severity
ceiling_of category = get category category_severity_ceiling

first_of_four :
    (a b c d : Bool) (s : Severity)
    → (if a then some s else if b then some s else if c then some s else if d then some s else none)
      ≡ (if a || b || c || d then some s else none)
first_of_four a b c d s = ground arith

ceiling-medium :
    (f : ReviewFinding)
    → ceiling_of (or_empty f.category) ≡ (if is_advisory f then some medium else none)
unfolding get
ceiling-medium f =
    let category = or_empty f.category in
    first_of_four (text_eq complexity category) (text_eq ponytail category)
      (text_eq documentation category) (text_eq tests category) medium

clamp_to-medium :
    (f : ReviewFinding)
    → clamp_to (some medium) f
      ≡ record f { severity = (if leb (rank f.severity) 2 then f.severity else medium) }
unfolding clamp_to
clamp_to-medium f = elim (Bool-cases (leb (rank f.severity) 2)) [ inl e ↦ rw e | inr e ↦ rw e ]

-- what the ceiling makes of a severity
abbrev pub lowered : ReviewFinding → Severity
lowered f =
    if is_advisory f then (if leb (rank f.severity) 2 then f.severity else medium) else f.severity

clamp_finding-lowered : (f : ReviewFinding) → clamp_finding f ≡ record f { severity = lowered f }
unfolding clamp_finding
clamp_finding-lowered f = elim (Bool-cases (is_advisory f)) [
  | inl e ↦
      let c : ceiling_of (or_empty f.category) ≡ some medium = ceiling-medium f ∙ rw e in
      rw (c, e) (clamp_to-medium f)
  | inr e ↦
      let c : ceiling_of (or_empty f.category) ≡ none = ceiling-medium f ∙ rw e in
      rw (c, e) (unfold clamp_to in refl)
]

-- a finding with its severity lowered
abbrev pub lower : ReviewFinding → ReviewFinding
lower f = record f { severity = lowered f }

-- `clamp_to_category_ceiling` drops, adds and moves no finding and changes nothing but severities: a
-- complexity, leanness, documentation or tests finding above medium becomes medium, and every other
-- finding keeps its severity.
pub clamp_to_category_ceiling-lowered :
    (findings : List ReviewFinding) → clamp_to_category_ceiling findings ≡ map lower findings
unfolding clamp_to_category_ceiling
clamp_to_category_ceiling-lowered [] = refl
clamp_to_category_ceiling-lowered (f ∷ fs) =
    rw (clamp_finding-lowered f, clamp_to_category_ceiling-lowered fs)
