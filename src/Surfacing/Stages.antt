-- ===== src/Surfacing/Stages.antt =====
-- The stages of engine/engine.py that place the findings of a review and choose among them.
use lgtmaybe.Prelude.{
  Bool, true, false, not, ◌&&◌, ◌||◌, List, [], ◌∷◌, ◌++◌, if◌then◌else◌, any, keep_if, map,
  is_some,
}
use lgtmaybe.Text.{Text, codes, text_eq}
use lgtmaybe.Text.Words.{strip}
use lgtmaybe.Findings.Model.{
  ReviewFinding, at_least, category_in, or_empty, security, correctness, deprecation, performance,
}
use lgtmaybe.Findings.Scan.{is_scan_finding}
use lgtmaybe.Findings.Anchor.{snap_findings}
use lgtmaybe.Surfacing.Config.{ReviewConfig, PrContext, PreparedReview}
use lgtmaybe.Surfacing.Rules.{apply_finding_rules}

-- `path in no_line_paths`
unfoldable pub no_line : PrContext → PreparedReview → Text → Bool
no_line ctx prepared path =
    any (text_eq path) ctx.scan_contents
    && not (any (λ (patch : Text × Text). text_eq path patch.0) prepared.file_patches)

-- `path in hinted_no_line_paths`
unfoldable pub hinted_no_line : PrContext → PreparedReview → Text → Bool
unfolding no_line
hinted_no_line ctx prepared path =
    if is_some prepared.carrier
    then any (text_eq path) prepared.unbatched && no_line ctx prepared path
    else false

unfoldable pub unanchor : PrContext → PreparedReview → ReviewFinding → ReviewFinding
unanchor ctx prepared f =
    if no_line ctx prepared f.path && f.anchored then record f { anchored = false } else f

unfoldable pub snap_to_diff :
    List ReviewFinding → PrContext → PreparedReview → Text → List ReviewFinding × (Text → Bool)
unfolding unanchor hinted_no_line
snap_to_diff findings ctx prepared reviewed_diff =
    let scans_at_snap = keep_if is_scan_finding findings in
    let all_findings =
      snap_findings (keep_if (λ f. not (is_scan_finding f)) findings) reviewed_diff
      ++ snap_findings scans_at_snap prepared.scan_scope in
    (map (unanchor ctx prepared) all_findings, hinted_no_line ctx prepared)

abbrev pub code_health : Text
code_health = codes "code-health"

abbrev pub failure_scenario_categories : List Text
failure_scenario_categories = security ∷ correctness ∷ deprecation ∷ performance ∷ code_health ∷ []

abbrev pub filled : Text → Bool
filled [] = false
filled (c ∷ s) = true

-- the test of `_filter_missing_failure_scenarios`
unfoldable pub has_evidence : ReviewFinding → Bool
has_evidence f =
    not (category_in f.category failure_scenario_categories)
    || filled (strip (or_empty f.failure_scenario))

unfoldable pub filter_missing_failure_scenarios : List ReviewFinding → List ReviewFinding
unfolding has_evidence
filter_missing_failure_scenarios findings = keep_if has_evidence findings

unfoldable pub passes_severity_floor : ReviewFinding → ReviewConfig → (Text → Bool) → Bool
passes_severity_floor finding cfg no_line_paths =
    let no_line = no_line_paths finding.path && not (is_scan_finding finding) in
    at_least finding.severity cfg.min_severity
    && (finding.anchored || (no_line || at_least finding.severity cfg.unanchored_min_severity))

-- without rules `apply_finding_rules` gives the findings back
unfoldable pub apply_floors :
    (Text → Text) → List ReviewFinding → ReviewConfig → (Text → Bool) → List ReviewFinding
unfolding passes_severity_floor
apply_floors lower findings cfg hinted_no_line_paths =
    apply_finding_rules lower
      (keep_if (λ f. passes_severity_floor f cfg hinted_no_line_paths) findings) cfg
