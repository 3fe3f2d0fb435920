-- ===== src/Surfacing/Rules.antt =====
-- engine/rules.py. `lower` is `str.lower`.
pub mod Laws
use lgtmaybe.Prelude.{
  Bool, true, false, not, ◌&&◌, Option, none, some, List, [], ◌∷◌, if◌then◌else◌,
}
use lgtmaybe.Text.{Text}
use lgtmaybe.Text.Words.{contains}
use lgtmaybe.Text.Glob.{matches_glob}
use lgtmaybe.Collections.{eq, text_is_eq, option_is_eq}
use lgtmaybe.Findings.Model.{ReviewFinding, Severity, at_least}
use lgtmaybe.Surfacing.Config.{FindingRule, FindingRuleMatch, FindingRuleAction, ReviewConfig}

-- `field is None or test(field)`
abbrev pub unset_or {ℓ} : {A : Type ℓ} → (A → Bool) → Option A → Bool
unset_or test none = true
unset_or test (some x) = test x

abbrev pub with_severity : ReviewFinding → Option Severity → ReviewFinding
with_severity finding none = finding
with_severity finding (some severity) = record finding { severity = severity }

module _ (lower : Text → Text) where
  unfoldable pub matches : FindingRule → ReviewFinding → Bool
  matches rule finding =
      let selector = rule.selector in
      unset_or (matches_glob finding.path) selector.path
      && (unset_or (λ category. eq finding.category (some category)) selector.category
          && (unset_or (λ title. contains (lower title) (lower finding.title))
                selector.title_contains
              && unset_or (at_least finding.severity) selector.min_severity))

  unfoldable pub act : FindingRuleAction → ReviewFinding → Option ReviewFinding
  act action finding =
      if action.drop then none else some (with_severity finding action.set_severity)

  -- one round of the loop over the rules
  unfoldable pub apply_rule : FindingRule → ReviewFinding → Option ReviewFinding
  unfolding matches act
  apply_rule rule finding = if matches rule finding then act rule.action finding else some finding

  abbrev pub or_stop :
      (ReviewFinding → Option ReviewFinding) → Option ReviewFinding → Option ReviewFinding
  or_stop next none = none
  or_stop next (some finding) = next finding

  -- the loop over the rules, for one finding
  unfoldable pub run_rules : List FindingRule → ReviewFinding → Option ReviewFinding
  unfolding apply_rule
  run_rules [] finding = some finding
  run_rules (rule ∷ rules) finding = or_stop (run_rules rules) (apply_rule rule finding)

  abbrev pub kept_in_front : Option ReviewFinding → List ReviewFinding → List ReviewFinding
  kept_in_front none rest = rest
  kept_in_front (some finding) rest = finding ∷ rest

  unfoldable pub loop_rules : List FindingRule → List ReviewFinding → List ReviewFinding
  unfolding run_rules
  loop_rules rules [] = []
  loop_rules rules (f ∷ fs) = kept_in_front (run_rules rules f) (loop_rules rules fs)

  abbrev pub or_loop : List ReviewFinding → List FindingRule → List ReviewFinding
  or_loop findings [] = findings
  or_loop findings (rule ∷ rules) = loop_rules (rule ∷ rules) findings

  unfoldable pub apply_finding_rules : List ReviewFinding → ReviewConfig → List ReviewFinding
  unfolding loop_rules
  apply_finding_rules findings cfg = or_loop findings cfg.finding_rules
