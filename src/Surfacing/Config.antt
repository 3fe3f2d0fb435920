-- ===== src/Surfacing/Config.antt =====
-- What decides which findings are posted: of `ReviewConfig` and `PRContext` of core/models.py, and of
-- `_PreparedReview` of engine/engine.py.
use lgtmaybe.Prelude.{ℕ, Bool, Option, List}
use lgtmaybe.Text.{Text}
use lgtmaybe.Findings.Model.{Severity, ReviewFinding}

pub record FindingRuleMatch : Type 0 where
  pub path : Option Text
  pub category : Option Text
  pub title_contains : Option Text
  pub min_severity : Option Severity

pub record FindingRuleAction : Type 0 where
  pub drop : Bool
  pub set_severity : Option Severity

-- `match` and `action`
pub record FindingRule : Type 0 where
  pub selector : FindingRuleMatch
  pub action : FindingRuleAction

pub record ReviewConfig : Type 0 where
  pub min_severity : Severity
  pub unanchored_min_severity : Severity
  pub min_confidence : ℕ
  pub reflect : Bool
  pub ignore_fingerprints : List Text
  pub finding_rules : List FindingRule

-- Dictionaries of contents are functions from paths; of `scan_contents` only the keys are needed.
pub record PrContext : Type 0 where
  pub diff : Text
  pub changed_files : List Text
  pub file_contents : Text → Option Text
  pub scan_contents : List Text
  pub feedback_downvotes : List Text

-- of each hint in `unbatched` its path, of the carrier its id
pub record PreparedReview : Type 0 where
  pub file_patches : List (Text × Text)
  pub scan_findings : List ReviewFinding
  pub scan_scope : Text
  pub unbatched : List Text
  pub carrier : Option Text
