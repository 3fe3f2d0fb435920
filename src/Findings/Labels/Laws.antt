-- ===== src/Findings/Labels/Laws.antt =====
-- Which labels features/labels.py computes.
use lgtmaybe.Prelude.{
  ◌≡◌, refl, Bool, true, false, ◌&&◌, Option, none, some, List, [], ◌∷◌, ◌++◌, any,
}
use lgtmaybe.Text.{Text, codes, text_eq}
use lgtmaybe.Text.Decimal.{decimal}
use lgtmaybe.Findings.Model.{ReviewFinding, at_least, high}
use lgtmaybe.Findings.Suppress.{is_security_finding}
use lgtmaybe.Findings.Labels.{
  security_label, splitting_label, effort_score, sprawls, append_if, append_risk, compute_labels,
}

labels-security :
    (serious sprawling : Bool) (effort : Text) (risk_level : Option Text)
    → any (text_eq security_label) (
        append_risk risk_level (
          append_if sprawling splitting_label
            (append_if serious security_label ((codes "review-effort/" ++ effort) ∷ []))))
      ≡ serious
labels-security false false effort none = refl
labels-security false false effort (some level) = refl
labels-security false true effort none = refl
labels-security false true effort (some level) = refl
labels-security true false effort none = refl
labels-security true false effort (some level) = refl
labels-security true true effort none = refl
labels-security true true effort (some level) = refl

-- The label for a possible security issue is computed exactly when some finding is a security finding,
-- of a lens or a scanner, of high or critical severity; no other label reads like it.
compute_labels-security :
    (findings : List ReviewFinding) (diff : Text) (changed_files : List Text)
    (risk_level : Option Text)
    → any (text_eq security_label) (compute_labels findings diff changed_files risk_level)
      ≡ any (λ f. is_security_finding f && at_least f.severity high) findings
unfolding compute_labels
compute_labels-security findings diff changed_files risk_level =
    labels-security (any (λ f. is_security_finding f && at_least f.severity high) findings)
      (sprawls changed_files) (decimal (effort_score diff)) risk_level
