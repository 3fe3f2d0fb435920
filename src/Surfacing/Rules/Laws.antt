-- ===== src/Surfacing/Rules/Laws.antt =====
-- How the rules of engine/rules.py work together.
use lgtmaybe.Prelude.{◌≡◌, refl, sym, ap, ◌∙◌, Option, none, some, List, [], ◌∷◌, ◌++◌}
use lgtmaybe.Text.{Text}
use lgtmaybe.Findings.Model.{ReviewFinding}
use lgtmaybe.Surfacing.Config.{FindingRule, ReviewConfig}
use lgtmaybe.Surfacing.Rules.{
  apply_rule, or_stop, run_rules, kept_in_front, loop_rules, or_loop, apply_finding_rules,
}

module _ (lower : Text → Text) where
  or_stop-or_stop :
      (f g : ReviewFinding → Option ReviewFinding) (o : Option ReviewFinding)
      → or_stop lower (λ x. or_stop lower g (f x)) o ≡ or_stop lower g (or_stop lower f o)
  or_stop-or_stop f g none = refl
  or_stop-or_stop f g (some x) = refl

  or_stop_ext :
      (f g : ReviewFinding → Option ReviewFinding)
      → ((x : ReviewFinding) → f x ≡ g x)
      → (o : Option ReviewFinding) → or_stop lower f o ≡ or_stop lower g o
  or_stop_ext f g h none = refl
  or_stop_ext f g h (some x) = h x

  run_rules-append :
      (rules later : List FindingRule) (f : ReviewFinding)
      → run_rules lower (rules ++ later) f
        ≡ or_stop lower (run_rules lower later) (run_rules lower rules f)
  unfolding run_rules
  run_rules-append [] later f = refl
  run_rules-append (rule ∷ rules) later f =
      or_stop_ext _ (λ x. or_stop lower (run_rules lower later) (run_rules lower rules x))
        (run_rules-append rules later) (apply_rule lower rule f)
      ∙ or_stop-or_stop (run_rules lower rules) (run_rules lower later) (apply_rule lower rule f)

  loop_rules_front :
      (later : List FindingRule) (o : Option ReviewFinding) (fs : List ReviewFinding)
      → kept_in_front lower (or_stop lower (run_rules lower later) o) (loop_rules lower later fs)
        ≡ loop_rules lower later (kept_in_front lower o fs)
  unfolding loop_rules
  loop_rules_front later none fs = refl
  loop_rules_front later (some f) fs = refl

  loop_rules-append :
      (rules later : List FindingRule) (fs : List ReviewFinding)
      → loop_rules lower (rules ++ later) fs ≡ loop_rules lower later (loop_rules lower rules fs)
  unfolding loop_rules
  loop_rules-append rules later [] = refl
  loop_rules-append rules later (f ∷ fs) =
      ap (λ o. kept_in_front lower o (loop_rules lower (rules ++ later) fs))
        (run_rules-append rules later f)
      ∙ ap
          (λ rest.
            kept_in_front lower (or_stop lower (run_rules lower later) (run_rules lower rules f))
              rest)
          (loop_rules-append rules later fs)
      ∙ loop_rules_front later (run_rules lower rules f) (loop_rules lower rules fs)

  loop_rules-nil : (fs : List ReviewFinding) → loop_rules lower [] fs ≡ fs
  unfolding loop_rules run_rules
  loop_rules-nil [] = refl
  loop_rules-nil (f ∷ fs) = ap (λ rest. f ∷ rest) (loop_rules-nil fs)

  or_loop-loop_rules :
      (fs : List ReviewFinding) (rules : List FindingRule)
      → or_loop lower fs rules ≡ loop_rules lower rules fs
  or_loop-loop_rules fs [] = sym (loop_rules-nil fs)
  or_loop-loop_rules fs (rule ∷ rules) = refl

  -- To run the findings through two lists of rules, one behind the other, is to run them through the
  -- first and what is left through the second: a later rule sees the severity that an earlier one gave,
  -- and never a finding that an earlier one dropped.
  apply_finding_rules-append :
      (cfg : ReviewConfig) (rules later : List FindingRule) (fs : List ReviewFinding)
      → apply_finding_rules lower fs (record cfg { finding_rules = rules ++ later })
        ≡ apply_finding_rules lower
            (apply_finding_rules lower fs (record cfg { finding_rules = rules }))
            (record cfg { finding_rules = later })
  unfolding apply_finding_rules
  apply_finding_rules-append cfg rules later fs =
      or_loop-loop_rules fs (rules ++ later)
      ∙ loop_rules-append rules later fs
      ∙ ap (loop_rules lower later) (sym (or_loop-loop_rules fs rules))
      ∙ sym (or_loop-loop_rules (or_loop lower fs rules) later)
