-- ===== src/Surfacing/Pipeline/Flow.antt =====
-- What holds of the findings behind the anchoring holds of the posted ones, and what the gates add.
use lgtmaybe.Prelude.{
  ◌≡◌, inl, inr, sym, Bool, true, not, ◌||◌, Option, none, some, List, [], ◌∷◌, ◌++◌, keep_if,
  keep_if-All, All, All-append, All-keep_if, Bool-cases, subst,
}
use lgtmaybe.Text.{Text}
use lgtmaybe.Findings.Model.{ReviewFinding, Severity}
use lgtmaybe.Findings.Scan.{is_scan_finding, is_droppable_scan, scope_scans}
use lgtmaybe.Findings.Suppress.{apply_suppressions}
use lgtmaybe.Findings.Suppress.Laws.{apply_suppressions-keep_if}
use lgtmaybe.Findings.Conflicts.{resolve_conflicts}
use lgtmaybe.Surfacing.Config.{
  ReviewConfig, PrContext, PreparedReview, FindingRule, FindingRuleAction,
}
use lgtmaybe.Surfacing.Stages.{
  has_evidence, filter_missing_failure_scenarios, apply_floors, snap_to_diff,
}
use lgtmaybe.Surfacing.Rules.{
  matches, act, apply_rule, run_rules, loop_rules, apply_finding_rules, with_severity, or_stop,
  kept_in_front, or_loop,
}
use lgtmaybe.Surfacing.Reflect.{ParsedVerdict, scored}
use lgtmaybe.Surfacing.Pipeline.{Outside, reviewed_diff, reflect, selected, surfaced}
use lgtmaybe.Surfacing.Pipeline.Kept.{
  OfSome, All-cap_scans, All-dedupe, All-resolve_conflicts, All-reflect,
}

module _ {κ} (P : ReviewFinding → Type κ)
    (by_rule : (severity : Severity) (f : ReviewFinding)
      → P f
      → P (record f { severity = severity }))
    (lower : Text → Text) where
  act-OfSome :
      (action : FindingRuleAction) (f : ReviewFinding) → P f → OfSome P (act lower action f)
  unfolding act
  act-OfSome action f p = elim (Bool-cases action.drop) [
    | inl e ↦ rw e tt
    | inr e ↦ rw e (remapped action.set_severity)
  ]
    where
      remapped : (severity : Option Severity) → P (with_severity f severity)
      remapped none = p
      remapped (some severity) = by_rule severity f p

  apply_rule-OfSome :
      (rule : FindingRule) (f : ReviewFinding) → P f → OfSome P (apply_rule lower rule f)
  unfolding apply_rule
  apply_rule-OfSome rule f p = elim (Bool-cases (matches lower rule f)) [
    | inl e ↦ rw e (act-OfSome rule.action f p)
    | inr e ↦ rw e p
  ]

  or_stop-OfSome :
      (next : ReviewFinding → Option ReviewFinding)
      → ((f : ReviewFinding) → P f → OfSome P (next f))
      → (o : Option ReviewFinding) → OfSome P o
      → OfSome P (or_stop lower next o)
  or_stop-OfSome next k none h = tt
  or_stop-OfSome next k (some f) h = k f h

  pub run_rules-OfSome :
      (rules : List FindingRule) (f : ReviewFinding) → P f → OfSome P (run_rules lower rules f)
  unfolding run_rules
  run_rules-OfSome [] f p = p
  run_rules-OfSome (rule ∷ rules) f p =
      or_stop-OfSome (run_rules lower rules) (run_rules-OfSome rules) (apply_rule lower rule f)
        (apply_rule-OfSome rule f p)

  kept_in_front-All :
      (o : Option ReviewFinding) (rest : List ReviewFinding)
      → OfSome P o
      → All P rest
      → All P (kept_in_front lower o rest)
  kept_in_front-All none rest p h = h
  kept_in_front-All (some f) rest p h = (p, h)

  All-loop_rules :
      (rules : List FindingRule) (fs : List ReviewFinding)
      → All P fs
      → All P (loop_rules lower rules fs)
  unfolding loop_rules
  All-loop_rules rules [] h = tt
  All-loop_rules rules (f ∷ fs) h =
      kept_in_front-All (run_rules lower rules f) (loop_rules lower rules fs)
        (run_rules-OfSome rules f h.0) (All-loop_rules rules fs h.1)

  pub All-apply_finding_rules :
      (fs : List ReviewFinding) (cfg : ReviewConfig)
      → All P fs
      → All P (apply_finding_rules lower fs cfg)
  unfolding apply_finding_rules
  All-apply_finding_rules fs cfg h = go cfg.finding_rules
    where
      go : (rules : List FindingRule) → All P (or_loop lower fs rules)
      go [] = h
      go (rule ∷ rules) = All-loop_rules (rule ∷ rules) fs h

-- a scan finding that may be dropped is anchored
abbrev pub in_scope : ReviewFinding → Bool
in_scope f = f.anchored || not (is_droppable_scan f)

module _ (outside : Outside) (cfg : ReviewConfig) (ctx : PrContext)
    (prepared : PreparedReview) where
  module _ {κ} (P : ReviewFinding → Type κ) where
    All-suppressed :
        (fs : List ReviewFinding)
        → All P fs
        → All P (
            apply_suppressions outside.digest outside.lower outside.is_word cfg.ignore_fingerprints
              ctx.feedback_downvotes ctx.file_contents fs)
    All-suppressed fs h =
        subst (All P)
          (sym (
            apply_suppressions-keep_if outside.digest outside.lower outside.is_word
              cfg.ignore_fingerprints ctx.feedback_downvotes ctx.file_contents fs))
          (All-keep_if P _ fs h)

    pub All-selected :
        (findings : List ReviewFinding)
        → All P
            (snap_to_diff
              (findings ++ prepared.scan_findings)
              ctx
              prepared
              (reviewed_diff outside cfg ctx prepared)).0
        → All P (selected outside cfg ctx prepared findings)
    unfolding selected scope_scans filter_missing_failure_scenarios
    All-selected findings h = All-dedupe P _ (
        All-resolve_conflicts P _ (
          All-keep_if P has_evidence _
            (All-cap_scans P _ _ (All-suppressed _ (All-keep_if P _ _ h)))))

  pub selected-in_scope :
      (findings : List ReviewFinding)
      → All (λ f. in_scope f ≡ true) (selected outside cfg ctx prepared findings)
  unfolding selected scope_scans filter_missing_failure_scenarios
  selected-in_scope findings =
      let P = λ (f : ReviewFinding). in_scope f ≡ true in
      All-dedupe P _ (
        All-resolve_conflicts P _ (
          All-keep_if P has_evidence _
            (All-cap_scans P _ _ (All-suppressed P _ (keep_if-All in_scope _)))))

  filter_missing-has_evidence :
      (fs : List ReviewFinding)
      → All (λ f. has_evidence f ≡ true) (filter_missing_failure_scenarios fs)
  unfolding filter_missing_failure_scenarios
  filter_missing-has_evidence fs = keep_if-All has_evidence fs

  pub selected-has_evidence :
      (findings : List ReviewFinding)
      → All (λ f. has_evidence f ≡ true) (selected outside cfg ctx prepared findings)
  unfolding selected
  selected-has_evidence findings =
      let P = λ (f : ReviewFinding). has_evidence f ≡ true in
      All-dedupe P _ (All-resolve_conflicts P _ (filter_missing-has_evidence _))

  -- the findings that the floors are applied to
  abbrev pub arbitrated : List ReviewFinding → List ReviewFinding
  arbitrated merged =
      resolve_conflicts
        (reflect outside cfg ctx prepared (keep_if (λ f. not (is_scan_finding f)) merged))
      ++ keep_if is_scan_finding merged

  module _ {κ} (P : ReviewFinding → Type κ)
      (by_verdict : (verdict : ParsedVerdict) (f : ReviewFinding)
        → P f
        → P (scored verdict f)) where
    pub All-arbitrated : (merged : List ReviewFinding) → All P merged → All P (arbitrated merged)
    All-arbitrated merged h =
        All-append P _ _
          (All-resolve_conflicts P _
            (All-reflect P by_verdict outside cfg ctx prepared _ (All-keep_if P _ merged h)))
          (All-keep_if P is_scan_finding merged h)

    pub All-surfaced :
        ((severity : Severity) (f : ReviewFinding) → P f → P (record f { severity = severity }))
        → (merged : List ReviewFinding) → All P merged
        → All P (surfaced outside cfg ctx prepared merged)
    unfolding surfaced apply_floors
    All-surfaced by_rule merged h =
        All-apply_finding_rules P by_rule outside.lower _ cfg
          (All-keep_if P _ _ (All-arbitrated merged h))
