-- ===== src/Surfacing/Pipeline/Arbitration.antt =====
-- No two posted findings contradict each other.
use lgtmaybe.Prelude.{
  ◌≡◌, refl, ◌⊎◌, inl, inr, true, false, not, Option, List, [], ◌∷◌, ◌++◌, keep_if, keep_if-All,
  All, All-append, All-keep_if, All-imp, Bool-cases,
}
use lgtmaybe.Text.{Text, starts_with}
use lgtmaybe.Findings.Model.{ReviewFinding, Severity, or_empty}
use lgtmaybe.Findings.Scan.{is_scan_finding, scan_category_prefix}
use lgtmaybe.Findings.Conflicts.{outranked_by, resolve_conflicts}
use lgtmaybe.Findings.Conflicts.Laws.{Pair, outranked_by-Pair, resolve_conflicts-All}
use lgtmaybe.Surfacing.Config.{ReviewConfig, PrContext, PreparedReview}
use lgtmaybe.Surfacing.Stages.{apply_floors, hinted_no_line}
use lgtmaybe.Surfacing.Pipeline.{Outside, reflect, selected, surfaced, collect_findings}
use lgtmaybe.Surfacing.Pipeline.Flow.{All-apply_finding_rules}

-- no scanner's category is of an opposed pair
scan_category-Pair :
    (a b : Option Text)
    → Pair a b
    → (starts_with (or_empty a) scan_category_prefix ≡ false)
      × (starts_with (or_empty b) scan_category_prefix ≡ false)
scan_category-Pair a b (e, inl f) = rw (e, f) (refl, refl)
scan_category-Pair a b (e, inr f) = rw (e, f) (refl, refl)

outranked_by-scan :
    (f g : ReviewFinding)
    → (is_scan_finding f ≡ true) ⊎ (is_scan_finding g ≡ true)
    → outranked_by f g ≡ false
unfolding is_scan_finding
outranked_by-scan f g h = elim (Bool-cases (outranked_by f g)) [
  | inl e ↦
      let (first, second) = scan_category-Pair f.category g.category (outranked_by-Pair f g e) in
      elim h [ inl s ↦ cc | inr s ↦ cc ]
  | inr e ↦ e
]

-- the finding is outranked by none of the findings
abbrev pub Unopposed : List ReviewFinding → ReviewFinding → Type 0
Unopposed fs f = All (λ g. outranked_by f g ≡ false) fs

abbrev pub Settled : List ReviewFinding → Type 0
Settled fs = All (Unopposed fs) fs

All-every :
    (P : ReviewFinding → Type 0)
    → ((f : ReviewFinding) → P f)
    → (fs : List ReviewFinding) → All P fs
All-every P h [] = tt
All-every P h (f ∷ fs) = (h f, All-every P h fs)

Settled-scans :
    (fs scans : List ReviewFinding)
    → Settled fs
    → All (λ f. is_scan_finding f ≡ true) scans
    → Settled (fs ++ scans)
Settled-scans fs scans h s =
    All-append (Unopposed (fs ++ scans)) fs scans
      (All-imp (Unopposed fs) _
        (λ f u. All-append _ fs scans u (
          All-imp _ (λ g. outranked_by f g ≡ false) (λ g e. outranked_by-scan f g (inr e)) scans s))
        fs h)
      (All-imp _ (Unopposed (fs ++ scans))
        (λ f e. All-every _ (λ g. outranked_by-scan f g (inl e)) (fs ++ scans)) scans s)

-- what keeps every predicate on findings keeps a settled list settled
module _ (stage : List ReviewFinding → List ReviewFinding)
    (keeps : (P : ReviewFinding → Type 0)
      → ((severity : Severity) (f : ReviewFinding) → P f → P (record f { severity = severity }))
      → (fs : List ReviewFinding) → All P fs
      → All P (stage fs)) where
  Settled-stage : (fs : List ReviewFinding) → Settled fs → Settled (stage fs)
  unfolding outranked_by
  Settled-stage fs h =
      All-imp (Unopposed fs) (Unopposed (stage fs))
        (λ f u. keeps (λ g. outranked_by f g ≡ false) (λ severity g e. e) fs u) (stage fs)
        (keeps (Unopposed fs) (λ severity f u. u) fs h)

module _ (outside : Outside) (cfg : ReviewConfig) (ctx : PrContext)
    (prepared : PreparedReview) where
  -- Whatever the lenses, the scanners, the auditor and the rules are: no posted finding is outranked by
  -- another, so that the advice to cut code is never posted beside a bug or a security issue of the same
  -- lines.
  pub collect_findings-Settled :
      (findings : List ReviewFinding) → Settled (collect_findings outside cfg ctx prepared findings)
  unfolding collect_findings surfaced apply_floors
  collect_findings-Settled findings =
      let merged = selected outside cfg ctx prepared findings in
      let reflected =
        reflect outside cfg ctx prepared (keep_if (λ f. not (is_scan_finding f)) merged) in
      Settled-stage (λ fs. apply_floors outside.lower fs cfg (hinted_no_line ctx prepared))
        (λ P by_rule fs h.
          All-apply_finding_rules P by_rule outside.lower _ cfg (All-keep_if P _ fs h))
        (resolve_conflicts reflected ++ keep_if is_scan_finding merged)
        (Settled-scans (resolve_conflicts reflected) (keep_if is_scan_finding merged)
          (resolve_conflicts-All reflected) (keep_if-All is_scan_finding merged))
