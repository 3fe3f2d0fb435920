-- ===== src/Surfacing/Pipeline/Scans.antt =====
-- How many findings of scanners are posted.
use lgtmaybe.Prelude.{
  ℕ, suc, ◌+◌, ◌≤◌, ◌≡◌, inl, inr, refl, ap, ◌∙◌, Bool, true, false, not, Option, none, some, List,
  [], ◌∷◌, ◌++◌, if◌then◌else◌, arith, keep_if, keep_if-All, keep_if-append, length-keep_if,
  length-append, length, All, All-imp, Bool-cases,
}
use lgtmaybe.Text.{Text}
use lgtmaybe.Collections.{text_is_eq, nat_is_eq, pair_is_eq, option_is_eq}
use lgtmaybe.Collections.Dict.{put, get, values}
use lgtmaybe.Diff.Index.{side_is_eq}
use lgtmaybe.Findings.Model.{ReviewFinding}
use lgtmaybe.Findings.Scan.{is_scan_finding}
use lgtmaybe.Findings.Cap.{cap_scans, max_scan_findings}
use lgtmaybe.Findings.Cap.Laws.{cap_scans-cases}
use lgtmaybe.Findings.Conflicts.{resolve_conflicts}
use lgtmaybe.Findings.Merge.{Key, Best, key, stays, place, place_all, dedupe}
use lgtmaybe.Surfacing.Config.{ReviewConfig, PrContext, PreparedReview, FindingRule}
use lgtmaybe.Surfacing.Stages.{filter_missing_failure_scenarios, apply_floors, hinted_no_line}
use lgtmaybe.Surfacing.Rules.{run_rules, kept_in_front, loop_rules, or_loop, apply_finding_rules}
use lgtmaybe.Surfacing.Pipeline.{Outside, reflect, selected, surfaced, collect_findings}
use lgtmaybe.Surfacing.Pipeline.Kept.{OfSome, All-reflect, All-resolve_conflicts}
use lgtmaybe.Surfacing.Pipeline.Flow.{run_rules-OfSome}

abbrev pub scans_in : List ReviewFinding → ℕ
scans_in fs = length (keep_if is_scan_finding fs)

scans_in-cons :
    (f : ReviewFinding) (fs : List ReviewFinding)
    → scans_in (f ∷ fs) ≡ (if is_scan_finding f then suc (scans_in fs) else scans_in fs)
scans_in-cons f fs = elim (Bool-cases (is_scan_finding f)) [ inl e ↦ rw e | inr e ↦ rw e ]

scans_in-keep_if :
    (p : ReviewFinding → Bool) (fs : List ReviewFinding) → scans_in (keep_if p fs) ≤ scans_in fs
scans_in-keep_if p [] = omega arith
scans_in-keep_if p (f ∷ fs) = ground (arith, scans_in-keep_if p fs)

scans_in-none :
    (fs : List ReviewFinding) → All (λ f. is_scan_finding f ≡ false) fs → scans_in fs ≡ 0
scans_in-none [] h = refl
scans_in-none (f ∷ fs) h = rw h.0 (scans_in-none fs h.1)

scans_in-append : (fs gs : List ReviewFinding) → scans_in (fs ++ gs) ≡ scans_in fs + scans_in gs
scans_in-append fs gs = ap length (keep_if-append is_scan_finding fs gs) ∙ length-append _ _

others-All :
    (fs : List ReviewFinding)
    → All (λ f. is_scan_finding f ≡ false) (keep_if (λ f. not (is_scan_finding f)) fs)
others-All fs = All-imp _ _ (λ f e. turned _ e) _ (keep_if-All (λ f. not (is_scan_finding f)) fs)
  where
    turned : (b : Bool) → not b ≡ true → b ≡ false
    turned b e = ground arith

scans_in-cap_scans :
    (fs : List ReviewFinding) (off_diff : ℕ) → scans_in (cap_scans fs off_diff) ≤ max_scan_findings
scans_in-cap_scans fs off_diff = elim (cap_scans-cases fs off_diff) [
  | inl (few, e) ↦ rw e few
  | inr (kept, dropped, e, size, order, cut) ↦
      rw
        (
          e,
          scans_in-append (keep_if (λ f. not (is_scan_finding f)) fs) kept,
          scans_in-none _ (others-All fs),
        )
        (omega (arith, length-keep_if is_scan_finding kept, size))
]

scans_in-put :
    (k : Key) (f : ReviewFinding) (best : Best)
    → scans_in (values (put k f best)) ≤ scans_in (f ∷ values best)
unfolding put
scans_in-put k f [] = omega arith
scans_in-put k f ((j, g) ∷ best) = ground (arith, scans_in-put k f best)

scans_in-place :
    (best : Best) (f : ReviewFinding)
    → scans_in (values (place best f)) ≤ scans_in (f ∷ values best)
unfolding place
scans_in-place best f = elim (Bool-cases (stays best f (get (key f) best))) [
  | inl e ↦ rw e (ground arith)
  | inr e ↦ rw e (scans_in-put (key f) f best)
]

scans_in-place_all :
    (best : Best) (fs : List ReviewFinding)
    → scans_in (values (place_all best fs)) ≤ scans_in (values best) + scans_in fs
unfolding place_all
scans_in-place_all best [] = omega arith
scans_in-place_all best (f ∷ fs) =
    ground (arith, scans_in-place_all (place best f) fs, scans_in-place best f)

module _ (lower : Text → Text) where
  scans_in-front :
      (f : ReviewFinding) (o : Option ReviewFinding) (rest fs : List ReviewFinding)
      → OfSome (λ g. is_scan_finding g ≡ is_scan_finding f) o
      → scans_in rest ≤ scans_in fs
      → scans_in (kept_in_front lower o rest) ≤ scans_in (f ∷ fs)
  scans_in-front f none rest fs h le = ground arith
  scans_in-front f (some g) rest fs h le = ground (arith, scans_in-cons g rest, scans_in-cons f fs)

  scans_in-loop_rules :
      (rules : List FindingRule) (fs : List ReviewFinding)
      → scans_in (loop_rules lower rules fs) ≤ scans_in fs
  unfolding loop_rules is_scan_finding
  scans_in-loop_rules rules [] = omega arith
  scans_in-loop_rules rules (f ∷ fs) =
      scans_in-front f (run_rules lower rules f) (loop_rules lower rules fs) fs
        (run_rules-OfSome (λ g. is_scan_finding g ≡ is_scan_finding f) (λ severity g e. e) lower
          rules f refl)
        (scans_in-loop_rules rules fs)

  scans_in-or_loop :
      (fs : List ReviewFinding) (rules : List FindingRule)
      → scans_in (or_loop lower fs rules) ≤ scans_in fs
  scans_in-or_loop fs [] = omega arith
  scans_in-or_loop fs (rule ∷ rules) = scans_in-loop_rules (rule ∷ rules) fs

  scans_in-apply_floors :
      (fs : List ReviewFinding) (cfg : ReviewConfig) (no_line : Text → Bool)
      → scans_in (apply_floors lower fs cfg no_line) ≤ scans_in fs
  unfolding apply_floors apply_finding_rules
  scans_in-apply_floors fs cfg no_line =
      omega (arith, scans_in-or_loop (keep_if _ fs) cfg.finding_rules, scans_in-keep_if _ fs)

scans_in-resolve_conflicts :
    (fs : List ReviewFinding) → scans_in (resolve_conflicts fs) ≤ scans_in fs
unfolding resolve_conflicts
scans_in-resolve_conflicts fs = scans_in-keep_if _ fs

scans_in-filter_missing :
    (fs : List ReviewFinding) → scans_in (filter_missing_failure_scenarios fs) ≤ scans_in fs
unfolding filter_missing_failure_scenarios
scans_in-filter_missing fs = scans_in-keep_if _ fs

scans_in-merged :
    (fs : List ReviewFinding)
    → scans_in (dedupe (resolve_conflicts (filter_missing_failure_scenarios fs))) ≤ scans_in fs
unfolding dedupe
scans_in-merged fs =
    let evident = filter_missing_failure_scenarios fs in
    omega (
      arith,
      scans_in-place_all [] (resolve_conflicts evident),
      scans_in-resolve_conflicts evident,
      scans_in-filter_missing fs,
    )

scans_in-capped :
    (fs : List ReviewFinding) (off_diff : ℕ)
    → scans_in
        (dedupe (resolve_conflicts (filter_missing_failure_scenarios (cap_scans fs off_diff))))
      ≤ max_scan_findings
scans_in-capped fs off_diff =
    omega (arith, scans_in-merged (cap_scans fs off_diff), scans_in-cap_scans fs off_diff)

module _ (outside : Outside) (cfg : ReviewConfig) (ctx : PrContext)
    (prepared : PreparedReview) where
  scans_in-selected :
      (findings : List ReviewFinding)
      → scans_in (selected outside cfg ctx prepared findings) ≤ max_scan_findings
  unfolding selected
  scans_in-selected findings = scans_in-capped _ _

  -- no audited finding is a scanner's
  audited-All :
      (merged : List ReviewFinding)
      → let others = keep_if (λ f. not (is_scan_finding f)) merged in
        All
          (λ f. is_scan_finding f ≡ false)
          (resolve_conflicts (reflect outside cfg ctx prepared others))
  unfolding is_scan_finding
  audited-All merged =
      let P = λ (f : ReviewFinding). is_scan_finding f ≡ false in
      All-resolve_conflicts P _
        (All-reflect P (λ verdict f e. e) outside cfg ctx prepared _ (others-All merged))

  scans_in-surfaced :
      (merged : List ReviewFinding)
      → scans_in (surfaced outside cfg ctx prepared merged) ≤ scans_in merged
  unfolding surfaced
  scans_in-surfaced merged =
      let scanned = keep_if is_scan_finding merged in
      let audited =
        resolve_conflicts
          (reflect outside cfg ctx prepared (keep_if (λ f. not (is_scan_finding f)) merged)) in
      omega (
        arith,
        scans_in-apply_floors outside.lower (audited ++ scanned) cfg (hinted_no_line ctx prepared),
        scans_in-append audited scanned,
        scans_in-none audited (audited-All merged),
        length-keep_if is_scan_finding scanned,
      )

  -- However many findings the scanners have, a review posts 20 of them at most.
  pub scans_in-collect_findings :
      (findings : List ReviewFinding)
      → scans_in (collect_findings outside cfg ctx prepared findings) ≤ max_scan_findings
  unfolding collect_findings
  scans_in-collect_findings findings = omega (
    arith,
    scans_in-surfaced (selected outside cfg ctx prepared findings),
    scans_in-selected findings,
  )
