-- ===== src/Surfacing/Pipeline/Laws.antt =====
-- Which findings a review posts, and where.
use lgtmaybe.Prelude.{
  ◌≡◌, inl, inr, refl, ◌∙◌, Bool, true, false, not, ◌&&◌, ◌||◌, List, [], ◌∷◌, ◌++◌, if◌then◌else◌,
  map, keep_if-All, All, All-append, All-imp, Bool-cases, arith, ℕ, any, ◌==◌,
}
use lgtmaybe.Text.{Text}
use lgtmaybe.Findings.Model.{ReviewFinding}
use lgtmaybe.Findings.Scan.{is_scan_finding}
use lgtmaybe.Findings.Anchor.{Prepared, snap_to, snap_one, snap_findings, is_blank}
use lgtmaybe.Findings.Anchor.Laws.{is_safe, snap_findings-is_safe}
use lgtmaybe.Surfacing.Config.{ReviewConfig, PrContext, PreparedReview}
use lgtmaybe.Surfacing.Stages.{no_line, unanchor, snap_to_diff}
use lgtmaybe.Surfacing.Pipeline.{Outside, reviewed_diff, selected, collect_findings}
use lgtmaybe.Surfacing.Pipeline.Flow.{All-selected, All-surfaced}
use lgtmaybe.Surfacing.Pipeline.Floors.{
  All-both, Posted, surfaced-Posted, selected-Evident, selected-InScope,
}

All-map :
    (P Q : ReviewFinding → Type 0) (f : ReviewFinding → ReviewFinding)
    → ((x : ReviewFinding) → P x → Q (f x))
    → (xs : List ReviewFinding) → All P xs
    → All Q (map f xs)
All-map P Q f h [] a = tt
All-map P Q f h (x ∷ xs) a = (h x a.0, All-map P Q f h xs a.1)

snap_to-category : (f : ReviewFinding) (ms : List ℕ) → (snap_to f ms).category ≡ f.category
unfolding snap_to
snap_to-category f [] = refl
snap_to-category f (m ∷ ms) = elim (Bool-cases (any (λ n. n == f.line) (m ∷ ms))) [
  | inl e ↦ rw e
  | inr e ↦ rw e
]

snap_one-category :
    (f : ReviewFinding) (index : Prepared) → (snap_one f index).category ≡ f.category
unfolding snap_one
snap_one-category f index = elim (Bool-cases (is_blank f.anchor)) [
  | inl e ↦ rw e
  | inr e ↦ rw e (snap_to-category f _)
]

snap_one-is_scan :
    (f : ReviewFinding) (index : Prepared) → is_scan_finding (snap_one f index) ≡ is_scan_finding f
unfolding is_scan_finding
snap_one-is_scan f index = rw (snap_one-category f index)

module _ (b : Bool) (diff : Text) where
  abbrev Snapped : ReviewFinding → Type 0
  Snapped r = (is_safe diff r ≡ true) × (is_scan_finding r ≡ b)

  snap_findings-Snapped :
      (fs : List ReviewFinding)
      → All (λ f. is_scan_finding f ≡ b) fs
      → All Snapped (snap_findings fs diff)
  snap_findings-Snapped fs h = All-both _ _ _ (snap_findings-is_safe fs diff) (
      unfold snap_findings in
      All-map _ (λ r. is_scan_finding r ≡ b) _ (λ f e. snap_one-is_scan f _ ∙ e) fs h)

module _ (outside : Outside) (cfg : ReviewConfig) (ctx : PrContext)
    (prepared : PreparedReview) where
  -- The diff that the finding was placed by.
  abbrev pub its_diff : ReviewFinding → Text
  its_diff r =
      if is_scan_finding r then prepared.scan_scope else reviewed_diff outside cfg ctx prepared

  -- An anchored finding that quotes a line stands where a comment can be posted, and no finding is
  -- anchored in a file of which no line is reviewed.
  abbrev pub stands : ReviewFinding → Bool
  stands r = is_safe (its_diff r) r && (not (no_line ctx prepared r.path) || not r.anchored)

  unanchor-stands :
      (r : ReviewFinding) → is_safe (its_diff r) r ≡ true → stands (unanchor ctx prepared r) ≡ true
  unfolding unanchor
  unanchor-stands r h = elim (Bool-cases (no_line ctx prepared r.path && r.anchored)) [
    | inl e ↦ rw e (ground arith)
    | inr e ↦ rw e (ground (arith, h, e))
  ]

  Snapped-is_safe :
      (b : Bool) (r : ReviewFinding)
      → Snapped b (if b then prepared.scan_scope else reviewed_diff outside cfg ctx prepared) r
      → is_safe (its_diff r) r ≡ true
  Snapped-is_safe b r h = rw h.1 h.0

  snap_to_diff-stands :
      (fs : List ReviewFinding)
      → All
          (λ r. stands r ≡ true)
          (snap_to_diff fs ctx prepared (reviewed_diff outside cfg ctx prepared)).0
  unfolding snap_to_diff
  snap_to_diff-stands fs =
      All-map (λ r. is_safe (its_diff r) r ≡ true) _ (unanchor ctx prepared) unanchor-stands _
        (All-append _ _ _
          (All-imp _ _ (Snapped-is_safe false) _ (
            snap_findings-Snapped false _ _ (
              All-imp _ _ (λ f e. not-false _ e) _
                (keep_if-All (λ f. not (is_scan_finding f)) fs))))
          (All-imp _ _ (Snapped-is_safe true) _
            (snap_findings-Snapped true _ _ (keep_if-All is_scan_finding fs))))
    where
      not-false : (b : Bool) → not b ≡ true → b ≡ false
      not-false b e = ground arith

  -- Whatever the lenses, the scanners and the auditor say, and whatever rules there are: every posted
  -- finding that is anchored and quotes a line stands on a line, of the reviewed diff or for a scan
  -- finding of the diff that the scanners saw, that a comment can be posted on, and no posted finding is
  -- anchored in a file of which no line was reviewed.
  pub collect_findings-stands :
      (findings : List ReviewFinding)
      → All (λ r. stands r ≡ true) (collect_findings outside cfg ctx prepared findings)
  unfolding collect_findings is_scan_finding
  collect_findings-stands findings =
      All-surfaced outside cfg ctx prepared (λ r. stands r ≡ true) (λ verdict f h. h)
        (λ severity f h. h) _
        (All-selected outside cfg ctx prepared (λ r. stands r ≡ true) findings
          (snap_to_diff-stands (findings ++ prepared.scan_findings)))

  -- Every posted finding is what the team's rules made of a finding that arbitration left, of which they
  -- changed nothing but the severity, and that finding clears the floors: it is at least as severe as the
  -- plain floor, and it is anchored, or at least as severe as the floor for unanchored ones, or no
  -- scanner's and in a file without reviewed lines that a hint was carried to. It has a failure scenario
  -- that is not blank, if it is of a category that asks for one; and if it is not anchored, it is no
  -- scanner's but of the scanner of dependencies.
  pub collect_findings-Admissible :
      (findings : List ReviewFinding)
      → All
          (Posted outside cfg ctx prepared (selected outside cfg ctx prepared findings))
          (collect_findings outside cfg ctx prepared findings)
  unfolding collect_findings
  collect_findings-Admissible findings =
      surfaced-Posted outside cfg ctx prepared (selected outside cfg ctx prepared findings)
        (selected-Evident outside cfg ctx prepared findings)
        (selected-InScope outside cfg ctx prepared findings)
