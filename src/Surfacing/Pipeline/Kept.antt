-- ===== src/Surfacing/Pipeline/Kept.antt =====
-- A predicate that neither a verdict of the auditor nor a rule of the team can break holds of what each
-- stage gives, if it holds of what the stage is given.
use lgtmaybe.Prelude.{
  ℕ, zero, suc, inl, inr, not, ◌&&◌, Option, none, some, List, [], ◌∷◌, leb, ltb, take, keep_if,
  length, All, All-append, All-keep_if, Bool-cases,
}
use mathlib.Core.Option
use lgtmaybe.Text.{Text}
use lgtmaybe.Collections.Dict.{put, get, values}
use lgtmaybe.Collections.{eq, text_is_eq, nat_is_eq, pair_is_eq, option_is_eq}
use lgtmaybe.Diff.Index.{side_is_eq}
use lgtmaybe.Findings.Model.{ReviewFinding, rank}
use lgtmaybe.Findings.Scan.{is_scan_finding}
use lgtmaybe.Findings.Cap.{insert_by_rank, sort_by_rank, cap_scans, max_scan_findings}
use lgtmaybe.Findings.Conflicts.{resolve_conflicts}
use lgtmaybe.Findings.Merge.{Key, Best, key, stays, place, place_all, dedupe}
use lgtmaybe.Surfacing.Config.{ReviewConfig, PrContext, PreparedReview}
use lgtmaybe.Surfacing.Reflect.{
  ParsedVerdict, Verdicts, Judged, Auditor, max_hops, Recheck, judge_one, judge, needs_more, below,
  verdict_of, scored, augmented, recheck, settle_deferred, after_audit, pass, reflect_from,
  reflect_findings,
}
use lgtmaybe.Surfacing.Pipeline.{Outside, reviewed_diff, reflect}

module _ {κ} (P : ReviewFinding → Type κ) where
  abbrev pub OfSome : Option ReviewFinding → Type κ
  OfSome none = Unit
  OfSome (some f) = P f

  All-take : (n : ℕ) (fs : List ReviewFinding) → All P fs → All P (take n fs)
  All-take zero fs h = tt
  All-take (suc n) [] h = tt
  All-take (suc n) (f ∷ fs) h = (h.0, All-take n fs h.1)

  All-insert_by_rank :
      (f : ReviewFinding) (fs : List ReviewFinding) → P f → All P fs → All P (insert_by_rank f fs)
  unfolding insert_by_rank
  All-insert_by_rank f [] p h = (p, tt)
  All-insert_by_rank f (g ∷ gs) p h = elim (Bool-cases (leb (rank g.severity) (rank f.severity))) [
    | inl e ↦ rw e (p, h)
    | inr e ↦ rw e (h.0, All-insert_by_rank f gs p h.1)
  ]

  All-sort_by_rank : (fs : List ReviewFinding) → All P fs → All P (sort_by_rank fs)
  unfolding sort_by_rank
  All-sort_by_rank [] h = tt
  All-sort_by_rank (f ∷ fs) h = All-insert_by_rank f (sort_by_rank fs) h.0 (All-sort_by_rank fs h.1)

  pub All-cap_scans :
      (fs : List ReviewFinding) (off_diff : ℕ) → All P fs → All P (cap_scans fs off_diff)
  unfolding cap_scans
  All-cap_scans fs off_diff h =
      elim (Bool-cases (leb (length (keep_if is_scan_finding fs)) max_scan_findings)) [
        | inl e ↦ rw e h
        | inr e ↦ rw e (
            All-append P _ _ (All-keep_if P (λ f. not (is_scan_finding f)) fs h) (
              All-take max_scan_findings _
                (All-sort_by_rank _ (All-keep_if P is_scan_finding fs h))))
      ]

  All-put :
      (k : Key) (f : ReviewFinding) (best : Best)
      → P f
      → All P (values best)
      → All P (values (put k f best))
  unfolding put
  All-put k f [] p h = (p, tt)
  All-put k f ((j, g) ∷ best) p h = elim (Bool-cases (eq j k)) [
    | inl e ↦ rw e (p, h.1)
    | inr e ↦ rw e (h.0, All-put k f best p h.1)
  ]

  All-place :
      (best : Best) (f : ReviewFinding) → P f → All P (values best) → All P (values (place best f))
  unfolding place
  All-place best f p b = elim (Bool-cases (stays best f (get (key f) best))) [
    | inl e ↦ rw e b
    | inr e ↦ rw e (All-put (key f) f best p b)
  ]

  All-place_all :
      (best : Best) (fs : List ReviewFinding)
      → All P (values best)
      → All P fs
      → All P (values (place_all best fs))
  unfolding place_all
  All-place_all best [] b h = b
  All-place_all best (f ∷ fs) b h = All-place_all (place best f) fs (All-place best f h.0 b) h.1

  pub All-dedupe : (fs : List ReviewFinding) → All P fs → All P (dedupe fs)
  unfolding dedupe
  All-dedupe fs h = All-place_all [] fs tt h

  pub All-resolve_conflicts : (fs : List ReviewFinding) → All P fs → All P (resolve_conflicts fs)
  unfolding resolve_conflicts
  All-resolve_conflicts fs h = All-keep_if P _ fs h

module _ {κ} (P : ReviewFinding → Type κ)
    (by_verdict : (verdict : ParsedVerdict) (f : ReviewFinding) → P f → P (scored verdict f)) where
  abbrev OfJudged : Judged → Type κ
  OfJudged j = All P j.survivors × All P j.deferred

  judge_one-All :
      (cfg : ReviewConfig) (verdict : ParsedVerdict) (f : ReviewFinding) (j : Judged)
      → P f
      → OfJudged j
      → OfJudged (judge_one cfg verdict f j)
  unfolding judge_one
  judge_one-All cfg verdict f j p h = elim (Bool-cases (needs_more verdict)) [
    | inl e ↦ rw e (h.0, (p, h.1))
    | inr e ↦ elim (Bool-cases verdict.keep) [
      | inl k ↦
          elim (Bool-cases
            (ltb 0 cfg.min_confidence && below cfg.min_confidence verdict.confidence)) [
              | inl low ↦ rw (e, k, low) h
              | inr high ↦ rw (e, k, high) ((by_verdict verdict f p, h.0), h.1)
            ]
      | inr k ↦ rw (e, k) h
    ]
  ]

  judge-All :
      (cfg : ReviewConfig) (verdicts : Verdicts) (i : ℕ) (fs : List ReviewFinding)
      → All P fs
      → OfJudged (judge cfg verdicts i fs)
  unfolding judge
  judge-All cfg verdicts i [] h = (tt, tt)
  judge-All cfg verdicts i (f ∷ fs) h =
      judge_one-All cfg (verdict_of (get i verdicts)) f _ h.0
        (judge-All cfg verdicts (suc i) fs h.1)

  -- what a recheck is asked to keep
  abbrev Keeps : Recheck → Type κ
  Keeps again =
      (ctx : PrContext) (fs : List ReviewFinding) (fetched : List Text)
      → All P fs
      → All P (again ctx fs fetched)

  recheck-All :
      (again : Recheck) (fetched : Option (List (Text × Text))) (ctx : PrContext) (j : Judged)
      → Keeps again
      → OfJudged j
      → All P (recheck (some again) fetched ctx j)
  recheck-All again none ctx j k h = h.0
  recheck-All again (some []) ctx j k h = h.0
  recheck-All again (some (file ∷ fetched)) ctx j k h =
      All-append P _ _ h.0 (k (augmented ctx j.deferred (file ∷ fetched)) j.deferred _ h.1)

  abbrev KeepsSome : Option Recheck → Type κ
  KeepsSome none = Unit
  KeepsSome (some again) = Keeps again

  settle-All :
      (again : Option Recheck) (fetched : Option (List (Text × Text))) (ctx : PrContext)
      (j : Judged) (deferred : List ReviewFinding)
      → KeepsSome again
      → OfJudged j
      → All P (settle_deferred again fetched ctx j deferred)
  settle-All again fetched ctx j [] k h = h.0
  settle-All none fetched ctx j (f ∷ deferred) k h = h.0
  settle-All (some again) fetched ctx j (f ∷ deferred) k h = recheck-All again fetched ctx j k h

  pass-All :
      (cfg : ReviewConfig) (auditor : Auditor) (again : Option Recheck) (hop : ℕ)
      → KeepsSome again
      → Keeps (pass cfg auditor again hop)
  pass-All cfg auditor again hop k ctx [] fetched h = tt
  pass-All cfg auditor again hop k ctx (f ∷ fs) fetched h =
      audited (auditor.audit hop (f ∷ fs) ctx fetched)
    where
      audited :
          (o : Option (Verdicts × List Text))
          → All P (after_audit cfg auditor again hop ctx (f ∷ fs) o)
      audited none = h
      audited (some (verdicts, grounded)) =
          let j = judge cfg verdicts 0 (f ∷ fs) in
          settle-All again (Option.map (λ fetch. fetch hop j.deferred_needs grounded) auditor.fetch)
            ctx j j.deferred k (judge-All cfg verdicts 0 (f ∷ fs) h)

  reflect_from-All :
      (cfg : ReviewConfig) (auditor : Auditor) (hops_left : ℕ)
      → Keeps (reflect_from cfg auditor hops_left)
  unfolding reflect_from
  reflect_from-All cfg auditor zero = pass-All cfg auditor none _ tt
  reflect_from-All cfg auditor (suc hops_left) =
      pass-All cfg auditor (some (reflect_from cfg auditor hops_left)) _
        (reflect_from-All cfg auditor hops_left)

  pub All-reflect :
      (outside : Outside) (cfg : ReviewConfig) (ctx : PrContext) (prepared : PreparedReview)
      (fs : List ReviewFinding)
      → All P fs
      → All P (reflect outside cfg ctx prepared fs)
  unfolding reflect reflect_findings
  All-reflect outside cfg ctx prepared fs h =
      elim (Bool-cases (cfg.reflect && not outside.interrupt_requested)) [
        | inl e ↦ rw e (
            reflect_from-All cfg outside.auditor max_hops
              (record ctx { diff = reviewed_diff outside cfg ctx prepared }) fs [] h)
        | inr e ↦ rw e h
      ]
