-- ===== src/Surfacing/Pipeline.antt =====
-- `_collect_findings` of engine/engine.py from the fan-out's findings on, and `_reflect`. The counts that
-- the summary prints are left out.
pub mod Kept
pub mod Flow
pub mod Floors
pub mod Laws
pub mod Arbitration
pub mod Scans
use lgtmaybe.Prelude.{ℕ, Bool, not, ◌&&◌, List, [], ◌∷◌, ◌++◌, keep_if, map, if◌then◌else◌}
use lgtmaybe.Text.{Text}
use lgtmaybe.Text.Lines.{join_lines}
use lgtmaybe.Findings.Model.{ReviewFinding}
use lgtmaybe.Findings.Scan.{is_scan_finding, scope_scans}
use lgtmaybe.Findings.Suppress.{apply_suppressions}
use lgtmaybe.Findings.Cap.{cap_scans}
use lgtmaybe.Findings.Conflicts.{resolve_conflicts}
use lgtmaybe.Findings.Merge.{dedupe}
use lgtmaybe.Surfacing.Config.{ReviewConfig, PrContext, PreparedReview}
use lgtmaybe.Surfacing.Stages.{
  snap_to_diff, hinted_no_line, filter_missing_failure_scenarios, apply_floors,
}
use lgtmaybe.Surfacing.Reflect.{Auditor, reflect_findings}

-- SHA-256, `str.lower` and the table of word characters, for suppression and rules; the auditor; and
-- whether a termination signal has arrived when it is to be asked.
pub record Outside : Type 0 where
  pub digest : Text → Text
  pub lower : Text → Text
  pub is_word : ℕ → Bool
  pub auditor : Auditor
  pub interrupt_requested : Bool

module _ (outside : Outside) (cfg : ReviewConfig) (ctx : PrContext)
    (prepared : PreparedReview) where
  -- `"\n".join(patch for _, patch in prepared.file_patches)`
  unfoldable pub reviewed_diff : Text
  reviewed_diff = join_lines (map (λ (patch : Text × Text). patch.1) prepared.file_patches)

  unfoldable pub reflect : List ReviewFinding → List ReviewFinding
  unfolding reviewed_diff
  reflect findings =
      if cfg.reflect && not outside.interrupt_requested
      then reflect_findings cfg outside.auditor (record ctx { diff = reviewed_diff }) findings
      else findings

  -- the stages in front of reflection
  unfoldable pub selected : List ReviewFinding → List ReviewFinding
  selected findings =
      let (snapped, hinted_no_line_paths) =
        snap_to_diff (findings ++ prepared.scan_findings) ctx prepared reviewed_diff in
      let (scoped, off_diff) = scope_scans snapped in
      let unsuppressed =
        apply_suppressions outside.digest outside.lower outside.is_word cfg.ignore_fingerprints
          ctx.feedback_downvotes ctx.file_contents scoped in
      let capped = cap_scans unsuppressed off_diff in
      dedupe (resolve_conflicts (filter_missing_failure_scenarios capped))

  -- reflection and the stages behind it; the paths are those that `snap_to_diff` gave
  unfoldable pub surfaced : List ReviewFinding → List ReviewFinding
  unfolding reflect
  surfaced merged =
      let scanned = keep_if is_scan_finding merged in
      let reflected = reflect (keep_if (λ f. not (is_scan_finding f)) merged) in
      apply_floors outside.lower (resolve_conflicts reflected ++ scanned) cfg
        (hinted_no_line ctx prepared)

  unfoldable pub collect_findings : List ReviewFinding → List ReviewFinding
  unfolding selected surfaced
  collect_findings findings = surfaced (selected findings)
