-- ===== src/Findings/Scan.antt =====
-- The findings of scanners, in engine/engine.py: `_is_scan_finding`, `_is_droppable_scan` and
-- `_scope_scans`.
use lgtmaybe.Prelude.{ℕ, ◌-◌, Bool, not, ◌&&◌, ◌||◌, List, [], ◌∷◌, length, keep_if}
use lgtmaybe.Text.{Text, codes, starts_with}
use lgtmaybe.Findings.Model.{ReviewFinding, or_empty, category_in}

abbrev pub scan_category_prefix : Text
scan_category_prefix = codes "scan:"

unfoldable pub is_scan_finding : ReviewFinding → Bool
is_scan_finding finding = starts_with (or_empty finding.category) scan_category_prefix

abbrev pub unanchorable_scan_categories : List Text
unanchorable_scan_categories = codes "scan:osv-scanner" ∷ []

unfoldable pub is_droppable_scan : ReviewFinding → Bool
is_droppable_scan finding =
    is_scan_finding finding && not (category_in finding.category unanchorable_scan_categories)

unfoldable pub scope_scans : List ReviewFinding → List ReviewFinding × ℕ
scope_scans findings =
    let scoped = keep_if (λ f. f.anchored || not (is_droppable_scan f)) findings in
    (scoped, length findings - length scoped)
