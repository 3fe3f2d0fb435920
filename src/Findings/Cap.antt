-- ===== src/Findings/Cap.antt =====
-- `_cap_scans` of engine/engine.py.
pub mod Laws
use lgtmaybe.Prelude.{ℕ, Bool, not, List, [], ◌∷◌, ◌++◌, if◌then◌else◌, leb, keep_if, length, take}
use lgtmaybe.Findings.Model.{ReviewFinding, rank}
use lgtmaybe.Findings.Scan.{is_scan_finding}

abbrev pub max_scan_findings : ℕ
max_scan_findings = 20

-- `sorted(scans, key=lambda f: f.severity.rank, reverse=True)`, which keeps the order of equals
unfoldable pub insert_by_rank : ReviewFinding → List ReviewFinding → List ReviewFinding
insert_by_rank f [] = f ∷ []
insert_by_rank f (g ∷ gs) =
    let rest = insert_by_rank f gs in
    if leb (rank g.severity) (rank f.severity) then f ∷ g ∷ gs else g ∷ rest

unfoldable pub sort_by_rank : List ReviewFinding → List ReviewFinding
unfolding insert_by_rank
sort_by_rank [] = []
sort_by_rank (f ∷ fs) = insert_by_rank f (sort_by_rank fs)

-- `off_diff` is only logged
unfoldable pub cap_scans : List ReviewFinding → ℕ → List ReviewFinding
unfolding sort_by_rank
cap_scans findings off_diff =
    let scans = keep_if is_scan_finding findings in
    if leb (length scans) max_scan_findings
    then findings
    else keep_if (λ f. not (is_scan_finding f)) findings
      ++ take max_scan_findings (sort_by_rank scans)
