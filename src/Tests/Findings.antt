-- ===== src/Tests/Findings.antt =====
-- Concrete inputs for the theorems on findings (engine/engine.py, engine/conflicts.py).
use lgtmaybe.Prelude.{
  ℕ, zero, suc, ◌≡◌, ◌≤◌, ◌⊎◌, refl, true, false, not, Option, none, some, List, [], ◌∷◌, ◌++◌, All,
  any, keep_if, length,
}
use lgtmaybe.Text.{Text, codes}
use lgtmaybe.Text.Lines.{unlines}
use lgtmaybe.Text.Words.{strip}
use lgtmaybe.Collections.{text_is_eq, pair_is_eq}
use lgtmaybe.Collections.Dict.{items}
use lgtmaybe.Diff.Index.{right, side_is_eq, changed_line_index}
use lgtmaybe.Findings.Model.{ReviewFinding, high, low, rank, correctness, ponytail}
use lgtmaybe.Findings.Scan.{is_scan_finding}
use lgtmaybe.Findings.Cap.{cap_scans, max_scan_findings}
use lgtmaybe.Findings.Cap.Laws.{Below, of_rank, cap_scans-cases}
use lgtmaybe.Findings.Merge.{key, dedupe}
use lgtmaybe.Findings.Merge.Laws.{at_key, to_list, Winner, dedupe-Winner}
use lgtmaybe.Findings.Conflicts.{outranked_by, resolve_conflicts}
use lgtmaybe.Findings.Conflicts.Laws.{is_lean, any-resolve_conflicts, keep_if-resolve_conflicts}
use lgtmaybe.Findings.Anchor.{matches_of, prepare_candidates, snap_one, snap_findings}
use lgtmaybe.Findings.Anchor.Laws.{Placed, is_safe, snap_one-Placed, snap_findings-is_safe}

abbrev diff : Text
diff = unlines (
    codes "diff --git a/f b/f"
    ∷ codes "--- a/f"
    ∷ codes "+++ b/f"
    ∷ codes "@@ -1 +1,3 @@"
    ∷ codes " a"
    ∷ codes "+run(cmd)"
    ∷ codes "+  return"
    ∷ [])

abbrev bug : ReviewFinding
bug = record {
  path = codes "f";
  line = 5;
  side = right;
  severity = high;
  title = codes "injection";
  body = codes "cmd is not escaped";
  failure_scenario = some (codes "a name with a quote");
  suggestion = none;
  anchor = some (codes "run(cmd)");
  anchored = true;
  broad = false;
  confidence = none;
  category = some correctness;
}

abbrev lean : ReviewFinding
lean = record bug { severity = low; category = some ponytail; line = 4 }

abbrev scanned : ReviewFinding
scanned = record bug { category = some (codes "scan:bandit") }

abbrev found : List ReviewFinding
found = lean ∷ bug ∷ scanned ∷ record bug { severity = low } ∷ []

dedupe-Winner_example :
    (kept : Option ReviewFinding) × (keep_if (at_key (key bug)) (dedupe found) ≡ to_list kept)
    × Winner (keep_if (at_key (key bug)) found) kept
dedupe-Winner_example = dedupe-Winner found (key bug)

any-resolve_conflicts_example :
    any (outranked_by lean) (resolve_conflicts found) ≡ any (outranked_by lean) found
any-resolve_conflicts_example = any-resolve_conflicts found lean

keep_if-resolve_conflicts_example :
    keep_if (λ f. not (is_lean f)) (resolve_conflicts found) ≡ keep_if (λ f. not (is_lean f)) found
keep_if-resolve_conflicts_example = keep_if-resolve_conflicts found

abbrev copies : ℕ → ReviewFinding → List ReviewFinding
copies zero f = []
copies (suc n) f = f ∷ copies n f

abbrev many : List ReviewFinding
many = lean ∷ copies 21 scanned

cap_scans-cases_example :
    let scans = keep_if is_scan_finding many in
    ((length scans ≤ max_scan_findings) × (cap_scans many 0 ≡ many))
    ⊎ ((kept : List ReviewFinding) × (dropped : List ReviewFinding) × (cap_scans many 0
          ≡ keep_if (λ f. not (is_scan_finding f)) many ++ kept)
        × (length kept ≡ max_scan_findings)
        × ((n : ℕ) → keep_if (of_rank n) (kept ++ dropped) ≡ keep_if (of_rank n) scans)
        × All (λ f. Below (rank f.severity) dropped) kept)
cap_scans-cases_example = cap_scans-cases many 0

snap_one-Placed_example :
    let index = prepare_candidates (changed_line_index diff) in
    Placed bug (matches_of bug.anchor (items (bug.path, bug.side) index)) (snap_one bug index)
unfolding strip
snap_one-Placed_example = snap_one-Placed bug (prepare_candidates (changed_line_index diff)) refl

snap_findings-is_safe_example : All (λ r. is_safe diff r ≡ true) (snap_findings found diff)
snap_findings-is_safe_example = snap_findings-is_safe found diff
