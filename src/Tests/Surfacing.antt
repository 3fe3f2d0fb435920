-- ===== src/Tests/Surfacing.antt =====
-- Concrete inputs for the theorems on the findings that a review posts (engine/engine.py,
-- engine/reflect.py, engine/rules.py).
use lgtmaybe.Prelude.{ℕ, zero, suc, ◌≤◌, ◌≡◌, refl, true, false, none, some, [], ◌∷◌, All}
use lgtmaybe.Text.{Text, codes}
use lgtmaybe.Text.Lines.{unlines}
use lgtmaybe.Text.Glob.{matches_glob}
use lgtmaybe.Diff.Index.{right}
use lgtmaybe.Findings.Model.{
  ReviewFinding, low, medium, high, info, correctness, security, ponytail, documentation,
}
use lgtmaybe.Findings.Cap.{max_scan_findings}
use lgtmaybe.Surfacing.Config.{FindingRule, ReviewConfig, PrContext, PreparedReview}
use lgtmaybe.Surfacing.Reflect.{keep_verdict, Auditor, Verdicts, reflect_findings}
use lgtmaybe.Surfacing.Pipeline.{Outside, selected, collect_findings}
use lgtmaybe.Surfacing.Pipeline.Laws.{stands, collect_findings-stands, collect_findings-Admissible}
use lgtmaybe.Surfacing.Pipeline.Floors.{Posted}
use lgtmaybe.Surfacing.Pipeline.Arbitration.{Settled, collect_findings-Settled}
use lgtmaybe.Surfacing.Pipeline.Scans.{scans_in, scans_in-collect_findings}

abbrev patch : Text
patch = unlines (
    codes "diff --git a/f b/f"
    ∷ codes "--- a/f"
    ∷ codes "+++ b/f"
    ∷ codes "@@ -1 +1,3 @@"
    ∷ codes " a"
    ∷ codes "+run(cmd)"
    ∷ codes "+  return"
    ∷ [])

abbrev bug : ReviewFinding
bug = record {
  path = codes "f";
  line = 5;
  side = right;
  severity = high;
  title = codes "injection";
  body = codes "cmd is not escaped";
  failure_scenario = some (codes "a name with a quote");
  suggestion = none;
  anchor = some (codes "run(cmd)");
  anchored = true;
  broad = false;
  confidence = none;
  category = some correctness;
}

abbrev lean : ReviewFinding
lean = record bug { severity = low; category = some ponytail; line = 4; anchor = none }

abbrev vague : ReviewFinding
vague = record bug { failure_scenario = none; category = some security; line = 1 }

abbrev scanned : ReviewFinding
scanned = record bug { category = some (codes "scan:bandit") }

abbrev advisory : ReviewFinding
advisory = record bug { path = codes "uv.lock"; category = some (codes "scan:osv-scanner") }

abbrev downgrade : FindingRule
downgrade = record {
  selector = record {
    path = some (codes "**/f");
    category = none;
    title_contains = none;
    min_severity = some medium;
  };
  action = record { drop = false; set_severity = some medium };
}

abbrev no_docs : FindingRule
no_docs = record {
  selector = record {
    path = none;
    category = some documentation;
    title_contains = none;
    min_severity = none;
  };
  action = record { drop = true; set_severity = none };
}

abbrev config : ReviewConfig
config = record {
  min_severity = info;
  unanchored_min_severity = high;
  min_confidence = 5;
  reflect = true;
  ignore_fingerprints = [];
  finding_rules = downgrade ∷ no_docs ∷ [];
}

abbrev context : PrContext
context = record {
  diff = patch;
  changed_files = codes "f" ∷ codes "uv.lock" ∷ [];
  file_contents = λ path. none;
  scan_contents = codes "uv.lock" ∷ [];
  feedback_downvotes = [];
}

abbrev review : PreparedReview
review = record {
  file_patches = (codes "f", patch) ∷ [];
  scan_findings = scanned ∷ advisory ∷ [];
  scan_scope = patch;
  unbatched = codes "uv.lock" ∷ [];
  carrier = some security;
}

-- first the auditor asks for a file; then it is sure enough
abbrev verdicts_at : ℕ → Verdicts
verdicts_at zero = (0, record keep_verdict { needs = codes "g" ∷ [] }) ∷ []
verdicts_at (suc hop) = (0, record keep_verdict { confidence = some 8 }) ∷ []

abbrev auditor : Auditor
auditor = record {
  audit = λ hop findings ctx fetched. some (verdicts_at hop, []);
  fetch = some (λ hop needs grounded. (codes "g", codes "def run(x)") ∷ []);
}

abbrev outside : Outside
outside = record {
  digest = λ s. s;
  lower = λ s. s;
  is_word = λ c. false;
  auditor = auditor;
  interrupt_requested = false;
}

collect_findings-stands_example :
    All
      (λ r. stands outside config context review r ≡ true)
      (collect_findings outside config context review (bug ∷ lean ∷ vague ∷ []))
collect_findings-stands_example =
    collect_findings-stands outside config context review (bug ∷ lean ∷ vague ∷ [])

collect_findings-Admissible_example :
    All
      (Posted outside config context review
        (selected outside config context review (bug ∷ lean ∷ vague ∷ [])))
      (collect_findings outside config context review (bug ∷ lean ∷ vague ∷ []))
collect_findings-Admissible_example =
    collect_findings-Admissible outside config context review (bug ∷ lean ∷ vague ∷ [])

collect_findings-Settled_example :
    Settled (collect_findings outside config context review (bug ∷ lean ∷ vague ∷ []))
collect_findings-Settled_example =
    collect_findings-Settled outside config context review (bug ∷ lean ∷ vague ∷ [])

scans_in-collect_findings_example :
    scans_in (collect_findings outside config context review (bug ∷ lean ∷ vague ∷ []))
    ≤ max_scan_findings
scans_in-collect_findings_example =
    scans_in-collect_findings outside config context review (bug ∷ lean ∷ vague ∷ [])

-- a few patterns
glob_runs :
    (matches_glob (codes "uv.lock") (codes "**/*.lock") ≡ true)
    × (matches_glob (codes "a/b.py") (codes "a/*.p[a-z]") ≡ true)
    × (matches_glob (codes "a/b.py") (codes "[!a]*") ≡ false)
    × (matches_glob (codes "x]") (codes "x[]]") ≡ true)
    × (matches_glob (codes "[x") (codes "[x") ≡ true)
    × (matches_glob (codes "a-") (codes "?[!a-]") ≡ false)
unfolding matches_glob
glob_runs = (refl, refl, refl, refl, refl, refl)

-- the deferred finding is audited again and gets its confidence
reflect_runs :
    reflect_findings config auditor context (bug ∷ lean ∷ [])
    ≡ lean ∷ record bug { confidence = some 8 } ∷ []
unfolding reflect_findings lgtmaybe.Collections.Dict.get
reflect_runs = refl
