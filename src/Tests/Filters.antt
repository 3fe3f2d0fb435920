-- ===== src/Tests/Filters.antt =====
-- Concrete inputs for the theorems on severities, suppression, labels and pages (engine/severity.py,
-- engine/suppress.py, features/labels.py, core/paginate.py).
use lgtmaybe.Prelude.{
  ◌⊎◌, All, length, ℕ, ◌≡◌, ◌≤◌, inl, refl, Bool, true, false, not, Option, none, some, List, [],
  ◌∷◌, arith, any, keep_if, ◌==◌, if◌then◌else◌,
}
use lgtmaybe.Text.{Text, codes, text_eq}
use lgtmaybe.Text.Lines.{join_lines, split_lines, lines, unlines}
use lgtmaybe.Text.Decimal.{digit_value}
use lgtmaybe.Diff.Header.{is_file_header, parse_hunk_header}
use lgtmaybe.Text.Regex.{search}
use lgtmaybe.Text.Words.{is_space}
use lgtmaybe.Diff.Index.{right}
use lgtmaybe.Collections.Dict.{get, put}
use lgtmaybe.Diff.Count.{changed_line_count}
use lgtmaybe.Findings.Model.{ReviewFinding, high, complexity}
use lgtmaybe.Findings.Suppress.{
  has_pragma, is_security_finding, is_protected_security, is_suppressed, head_lines,
  apply_suppressions,
}
use lgtmaybe.Findings.Suppress.Laws.{
  is_serious, apply_suppressions-keep_if, keep_if-apply_suppressions,
}
use lgtmaybe.Findings.SelfTalk.{is_self_talk, prose}
use lgtmaybe.Findings.Bound.{Lens, stamp_and_bound}
use lgtmaybe.Findings.Bound.Laws.{is_clean, stamp_and_bound-is_clean}
use lgtmaybe.Forge.Pages.{returned, paginate_pages}
use lgtmaybe.Forge.Pages.Laws.{serves, paginate_pages-whole}

abbrev secret : ReviewFinding
secret = record {
  path = codes "f";
  line = 2;
  side = right;
  severity = high;
  title = codes "key";
  body = codes "a key in the source";
  failure_scenario = none;
  suggestion = none;
  anchor = none;
  anchored = true;
  broad = false;
  confidence = none;
  category = some (codes "scan:gitleaks");
}

abbrev nit : ReviewFinding
nit = record secret { title = codes "long"; category = some complexity }

abbrev findings : List ReviewFinding
findings = secret ∷ nit ∷ []

-- a digest that keeps the text, and a lower case for texts that have it
abbrev same : Text → Text
same text = text

abbrev is_word : ℕ → Bool
is_word c = not (any (λ d. c == d) (codes " \n,"))

abbrev files : Text → Option Text
files path = if text_eq path (codes "f") then some (codes "a\n# lgtmaybe: ignore\nb") else none

ignores : has_pragma is_word (codes "x = 1  # LGTMaybe:ignore this") ≡ true
unfolding has_pragma search is_space
ignores = refl

ignores-not : has_pragma is_word (codes "# lgtmaybe: ignored") ≡ false
unfolding has_pragma search is_space
ignores-not = refl

apply_suppressions_run : apply_suppressions same same is_word [] [] files findings ≡ secret ∷ []
unfolding apply_suppressions is_protected_security get put has_pragma search is_space split_lines
    is_security_finding
apply_suppressions_run = refl

apply_suppressions-keep_if_example :
    apply_suppressions same same is_word [] [] files findings
    ≡ keep_if
        (λ f. not (is_suppressed same same is_word [] [] files f (head_lines (files f.path))))
        findings
apply_suppressions-keep_if_example =
    apply_suppressions-keep_if same same is_word [] [] files findings

keep_if-apply_suppressions_example :
    keep_if
      (is_serious same same is_word [] [] files)
      (apply_suppressions same same is_word [] [] files findings)
    ≡ keep_if (is_serious same same is_word [] [] files) findings
keep_if-apply_suppressions_example =
    keep_if-apply_suppressions same same is_word [] [] files findings

abbrev diff : Text
diff = unlines (codes "@@ -1 +1 @@" ∷ codes "-a" ∷ codes "+b" ∷ [])

diff-changed : changed_line_count diff ≡ 2
unfolding changed_line_count lines is_file_header parse_hunk_header digit_value
diff-changed = refl

abbrev listing : List ℕ
listing = 4 ∷ 5 ∷ 6 ∷ []

-- a forge that asks for 100 a page and answers with 2
paginate_pages-whole_example :
    paginate_pages 100 (serves 100 1 listing (some 3)) 4 ≡ returned listing
paginate_pages-whole_example =
    paginate_pages-whole 100 1 listing (some 3) 4 (inl refl) (omega arith)

abbrev lens : Lens
lens = record { id = codes "code-health"; allowed_categories = some (complexity ∷ []) }

abbrev note : ReviewFinding
note = record nit { body = codes "my last response had a formatting error, valid JSON only" }

notes_run : is_self_talk is_word note ≡ true
unfolding is_self_talk prose join_lines search is_space
notes_run = refl

notes-not_run : is_self_talk is_word nit ≡ false
unfolding is_self_talk prose join_lines search is_space
notes-not_run = refl

stamp_and_bound-is_clean_example :
    All
      (λ f. is_clean is_word lens f ≡ true)
      (stamp_and_bound is_word (note ∷ findings) lens 1).findings
    × (◌≡◌ {A = ℕ} 1 0 ⊎ (length (stamp_and_bound is_word (note ∷ findings) lens 1).findings ≤ 1))
stamp_and_bound-is_clean_example = stamp_and_bound-is_clean is_word (note ∷ findings) lens 1
