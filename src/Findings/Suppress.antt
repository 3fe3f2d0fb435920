-- ===== src/Findings/Suppress.antt =====
-- engine/suppress.py, and `finding_fingerprint` of core/findings.py. SHA-256 and the tables of
-- Unicode (`str.lower`, and which characters are of a word) are parameters.
pub mod Laws
use lgtmaybe.Prelude.{
  ℕ, zero, suc, ◌-◌, Bool, true, false, not, ◌&&◌, ◌||◌, Option, none, some, List, [], ◌∷◌, ◌++◌,
  if◌then◌else◌, any, leb, take, ◌==◌,
}
use lgtmaybe.Text.{Text, codes, nl, text_eq}
use lgtmaybe.Text.Lines.{split_lines}
use lgtmaybe.Text.Words.{strip, is_space}
use lgtmaybe.Text.Regex.{Regex, one, both, repeated, not_ahead, literal, search}
use lgtmaybe.Collections.{text_is_eq}
use lgtmaybe.Collections.Dict.{get, put}
use lgtmaybe.Findings.Model.{ReviewFinding, Severity, at_least, high, security, or_empty}

unfoldable pub finding_fingerprint : (Text → Text) → (Text → Text) → Text → Text → Text
finding_fingerprint digest lower path title = take 12 (digest (path ++ nl ∷ lower (strip title)))

-- `_PRAGMA`; `is_word` is the table of word characters
abbrev pub pragma : (ℕ → Bool) → Regex
pragma is_word = both (one (λ c. c == b'#')) (
    both (repeated (one is_space)) (
      both (literal (codes "lgtmaybe:"))
        (both (repeated (one is_space)) (both (literal (codes "ignore")) (not_ahead is_word)))))

-- `_PRAGMA.search(line)`
unfoldable pub has_pragma : (ℕ → Bool) → Text → Bool
has_pragma is_word line = search (pragma is_word) line

abbrev pub security_scan_categories : List Text
security_scan_categories =
    codes "scan:gitleaks"
    ∷ codes "scan:bandit"
    ∷ codes "scan:semgrep"
    ∷ codes "scan:zizmor"
    ∷ codes "scan:osv-scanner"
    ∷ []

unfoldable pub is_security_finding : ReviewFinding → Bool
is_security_finding finding =
    let category = or_empty finding.category in
    text_eq category security || any (text_eq category) security_scan_categories

unfoldable pub is_protected_security : ReviewFinding → Bool
unfolding is_security_finding
is_protected_security finding = is_security_finding finding && at_least finding.severity high

-- a line of a file, counted from 1
abbrev pub line_at : ℕ → List Text → Option Text
line_at zero lines = none
line_at (suc n) [] = none
line_at (suc zero) (l ∷ lines) = some l
line_at (suc (suc n)) (l ∷ lines) = line_at (suc n) lines

abbrev pub passes : (Text → Bool) → Option Text → Bool
passes test none = false
passes test (some line) = test line

-- `text.split("\n") if text else []`
abbrev pub head_lines : Option Text → List Text
head_lines none = []
head_lines (some []) = []
head_lines (some (c ∷ s)) = split_lines (c ∷ s)

module _ (digest lower : Text → Text) (is_word : ℕ → Bool)
    (ignore_fingerprints feedback_downvotes : List Text) (file_contents : Text → Option Text) where
  unfoldable pub is_suppressed : ReviewFinding → List Text → Bool
  is_suppressed finding lines =
      let fingerprint = finding_fingerprint digest lower finding.path finding.title in
      if any (text_eq fingerprint) ignore_fingerprints
      then true
      else if is_protected_security finding
      then false
      else if any (text_eq fingerprint) feedback_downvotes
      then true
      else passes (has_pragma is_word) (line_at finding.line lines)
        || passes (has_pragma is_word) (line_at (finding.line - 1) lines)

  abbrev pub Cache : Type 0
  Cache = List (Text × List Text)

  -- what `lines_for` returns, and the cache behind it
  abbrev pub found_or_split : Cache → Text → Option (List Text) → List Text × Cache
  found_or_split cache path (some lines) = (lines, cache)
  found_or_split cache path none =
      (head_lines (file_contents path), put path (head_lines (file_contents path)) cache)

  unfoldable pub lines_for : Cache → Text → List Text × Cache
  lines_for cache path = found_or_split cache path (get path cache)

  unfoldable pub apply_from : Cache → List ReviewFinding → List ReviewFinding
  unfolding is_suppressed lines_for
  apply_from cache [] = []
  apply_from cache (f ∷ fs) =
      let rest = apply_from (lines_for cache f.path).1 fs in
      if is_suppressed f (lines_for cache f.path).0 then rest else f ∷ rest

  unfoldable pub apply_suppressions : List ReviewFinding → List ReviewFinding
  unfolding apply_from
  apply_suppressions findings = apply_from [] findings
