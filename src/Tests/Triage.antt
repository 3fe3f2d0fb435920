-- ===== src/Tests/Triage.antt =====
-- Concrete inputs for the theorems on triage (engine/triage.py), and runs of its patterns.
use lgtmaybe.Prelude.{
  ℕ, ◌+◌, ◌≡◌, refl, Bool, true, false, not, Option, some, List, [], ◌∷◌, keep_if, ◌==◌,
}
use lgtmaybe.Text.{codes}
use lgtmaybe.Text.Regex.{search}
use lgtmaybe.Collections.{text_is_eq}
use lgtmaybe.Collections.Set.{has}
use lgtmaybe.Diff.Count.{changed_line_count}
use lgtmaybe.Diff.Header.{parse_hunk_header, is_file_header}
use lgtmaybe.Compress.Batch.{Patch}
use lgtmaybe.Triage.{Verdicts, always_escalate, security_path, security_token, triage_files}
use lgtmaybe.Triage.Laws.{of_path, count, is_floor, keep_if-triage_files, of_path-triage_files}

abbrev is_word : ℕ → Bool
is_word c = not (c == b' ')

tokens_run : search security_path (codes "src/Tokens.py") ≡ false
unfolding search
tokens_run = refl

token_run : search security_path (codes "src/my_Token.py") ≡ true
unfolding search
token_run = refl

requirements_run : search security_path (codes "requirements-dev.txt") ≡ true
unfolding search
requirements_run = refl

sha_run : search (security_token is_word) (codes "+sha1x") ≡ false
unfolding search
sha_run = refl

key_run : search (security_token is_word) (codes "+API_KEY") ≡ true
unfolding search
key_run = refl

abbrev login : Patch
login = (codes "login.py", codes "+a")

abbrev readme : Patch
readme = (codes "README", codes "+a")

abbrev files : List Patch
files = readme ∷ login ∷ []

-- a model that skips every file
abbrev ask : List Patch → Option Verdicts
ask candidates = some (λ path. some (false, 0))

skips : triage_files is_word ask [] files ≡ (login ∷ [], codes "README" ∷ [])
unfolding triage_files always_escalate search has changed_line_count parse_hunk_header
    is_file_header
skips = refl

keep_if-triage_files_example :
    keep_if (is_floor is_word ask []) (triage_files is_word ask [] files).0
    ≡ keep_if (is_floor is_word ask []) files
keep_if-triage_files_example = keep_if-triage_files is_word ask [] files

of_path-triage_files_example :
    of_path (codes "README") (triage_files is_word ask [] files).0
      + count (codes "README") (triage_files is_word ask [] files).1
    ≡ of_path (codes "README") files
unfolding always_escalate search has changed_line_count parse_hunk_header is_file_header
of_path-triage_files_example =
    of_path-triage_files is_word ask [] (codes "README") files (refl, (refl, tt))
