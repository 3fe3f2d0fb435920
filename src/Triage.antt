-- ===== src/Triage.antt =====
-- engine/triage.py: which files a cheap model may take out of the review. The model is a parameter:
-- what it says of the files it is asked about, or `none` where the call or its answer failed.
pub mod Laws
use lgtmaybe.Prelude.{
  ℕ, Bool, true, false, not, ◌&&◌, ◌||◌, Option, none, some, List, [], ◌∷◌, ◌++◌, if◌then◌else◌,
  map, keep_if, leb, any, ◌==◌,
}
use lgtmaybe.Text.{Text, codes}
use lgtmaybe.Text.Regex.{
  Regex, empty, one, both, repeated, not_behind, not_ahead, literal, choice, optional, at_end,
  search,
}
use lgtmaybe.Collections.{text_is_eq}
use lgtmaybe.Collections.Set.{has}
use lgtmaybe.Diff.Count.{changed_line_count}
use lgtmaybe.Compress.Batch.{Patch}

-- `[a-z0-9]` without regard to case
abbrev is_alnum : ℕ → Bool
is_alnum c =
    (leb 97 c && leb c 122)
    || (leb 65 c && leb c 90)
    || (leb 48 c && leb c 57)
    || any (λ d. c == d) (304 ∷ 305 ∷ 383 ∷ 8490 ∷ [])

abbrev ending : Text → Regex
ending t = both (literal t) at_end

-- `_SECURITY_PATH_RE`
abbrev pub security_path : Regex
security_path = choice (
    literal (codes "auth")
    ∷ literal (codes "login")
    ∷ literal (codes "password")
    ∷ literal (codes "passwd")
    ∷ literal (codes "credential")
    ∷ literal (codes "secret")
    ∷ literal (codes "crypto")
    ∷ literal (codes "permission")
    ∷ literal (codes "oauth")
    ∷ literal (codes "migration")
    ∷ both (not_behind is_alnum) (
        both
          (choice (
            literal (codes "token")
            ∷ literal (codes "session")
            ∷ literal (codes "acl")
            ∷ literal (codes "iam")
            ∷ literal (codes "sso")
            ∷ []))
          (not_ahead is_alnum))
    ∷ literal (codes ".github/workflows/")
    ∷ literal (codes ".gitlab-ci")
    ∷ literal (codes "jenkinsfile")
    ∷ ending (codes ".tf")
    ∷ ending (codes ".tfvars")
    ∷ literal (codes "cloudformation")
    ∷ literal (codes "/k8s/")
    ∷ literal (codes "kubernetes")
    ∷ literal (codes "helm")
    ∷ literal (codes "dockerfile")
    ∷ literal (codes "docker-compose")
    ∷ ending (codes "pyproject.toml")
    ∷ both (literal (codes "requirements"))
        (both (repeated (one (λ c. not (c == b'/')))) (ending (codes ".txt")))
    ∷ ending (codes "package.json")
    ∷ ending (codes "go.mod")
    ∷ ending (codes "gemfile")
    ∷ ending (codes "pom.xml")
    ∷ ending (codes "cargo.toml")
    ∷ [])

-- `[_-]?` between two words
abbrev joined : Text → Text → Regex
joined s t = both (literal s) (both (optional (one (λ c. c == b'_' || c == b'-'))) (literal t))

-- `_SECURITY_TOKEN_RE`, its literals in lower case; `is_word` is the table of word characters
abbrev pub security_token : (ℕ → Bool) → Regex
security_token is_word = choice (
    literal (codes "password")
    ∷ literal (codes "passwd")
    ∷ literal (codes "secret")
    ∷ joined (codes "api") (codes "key")
    ∷ joined (codes "private") (codes "key")
    ∷ literal (codes "credential")
    ∷ literal (codes "jwt")
    ∷ literal (codes "bearer")
    ∷ literal (codes "subprocess")
    ∷ literal (codes "shell=true")
    ∷ literal (codes "os.system")
    ∷ literal (codes "eval(")
    ∷ literal (codes "exec(")
    ∷ literal (codes "pickle")
    ∷ both (literal (codes "yaml.load")) (not_ahead is_word)
    ∷ literal (codes "verify=false")
    ∷ literal (codes "md5")
    ∷ both (literal (codes "sha1")) (not_ahead is_word)
    ∷ literal (codes "random.random")
    ∷ literal (codes "http://")
    ∷ literal (codes "innerhtml")
    ∷ literal (codes "dangerouslysetinnerhtml")
    ∷ literal (codes "document.write")
    ∷ [])

abbrev pub max_skippable_lines : ℕ
max_skippable_lines = 200

unfoldable pub always_escalate : (ℕ → Bool) → Text → Text → List Text → Bool
always_escalate is_word path patch hinted_paths =
    if has path hinted_paths
    then true
    else if search security_path path
    then true
    else if search (security_token is_word) patch
    then true
    else leb max_skippable_lines (changed_line_count patch)

-- (review, risk) of a path, if the model spoke of it
abbrev pub Verdicts : Type 0
Verdicts = Text → Option (Bool × ℕ)

abbrev pub or_review : Option (Bool × ℕ) → Bool × ℕ
or_review none = (true, 5)
or_review (some verdict) = verdict

-- `survivors.sort(key=risk, reverse=True)`, which keeps the order of equals
unfoldable pub insert_by_risk : Patch × ℕ → List (Patch × ℕ) → List (Patch × ℕ)
insert_by_risk f [] = f ∷ []
insert_by_risk f (g ∷ gs) =
    let rest = insert_by_risk f gs in if leb g.1 f.1 then f ∷ g ∷ gs else g ∷ rest

-- the loop over the candidates, the survivors sorted and without their risks
unfoldable pub survivors : Verdicts → List Patch → List (Patch × ℕ)
unfolding insert_by_risk
survivors verdicts [] = []
survivors verdicts (f ∷ fs) =
    let rest = survivors verdicts fs in
    let verdict = or_review (verdicts f.0) in
    if verdict.0 then insert_by_risk (f, verdict.1) rest else rest

unfoldable pub skipped : Verdicts → List Patch → List Text
skipped verdicts [] = []
skipped verdicts (f ∷ fs) =
    let rest = skipped verdicts fs in if (or_review (verdicts f.0)).0 then rest else f.0 ∷ rest

abbrev pub paths : List Patch → List Text
paths [] = []
paths (f ∷ fs) = f.0 ∷ paths fs

abbrev pub patches : List (Patch × ℕ) → List Patch
patches [] = []
patches (f ∷ fs) = f.0 ∷ patches fs

module _ (is_word : ℕ → Bool) (ask : List Patch → Option Verdicts) (flagged : List Text) where
  abbrev pub escalates : Patch → Bool
  escalates (path, patch) = always_escalate is_word path patch flagged

  -- what is done with the verdicts on the candidates
  unfoldable pub route :
      List Patch → List Patch → List Patch → Option Verdicts → List Patch × List Text
  unfolding survivors skipped
  route file_patches floor [] verdicts = (file_patches, [])
  route file_patches floor (c ∷ cs) none = (file_patches, [])
  route file_patches floor (c ∷ cs) (some verdicts) =
      (floor ++ patches (survivors verdicts (c ∷ cs)), skipped verdicts (c ∷ cs))

  -- the files that are no floor file's
  unfoldable pub candidates_of : List Patch → List Patch
  candidates_of file_patches =
      let floor_paths = paths (keep_if escalates file_patches) in
      keep_if (λ f. not (has f.0 floor_paths)) file_patches

  unfoldable pub triage_files : List Patch → List Patch × List Text
  unfolding route candidates_of
  triage_files file_patches =
      let candidates = candidates_of file_patches in
      route file_patches (keep_if escalates file_patches) candidates (ask candidates)
