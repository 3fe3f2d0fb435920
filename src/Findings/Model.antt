-- ===== src/Findings/Model.antt =====
-- `Severity`, `ReviewCategory` and `ReviewFinding` of core/models.py.
use lgtmaybe.Prelude.{ℕ, Bool, false, Option, none, some, List, any, leb}
use lgtmaybe.Text.{Text, codes, text_eq}
use lgtmaybe.Diff.Index.{Side}

pub data Severity : Type 0 where
  info low medium high critical : Severity

-- `list(Severity).index(self)`
abbrev pub rank : Severity → ℕ
rank info = 0
rank low = 1
rank medium = 2
rank high = 3
rank critical = 4

-- `a >= b`
abbrev pub at_least : Severity → Severity → Bool
at_least a b = leb (rank b) (rank a)

-- `ReviewCategory`: a finding carries the member's value or another text
abbrev pub security : Text
security = codes "security"

abbrev pub correctness : Text
correctness = codes "correctness"

abbrev pub deprecation : Text
deprecation = codes "deprecation"

abbrev pub tests : Text
tests = codes "tests"

abbrev pub documentation : Text
documentation = codes "documentation"

abbrev pub performance : Text
performance = codes "performance"

abbrev pub complexity : Text
complexity = codes "complexity"

abbrev pub ponytail : Text
ponytail = codes "ponytail"

-- `line` is at least 1: the model type rejects others
pub record ReviewFinding : Type 0 where
  pub path : Text
  pub line : ℕ
  pub side : Side
  pub severity : Severity
  pub title : Text
  pub body : Text
  pub failure_scenario : Option Text
  pub suggestion : Option Text
  pub anchor : Option Text
  pub anchored : Bool
  pub broad : Bool
  pub confidence : Option ℕ
  pub category : Option Text

-- `category in {...}`, where None is in no set of texts
abbrev pub category_in : Option Text → List Text → Bool
category_in none categories = false
category_in (some category) categories = any (text_eq category) categories

-- `category or ""`
abbrev pub or_empty : Option Text → Text
or_empty none = codes ""
or_empty (some text) = text
