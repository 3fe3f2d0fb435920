-- ===== src/Recovery/Provider.antt =====
-- What crosses the provider's port of core/ports.py and core/models.py: a request, a result, and a
-- failed call; and what engine/parse.py reads in a reply.
use lgtmaybe.Prelude.{ℕ, Bool, true, false, Option, List}
use lgtmaybe.Text.{Text, codes}
use lgtmaybe.Findings.Model.{ReviewFinding}
use lgtmaybe.Findings.Bound.{Lens}

-- the options of a changed reasoning effort, as the provider spells them; no text for no options
abbrev pub Effort : Type 0
Effort = Text

-- what `blocks_for` returns
pub record Blocks : Type 0 where
  pub intent : Option Text
  pub hint : Option Text
  pub dir : Option Text
  pub spec : Option Text

-- the arguments with which `_lens_messages` writes the messages of a call
pub record LensPrompt : Type 0 where
  pub wrapped : Text
  pub blocks : Blocks
  pub hidden : Option Text
  pub context : Option Text
  pub lens : Lens

-- the messages of a lens call, and those of a reformat: the system text and the reply
pub data Messages : Type 0 where
  lens_messages : LensPrompt → Messages
  repair_messages : Text → Messages

-- the arguments of `provider.complete`
pub record Request : Type 0 where
  pub messages : Messages
  pub model : Text
  pub response_format : Bool
  pub effort : Option Effort
  pub model_override : Option Text
  pub defer_truncation : Bool

-- the fields of `ProviderResult` that the engine reads
pub record ProviderResult : Type 0 where
  pub text : Text
  pub input_tokens : ℕ
  pub output_tokens : ℕ
  pub reasoning_tokens : Option ℕ
  pub output_ceiling : Option ℕ
  pub model : Option Text
  pub schema_dropped : Bool
  pub temperature_dropped : Bool

-- `ProviderWallTimeout`, `ProviderTruncated` with its text and its reasoning tokens,
-- `ProviderInputTooLarge`, and any other exception
pub data Fault : Type 0 where
  wall_timeout : Fault
  truncated : Text → Option ℕ → Fault
  input_too_large : Fault
  other : Fault

-- an exception of `complete`: its type's name, its message, and what is stamped on it
pub record Failure : Type 0 where
  pub name : Text
  pub message : Text
  pub fault : Fault
  pub unrecoverable : Bool
  pub input_tokens : Option ℕ
  pub output_tokens : Option ℕ
  pub schema_dropped : Bool
  pub temperature_dropped : Bool

pub data Reply : Type 0 where
  failed : Failure → Reply
  answered : ProviderResult → Reply

-- `ParseFailure`; the shape `truncated` is spelled `cut` here
pub data ParseFailure : Type 0 where
  empty prose malformed_json not_findings schema cut : ParseFailure

abbrev pub shape_value : ParseFailure → Text
shape_value empty = codes "empty"
shape_value prose = codes "prose"
shape_value malformed_json = codes "malformed_json"
shape_value not_findings = codes "not_findings"
shape_value schema = codes "schema"
shape_value cut = codes "truncated"

-- `parse_findings`: the findings, or a `ParseError` with its shape and what it recovered
pub data Parsed : Type 0 where
  parsed : List ReviewFinding → Parsed
  parse_error : ParseFailure → List ReviewFinding → Parsed

-- `exc.truncated`
abbrev pub is_truncated : ParseFailure → Bool
is_truncated cut = true
is_truncated empty = false
is_truncated prose = false
is_truncated malformed_json = false
is_truncated not_findings = false
is_truncated schema = false
