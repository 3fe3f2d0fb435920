-- ===== src/Recovery/Reasons.antt =====
-- The reasons of failed calls in engine/recovery.py: their kinds, and what is said in them.
use lgtmaybe.Prelude.{
  ℕ, zero, suc, ◌*◌, Bool, true, false, ◌&&◌, Option, none, some, List, [], ◌∷◌, ◌++◌,
  if◌then◌else◌, ltb, ◌==◌, take, not,
}
use lgtmaybe.Text.{Text, codes}
use lgtmaybe.Text.Words.{words, join_words}
use lgtmaybe.Text.Decimal.{decimal}
use lgtmaybe.Compress.Batch.{Patch}
use lgtmaybe.Findings.Model.{ReviewFinding}
use lgtmaybe.Recovery.Provider.{
  wall_timeout, truncated, input_too_large, other, Failure, ParseFailure, shape_value,
}

-- A reason, by its class: `str`, `_RetryableReason`, `_PayloadReason`, `_ReasoningBoundReason`, and
-- `_PiecesReason` with what its `retry` closes over, the flaky pieces and the settled errors.
pub data Reason : Type 0 where
  plain retryable payload reasoning_bound : Text → Reason
  pieces : Text → List (List Patch) → List Text → Reason

-- `str(reason)`
abbrev pub text_of : Reason → Text
text_of (plain t) = t
text_of (retryable t) = t
text_of (payload t) = t
text_of (reasoning_bound t) = t
text_of (pieces t flaky settled) = t

pub record LensOutcome : Type 0 where
  pub findings : List ReviewFinding
  pub error : Option Reason

-- `isinstance(reason, _RetryableReason)`
abbrev pub is_retryable : Reason → Bool
is_retryable (plain t) = false
is_retryable (retryable t) = true
is_retryable (payload t) = true
is_retryable (reasoning_bound t) = false
is_retryable (pieces t flaky settled) = true

abbrev pub is_payload : Reason → Bool
is_payload (payload t) = true
is_payload (plain t) = false
is_payload (retryable t) = false
is_payload (reasoning_bound t) = false
is_payload (pieces t flaky settled) = false

unfoldable pub rescuable : Option Reason → Bool
rescuable none = false
rescuable (some reason) = is_retryable reason

unfoldable pub provider_side : Option Reason → Bool
provider_side none = false
provider_side (some reason) = is_retryable reason && not (is_payload reason)

abbrev pub is_empty_text : Text → Bool
is_empty_text [] = true
is_empty_text (c ∷ s) = false

unfoldable pub error_reason : Failure → Text
error_reason exc =
    let text = join_words (words exc.message) in
    take 200 (if is_empty_text text then exc.name else exc.name ++ codes ": " ++ text)

-- "unparseable model output (<shape>)"
unfoldable pub unparseable_reason : ParseFailure → Text
unparseable_reason shape = codes "unparseable model output (" ++ shape_value shape ++ codes ")"

abbrev pub plural : ℕ → Text → Text → Text
plural n one many = if n == 1 then one else many

-- `recovered_note`
abbrev pub recovered_note : ℕ → Text
recovered_note zero = []
recovered_note (suc n) =
    codes "; "
    ++ decimal (suc n)
    ++ codes " finding"
    ++ plural (suc n) [] (codes "s")
    ++ codes " completed before the cut "
    ++ plural (suc n) (codes "is") (codes "are")
    ++ codes " included"

unfoldable pub cut_off_reason : ℕ → ℕ → Text
cut_off_reason output_tokens salvaged =
    codes "response truncated: the body stopped mid-answer after "
    ++ decimal output_tokens
    ++ codes " output tokens while the route reported a clean finish, so the cut was detected "
    ++ codes "from the unterminated body; the batch is re-reviewed in smaller pieces automatically"
    ++ recovered_note salvaged

abbrev pub exhausted_reason : ℕ → ℕ → Text
exhausted_reason reasoning ceiling =
    codes "ProviderTruncated: spent "
    ++ decimal reasoning
    ++ codes " of the "
    ++ decimal ceiling
    ++ codes
        "-token `max_tokens` ceiling on reasoning, so the batch was not split: a smaller payload "
    ++ codes
        "cannot shrink a thinking budget. Lower `reasoning_effort`, or raise `max_tokens` if this "
    ++ codes "model simply thinks bigger than the ceiling"

-- `reasoning < ceiling * 0.9`, both positive
abbrev pub exhausted_by : ℕ → ℕ → Option Reason
exhausted_by zero ceiling = none
exhausted_by (suc r) zero = none
exhausted_by (suc r) (suc c) =
    if ltb (suc r * 10) (suc c * 9)
    then none
    else some (reasoning_bound (exhausted_reason (suc r) (suc c)))

unfoldable pub reasoning_exhausted_reason : Option ℕ → Option ℕ → Option Reason
reasoning_exhausted_reason none ceiling = none
reasoning_exhausted_reason (some reasoning) none = none
reasoning_exhausted_reason (some reasoning) (some ceiling) = exhausted_by reasoning ceiling

-- the class of a failed call's reason
unfoldable pub mark : Failure → Text → Reason
mark exc text = elim exc.fault [
  | truncated body reasoning ↦ plain text
  | input_too_large ↦ plain text
  | wall_timeout ↦ if exc.unrecoverable then plain text else payload text
  | other ↦ if exc.unrecoverable then plain text else retryable text
]
