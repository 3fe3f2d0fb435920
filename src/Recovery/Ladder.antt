-- ===== src/Recovery/Ladder.antt =====
-- `_Ladder` of engine/recovery.py: the steps that follow a failed call of a lens.
pub mod Spending
pub mod Ending
pub mod Errors
pub mod Failing
pub mod Kept
pub mod Unparseable
use lgtmaybe.Prelude.{
  Bool, true, false, ◌||◌, ◌&&◌, not, Option, none, some, List, [], ◌∷◌, ◌++◌, if◌then◌else◌,
  length, is_some,
}
use lgtmaybe.Text.{Text, text_eq}
use lgtmaybe.Collections.{nat_is_eq, text_is_eq}
use lgtmaybe.Findings.Model.{ReviewFinding}
use lgtmaybe.Recovery.Provider.{
  Effort, ProviderResult, wall_timeout, truncated, input_too_large, other, Failure, ParseFailure,
  parsed, parse_error,
}
use lgtmaybe.Recovery.Run.{
  Surroundings, Run, Action, pure, ◌>>=◌, ◌>>◌, modify, note, schema_off, unless_skipped,
  contribute,
}
use lgtmaybe.Recovery.Reasons.{
  Reason, plain, pieces, LensOutcome, error_reason, unparseable_reason, cut_off_reason,
  reasoning_exhausted_reason, mark,
}
use lgtmaybe.Recovery.Repair.{repair_findings}
use lgtmaybe.Recovery.Call.{
  Call, Marks, OnOversized, Reissue, after, ask, is_reasoning_bound, mark_re_asked,
  mark_reasoning_off, mark_repaired, mark_stepped_down, nonempty, outcome, unmarked, when_answered,
}

module _ (w : Surroundings) where
  -- the findings that the model completed before the cut
  abbrev pub salvage_text : Text → List ReviewFinding
  salvage_text [] = []
  salvage_text (c ∷ s) = elim (w.parse_findings (c ∷ s)) [
    | parsed findings ↦ findings
    | parse_error shape recovered ↦ recovered
  ]

  unfoldable pub salvage_truncated : Failure → List ReviewFinding
  salvage_truncated exc = elim exc.fault [
    | truncated text reasoning ↦ salvage_text text
    | wall_timeout ↦ []
    | input_too_large ↦ []
    | other ↦ []
  ]

module _ (w : Surroundings) (run : Run) (reissue : Reissue) where
  -- the second step down, to no reasoning at all
  unfoldable pub switch_off : Call → Effort → LensOutcome → Action LensOutcome
  switch_off call step_down first = elim (nonempty (ask w.recovery (λ r. r.disable_reasoning))) [
    | none ↦ pure first
    | some off ↦
        if text_eq off step_down
        then pure first
        else unless_skipped w run (λ t. pure first)
            (do
              o ← reissue call (record unmarked { effort = some off })
              when_answered o.error (modify (mark_reasoning_off call.lens.id))
              pure (after first.findings o))
  ]

  unfoldable pub retry_lower_effort : Call → Reason → Action LensOutcome
  unfolding switch_off
  retry_lower_effort call reason =
      unless_skipped w run (λ t. pure (outcome [] (some reason)))
        (elim (nonempty (ask w.recovery (λ r. r.lower_reasoning_effort))) [
          | none ↦ pure (outcome [] (some reason))
          | some step_down ↦ do
            o ← reissue call (record unmarked { effort = some step_down })
            when_answered o.error (modify (mark_stepped_down call.lens.id))
            (if is_reasoning_bound o.error then switch_off call step_down o else pure o)
        ])

  unfoldable pub escalate_model : Call → Reason → Action LensOutcome
  escalate_model call reason =
      unless_skipped w run (λ t. pure (outcome [] (some reason)))
        (elim (nonempty (ask w.recovery (λ r. r.escalate_model))) [
          | none ↦ pure (outcome [] (some reason))
          | some target ↦
              reissue call (record { effort = none; recover = false; escalate_to = some target })
        ])

  -- the whole batch's ladder behind a split
  abbrev pub after_split : Call → List ReviewFinding → LensOutcome → Action LensOutcome
  after_split call completed o = elim o.error [
    | none ↦ pure (after completed o)
    | some reason ↦ elim reason [
      | pieces t flaky settled ↦ pure (after completed o)
      | failure ↦ do
        escalated ← escalate_model call failure
        pure (after (completed ++ o.findings) escalated)
    ]
  ]

  -- a truncation that went on reasoning
  abbrev pub after_step_down :
      Call → Option OnOversized → List ReviewFinding → LensOutcome → Action LensOutcome
  after_step_down call on_oversized completed o = elim o.error [
    | none ↦ pure (after completed o)
    | some reason ↦ elim on_oversized [
      | none ↦ pure (after completed o)
      | some split ↦ do
        escalated ← escalate_model call reason
        pure (after (completed ++ o.findings) escalated)
    ]
  ]

  unfoldable pub remedy_oversized :
      Call
      → Marks
      → Option OnOversized
      → Bool
      → List ReviewFinding
      → Reason
      → Option Reason
      → Action LensOutcome
  unfolding retry_lower_effort escalate_model
  remedy_oversized call marks on_oversized slice_hunks completed reason (some exhausted) =
      if is_some marks.effort || is_some marks.escalate_to
      then pure (outcome completed (some exhausted))
      else do o ← retry_lower_effort call exhausted; after_step_down call on_oversized completed o
  remedy_oversized call marks on_oversized slice_hunks completed reason none = elim on_oversized [
    | none ↦ pure (outcome completed (some reason))
    | some split ↦ do o ← split reason slice_hunks; after_split call completed o
  ]

  -- the adapter is told, where it can be
  abbrev pub drop_response_format : Action (Unit {0})
  drop_response_format = elim w.recovery [ none ↦ pure tt | some r ↦ note schema_off ]

  abbrev pub sends_response_format : Action Bool
  sends_response_format s = elim w.recovery [
    | none ↦ (true, s)
    | some r ↦ (r.sends_response_format s.log run.model, s)
  ]

  unfoldable pub retry_without_schema : Call → Reason → Action LensOutcome
  retry_without_schema call reason =
      unless_skipped w run (λ t. pure (outcome [] (some reason)))
        (do
          o ←
              reissue (record call { response_format = false })
                (record unmarked { recover = false })
          when_answered o.error (modify (mark_re_asked call.lens.id) >> drop_response_format)
          pure o)

  -- `if retry_error is None: return retried, None` and else the reason of the first call
  abbrev pub or_first_reason : Reason → LensOutcome → LensOutcome
  or_first_reason reason o =
      outcome o.findings (elim o.error [ none ↦ none | some e ↦ some reason ])

  abbrev pub re_ask_if : Bool → Call → Reason → Action LensOutcome
  re_ask_if true call reason = do
    o ← retry_without_schema call reason
    pure (or_first_reason reason o)
  re_ask_if false call reason = pure (outcome [] (some reason))

  -- what follows a reformat that did not work
  unfoldable pub without_schema : Call → Reason → Action LensOutcome
  unfolding retry_without_schema
  without_schema call reason =
      if not (call.response_format && run.retry_without_schema)
      then pure (outcome [] (some reason))
      else do sends ← sends_response_format; re_ask_if sends call reason

  abbrev pub after_repair : Call → Reason → Option (List ReviewFinding) → Action LensOutcome
  after_repair call reason (some repaired) = do
    modify (mark_repaired call.lens.id)
    kept ← contribute w run call.lens repaired
    pure (outcome kept none)
  after_repair call reason none = without_schema call reason

  -- `reason` is `_unparseable_reason(...)`
  unfoldable pub unparseable : Call → Marks → Text → ParseFailure → Action LensOutcome
  unfolding without_schema
  unparseable call marks text shape =
      let reason = plain (unparseable_reason shape) in
      if not marks.recover
      then pure (outcome [] (some reason))
      else unless_skipped w run (λ t. pure (outcome [] (some reason)))
          (do repaired ← repair_findings w run text shape; after_repair call reason repaired)

  unfoldable pub cut_off :
      Call → Marks → Option OnOversized → ProviderResult → List ReviewFinding → Action LensOutcome
  unfolding remedy_oversized
  cut_off call marks on_oversized result recovered = do
    completed ← contribute w run call.lens recovered
    remedy_oversized call marks on_oversized false completed
        (plain (cut_off_reason result.output_tokens (length recovered)))
        (reasoning_exhausted_reason result.reasoning_tokens result.output_ceiling)

  -- the three failures that are sized by the payload
  abbrev pub remedy :
      Call → Marks → Option OnOversized → Failure → Option Reason → Bool → Action LensOutcome
  remedy call marks on_oversized exc exhausted slice_hunks = do
    completed ← contribute w run call.lens (salvage_truncated w exc)
    remedy_oversized call marks on_oversized slice_hunks completed (mark exc (error_reason exc))
        exhausted

  unfoldable pub call_failed : Call → Marks → Option OnOversized → Failure → Action LensOutcome
  unfolding remedy_oversized salvage_truncated
  call_failed call marks on_oversized exc = elim exc.fault [
    | truncated text reasoning ↦
        remedy call marks on_oversized exc (reasoning_exhausted_reason reasoning exc.output_tokens)
          false
    | wall_timeout ↦ remedy call marks on_oversized exc none false
    | input_too_large ↦ remedy call marks on_oversized exc none true
    | other ↦ pure (outcome [] (some (mark exc (error_reason exc))))
  ]
