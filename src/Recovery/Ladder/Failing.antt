-- ===== src/Recovery/Ladder/Failing.antt =====
-- The steps of `_Ladder` of engine/recovery.py where no reply of the provider can be read.
use lgtmaybe.Prelude.{
  ◌≡◌, refl, Bool, true, false, not, ◌&&◌, ◌||◌, Option, none, some, List, [], ◌++◌, length,
  is_some, Option-cases, inl, inr,
}
use lgtmaybe.Text.{Text, text_eq}
use lgtmaybe.Text.Words.{strip}
use lgtmaybe.Findings.Model.{ReviewFinding}
use lgtmaybe.Recovery.Provider.{Effort, Request, ProviderResult, Failure, ParseFailure}
use lgtmaybe.Recovery.Run.{Event, Surroundings, Run, ◌>>◌, modify, contribute}
use lgtmaybe.Recovery.Reasons.{
  Reason, plain, retryable, payload, reasoning_bound, pieces, unparseable_reason, cut_off_reason,
  error_reason, mark, reasoning_exhausted_reason, LensOutcome, is_empty_text,
}
use lgtmaybe.Recovery.Repair.{repair_findings, reformatted, repair_request, is_recoverable}
use lgtmaybe.Recovery.Call.{
  Call, Marks, unmarked, Reissue, OnOversized, outcome, after, ask, nonempty, when_answered,
  is_reasoning_bound, mark_stepped_down, mark_reasoning_off, mark_re_asked,
}
use lgtmaybe.Recovery.Ladder.{
  switch_off, retry_lower_effort, escalate_model, retry_without_schema, drop_response_format,
  sends_response_format, or_first_reason, re_ask_if, without_schema, after_repair, unparseable,
  after_step_down, after_split, remedy_oversized, salvage_truncated, cut_off, call_failed,
}
use lgtmaybe.Recovery.Ladder.Ending.{call_failed-Yields}
use lgtmaybe.Recovery.Ending.{
  Yields, Yields-pure, Yields-bind, Yields-last, Yields-then, Yields-if, Yields-unless_skipped,
  Yields-metered_complete,
}

abbrev pub IsFailed : LensOutcome → Type 0
IsFailed o = is_some o.error ≡ true

module _ (w : Surroundings) (run : Run) (reissue : Reissue)
    (again : (call : Call) (marks : Marks) → Yields IsFailed (reissue call marks))
    (call : Call) where
  switch_off-IsFailed :
      (step_down : Effort) (first : LensOutcome)
      → IsFailed first
      → Yields IsFailed (switch_off w run reissue call step_down first)
  unfolding switch_off
  switch_off-IsFailed step_down first h =
      elim (Option-cases (nonempty (ask w.recovery (λ r. r.disable_reasoning)))) [
        | inl e ↦ rw (e, switch_off) (Yields-pure first h)
        | inr (off, e) ↦
            rw (e, switch_off)
              (Yields-if (text_eq off step_down) (Yields-pure first h) (
                Yields-unless_skipped w run (λ t. Yields-pure first h)
                  (Yields-bind IsFailed (again call (record unmarked { effort = some off })) (λ o k.
                    Yields-then (when_answered o.error (modify (mark_reasoning_off call.lens.id)))
                      (Yields-pure (after first.findings o) k)))))
      ]

  retry_lower_effort-IsFailed :
      (reason : Reason) → Yields IsFailed (retry_lower_effort w run reissue call reason)
  unfolding retry_lower_effort
  retry_lower_effort-IsFailed reason =
      Yields-unless_skipped w run (λ t. Yields-pure (outcome [] (some reason)) refl)
        (elim (Option-cases (nonempty (ask w.recovery (λ r. r.lower_reasoning_effort)))) [
          | inl e ↦ rw e (Yields-pure (outcome [] (some reason)) refl)
          | inr (step_down, e) ↦ rw e (
              Yields-bind IsFailed (again call (record unmarked { effort = some step_down }))
                (λ o k.
                  Yields-then (when_answered o.error (modify (mark_stepped_down call.lens.id))) (
                    Yields-if (is_reasoning_bound o.error) (switch_off-IsFailed step_down o k)
                      (Yields-pure o k))))
        ])

  escalate_model-IsFailed :
      (reason : Reason) → Yields IsFailed (escalate_model w run reissue call reason)
  unfolding escalate_model
  escalate_model-IsFailed reason =
      Yields-unless_skipped w run (λ t. Yields-pure (outcome [] (some reason)) refl)
        (elim (Option-cases (nonempty (ask w.recovery (λ r. r.escalate_model)))) [
          | inl e ↦ rw e (Yields-pure (outcome [] (some reason)) refl)
          | inr (target, e) ↦
              rw e
                (again call (record { effort = none; recover = false; escalate_to = some target }))
        ])

  pub remedy_oversized-IsFailed :
      (marks : Marks) (split : Option OnOversized) (slice : Bool) (completed : List ReviewFinding)
      (reason : Reason) (exhausted : Option Reason)
      → ((f : OnOversized) (x : Reason) → split ≡ some f → Yields IsFailed (f x slice))
      → Yields IsFailed
          (remedy_oversized w run reissue call marks split slice completed reason exhausted)
  unfolding remedy_oversized
  remedy_oversized-IsFailed marks none slice completed reason none h =
      Yields-pure (outcome completed (some reason)) refl
  remedy_oversized-IsFailed marks (some f) slice completed reason none h =
      Yields-bind IsFailed (h f reason refl) (λ o k. rest o.findings o.error k)
    where
      rest :
          (fs : List ReviewFinding) (e : Option Reason)
          → is_some e ≡ true
          → Yields IsFailed (after_split w run reissue call completed (outcome fs e))
      rest fs none k = absurd (cc k)
      rest fs (some (pieces t flaky settled)) k =
          Yields-pure (outcome (completed ++ fs) (some (pieces t flaky settled))) refl
      rest fs (some (plain t)) k =
          Yields-bind IsFailed (escalate_model-IsFailed (plain t))
            (λ o k'. Yields-pure (after (completed ++ fs) o) k')
      rest fs (some (retryable t)) k =
          Yields-bind IsFailed (escalate_model-IsFailed (retryable t))
            (λ o k'. Yields-pure (after (completed ++ fs) o) k')
      rest fs (some (payload t)) k =
          Yields-bind IsFailed (escalate_model-IsFailed (payload t))
            (λ o k'. Yields-pure (after (completed ++ fs) o) k')
      rest fs (some (reasoning_bound t)) k =
          Yields-bind IsFailed (escalate_model-IsFailed (reasoning_bound t))
            (λ o k'. Yields-pure (after (completed ++ fs) o) k')
  remedy_oversized-IsFailed marks split slice completed reason (some x) h =
      Yields-if (is_some marks.effort || is_some marks.escalate_to)
        (Yields-pure (outcome completed (some x)) refl)
        (Yields-bind IsFailed (retry_lower_effort-IsFailed x)
          (λ o k. rest split o.findings o.error k))
    where
      rest :
          (split : Option OnOversized) (fs : List ReviewFinding) (e : Option Reason)
          → is_some e ≡ true
          → Yields IsFailed (after_step_down w run reissue call split completed (outcome fs e))
      rest split fs none k = absurd (cc k)
      rest none fs (some r) k = Yields-pure (outcome (completed ++ fs) (some r)) refl
      rest (some f) fs (some r) k =
          Yields-bind IsFailed (escalate_model-IsFailed r)
            (λ o k'. Yields-pure (after (completed ++ fs) o) k')

  pub call_failed-IsFailed :
      (marks : Marks) (split : Option OnOversized) (exc : Failure)
      → ((slice : Bool) (f : OnOversized) (x : Reason)
          → split ≡ some f
          → Yields IsFailed (f x slice))
      → Yields IsFailed (call_failed w run reissue call marks split exc)
  call_failed-IsFailed marks split exc h =
      call_failed-Yields IsFailed w run reissue call marks split exc
        (λ exhausted slice e.
          Yields-last (contribute w run call.lens (salvage_truncated w exc)) (λ completed.
            remedy_oversized-IsFailed marks split slice completed (mark exc (error_reason exc))
              exhausted (h slice)))
        (λ e. refl)

  pub cut_off-IsFailed :
      (marks : Marks) (split : Option OnOversized) (result : ProviderResult)
      (recovered : List ReviewFinding)
      → ((slice : Bool) (f : OnOversized) (x : Reason)
          → split ≡ some f
          → Yields IsFailed (f x slice))
      → Yields IsFailed (cut_off w run reissue call marks split result recovered)
  unfolding cut_off
  cut_off-IsFailed marks split result recovered h =
      Yields-last (contribute w run call.lens recovered) (λ completed.
        remedy_oversized-IsFailed marks split false completed
          (plain (cut_off_reason result.output_tokens (length recovered)))
          (reasoning_exhausted_reason result.reasoning_tokens result.output_ceiling) (h false))

  retry_without_schema-IsFailed :
      (reason : Reason) → Yields IsFailed (retry_without_schema w run reissue call reason)
  unfolding retry_without_schema
  retry_without_schema-IsFailed reason =
      Yields-unless_skipped w run (λ t. Yields-pure (outcome [] (some reason)) refl)
        (Yields-bind IsFailed
          (again (record call { response_format = false }) (record unmarked { recover = false }))
          (λ o k.
            Yields-then
              (when_answered o.error
                (modify (mark_re_asked call.lens.id) >> drop_response_format w run reissue))
              (Yields-pure o k)))

  or_first_reason-IsFailed :
      (reason : Reason) (fs : List ReviewFinding) (e : Option Reason)
      → is_some e ≡ true
      → IsFailed (or_first_reason w run reissue reason (outcome fs e))
  or_first_reason-IsFailed reason fs none k = k
  or_first_reason-IsFailed reason fs (some r) k = refl

  re_ask_if-IsFailed :
      (reason : Reason) (b : Bool) → Yields IsFailed (re_ask_if w run reissue b call reason)
  re_ask_if-IsFailed reason true =
      Yields-bind IsFailed (retry_without_schema-IsFailed reason) (λ o k.
        Yields-pure (or_first_reason w run reissue reason o)
          (or_first_reason-IsFailed reason o.findings o.error k))
  re_ask_if-IsFailed reason false = Yields-pure (outcome [] (some reason)) refl

  -- no reformat of a reply can be read either
  module _
      (unread : (log : List Event) (request : Request)
        → reformatted w (w.complete log request) ≡ none) where
    repair_findings-none :
        (text : Text) (shape : ParseFailure)
        → Yields (λ o. o ≡ none) (repair_findings w run text shape)
    unfolding repair_findings
    repair_findings-none text shape =
        Yields-if
          (not run.repair_unparseable || (not (is_recoverable shape) || is_empty_text (strip text)))
          (Yields-pure none refl)
          (Yields-bind (λ r. reformatted w r ≡ none)
            (Yields-metered_complete w (λ r. reformatted w r ≡ none) (repair_request run text)
              (λ log. unread log (repair_request run text)))
            (λ r h. Yields-pure (reformatted w r) h))

    pub unparseable-IsFailed :
        (marks : Marks) (text : Text) (shape : ParseFailure)
        → Yields IsFailed (unparseable w run reissue call marks text shape)
    unfolding unparseable without_schema
    unparseable-IsFailed marks text shape =
        Yields-if (not marks.recover) (Yields-pure (outcome [] (some reason)) refl) (
          Yields-unless_skipped w run (λ t. Yields-pure (outcome [] (some reason)) refl)
            (Yields-bind (λ o. o ≡ none) (repair_findings-none text shape) repaired))
      where
        reason : Reason
        reason = plain (unparseable_reason shape)

        repaired :
            (o : Option (List ReviewFinding))
            → o ≡ none
            → Yields IsFailed (after_repair w run reissue call reason o)
        repaired (some fs) e = absurd (cc e)
        repaired none e =
            Yields-if (not (call.response_format && run.retry_without_schema))
              (Yields-pure (outcome [] (some reason)) refl)
              (Yields-last (sends_response_format w run reissue) (re_ask_if-IsFailed reason))
