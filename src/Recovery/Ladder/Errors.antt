-- ===== src/Recovery/Ladder/Errors.antt =====
-- The steps of `_Ladder` of engine/recovery.py report a reason that a split gave, or one of the plain
-- kinds.
use lgtmaybe.Prelude.{
  ◌≡◌, refl, Bool, true, false, not, ◌&&◌, ◌||◌, Option, none, some, List, [], ◌++◌, length,
  is_some, Option-cases, inl, inr,
}
use lgtmaybe.Text.{Text, text_eq}
use lgtmaybe.Findings.Model.{ReviewFinding}
use lgtmaybe.Recovery.Provider.{Effort, Failure, ParseFailure, ProviderResult}
use lgtmaybe.Recovery.Run.{Surroundings, Run, pure, ◌>>=◌, ◌>>◌, modify, contribute}
use lgtmaybe.Recovery.Reasons.{
  Reason, plain, retryable, payload, reasoning_bound, pieces, unparseable_reason, cut_off_reason,
  error_reason, mark, reasoning_exhausted_reason, LensOutcome,
}
use lgtmaybe.Recovery.Repair.{repair_findings}
use lgtmaybe.Recovery.Call.{
  Call, Marks, unmarked, Reissue, OnOversized, outcome, after, ask, nonempty, when_answered,
  is_reasoning_bound, mark_stepped_down, mark_reasoning_off, mark_re_asked, mark_repaired,
}
use lgtmaybe.Recovery.Ladder.{
  switch_off, retry_lower_effort, escalate_model, retry_without_schema, drop_response_format,
  sends_response_format, or_first_reason, re_ask_if, without_schema, after_repair, unparseable,
  after_step_down, after_split, remedy_oversized, salvage_truncated, cut_off, call_failed,
}
use lgtmaybe.Recovery.Ladder.Ending.{is_pieces, mark-simple, exhausted-simple, call_failed-Yields}
use lgtmaybe.Recovery.Ending.{
  Yields, Yields-pure, Yields-bind, Yields-last, Yields-then, Yields-if, Yields-unless_skipped,
}

-- the outcome's error is one of these
abbrev pub Ends : (Option Reason → Type 0) → LensOutcome → Type 0
Ends E o = E o.error

module _ (E : Option Reason → Type 0) (simple : (e : Option Reason) → is_pieces e ≡ false → E e)
    (w : Surroundings) (run : Run) (reissue : Reissue)
    (again : (call : Call) (marks : Marks) → Yields (Ends E) (reissue call marks))
    (call : Call) where
  as_it_was :
      (reason : Reason) → E (some reason) → Yields (Ends E) (pure (outcome [] (some reason)))
  as_it_was reason h = Yields-pure (outcome [] (some reason)) h

  switch_off-Ends :
      (step_down : Effort) (first : LensOutcome)
      → E first.error
      → Yields (Ends E) (switch_off w run reissue call step_down first)
  unfolding switch_off
  switch_off-Ends step_down first h =
      elim (Option-cases (nonempty (ask w.recovery (λ r. r.disable_reasoning)))) [
        | inl e ↦ rw (e, switch_off) (Yields-pure first h)
        | inr (off, e) ↦
            rw (e, switch_off)
              (Yields-if (text_eq off step_down) (Yields-pure first h) (
                Yields-unless_skipped w run (λ t. Yields-pure first h)
                  (Yields-bind (Ends E) (again call (record unmarked { effort = some off })) (λ o k.
                    Yields-then (when_answered o.error (modify (mark_reasoning_off call.lens.id)))
                      (Yields-pure (after first.findings o) k)))))
      ]

  retry_lower_effort-Ends :
      (reason : Reason)
      → E (some reason)
      → Yields (Ends E) (retry_lower_effort w run reissue call reason)
  unfolding retry_lower_effort
  retry_lower_effort-Ends reason h =
      Yields-unless_skipped w run (λ t. as_it_was reason h)
        (elim (Option-cases (nonempty (ask w.recovery (λ r. r.lower_reasoning_effort)))) [
          | inl e ↦ rw e (as_it_was reason h)
          | inr (step_down, e) ↦ rw e (
              Yields-bind (Ends E) (again call (record unmarked { effort = some step_down }))
                (λ o k.
                  Yields-then (when_answered o.error (modify (mark_stepped_down call.lens.id))) (
                    Yields-if (is_reasoning_bound o.error) (switch_off-Ends step_down o k)
                      (Yields-pure o k))))
        ])

  escalate_model-Ends :
      (reason : Reason)
      → E (some reason)
      → Yields (Ends E) (escalate_model w run reissue call reason)
  unfolding escalate_model
  escalate_model-Ends reason h =
      Yields-unless_skipped w run (λ t. as_it_was reason h)
        (elim (Option-cases (nonempty (ask w.recovery (λ r. r.escalate_model)))) [
          | inl e ↦ rw e (as_it_was reason h)
          | inr (target, e) ↦
              rw e
                (again call (record { effort = none; recover = false; escalate_to = some target }))
        ])

  escalated-Ends :
      (fs : List ReviewFinding) (reason : Reason)
      → E (some reason)
      → Yields (Ends E) (escalate_model w run reissue call reason >>= λ o. pure (after fs o))
  escalated-Ends fs reason h =
      Yields-bind (Ends E) (escalate_model-Ends reason h) (λ o k. Yields-pure (after fs o) k)

  pub remedy_oversized-Ends :
      (marks : Marks) (split : Option OnOversized) (slice : Bool) (completed : List ReviewFinding)
      (reason : Reason) (exhausted : Option Reason)
      → E (some reason)
      → E exhausted
      → ((f : OnOversized) (x : Reason) → split ≡ some f → E (some x) → Yields (Ends E) (f x slice))
      → Yields
          (Ends E)
          (remedy_oversized w run reissue call marks split slice completed reason exhausted)
  unfolding remedy_oversized
  remedy_oversized-Ends marks none slice completed reason none p q h =
      Yields-pure (outcome completed (some reason)) p
  remedy_oversized-Ends marks (some f) slice completed reason none p q h =
      Yields-bind (Ends E) (h f reason refl p) (λ o k. rest o.findings o.error k)
    where
      rest :
          (fs : List ReviewFinding) (e : Option Reason)
          → E e
          → Yields (Ends E) (after_split w run reissue call completed (outcome fs e))
      rest fs none k = Yields-pure (outcome (completed ++ fs) none) k
      rest fs (some (pieces t flaky settled)) k =
          Yields-pure (outcome (completed ++ fs) (some (pieces t flaky settled))) k
      rest fs (some (plain t)) k = escalated-Ends (completed ++ fs) (plain t) k
      rest fs (some (retryable t)) k = escalated-Ends (completed ++ fs) (retryable t) k
      rest fs (some (payload t)) k = escalated-Ends (completed ++ fs) (payload t) k
      rest fs (some (reasoning_bound t)) k = escalated-Ends (completed ++ fs) (reasoning_bound t) k
  remedy_oversized-Ends marks split slice completed reason (some x) p q h =
      Yields-if (is_some marks.effort || is_some marks.escalate_to)
        (Yields-pure (outcome completed (some x)) q)
        (Yields-bind (Ends E) (retry_lower_effort-Ends x q)
          (λ o k. rest split o.findings o.error k))
    where
      rest :
          (split : Option OnOversized) (fs : List ReviewFinding) (e : Option Reason)
          → E e
          → Yields (Ends E) (after_step_down w run reissue call split completed (outcome fs e))
      rest split fs none k = Yields-pure (outcome (completed ++ fs) none) k
      rest none fs (some r) k = Yields-pure (outcome (completed ++ fs) (some r)) k
      rest (some f) fs (some r) k = escalated-Ends (completed ++ fs) r k

  pub call_failed-Ends :
      (marks : Marks) (split : Option OnOversized) (exc : Failure)
      → ((slice : Bool) (f : OnOversized) (x : Reason)
          → split ≡ some f
          → E (some x)
          → Yields (Ends E) (f x slice))
      → Yields (Ends E) (call_failed w run reissue call marks split exc)
  call_failed-Ends marks split exc h =
      call_failed-Yields (Ends E) w run reissue call marks split exc
        (λ exhausted slice e.
          Yields-last (contribute w run call.lens (salvage_truncated w exc)) (λ completed.
            remedy_oversized-Ends marks split slice completed (mark exc (error_reason exc))
              exhausted marked (simple exhausted e) (h slice)))
        (λ e. marked)
    where
      marked : E (some (mark exc (error_reason exc)))
      marked = simple (some (mark exc (error_reason exc))) (mark-simple exc (error_reason exc))

  pub cut_off-Ends :
      (marks : Marks) (split : Option OnOversized) (result : ProviderResult)
      (recovered : List ReviewFinding)
      → ((slice : Bool) (f : OnOversized) (x : Reason)
          → split ≡ some f
          → E (some x)
          → Yields (Ends E) (f x slice))
      → Yields (Ends E) (cut_off w run reissue call marks split result recovered)
  unfolding cut_off
  cut_off-Ends marks split result recovered h =
      Yields-last (contribute w run call.lens recovered) (λ completed.
        remedy_oversized-Ends marks split false completed reason
          (reasoning_exhausted_reason result.reasoning_tokens result.output_ceiling)
          (simple (some reason) refl)
          (simple (reasoning_exhausted_reason result.reasoning_tokens result.output_ceiling)
            (exhausted-simple result.reasoning_tokens result.output_ceiling))
          (h false))
    where
      reason : Reason
      reason = plain (cut_off_reason result.output_tokens (length recovered))

  retry_without_schema-Ends :
      (reason : Reason)
      → E (some reason)
      → Yields (Ends E) (retry_without_schema w run reissue call reason)
  unfolding retry_without_schema
  retry_without_schema-Ends reason h =
      Yields-unless_skipped w run (λ t. as_it_was reason h)
        (Yields-bind (Ends E)
          (again (record call { response_format = false }) (record unmarked { recover = false }))
          (λ o k.
            Yields-then
              (when_answered o.error
                (modify (mark_re_asked call.lens.id) >> drop_response_format w run reissue))
              (Yields-pure o k)))

  pub unparseable-Ends :
      (marks : Marks) (text : Text) (shape : ParseFailure)
      → Yields (Ends E) (unparseable w run reissue call marks text shape)
  unfolding unparseable without_schema
  unparseable-Ends marks text shape = Yields-if (not marks.recover) (as_it_was reason plain_ends) (
      Yields-unless_skipped w run (λ t. as_it_was reason plain_ends)
        (Yields-last (repair_findings w run text shape) repaired))
    where
      reason : Reason
      reason = plain (unparseable_reason shape)

      plain_ends : E (some reason)
      plain_ends = simple (some reason) refl

      first :
          (fs : List ReviewFinding) (e : Option Reason)
          → E (or_first_reason w run reissue reason (outcome fs e)).error
      first fs none = simple none refl
      first fs (some r) = plain_ends

      re_ask : (b : Bool) → Yields (Ends E) (re_ask_if w run reissue b call reason)
      re_ask true =
          Yields-last (retry_without_schema w run reissue call reason)
            (λ o. Yields-pure (or_first_reason w run reissue reason o) (first o.findings o.error))
      re_ask false = as_it_was reason plain_ends

      repaired :
          (o : Option (List ReviewFinding))
          → Yields (Ends E) (after_repair w run reissue call reason o)
      repaired (some fs) = Yields-then (modify (mark_repaired call.lens.id)) (
          Yields-last (contribute w run call.lens fs)
            (λ kept. Yields-pure (outcome kept none) (simple none refl)))
      repaired none =
          Yields-if (not (call.response_format && run.retry_without_schema))
            (as_it_was reason plain_ends) (Yields-last (sends_response_format w run reissue) re_ask)
