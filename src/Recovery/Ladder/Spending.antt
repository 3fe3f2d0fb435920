-- ===== src/Recovery/Ladder/Spending.antt =====
-- What the steps of `_Ladder` of engine/recovery.py spend.
use lgtmaybe.Prelude.{
  ℕ, suc, ◌+◌, ◌≡◌, refl, Bool, true, false, ◌&&◌, ◌||◌, not, Option, none, some, List, [], ◌++◌,
  arith, is_some, Bool-cases, Option-cases, inl, inr, length,
}
use lgtmaybe.Text.{Text, text_eq}
use lgtmaybe.Text.Words.{strip}
use lgtmaybe.Findings.Model.{ReviewFinding}
use lgtmaybe.Recovery.Provider.{
  Effort, ParseFailure, Failure, ProviderResult, Fault, wall_timeout, truncated, input_too_large,
  other,
}
use lgtmaybe.Recovery.Run.{
  Session, Surroundings, SupportsRecovery, Run, Action, pure, ◌>>=◌, modify, note, schema_off,
}
use lgtmaybe.Recovery.Reasons.{
  Reason, plain, retryable, payload, reasoning_bound, pieces, error_reason, mark, cut_off_reason,
  reasoning_exhausted_reason, unparseable_reason, LensOutcome, is_empty_text,
}
use lgtmaybe.Recovery.Repair.{is_recoverable, repair_findings, repair_request, reformatted}
use lgtmaybe.Recovery.Call.{
  Call, Marks, unmarked, Reissue, OnOversized, outcome, after, ask, nonempty, when_answered,
  is_reasoning_bound, mark_reasoning_off, mark_stepped_down, mark_re_asked, mark_repaired,
}
use lgtmaybe.Recovery.Ladder.{
  switch_off, retry_lower_effort, escalate_model, retry_without_schema, re_ask_if, without_schema,
  after_repair, unparseable, after_step_down, after_split, remedy, salvage_truncated,
  drop_response_format, or_first_reason, sends_response_format, remedy_oversized, cut_off,
  call_failed,
}
use lgtmaybe.Recovery.Spending.{
  Adds, Spends, Goes, Spends-Goes, Spends-le, Goes-le, Spends-pure, Spends-modify, Spends-bind,
  Goes-bind, Spends-if, Spends-if_false, Spends-unless_skipped, Goes-metered_complete,
  Spends-contribute, cleared, Spends-then, GoesOnce, GoesOnce-Goes, Goes-branch,
}

Goes-repair_findings :
    (w : Surroundings) (run : Run) (reply : Text) (shape : ParseFailure)
    → Goes 1 (repair_findings w run reply shape)
unfolding repair_findings
Goes-repair_findings w run reply shape =
    elim (Bool-cases
      (not run.repair_unparseable || (not (is_recoverable shape) || is_empty_text (strip reply)))) [
        | inl e ↦ rw e (Spends-Goes (Spends-pure 1 none))
        | inr e ↦ rw e (
            Goes-bind 1 0 (Goes-metered_complete w (repair_request run reply))
              (λ a. Spends-pure 0 (reformatted w a)))
      ]

Spends-when_answered :
    (error : Option Reason) {act : Action (Unit {0})}
    → Spends 0 act
    → Spends 0 (when_answered error act)
Spends-when_answered none p = p
Spends-when_answered (some reason) p = Spends-pure 0 tt

-- the marks of a call that takes no remedy of its own: a step down, or the fallback model
abbrev pub is_marked : Marks → Bool
is_marked marks = is_some marks.effort || is_some marks.escalate_to

module _ (w : Surroundings) (run : Run) (reissue : Reissue) (call : Call) where
  -- the last step: one call, which is never reissued
  pub Spends-escalate_model :
      (n : ℕ) (reason : Reason)
      → ((target : Text)
          → Goes n
              (reissue call (record { effort = none; recover = false; escalate_to = some target })))
      → Spends n (escalate_model w run reissue call reason)
  unfolding escalate_model
  Spends-escalate_model n reason one =
      Spends-unless_skipped n w run (λ t. Spends-pure n (outcome [] (some reason)))
        (elim (Option-cases (nonempty (ask w.recovery (λ r. r.escalate_model)))) [
          | inl e ↦ rw e (Spends-Goes (Spends-pure n (outcome [] (some reason))))
          | inr (target, e) ↦ rw e (one target)
        ])

  Spends-switch_off :
      (n : ℕ) (step_down : Effort) (first : LensOutcome)
      → ((off : Effort) → Goes n (reissue call (record unmarked { effort = some off })))
      → Spends n (switch_off w run reissue call step_down first)
  unfolding switch_off
  Spends-switch_off n step_down first one =
      elim (Option-cases (nonempty (ask w.recovery (λ r. r.disable_reasoning)))) [
        | inl e ↦ rw (e, switch_off) (Spends-pure n first)
        | inr (off, e) ↦
            rw (e, switch_off)
              (Spends-if (text_eq off step_down) (Spends-pure n first) (
                Spends-unless_skipped n w run (λ t. Spends-pure n first)
                  (Goes-le n
                    (Goes-bind n 0 (one off) (λ o.
                      Spends-then 0
                        (Spends-when_answered o.error
                          (Spends-modify 0 (mark_reasoning_off call.lens.id)))
                        (Spends-pure 0 (after first.findings o))))
                    (omega arith))))
      ]

  -- the step down, and a second one only where the first sent a single request
  pub Spends-retry_lower_effort :
      (n : ℕ) (reason : Reason)
      → ((effort : Effort)
          → GoesOnce is_reasoning_bound n (reissue call (record unmarked { effort = some effort })))
      → Spends (suc n) (retry_lower_effort w run reissue call reason)
  unfolding retry_lower_effort
  Spends-retry_lower_effort n reason one =
      Spends-unless_skipped (suc n) w run (λ t. Spends-pure (suc n) (outcome [] (some reason)))
        (elim (Option-cases (nonempty (ask w.recovery (λ r. r.lower_reasoning_effort)))) [
          | inl e ↦ rw e (Spends-Goes (Spends-pure (suc n) (outcome [] (some reason))))
          | inr (step_down, e) ↦ rw e (
              Goes-branch n (one step_down)
                (λ o free. Spends-then 0 (noted o) (Spends-if_false _ free (Spends-pure 0 o)))
                (λ o. Spends-then n (noted o) (
                  Spends-if (is_reasoning_bound o.error)
                    (Spends-switch_off n step_down o (λ off. GoesOnce-Goes (one off)))
                    (Spends-pure n o))))
        ])
    where
      noted :
          (o : LensOutcome)
          → Spends 0 (when_answered o.error (modify (mark_stepped_down call.lens.id)))
      noted o = Spends-when_answered o.error (Spends-modify 0 (mark_stepped_down call.lens.id))

  Spends-drop_response_format : Spends 0 (drop_response_format w run reissue)
  Spends-drop_response_format = record { apply = λ s c. by_cases s c w.recovery }
    where
      by_cases :
          (s : Session)
          → cleared s.log ≡ true
          → (r : Option SupportsRecovery)
          → Adds 0 s.log
              (elim r as (λ _. Action (Unit {0})) [ none ↦ pure tt | some r ↦ note schema_off ]
                s).1.log
      by_cases s c none = (omega arith, c)
      by_cases s c (some r) = (omega arith, c)

  Spends-retry_without_schema :
      (n : ℕ) (reason : Reason)
      → Goes n
          (reissue (record call { response_format = false }) (record unmarked { recover = false }))
      → Spends n (retry_without_schema w run reissue call reason)
  unfolding retry_without_schema
  Spends-retry_without_schema n reason one =
      Spends-unless_skipped n w run (λ t. Spends-pure n (outcome [] (some reason)))
        (Goes-le n
          (Goes-bind n 0 one (λ o.
            Spends-then 0
              (Spends-when_answered o.error (
                Spends-then 0 (Spends-modify 0 (mark_re_asked call.lens.id))
                  Spends-drop_response_format))
              (Spends-pure 0 o)))
          (omega arith))

  -- no schema was sent, so there is none to leave out
  pub Spends-without_schema :
      (n : ℕ) (reason : Reason)
      → (call.response_format ≡ true
          → Goes n (
              reissue
                (record call { response_format = false })
                (record unmarked { recover = false })))
      → Spends n (without_schema w run reissue call reason)
  unfolding without_schema
  Spends-without_schema n reason one = elim (Bool-cases call.response_format) [
    | inl e ↦
        Spends-if (not (call.response_format && run.retry_without_schema))
          (Spends-pure n (outcome [] (some reason)))
          (Spends-le n (Spends-bind 0 n sends_quiet (λ b. re_asks b (one e))) (omega arith))
    | inr e ↦ rw e (Spends-pure n (outcome [] (some reason)))
  ]
    where
      sends_quiet : Spends 0 (sends_response_format w run reissue)
      sends_quiet = record { apply = λ s c. by_cases s c w.recovery }
        where
          by_cases :
              (s : Session)
              → cleared s.log ≡ true
              → (r : Option SupportsRecovery)
              → Adds 0 s.log
                  (elim r as (λ _. Bool × Session) [
                    | none ↦ (true, s)
                    | some r ↦ (r.sends_response_format s.log run.model, s)
                  ]).1.log
          by_cases s c none = (omega arith, c)
          by_cases s c (some r) = (omega arith, c)

      re_asks :
          (b : Bool)
          → Goes n (
              reissue
                (record call { response_format = false })
                (record unmarked { recover = false }))
          → Spends n (re_ask_if w run reissue b call reason)
      re_asks true one =
          Spends-le n
            (Spends-bind n 0 (Spends-retry_without_schema n reason one)
              (λ o. Spends-pure 0 (or_first_reason w run reissue reason o)))
            (omega arith)
      re_asks false one = Spends-pure n (outcome [] (some reason))

  -- a recovery that fails reports plain
  pub Spends-unparseable_recovery :
      (n : ℕ) (marks : Marks) (text : Text) (shape : ParseFailure)
      → marks.recover ≡ false
      → Spends n (unparseable w run reissue call marks text shape)
  unfolding unparseable
  Spends-unparseable_recovery n marks text shape e =
      rw e (Spends-pure n (outcome [] (some (plain (unparseable_reason shape)))))

  -- a reformat, and the call without the schema
  pub Spends-unparseable :
      (n : ℕ) (marks : Marks) (text : Text) (shape : ParseFailure)
      → (call.response_format ≡ true
          → Goes n (
              reissue
                (record call { response_format = false })
                (record unmarked { recover = false })))
      → Spends (suc n) (unparseable w run reissue call marks text shape)
  unfolding unparseable
  Spends-unparseable n marks text shape one =
      Spends-if (not marks.recover) (Spends-pure (suc n) failed_again) (
        Spends-unless_skipped (suc n) w run (λ t. Spends-pure (suc n) failed_again)
          (Goes-le (suc n) (Goes-bind 1 n (Goes-repair_findings w run text shape) repairs)
            (omega arith)))
    where
      failed_again : LensOutcome
      failed_again = outcome [] (some (plain (unparseable_reason shape)))

      repairs :
          (o : Option (List ReviewFinding))
          → Spends n (after_repair w run reissue call (plain (unparseable_reason shape)) o)
      repairs none = Spends-without_schema n (plain (unparseable_reason shape)) one
      repairs (some fs) = Spends-then n (Spends-modify 0 (mark_repaired call.lens.id)) (
          Spends-le n
            (Spends-bind 0 n (Spends-contribute w run call.lens fs)
              (λ kept. Spends-pure n (outcome kept none)))
            (omega arith))

  pub Spends-remedy_marked :
      (marks : Marks) (slice : Bool) (completed : List ReviewFinding) (reason : Reason)
      (exhausted : Option Reason)
      → is_marked marks ≡ true
      → Spends 0 (remedy_oversized w run reissue call marks none slice completed reason exhausted)
  unfolding remedy_oversized
  Spends-remedy_marked marks slice completed reason none e =
      Spends-pure 0 (outcome completed (some reason))
  Spends-remedy_marked marks slice completed reason (some x) e =
      rw e (Spends-pure 0 (outcome completed (some x)))

  -- a piece, or a re-run: it has no split, and no second model
  pub Spends-remedy_piece :
      (n : ℕ) (marks : Marks) (slice : Bool) (completed : List ReviewFinding) (reason : Reason)
      (exhausted : Option Reason)
      → ((x : Reason) → Spends n (retry_lower_effort w run reissue call x))
      → Spends n (remedy_oversized w run reissue call marks none slice completed reason exhausted)
  unfolding remedy_oversized
  Spends-remedy_piece n marks slice completed reason none lower =
      Spends-pure n (outcome completed (some reason))
  Spends-remedy_piece n marks slice completed reason (some x) lower =
      Spends-if (is_marked marks) (Spends-pure n (outcome completed (some x)))
        (Spends-le n (Spends-bind n 0 (lower x) (λ o. rest o.findings o.error)) (omega arith))
    where
      rest :
          (fs : List ReviewFinding) (e : Option Reason)
          → Spends 0 (after_step_down w run reissue call none completed (outcome fs e))
      rest fs none = Spends-pure 0 (outcome (completed ++ fs) none)
      rest fs (some r) = Spends-pure 0 (outcome (completed ++ fs) (some r))

  -- a whole batch: the split or the step down, and then the second model
  pub Spends-remedy_batch :
      (n m : ℕ) (marks : Marks) (split : OnOversized) (slice : Bool)
      (completed : List ReviewFinding) (reason : Reason) (exhausted : Option Reason)
      → ((x : Reason) → Spends n (retry_lower_effort w run reissue call x))
      → ((x : Reason) → Spends n (split x slice))
      → ((x : Reason) → Spends m (escalate_model w run reissue call x))
      → Spends
          (n + m)
          (remedy_oversized w run reissue call marks (some split) slice completed reason exhausted)
  unfolding remedy_oversized
  Spends-remedy_batch n m marks split slice completed reason none lower splits last =
      Spends-bind n m (splits reason) (λ o. rest o.findings o.error)
    where
      go :
          (completed : List ReviewFinding) (r : Reason)
          → Spends m (escalate_model w run reissue call r >>= λ o. pure (after completed o))
      go completed r =
          Spends-le m (Spends-bind m 0 (last r) (λ o. Spends-pure 0 (after completed o)))
            (omega arith)

      rest :
          (fs : List ReviewFinding) (e : Option Reason)
          → Spends m (after_split w run reissue call completed (outcome fs e))
      rest fs none = Spends-pure m (outcome (completed ++ fs) none)
      rest fs (some (plain t)) = go (completed ++ fs) (plain t)
      rest fs (some (retryable t)) = go (completed ++ fs) (retryable t)
      rest fs (some (payload t)) = go (completed ++ fs) (payload t)
      rest fs (some (reasoning_bound t)) = go (completed ++ fs) (reasoning_bound t)
      rest fs (some (pieces t flaky settled)) =
          Spends-pure m (outcome (completed ++ fs) (some (pieces t flaky settled)))
  Spends-remedy_batch n m marks split slice completed reason (some x) lower splits last =
      Spends-if (is_marked marks) (Spends-pure (n + m) (outcome completed (some x)))
        (Spends-bind n m (lower x) (λ o. rest o.findings o.error))
    where
      rest :
          (fs : List ReviewFinding) (e : Option Reason)
          → Spends m (after_step_down w run reissue call (some split) completed (outcome fs e))
      rest fs none = Spends-pure m (outcome (completed ++ fs) none)
      rest fs (some r) =
          Spends-le m (Spends-bind m 0 (last r) (λ p. Spends-pure 0 (after (completed ++ fs) p)))
            (omega arith)

  -- a failed call, and a reply that was cut, spend what their remedy spends
  pub Spends-call_failed :
      (n : ℕ) (marks : Marks) (split : Option OnOversized) (exc : Failure)
      → ((slice : Bool) (completed : List ReviewFinding) (reason : Reason)
            (exhausted : Option Reason)
          → Spends n
              (remedy_oversized w run reissue call marks split slice completed reason exhausted))
      → Spends n (call_failed w run reissue call marks split exc)
  unfolding call_failed
  Spends-call_failed n marks split exc rem = by_fault exc.fault refl
    where
      go :
          (exhausted : Option Reason) (slice : Bool)
          → Spends n (remedy w run reissue call marks split exc exhausted slice)
      go exhausted slice =
          Spends-le n
            (Spends-bind 0 n (Spends-contribute w run call.lens (salvage_truncated w exc))
              (λ completed. rem slice completed (mark exc (error_reason exc)) exhausted))
            (omega arith)

      by_fault :
          (f : Fault) → exc.fault ≡ f → Spends n (call_failed w run reissue call marks split exc)
      by_fault (truncated t r) e =
          rw (e, call_failed) (go (reasoning_exhausted_reason r exc.output_tokens) false)
      by_fault wall_timeout e = rw (e, call_failed) (go none false)
      by_fault input_too_large e = rw (e, call_failed) (go none true)
      by_fault other e =
          rw (e, call_failed) (Spends-pure n (outcome [] (some (mark exc (error_reason exc)))))

  pub Spends-cut_off :
      (n : ℕ) (marks : Marks) (split : Option OnOversized) (result : ProviderResult)
      (recovered : List ReviewFinding)
      → ((slice : Bool) (completed : List ReviewFinding) (reason : Reason)
            (exhausted : Option Reason)
          → Spends n
              (remedy_oversized w run reissue call marks split slice completed reason exhausted))
      → Spends n (cut_off w run reissue call marks split result recovered)
  unfolding cut_off
  Spends-cut_off n marks split result recovered rem =
      Spends-le n
        (Spends-bind 0 n (Spends-contribute w run call.lens recovered) (λ completed.
          rem false completed (plain (cut_off_reason result.output_tokens (length recovered)))
            (reasoning_exhausted_reason result.reasoning_tokens result.output_ceiling)))
        (omega arith)
