-- ===== src/Recovery/Ladder/Unparseable.antt =====
-- `_unparseable` of engine/recovery.py never reports a truncation that went on reasoning.
use lgtmaybe.Prelude.{◌≡◌, refl, Bool, true, false, ◌&&◌, not, Option, none, some, List, []}
use lgtmaybe.Text.{Text}
use lgtmaybe.Findings.Model.{ReviewFinding}
use lgtmaybe.Recovery.Provider.{ParseFailure}
use lgtmaybe.Recovery.Run.{Surroundings, Run, modify, contribute}
use lgtmaybe.Recovery.Reasons.{Reason, plain, unparseable_reason, LensOutcome}
use lgtmaybe.Recovery.Repair.{repair_findings}
use lgtmaybe.Recovery.Call.{Call, Marks, Reissue, outcome, is_reasoning_bound, mark_repaired}
use lgtmaybe.Recovery.Ending.{
  Yields, Yields-pure, Yields-last, Yields-then, Yields-if, Yields-unless_skipped,
}
use lgtmaybe.Recovery.Ladder.{
  retry_without_schema, sends_response_format, or_first_reason, re_ask_if, without_schema,
  after_repair, unparseable,
}

-- the outcome's reason is of another kind
abbrev pub IsOtherwise : LensOutcome → Type 0
IsOtherwise o = is_reasoning_bound o.error ≡ false

module _ (w : Surroundings) (run : Run) (reissue : Reissue) (call : Call) (reason : Text) where
  or_first_reason-IsOtherwise :
      (fs : List ReviewFinding) (e : Option Reason)
      → IsOtherwise (or_first_reason w run reissue (plain reason) (outcome fs e))
  or_first_reason-IsOtherwise fs none = refl
  or_first_reason-IsOtherwise fs (some r) = refl

  re_ask_if-Yields : (b : Bool) → Yields IsOtherwise (re_ask_if w run reissue b call (plain reason))
  re_ask_if-Yields true = Yields-last (retry_without_schema w run reissue call (plain reason)) (λ o.
      Yields-pure (or_first_reason w run reissue (plain reason) o)
        (or_first_reason-IsOtherwise o.findings o.error))
  re_ask_if-Yields false = Yields-pure (outcome [] (some (plain reason))) refl

  after_repair-Yields :
      (o : Option (List ReviewFinding))
      → Yields IsOtherwise (after_repair w run reissue call (plain reason) o)
  unfolding without_schema
  after_repair-Yields none =
      Yields-if (not (call.response_format && run.retry_without_schema))
        (Yields-pure (outcome [] (some (plain reason))) refl)
        (Yields-last (sends_response_format w run reissue) re_ask_if-Yields)
  after_repair-Yields (some fs) =
      Yields-then (modify (mark_repaired call.lens.id))
        (Yields-last (contribute w run call.lens fs) (λ kept. Yields-pure (outcome kept none) refl))

pub unparseable-Yields :
    (w : Surroundings) (run : Run) (reissue : Reissue) (call : Call) (marks : Marks) (text : Text)
    (shape : ParseFailure)
    → Yields IsOtherwise (unparseable w run reissue call marks text shape)
unfolding unparseable
unparseable-Yields w run reissue call marks text shape =
    Yields-if (not marks.recover)
      (Yields-pure (outcome [] (some (plain (unparseable_reason shape)))) refl)
      (Yields-unless_skipped w run
        (λ t. Yields-pure (outcome [] (some (plain (unparseable_reason shape)))) refl)
        (Yields-last (repair_findings w run text shape)
          (after_repair-Yields w run reissue call (unparseable_reason shape))))
