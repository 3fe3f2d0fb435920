-- ===== src/Recovery/Ladder/Ending.antt =====
-- `_call_failed` of engine/recovery.py ends as its remedy does, or with the reason of the call.
use lgtmaybe.Prelude.{ℕ, ◌≡◌, refl, Bool, true, false, Option, none, some, [], arith}
use lgtmaybe.Text.{Text}
use lgtmaybe.Recovery.Provider.{Fault, wall_timeout, truncated, input_too_large, other, Failure}
use lgtmaybe.Recovery.Run.{Surroundings, Run}
use lgtmaybe.Recovery.Reasons.{
  Reason, plain, retryable, payload, reasoning_bound, pieces, LensOutcome, mark, error_reason,
  reasoning_exhausted_reason,
}
use lgtmaybe.Recovery.Call.{Call, Marks, Reissue, OnOversized, outcome}
use lgtmaybe.Recovery.Ladder.{remedy, call_failed}
use lgtmaybe.Recovery.Ending.{Yields, Yields-pure}

abbrev pub is_pieces : Option Reason → Bool
is_pieces none = false
is_pieces (some (plain t)) = false
is_pieces (some (retryable t)) = false
is_pieces (some (payload t)) = false
is_pieces (some (reasoning_bound t)) = false
is_pieces (some (pieces t flaky settled)) = true

pub mark-simple : (exc : Failure) (text : Text) → is_pieces (some (mark exc text)) ≡ false
unfolding mark
mark-simple exc text = ground arith

pub exhausted-simple : (r c : Option ℕ) → is_pieces (reasoning_exhausted_reason r c) ≡ false
unfolding reasoning_exhausted_reason
exhausted-simple none c = refl
exhausted-simple (some r) none = refl
exhausted-simple (some r) (some c) = ground arith

pub call_failed-Yields :
    (P : LensOutcome → Type 0) (w : Surroundings) (run : Run) (reissue : Reissue) (call : Call)
    (marks : Marks) (split : Option OnOversized) (exc : Failure)
    → ((exhausted : Option Reason) (slice : Bool)
        → is_pieces exhausted ≡ false
        → Yields P (remedy w run reissue call marks split exc exhausted slice))
    → (exc.fault ≡ other → P (outcome [] (some (mark exc (error_reason exc)))))
    → Yields P (call_failed w run reissue call marks split exc)
unfolding call_failed
call_failed-Yields P w run reissue call marks split exc go alone = by_fault exc.fault refl
  where
    by_fault :
        (f : Fault) → exc.fault ≡ f → Yields P (call_failed w run reissue call marks split exc)
    by_fault (truncated t r) e =
        rw (e, call_failed)
          (go (reasoning_exhausted_reason r exc.output_tokens) false
            (exhausted-simple r exc.output_tokens))
    by_fault wall_timeout e = rw (e, call_failed) (go none false refl)
    by_fault input_too_large e = rw (e, call_failed) (go none true refl)
    by_fault other e =
        rw (e, call_failed)
          (Yields-pure (outcome [] (some (mark exc (error_reason exc)))) (alone e))
