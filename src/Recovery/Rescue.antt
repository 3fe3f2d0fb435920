-- ===== src/Recovery/Rescue.antt =====
-- `_rescue` of engine/recovery.py, and the calls of a review in their order (`_fan_out` of
-- engine/engine.py).
pub mod Attempts
pub mod Laws
use lgtmaybe.Prelude.{ℕ, Bool, true, false, Option, none, some, List, [], ◌∷◌, ◌++◌, if◌then◌else◌}
use lgtmaybe.Text.{Text}
use lgtmaybe.Compress.Batch.{Patch}
use lgtmaybe.Findings.Bound.{Lens}
use lgtmaybe.Recovery.Run.{Surroundings, Run, Action, pure, ◌>>=◌}
use lgtmaybe.Recovery.Reasons.{
  Reason, plain, retryable, payload, reasoning_bound, pieces, LensOutcome, rescuable,
}
use lgtmaybe.Recovery.Call.{after}
use lgtmaybe.Recovery.Pieces.{retry_pieces}
use lgtmaybe.Recovery.Lens.{review_lens, review_piece}

-- `_PreparedCall`: what its task is called with, of which the lens gives its id
pub record PreparedCall : Type 0 where
  pub batch : List Patch
  pub batch_num : ℕ
  pub lens : Lens

module _ (w : Surroundings) (run : Run) where
  -- `call.task()`
  abbrev pub task : PreparedCall → Action LensOutcome
  task call = review_lens w run call.batch call.batch_num call.lens

  -- a split's failed pieces, never the oversized whole
  unfoldable pub rerun : PreparedCall → Option Reason → Action LensOutcome
  rerun call (some (pieces t flaky settled)) =
      retry_pieces (review_piece w run call.batch_num call.lens) call.batch_num flaky settled
  rerun call (some (plain t)) = task call
  rerun call (some (retryable t)) = task call
  rerun call (some (payload t)) = task call
  rerun call (some (reasoning_bound t)) = task call
  rerun call none = task call

  unfoldable pub rescue_one : PreparedCall → LensOutcome → Action LensOutcome
  unfolding rerun
  rescue_one call o =
      if rescuable o.error
      then (rerun call o.error >>= λ again. pure (after o.findings again))
      else pure o

  -- the calls that failed on the provider, in their order; the others stay
  unfoldable pub rescue : List PreparedCall → List LensOutcome → Action (List LensOutcome)
  unfolding rescue_one
  rescue [] os = pure os
  rescue (c ∷ cs) [] = pure []
  rescue (c ∷ cs) (o ∷ os) = do p ← rescue_one c o; ps ← rescue cs os; pure (p ∷ ps)

  unfoldable pub run_calls : List PreparedCall → Action (List LensOutcome)
  run_calls [] = pure []
  run_calls (c ∷ cs) = do o ← task c; os ← run_calls cs; pure (o ∷ os)

  -- the outcomes, in the order of the calls
  unfoldable pub fan_out : List PreparedCall → Action (List LensOutcome)
  unfolding run_calls rescue
  fan_out calls = do os ← run_calls calls; rescue calls os
