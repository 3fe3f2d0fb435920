-- ===== src/Recovery/Call.antt =====
-- What a call of a lens and the steps of `_Ladder` of engine/recovery.py pass to each other.
use lgtmaybe.Prelude.{ℕ, Bool, true, false, Option, none, some, List, ◌++◌, if◌then◌else◌}
use lgtmaybe.Text.{Text}
use lgtmaybe.Collections.{nat_is_eq, text_is_eq}
use lgtmaybe.Collections.Set.{add}
use lgtmaybe.Collections.Dict.{put}
use lgtmaybe.Compress.Batch.{Patch}
use lgtmaybe.Findings.Model.{ReviewFinding}
use lgtmaybe.Findings.Bound.{Lens}
use lgtmaybe.Recovery.Provider.{Effort, Messages}
use lgtmaybe.Recovery.Run.{RunState, SupportsRecovery, Action, pure}
use lgtmaybe.Recovery.Reasons.{
  Reason, plain, retryable, payload, reasoning_bound, pieces, LensOutcome, is_empty_text,
}

-- the arguments that the steps pass on unchanged
pub record Call : Type 0 where
  pub messages : Messages
  pub response_format : Bool
  pub batch_num : ℕ
  pub lens : Lens

-- what marks a call that a step of the ladder issued
pub record Marks : Type 0 where
  pub effort : Option Effort
  pub recover : Bool
  pub escalate_to : Option Text

abbrev pub unmarked : Marks
unmarked = record { effort = none; recover = true; escalate_to = none }

-- `_Reissue`, `_ReviewPiece` with the arguments of a piece, and `_OnOversized`
abbrev pub Reissue : Type 0
Reissue = Call → Marks → Action LensOutcome

abbrev pub ReviewPiece : Type 0
ReviewPiece = List Patch → Action LensOutcome

abbrev pub OnOversized : Type 0
OnOversized = Reason → Bool → Action LensOutcome

abbrev pub outcome : List ReviewFinding → Option Reason → LensOutcome
outcome findings error = record { findings = findings; error = error }

-- `(first + second, error of the second)`
abbrev pub after : List ReviewFinding → LensOutcome → LensOutcome
after findings o = outcome (findings ++ o.findings) o.error

abbrev pub mark_split : ℕ → RunState → RunState
mark_split batch_num st = record st { split_batches = add batch_num st.split_batches }

abbrev pub mark_stepped_down : Text → RunState → RunState
mark_stepped_down lens_id st = record st { stepped_down = add lens_id st.stepped_down }

abbrev pub mark_reasoning_off : Text → RunState → RunState
mark_reasoning_off lens_id st = record st { reasoning_off = add lens_id st.reasoning_off }

abbrev pub mark_repaired : Text → RunState → RunState
mark_repaired lens_id st = record st { repaired = add lens_id st.repaired }

abbrev pub mark_re_asked : Text → RunState → RunState
mark_re_asked lens_id st = record st { re_asked = add lens_id st.re_asked }

abbrev pub mark_escalated : Text → Text → RunState → RunState
mark_escalated lens_id model st = record st { escalated = put lens_id model st.escalated }

-- `if error is None: ...`
abbrev pub when_answered : Option Reason → Action (Unit {0}) → Action (Unit {0})
when_answered none act = act
when_answered (some reason) act = pure tt

-- an optional capability's answer, where the adapter has it; the empty options are none
abbrev pub nonempty : Option Text → Option Text
nonempty none = none
nonempty (some t) = if is_empty_text t then none else some t

abbrev pub ask : {A : Type 0} → Option SupportsRecovery → (SupportsRecovery → Option A) → Option A
ask none f = none
ask (some r) f = f r

abbrev pub is_reasoning_bound : Option Reason → Bool
is_reasoning_bound none = false
is_reasoning_bound (some (plain t)) = false
is_reasoning_bound (some (retryable t)) = false
is_reasoning_bound (some (payload t)) = false
is_reasoning_bound (some (reasoning_bound t)) = true
is_reasoning_bound (some (pieces t flaky settled)) = false
