-- ===== src/Recovery/Pieces.antt =====
-- `_review_split` of engine/recovery.py: an oversized batch, reviewed in pieces.
pub mod Spending
pub mod Errors
pub mod Failing
use lgtmaybe.Prelude.{ℕ, Option, none, some, List, [], ◌∷◌, ◌++◌, if◌then◌else◌, ltb, length, map}
use lgtmaybe.Text.{Text}
use lgtmaybe.Text.Lines.{join_lines}
use lgtmaybe.Collections.{nat_is_eq, text_is_eq}
use lgtmaybe.Compress.Batch.{Patch}
use lgtmaybe.Findings.Model.{ReviewFinding}
use lgtmaybe.Recovery.Run.{Action, pure, ◌>>=◌, ◌>>◌, modify}
use lgtmaybe.Recovery.Reasons.{Reason, plain, pieces, text_of, LensOutcome, provider_side}
use lgtmaybe.Recovery.Call.{ReviewPiece, mark_split, outcome}

-- the errors of the outcomes, in order
abbrev pub error_list : Option Reason → List Reason
error_list none = []
error_list (some reason) = reason ∷ []

abbrev pub errors_of : List LensOutcome → List Reason
errors_of [] = []
errors_of (o ∷ os) = error_list o.error ++ errors_of os

abbrev pub findings_of : List LensOutcome → List ReviewFinding
findings_of [] = []
findings_of (o ∷ os) = o.findings ++ findings_of os

-- `xs[-1] if xs else None`
abbrev pub last_of {ℓ} : {A : Type ℓ} → List A → Option A
last_of [] = none
last_of (x ∷ []) = some x
last_of (x ∷ y ∷ xs) = last_of (y ∷ xs)

-- the pieces whose outcome failed on the provider
abbrev pub flaky_pieces : List (List Patch) → List LensOutcome → List (List Patch)
flaky_pieces [] os = []
flaky_pieces (p ∷ ps) [] = []
flaky_pieces (p ∷ ps) (o ∷ os) =
    let rest = flaky_pieces ps os in if provider_side o.error then p ∷ rest else rest

-- the texts of the errors that are not the provider's
abbrev pub settled_errors : List Reason → List Text
settled_errors [] = []
settled_errors (e ∷ es) =
    let rest = settled_errors es in if provider_side (some e) then rest else text_of e ∷ rest

abbrev pub plain_last : Option Text → Option Reason
plain_last none = none
plain_last (some t) = some (plain t)

-- the reason of a split with errors: plain where no piece was flaky
abbrev pub split_reason : Option Reason → List (List Patch) → List Text → Option Reason
split_reason none flaky settled = none
split_reason (some last) [] settled = some (plain (text_of last))
split_reason (some last) (p ∷ flaky) settled = some (pieces (text_of last) (p ∷ flaky) settled)

unfoldable pub split_outcome : List (List Patch) → List LensOutcome → LensOutcome
split_outcome ps os =
    outcome (findings_of os)
      (split_reason (last_of (errors_of os)) (flaky_pieces ps os) (settled_errors (errors_of os)))

-- the text that a piece shows
abbrev pub shown : List Patch → Text
shown piece = join_lines (map (λ (f : Patch). f.1) piece)

module _ (review_piece : ReviewPiece) where
  -- the pool of a split yields in submission order
  unfoldable pub review_pieces : List (List Patch) → Action (List LensOutcome)
  review_pieces [] = pure []
  review_pieces (p ∷ ps) = do o ← review_piece p; os ← review_pieces ps; pure (o ∷ os)

  -- `if len(errors) < len(pieces): run.state.split_batches.add(batch_num)`
  abbrev pub note_split : ℕ → List LensOutcome → Action (Unit {0})
  note_split batch_num os =
      if ltb (length (errors_of os)) (length os) then modify (mark_split batch_num) else pure tt

  unfoldable pub review_split : ℕ → List (List Patch) → Reason → Action LensOutcome
  unfolding review_pieces split_outcome
  review_split batch_num ps reason =
      if ltb (length ps) 2
      then pure (outcome [] (some reason))
      else do os ← review_pieces ps; note_split batch_num os; pure (split_outcome ps os)

  -- `retry` of a `_PiecesReason`
  unfoldable pub retry_pieces : ℕ → List (List Patch) → List Text → Action LensOutcome
  unfolding review_pieces
  retry_pieces batch_num flaky settled = do
    again ← review_pieces flaky
    note_split batch_num again
    pure (
        outcome (findings_of again)
          (plain_last (last_of (settled ++ map text_of (errors_of again)))))
