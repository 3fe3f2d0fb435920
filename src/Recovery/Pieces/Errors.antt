-- ===== src/Recovery/Pieces/Errors.antt =====
-- The reason of a split names no more pieces than there were (`_review_split` of engine/recovery.py).
use lgtmaybe.Prelude.{
  ℕ, ◌≤◌, Option, none, some, List, [], ◌∷◌, arith, length, ltb, Bool-cases, inl, inr,
}
use lgtmaybe.Text.{Text}
use lgtmaybe.Compress.Batch.{Patch}
use lgtmaybe.Recovery.Reasons.{
  Reason, plain, retryable, payload, reasoning_bound, pieces, LensOutcome, provider_side,
}
use lgtmaybe.Recovery.Call.{ReviewPiece, outcome}
use lgtmaybe.Recovery.Pieces.{
  errors_of, last_of, flaky_pieces, settled_errors, split_reason, split_outcome, review_pieces,
  note_split, review_split,
}
use lgtmaybe.Recovery.Ending.{Yields, Yields-pure, Yields-last, Yields-then, Yields-if}
use lgtmaybe.Recovery.Ladder.Errors.{Ends}

-- the pieces that a rescue of this reason re-runs
abbrev pub flaky_count : Option Reason → ℕ
flaky_count none = 0
flaky_count (some (plain t)) = 0
flaky_count (some (retryable t)) = 0
flaky_count (some (payload t)) = 0
flaky_count (some (reasoning_bound t)) = 0
flaky_count (some (pieces t flaky settled)) = length flaky

abbrev pub Few : ℕ → Option Reason → Type 0
Few k e = flaky_count e ≤ k

length-flaky_pieces :
    (ps : List (List Patch)) (os : List LensOutcome) → length (flaky_pieces ps os) ≤ length ps
length-flaky_pieces [] os = omega arith
length-flaky_pieces (p ∷ ps) [] = omega arith
length-flaky_pieces (p ∷ ps) (o ∷ os) = elim (Bool-cases (provider_side o.error)) [
  | inl e ↦ rw e (omega (arith, length-flaky_pieces ps os))
  | inr e ↦ rw e (omega (arith, length-flaky_pieces ps os))
]

split_reason-Few :
    (k : ℕ) (last : Option Reason) (flaky : List (List Patch)) (settled : List Text)
    → length flaky ≤ k
    → Few k (split_reason last flaky settled)
split_reason-Few k none flaky settled h = omega arith
split_reason-Few k (some r) [] settled h = omega arith
split_reason-Few k (some r) (p ∷ flaky) settled h = h

pub review_split-Few :
    (review_piece : ReviewPiece) (batch_num : ℕ) (ps : List (List Patch)) (reason : Reason) (k : ℕ)
    → length ps ≤ k
    → Few k (some reason)
    → Yields (Ends (Few k)) (review_split review_piece batch_num ps reason)
unfolding review_split split_outcome
review_split-Few review_piece batch_num ps reason k h few =
    Yields-if (ltb (length ps) 2) (Yields-pure (outcome [] (some reason)) few) (
      Yields-last (review_pieces review_piece ps) (λ os.
        Yields-then (note_split review_piece batch_num os) (
          Yields-pure (split_outcome ps os) (
            split_reason-Few k (last_of (errors_of os)) (flaky_pieces ps os)
              (settled_errors (errors_of os)) (omega (arith, length-flaky_pieces ps os))))))
