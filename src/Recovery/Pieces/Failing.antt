-- ===== src/Recovery/Pieces/Failing.antt =====
-- A split whose pieces all fail (`_review_split` of engine/recovery.py).
use lgtmaybe.Prelude.{
  ℕ, ◌≡◌, refl, true, false, Option, none, some, List, [], ◌∷◌, arith, length, ltb, is_some, All,
  Bool-cases, inl, inr,
}
use lgtmaybe.Text.{Text}
use lgtmaybe.Compress.Batch.{Patch}
use lgtmaybe.Findings.Model.{ReviewFinding}
use lgtmaybe.Recovery.Reasons.{Reason, LensOutcome}
use lgtmaybe.Recovery.Call.{ReviewPiece, outcome}
use lgtmaybe.Recovery.Pieces.{
  errors_of, last_of, flaky_pieces, settled_errors, split_reason, split_outcome, review_pieces,
  note_split, review_split,
}
use lgtmaybe.Recovery.Ending.{Yields, Yields-pure, Yields-bind, Yields-then}
use lgtmaybe.Recovery.Ladder.Failing.{IsFailed}

last_of-some {ℓ} : {A : Type ℓ} (x : A) (xs : List A) → is_some (last_of (x ∷ xs)) ≡ true
last_of-some x [] = refl
last_of-some x (y ∷ xs) = last_of-some y xs

split_reason-some :
    (o : Option Reason) (flaky : List (List Patch)) (settled : List Text)
    → is_some o ≡ true
    → is_some (split_reason o flaky settled) ≡ true
split_reason-some none flaky settled h = h
split_reason-some (some r) [] settled h = refl
split_reason-some (some r) (p ∷ flaky) settled h = refl

errors_of-last :
    (fs : List ReviewFinding) (e : Option Reason) (os : List LensOutcome)
    → is_some e ≡ true
    → is_some (last_of (errors_of (outcome fs e ∷ os))) ≡ true
errors_of-last fs none os h = absurd (cc h)
errors_of-last fs (some r) os h = last_of-some r (errors_of os)

-- outcomes of as many pieces, all failed
abbrev AllFailed : List (List Patch) → List LensOutcome → Type 0
AllFailed ps os = All IsFailed os × (length os ≡ length ps)

module _ (review_piece : ReviewPiece)
    (one : (p : List Patch) → Yields IsFailed (review_piece p)) where
  review_pieces-AllFailed :
      (ps : List (List Patch)) → Yields (AllFailed ps) (review_pieces review_piece ps)
  unfolding review_pieces
  review_pieces-AllFailed [] = Yields-pure [] (tt, refl)
  review_pieces-AllFailed (p ∷ ps) = Yields-bind IsFailed (one p) (λ o h.
      Yields-bind (AllFailed ps) (review_pieces-AllFailed ps)
        (λ os k. Yields-pure (o ∷ os) ((h, k.0), omega (arith, k.1))))

  split_outcome-IsFailed :
      (ps : List (List Patch)) (os : List LensOutcome)
      → ltb (length ps) 2 ≡ false
      → AllFailed ps os
      → IsFailed (split_outcome ps os)
  unfolding split_outcome
  split_outcome-IsFailed ps [] many h = absurd (ground (arith, h.1))
  split_outcome-IsFailed ps (o ∷ os) many h =
      split_reason-some (last_of (errors_of (o ∷ os))) (flaky_pieces ps (o ∷ os))
        (settled_errors (errors_of (o ∷ os))) (errors_of-last o.findings o.error os h.0.0)

  pub review_split-IsFailed :
      (batch_num : ℕ) (ps : List (List Patch)) (reason : Reason)
      → Yields IsFailed (review_split review_piece batch_num ps reason)
  unfolding review_split
  review_split-IsFailed batch_num ps reason = elim (Bool-cases (ltb (length ps) 2)) [
    | inl e ↦ rw e (Yields-pure (outcome [] (some reason)) refl)
    | inr e ↦ rw e (
        Yields-bind (AllFailed ps) (review_pieces-AllFailed ps) (λ os h.
          Yields-then (note_split review_piece batch_num os)
            (Yields-pure (split_outcome ps os) (split_outcome-IsFailed ps os e h))))
  ]
