-- ===== src/Recovery/Pieces/Spending.antt =====
-- What a split and the retry of its pieces spend (`_review_split` of engine/recovery.py).
use lgtmaybe.Prelude.{ℕ, ◌*◌, some, List, [], ◌∷◌, ◌++◌, arith, length, ltb, map}
use lgtmaybe.Text.{Text}
use lgtmaybe.Compress.Batch.{Patch}
use lgtmaybe.Recovery.Reasons.{Reason, text_of, LensOutcome}
use lgtmaybe.Recovery.Call.{ReviewPiece, outcome, mark_split}
use lgtmaybe.Recovery.Pieces.{
  errors_of, findings_of, last_of, plain_last, split_outcome, review_pieces, note_split,
  review_split, retry_pieces,
}
use lgtmaybe.Recovery.Spending.{
  Spends, Spends-le, Spends-pure, Spends-modify, Spends-bind, Spends-then, Spends-if,
}

module _ (review_piece : ReviewPiece) (n : ℕ)
    (one : (p : List Patch) → Spends n (review_piece p)) where
  Spends-review_pieces :
      (ps : List (List Patch)) → Spends (n * length ps) (review_pieces review_piece ps)
  unfolding review_pieces
  Spends-review_pieces [] = Spends-pure (n * 0) []
  Spends-review_pieces (p ∷ ps) =
      Spends-le (n * length (p ∷ ps))
        (Spends-bind n (n * length ps) (one p) (λ o.
          Spends-le (n * length ps)
            (Spends-bind (n * length ps) 0 (Spends-review_pieces ps) (λ os. Spends-pure 0 (o ∷ os)))
            (omega arith)))
        (grind arith)

  Spends-note_split :
      (batch_num : ℕ) (os : List LensOutcome) → Spends 0 (note_split review_piece batch_num os)
  Spends-note_split batch_num os =
      Spends-if (ltb (length (errors_of os)) (length os)) (Spends-modify 0 (mark_split batch_num))
        (Spends-pure 0 tt)

  pub Spends-review_split :
      (batch_num : ℕ) (ps : List (List Patch)) (reason : Reason)
      → Spends (n * length ps) (review_split review_piece batch_num ps reason)
  unfolding review_split
  Spends-review_split batch_num ps reason =
      Spends-if (ltb (length ps) 2) (Spends-pure (n * length ps) (outcome [] (some reason))) (
        Spends-le (n * length ps)
          (Spends-bind (n * length ps) 0 (Spends-review_pieces ps) (λ os.
            Spends-then 0 (Spends-note_split batch_num os) (Spends-pure 0 (split_outcome ps os))))
          (omega arith))

  pub Spends-retry_pieces :
      (batch_num : ℕ) (flaky : List (List Patch)) (settled : List Text)
      → Spends (n * length flaky) (retry_pieces review_piece batch_num flaky settled)
  unfolding retry_pieces
  Spends-retry_pieces batch_num flaky settled =
      Spends-le (n * length flaky)
        (Spends-bind (n * length flaky) 0 (Spends-review_pieces flaky) (λ os.
          Spends-then 0 (Spends-note_split batch_num os) (
            Spends-pure 0 (
              outcome (findings_of os)
                (plain_last (last_of (settled ++ map text_of (errors_of os))))))))
        (omega arith)
