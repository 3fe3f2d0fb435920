-- ===== src/Recovery/Lens/Calls.antt =====
-- The calls of one lens on one batch, with everything that may follow them (`_review_lens` of
-- engine/engine.py and `_Ladder` of engine/recovery.py).
use lgtmaybe.Prelude.{
  ℕ, ◌+◌, ◌*◌, ◌≤◌, ◌≡◌, Bool, true, false, none, List, ◌∷◌, ◌++◌, arith, length, max, is_some,
}
use lgtmaybe.Compress.Batch.{Patch}
use lgtmaybe.Findings.Model.{ReviewFinding}
use lgtmaybe.Findings.Bound.{Lens}
use lgtmaybe.Recovery.Provider.{Request}
use lgtmaybe.Recovery.Run.{Event, checked, Session, Surroundings, Run, ceiling_reached}
use lgtmaybe.Recovery.Repair.{reformatted}
use lgtmaybe.Recovery.Split.{split_batch}
use lgtmaybe.Recovery.Spending.{sends, cleared}
use lgtmaybe.Recovery.Lens.{review_lens}
use lgtmaybe.Recovery.Lens.Spending.{Spends-review_lens}
use lgtmaybe.Recovery.Lens.Failing.{review_lens-IsFailed}
use lgtmaybe.Recovery.Lens.Kept.{own_findings, first_request, review_lens-BeginsWith}

-- the most pieces that the batch can be split into, with and without cutting inside a hunk
abbrev pub most_pieces : Surroundings → List Patch → ℕ
most_pieces w batch =
    max (length (split_batch w.counter false batch)) (length (split_batch w.counter true batch))

pub fits_most :
    (w : Surroundings) (batch : List Patch) (slice : Bool)
    → length (split_batch w.counter slice batch) ≤ most_pieces w batch
fits_most w batch true = omega arith
fits_most w batch false = omega arith

module _ (w : Surroundings) (run : Run) (batch : List Patch) (batch_num : ℕ) (lens : Lens)
    (s : Session) where
  -- From a log in which every request was cleared, one lens call on a batch sends at most 9 requests, or
  -- 2 and 8 more for each piece of a split where these are more: the call, the reformats, the steps down,
  -- the call without the schema, the pieces with theirs, the deferral's re-run and the fallback model.
  pub review_lens-sends :
      cleared s.log ≡ true
      → sends (review_lens w run batch batch_num lens s).1.log
        ≤ sends s.log + max 9 (2 + 8 * most_pieces w batch)
  review_lens-sends c =
      ((Spends-review_lens w run batch batch_num lens (most_pieces w batch)
          (fits_most w batch)).apply
        s c).0

  -- Where no reply of the provider can be read as findings, a lens call ends with an error, whatever
  -- steps of the recovery it takes.
  pub review_lens-error :
      ((log : List Event) (request : Request) → reformatted w (w.complete log request) ≡ none)
      → is_some (review_lens w run batch batch_num lens s).0.error ≡ true
  review_lens-error unread = (review_lens-IsFailed w run unread batch batch_num lens).apply s

  -- Where no ceiling is reached, the findings of a lens call begin with those of its first reply, stamped
  -- and bounded: all of a reply that parsed, and what a cut one completed, whatever follows it.
  pub review_lens-keeps :
      ceiling_reached w run s ≡ none
      → (rest : List ReviewFinding) × ((review_lens w run batch batch_num lens s).0.findings
          ≡ own_findings w run lens
              (w.complete (checked true ∷ s.log) (first_request w run batch batch_num lens))
            ++ rest)
  review_lens-keeps e = review_lens-BeginsWith w run batch batch_num lens s e
