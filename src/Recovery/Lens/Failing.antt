-- ===== src/Recovery/Lens/Failing.antt =====
-- A call of a lens where no reply of the provider can be read (`_complete_lens` and `_review_lens` of
-- engine/engine.py).
use lgtmaybe.Prelude.{ℕ, zero, suc, ◌≡◌, refl, Bool, Option, none, some, List, []}
use lgtmaybe.Text.{codes}
use lgtmaybe.Compress.Batch.{Patch}
use lgtmaybe.Findings.Model.{ReviewFinding}
use lgtmaybe.Findings.Bound.{Lens}
use lgtmaybe.Recovery.Provider.{
  Request, ProviderResult, Reply, failed, answered, Parsed, parsed, parse_error, is_truncated,
}
use lgtmaybe.Recovery.Run.{Event, Surroundings, Run, note, ran_out}
use lgtmaybe.Recovery.Reasons.{Reason, plain}
use lgtmaybe.Recovery.Repair.{reformatted}
use lgtmaybe.Recovery.Split.{split_batch}
use lgtmaybe.Recovery.Call.{Call, Marks, unmarked, Reissue, OnOversized, outcome}
use lgtmaybe.Recovery.Pieces.Failing.{review_split-IsFailed}
use lgtmaybe.Recovery.Ladder.Failing.{
  IsFailed, call_failed-IsFailed, cut_off-IsFailed, unparseable-IsFailed,
}
use lgtmaybe.Recovery.Ending.{
  Yields, Yields-pure, Yields-bind, Yields-then, Yields-if, Yields-unless_skipped,
  Yields-metered_complete,
}
use lgtmaybe.Recovery.Lens.{
  OnNeeds, lens_request, note_answering_model, read_reply, handle, call_lens, complete_lens,
  start_lens, patch_call, review_piece, on_oversized, on_needs, review_lens,
}

module _ (w : Surroundings) (run : Run)
    (unread : (log : List Event) (request : Request)
      → reformatted w (w.complete log request) ≡ none) where
  call_lens-IsFailed :
      (reissue : Reissue)
      → ((call : Call) (marks : Marks) → Yields IsFailed (reissue call marks))
      → (call : Call) (split : Option OnOversized) (needs : Option OnNeeds) (marks : Marks)
      → ((slice : Bool) (f : OnOversized) (x : Reason)
          → split ≡ some f
          → Yields IsFailed (f x slice))
      → Yields IsFailed (call_lens w run reissue call split needs marks)
  unfolding call_lens
  call_lens-IsFailed reissue again call split needs marks h =
      Yields-bind (λ r. reformatted w r ≡ none)
        (Yields-metered_complete w (λ r. reformatted w r ≡ none) (lens_request run call marks)
          (λ log. unread log (lens_request run call marks)))
        by_reply
    where
      by_parsed :
          (result : ProviderResult) (p : Parsed)
          → elim p as (λ _. Option (List ReviewFinding)) [
            | parsed findings ↦ some findings
            | parse_error shape recovered ↦ none
          ]
            ≡ none
          → Yields IsFailed (read_reply w run reissue call split needs marks result p)
      by_parsed result (parsed fs) e = absurd (cc e)
      by_parsed result (parse_error shape recovered) e =
          Yields-if (is_truncated shape)
            (cut_off-IsFailed w run reissue again call marks split result recovered h)
            (unparseable-IsFailed w run reissue again call unread marks result.text shape)

      by_reply :
          (r : Reply)
          → reformatted w r ≡ none
          → Yields IsFailed (handle w run reissue call split needs marks r)
      by_reply (failed exc) e = call_failed-IsFailed w run reissue again call marks split exc h
      by_reply (answered result) e =
          Yields-then (note_answering_model w result call.lens)
            (by_parsed result (w.parse_findings result.text) e)

  complete_lens-IsFailed :
      (fuel : ℕ) (call : Call) (split : Option OnOversized) (needs : Option OnNeeds) (marks : Marks)
      → ((slice : Bool) (f : OnOversized) (x : Reason)
          → split ≡ some f
          → Yields IsFailed (f x slice))
      → Yields IsFailed (complete_lens w run fuel call split needs marks)
  unfolding complete_lens
  complete_lens-IsFailed zero call split needs marks h =
      Yields-then (note ran_out) (Yields-pure (outcome [] (some (plain (codes "no fuel")))) refl)
  complete_lens-IsFailed (suc fuel) call split needs marks h =
      call_lens-IsFailed (λ c m. complete_lens w run fuel c none none m)
        (λ c m. complete_lens-IsFailed fuel c none none m (λ slice f x e. absurd (cc e))) call split
        needs marks h

  start_lens-IsFailed :
      (call : Call) (split : Option OnOversized) (needs : Option OnNeeds)
      → ((slice : Bool) (f : OnOversized) (x : Reason)
          → split ≡ some f
          → Yields IsFailed (f x slice))
      → Yields IsFailed (start_lens w run call split needs)
  unfolding start_lens
  start_lens-IsFailed call split needs h =
      Yields-unless_skipped w run (λ t. Yields-pure (outcome [] (some (plain t))) refl)
        (complete_lens-IsFailed 4 call split needs unmarked h)

  review_piece-IsFailed :
      (batch_num : ℕ) (lens : Lens) (piece : List Patch)
      → Yields IsFailed (review_piece w run batch_num lens piece)
  unfolding review_piece
  review_piece-IsFailed batch_num lens piece =
      start_lens-IsFailed (patch_call w run piece batch_num lens none) none none
        (λ slice f x e. absurd (cc e))

  pub review_lens-IsFailed :
      (batch : List Patch) (batch_num : ℕ) (lens : Lens)
      → Yields IsFailed (review_lens w run batch batch_num lens)
  unfolding review_lens
  review_lens-IsFailed batch batch_num lens =
      start_lens-IsFailed (patch_call w run batch batch_num lens none)
        (some (on_oversized w run batch batch_num lens)) (on_needs w run batch batch_num lens)
        splits
    where
      splits :
          (slice : Bool) (f : OnOversized) (x : Reason)
          → some (on_oversized w run batch batch_num lens) ≡ some f
          → Yields IsFailed (f x slice)
      splits slice f x e =
          let e' : on_oversized w run batch batch_num lens ≡ f = cc in
          rw (← e') (
            review_split-IsFailed (review_piece w run batch_num lens)
              (review_piece-IsFailed batch_num lens) batch_num (split_batch w.counter slice batch)
              x)
