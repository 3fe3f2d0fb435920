-- ===== src/Recovery/Lens/Errors.antt =====
-- The reason of a lens call names no more pieces than its batch was split into (`_complete_lens` and
-- `_review_lens` of engine/engine.py).
use lgtmaybe.Prelude.{
  ℕ, zero, suc, ◌≤◌, ◌≡◌, refl, Bool, false, Option, none, some, List, [], ◌∷◌, arith, length,
}
use lgtmaybe.Text.{Text, codes}
use lgtmaybe.Compress.Batch.{Patch}
use lgtmaybe.Findings.Model.{ReviewFinding}
use lgtmaybe.Findings.Bound.{Lens}
use lgtmaybe.Recovery.Provider.{
  ProviderResult, Reply, failed, answered, Parsed, parsed, parse_error, is_truncated,
}
use lgtmaybe.Recovery.Run.{
  Session, Surroundings, Run, Action, pure, ◌>>=◌, note, ran_out, metered_complete, contribute,
}
use lgtmaybe.Recovery.Reasons.{
  Reason, plain, retryable, payload, reasoning_bound, pieces, LensOutcome,
}
use lgtmaybe.Recovery.Split.{split_batch, paths_of}
use lgtmaybe.Recovery.Call.{Call, Marks, unmarked, Reissue, OnOversized, outcome, after}
use lgtmaybe.Recovery.Pieces.Errors.{Few, review_split-Few}
use lgtmaybe.Recovery.Ladder.Ending.{is_pieces}
use lgtmaybe.Recovery.Ladder.Errors.{Ends, call_failed-Ends, cut_off-Ends, unparseable-Ends}
use lgtmaybe.Recovery.Ending.{
  Yields, Yields-pure, Yields-last, Yields-then, Yields-if, Yields-unless_skipped,
}
use lgtmaybe.Recovery.Lens.{
  OnNeeds, lens_request, note_answering_model, defer_or, read_reply, handle, call_lens,
  complete_lens, start_lens, patch_call, review_piece, review_with_context, on_oversized, on_needs,
  review_lens,
}

module _ (E : Option Reason → Type 0) (simple : (e : Option Reason) → is_pieces e ≡ false → E e)
    (w : Surroundings) (run : Run) where
  call_lens-Ends :
      (reissue : Reissue)
      → ((call : Call) (marks : Marks) → Yields (Ends E) (reissue call marks))
      → (call : Call) (split : Option OnOversized) (needs : Option OnNeeds) (marks : Marks)
      → ((slice : Bool) (f : OnOversized) (x : Reason)
          → split ≡ some f
          → E (some x)
          → Yields (Ends E) (f x slice))
      → ((f : OnNeeds) (ns : List Text) (kept : List ReviewFinding)
          → needs ≡ some f
          → Yields (Ends E) (f ns kept))
      → Yields (Ends E) (call_lens w run reissue call split needs marks)
  unfolding call_lens
  call_lens-Ends reissue again call split needs marks h go =
      Yields-last (metered_complete w (lens_request run call marks)) by_reply
    where
      by_needs :
          (o : Option OnNeeds) (ns : List Text) (kept : List ReviewFinding)
          → ((f : OnNeeds) (ns : List Text) (kept : List ReviewFinding)
              → o ≡ some f
              → Yields (Ends E) (f ns kept))
          → Yields (Ends E) (defer_or o ns kept)
      by_needs none ns kept k = Yields-pure (outcome kept none) (simple none refl)
      by_needs (some f) [] kept k = Yields-pure (outcome kept none) (simple none refl)
      by_needs (some f) (n ∷ ns) kept k = k f (n ∷ ns) kept refl

      by_parsed :
          (result : ProviderResult) (p : Parsed)
          → Yields (Ends E) (read_reply w run reissue call split needs marks result p)
      by_parsed result (parsed fs) =
          Yields-last (contribute w run call.lens fs)
            (λ kept. by_needs needs (w.parse_needs result.text) kept go)
      by_parsed result (parse_error shape recovered) =
          Yields-if (is_truncated shape)
            (cut_off-Ends E simple w run reissue again call marks split result recovered h)
            (unparseable-Ends E simple w run reissue again call marks result.text shape)

      by_reply : (r : Reply) → Yields (Ends E) (handle w run reissue call split needs marks r)
      by_reply (failed exc) = call_failed-Ends E simple w run reissue again call marks split exc h
      by_reply (answered result) =
          Yields-then (note_answering_model w result call.lens)
            (by_parsed result (w.parse_findings result.text))

  complete_lens-Ends :
      (fuel : ℕ) (call : Call) (split : Option OnOversized) (needs : Option OnNeeds) (marks : Marks)
      → ((slice : Bool) (f : OnOversized) (x : Reason)
          → split ≡ some f
          → E (some x)
          → Yields (Ends E) (f x slice))
      → ((f : OnNeeds) (ns : List Text) (kept : List ReviewFinding)
          → needs ≡ some f
          → Yields (Ends E) (f ns kept))
      → Yields (Ends E) (complete_lens w run fuel call split needs marks)
  unfolding complete_lens
  complete_lens-Ends zero call split needs marks h go = Yields-then (note ran_out) (
      Yields-pure (outcome [] (some (plain (codes "no fuel"))))
        (simple (some (plain (codes "no fuel"))) refl))
  complete_lens-Ends (suc fuel) call split needs marks h go =
      call_lens-Ends (λ c m. complete_lens w run fuel c none none m)
        (λ c m.
          complete_lens-Ends fuel c none none m (λ slice f x e k. absurd (cc e))
            (λ f ns kept e. absurd (cc e)))
        call split needs marks h go

  review_with_context-Ends :
      (batch : List Patch) (batch_num : ℕ) (lens : Lens) (budget : ℕ) (needs : List Text)
      (findings : List ReviewFinding)
      → Yields (Ends E) (review_with_context w run batch batch_num lens budget needs findings)
  unfolding review_with_context
  review_with_context-Ends batch batch_num lens budget needs findings =
      Yields-unless_skipped w run
        (λ t. Yields-pure (outcome findings (some (plain t))) (simple (some (plain t)) refl))
        (record { apply = λ s. by_context (w.fetch_context s.log needs (paths_of batch) budget) s })
    where
      again : Text → Action LensOutcome
      again context =
          complete_lens w run 4 (patch_call w run batch batch_num lens (some context)) none none
            unmarked
          >>= λ o. pure (after findings o)

      by_context :
          (o : Option Text) (s : Session)
          → Ends E
              (elim o as (λ _. LensOutcome × Session) [
                | none ↦ pure (outcome findings none) s
                | some context ↦ again context s
              ]).0
      by_context none s = simple none refl
      by_context (some context) s =
          (complete_lens-Ends 4 (patch_call w run batch batch_num lens (some context)) none none
              unmarked (λ slice f x e k. absurd (cc e)) (λ f ns kept e. absurd (cc e))).apply
            s

  on_needs-Ends :
      (batch : List Patch) (batch_num : ℕ) (lens : Lens) (o : Option ℕ) (f : OnNeeds)
      (ns : List Text) (kept : List ReviewFinding)
      → elim o as (λ _. Option OnNeeds) [
        | none ↦ none
        | some budget ↦ some (review_with_context w run batch batch_num lens budget)
      ]
        ≡ some f
      → Yields (Ends E) (f ns kept)
  on_needs-Ends batch batch_num lens none f ns kept e = absurd (cc e)
  on_needs-Ends batch batch_num lens (some budget) f ns kept e =
      let e' : review_with_context w run batch batch_num lens budget ≡ f = cc in
      rw (← e') (review_with_context-Ends batch batch_num lens budget ns kept)

  review_lens-Ends :
      (batch : List Patch) (batch_num : ℕ) (lens : Lens)
      → ((slice : Bool) (x : Reason)
          → E (some x)
          → Yields (Ends E) (on_oversized w run batch batch_num lens x slice))
      → Yields (Ends E) (review_lens w run batch batch_num lens)
  unfolding review_lens start_lens
  review_lens-Ends batch batch_num lens h =
      Yields-unless_skipped w run
        (λ t. Yields-pure (outcome [] (some (plain t))) (simple (some (plain t)) refl))
        (complete_lens-Ends 4 (patch_call w run batch batch_num lens none)
          (some (on_oversized w run batch batch_num lens)) (on_needs w run batch batch_num lens)
          unmarked splits (on_needs-Ends batch batch_num lens run.retrieval_budget))
    where
      splits :
          (slice : Bool) (f : OnOversized) (x : Reason)
          → some (on_oversized w run batch batch_num lens) ≡ some f
          → E (some x)
          → Yields (Ends E) (f x slice)
      splits slice f x e k =
          let e' : on_oversized w run batch batch_num lens ≡ f = cc in rw (← e') (h slice x k)

Few-simple : (k : ℕ) (e : Option Reason) → is_pieces e ≡ false → Few k e
Few-simple k none h = omega arith
Few-simple k (some (plain t)) h = omega arith
Few-simple k (some (retryable t)) h = omega arith
Few-simple k (some (payload t)) h = omega arith
Few-simple k (some (reasoning_bound t)) h = omega arith
Few-simple k (some (pieces t flaky settled)) h = absurd (cc h)

pub review_lens-Few :
    (w : Surroundings) (run : Run) (batch : List Patch) (batch_num : ℕ) (lens : Lens) (k : ℕ)
    → ((slice : Bool) → length (split_batch w.counter slice batch) ≤ k)
    → Yields (Ends (Few k)) (review_lens w run batch batch_num lens)
review_lens-Few w run batch batch_num lens k fits =
    review_lens-Ends (Few k) (Few-simple k) w run batch batch_num lens (λ slice x few.
      review_split-Few (review_piece w run batch_num lens) batch_num
        (split_batch w.counter slice batch) x k (fits slice) few)
