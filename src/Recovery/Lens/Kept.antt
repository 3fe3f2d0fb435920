-- ===== src/Recovery/Lens/Kept.antt =====
-- What the first reply of a lens call says is kept (`_complete_lens`, `_review_lens` and
-- `_review_with_context` of engine/engine.py).
use lgtmaybe.Prelude.{
  ℕ, ◌≡◌, refl, true, Option, none, some, List, [], ◌∷◌, append-nil, sym, if◌then◌else◌, Bool-cases,
  inl, inr, subst,
}
use lgtmaybe.Text.{Text}
use lgtmaybe.Compress.Batch.{Patch}
use lgtmaybe.Findings.Model.{ReviewFinding}
use lgtmaybe.Findings.Bound.{Lens}
use lgtmaybe.Recovery.Provider.{
  Request, ProviderResult, Reply, failed, answered, Parsed, parsed, parse_error, is_truncated,
}
use lgtmaybe.Recovery.Run.{
  checked, Session, Surroundings, Run, Action, pure, ◌>>=◌, ceiling_reached, contribute,
  metered_complete,
}
use lgtmaybe.Recovery.Reasons.{plain, LensOutcome}
use lgtmaybe.Recovery.Split.{paths_of}
use lgtmaybe.Recovery.Call.{Call, Marks, unmarked, Reissue, OnOversized, outcome, after}
use lgtmaybe.Recovery.Ladder.{salvage_truncated, unparseable}
use lgtmaybe.Recovery.Ladder.Kept.{BeginsWith, bounded, call_failed-BeginsWith, cut_off-BeginsWith}
use lgtmaybe.Recovery.Ending.{
  Yields, Yields-pure, Yields-bind, Yields-then, Yields-unless_skipped, unless_skipped-go,
}
use lgtmaybe.Recovery.Lens.{
  OnNeeds, lens_request, note_answering_model, defer_or, accept, read_reply, handle, complete_lens,
  patch_call, review_with_context, on_oversized, on_needs, review_lens,
}

module _ (w : Surroundings) (run : Run) (lens : Lens) where
  -- the findings of a reply that was read, in whole or up to where it was cut
  abbrev pub findings_in : Parsed → List ReviewFinding
  findings_in (parsed fs) = bounded w run lens fs
  findings_in (parse_error shape recovered) =
      if is_truncated shape then bounded w run lens recovered else []

  -- what a reply itself has found
  abbrev pub own_findings : Reply → List ReviewFinding
  own_findings (failed exc) = bounded w run lens (salvage_truncated w exc)
  own_findings (answered result) = findings_in (w.parse_findings result.text)

module _ (w : Surroundings) (run : Run) (reissue : Reissue) (call : Call)
    (split : Option OnOversized) (needs : Option OnNeeds) (marks : Marks)
    (defers : (f : OnNeeds) (ns : List Text) (kept : List ReviewFinding)
      → needs ≡ some f
      → Yields (BeginsWith kept) (f ns kept)) where
  accept-BeginsWith :
      (text : Text) (fs : List ReviewFinding)
      → Yields (BeginsWith (bounded w run call.lens fs)) (accept w run call needs text fs)
  unfolding contribute
  accept-BeginsWith text fs =
      Yields-bind (λ gs. gs ≡ bounded w run call.lens fs) (record { apply = λ s. refl })
        (λ gs e.
          subst (λ hs. Yields (BeginsWith hs) (defer_or needs (w.parse_needs text) gs)) e
            (by_needs needs (w.parse_needs text) gs defers))
    where
      by_needs :
          (o : Option OnNeeds) (ns : List Text) (kept : List ReviewFinding)
          → ((f : OnNeeds) (ns : List Text) (kept : List ReviewFinding)
              → o ≡ some f
              → Yields (BeginsWith kept) (f ns kept))
          → Yields (BeginsWith kept) (defer_or o ns kept)
      by_needs none ns kept h = Yields-pure (outcome kept none) ([], sym (append-nil kept))
      by_needs (some f) [] kept h = Yields-pure (outcome kept none) ([], sym (append-nil kept))
      by_needs (some f) (n ∷ ns) kept h = h f (n ∷ ns) kept refl

  read_reply-BeginsWith :
      (result : ProviderResult) (p : Parsed)
      → Yields
          (BeginsWith (findings_in w run call.lens p))
          (read_reply w run reissue call split needs marks result p)
  read_reply-BeginsWith result (parsed fs) = accept-BeginsWith result.text fs
  read_reply-BeginsWith result (parse_error shape recovered) =
      elim (Bool-cases (is_truncated shape)) [
        | inl e ↦ rw e (cut_off-BeginsWith w run reissue call marks split result recovered)
        | inr e ↦ rw e (record {
          apply =
              λ s. ((unparseable w run reissue call marks result.text shape s).0.findings, refl);
        })
      ]

  handle-BeginsWith :
      (r : Reply)
      → Yields
          (BeginsWith (own_findings w run call.lens r))
          (handle w run reissue call split needs marks r)
  handle-BeginsWith (failed exc) = call_failed-BeginsWith w run reissue call marks split exc
  handle-BeginsWith (answered result) =
      Yields-then (note_answering_model w result call.lens)
        (read_reply-BeginsWith result (w.parse_findings result.text))

module _ (w : Surroundings) (run : Run) (batch : List Patch) (batch_num : ℕ) (lens : Lens) where
  review_with_context-BeginsWith :
      (budget : ℕ) (needs : List Text) (findings : List ReviewFinding)
      → Yields
          (BeginsWith findings)
          (review_with_context w run batch batch_num lens budget needs findings)
  unfolding review_with_context
  review_with_context-BeginsWith budget needs findings =
      Yields-unless_skipped w run
        (λ t. Yields-pure (outcome findings (some (plain t))) ([], sym (append-nil findings)))
        (record { apply = λ s. by_context (w.fetch_context s.log needs (paths_of batch) budget) s })
    where
      again : Text → Action LensOutcome
      again context =
          complete_lens w run 4 (patch_call w run batch batch_num lens (some context)) none none
            unmarked
          >>= λ o. pure (after findings o)

      by_context :
          (o : Option Text) (s : Session)
          → BeginsWith findings
              (elim o as (λ _. LensOutcome × Session) [
                | none ↦ pure (outcome findings none) s
                | some context ↦ again context s
              ]).0
      by_context none s = ([], sym (append-nil findings))
      by_context (some context) s = (
        (complete_lens w run 4 (patch_call w run batch batch_num lens (some context)) none none
            unmarked s).0.findings,
        refl,
      )

  on_needs-BeginsWith :
      (o : Option ℕ) (f : OnNeeds) (ns : List Text) (kept : List ReviewFinding)
      → elim o as (λ _. Option OnNeeds) [
        | none ↦ none
        | some budget ↦ some (review_with_context w run batch batch_num lens budget)
      ]
        ≡ some f
      → Yields (BeginsWith kept) (f ns kept)
  on_needs-BeginsWith none f ns kept e = absurd (cc e)
  on_needs-BeginsWith (some budget) f ns kept e =
      let e' : review_with_context w run batch batch_num lens budget ≡ f = cc in
      rw (← e') (review_with_context-BeginsWith budget ns kept)

  abbrev pub first_request : Request
  first_request = lens_request run (patch_call w run batch batch_num lens none) unmarked

  pub review_lens-BeginsWith :
      (s : Session)
      → ceiling_reached w run s ≡ none
      → BeginsWith
          (own_findings w run lens (w.complete (checked true ∷ s.log) first_request))
          (review_lens w run batch batch_num lens s).0
  unfolding review_lens complete_lens metered_complete
  review_lens-BeginsWith s e =
      subst (λ (r : LensOutcome × Session). BeginsWith (own_findings w run lens reply) r.0)
        (sym (unless_skipped-go w run _ _ s e))
        ((handle-BeginsWith w run (λ c m. complete_lens w run 3 c none none m) call
            (some (on_oversized w run batch batch_num lens)) (on_needs w run batch batch_num lens)
            unmarked (on_needs-BeginsWith run.retrieval_budget) reply).apply
          (metered_complete w first_request (record s { log = checked true ∷ s.log })).1)
    where
      call : Call
      call = patch_call w run batch batch_num lens none

      reply : Reply
      reply = w.complete (checked true ∷ s.log) first_request
