-- ===== src/Recovery/Lens/Spending.antt =====
-- What a call of a lens spends, with the ladder behind it (`_complete_lens` and `_review_lens` of
-- engine/engine.py).
use lgtmaybe.Prelude.{
  ℕ, suc, ◌+◌, ◌*◌, ◌≤◌, ◌≡◌, refl, Bool, true, false, Option, none, some, List, [], ◌∷◌, arith,
  length, max, Bool-cases, inl, inr,
}
use lgtmaybe.Text.{Text, text_eq}
use lgtmaybe.Compress.Batch.{Patch}
use lgtmaybe.Findings.Model.{ReviewFinding}
use lgtmaybe.Findings.Bound.{Lens}
use lgtmaybe.Recovery.Provider.{
  Effort, ProviderResult, ParseFailure, Reply, failed, answered, Parsed, parsed, parse_error,
  is_truncated,
}
use lgtmaybe.Recovery.Run.{Session, Surroundings, Run, Action, pure, ◌>>=◌}
use lgtmaybe.Recovery.Reasons.{Reason, plain, LensOutcome}
use lgtmaybe.Recovery.Split.{split_batch, paths_of}
use lgtmaybe.Recovery.Call.{
  Call, Marks, unmarked, Reissue, OnOversized, outcome, after, ask, nonempty, mark_escalated,
  is_reasoning_bound,
}
use lgtmaybe.Recovery.Pieces.Spending.{Spends-review_split}
use lgtmaybe.Recovery.Ladder.{unparseable, remedy_oversized, retry_lower_effort}
use lgtmaybe.Recovery.Ladder.Unparseable.{unparseable-Yields}
use lgtmaybe.Recovery.Ladder.Spending.{
  is_marked, Spends-escalate_model, Spends-retry_lower_effort, Spends-unparseable,
  Spends-unparseable_recovery, Spends-remedy_marked, Spends-remedy_piece, Spends-remedy_batch,
  Spends-call_failed, Spends-cut_off,
}
use lgtmaybe.Recovery.Spending.{
  allowed, cleared, Adds, Spends, Goes, Spends-le, Goes-le, Spends-pure, Spends-modify, Spends-bind,
  Goes-bind, Spends-then, Spends-if, Spends-unless_skipped, Goes-metered_complete,
  Spends-contribute, Quits, GoesOnce, GoesOnce-Goes, Quits-quiet, Quits-never, Quits-then,
  GoesOnce-bind,
}
use lgtmaybe.Recovery.Lens.{
  OnNeeds, lens_request, note_model, note_answering_model, defer_or, accept, read_reply, handle,
  call_lens, complete_lens, start_lens, patch_call, review_piece, review_with_context, on_oversized,
  on_needs, review_lens,
}

Spends-note_answering_model :
    (w : Surroundings) (result : ProviderResult) (lens : Lens)
    → Spends 0 (note_answering_model w result lens)
unfolding note_answering_model
Spends-note_answering_model w result lens =
    by_model (nonempty result.model) (nonempty (ask w.recovery (λ r. r.model)))
  where
    by_model : (model asked : Option Text) → Spends 0 (note_model lens model asked)
    by_model none asked = Spends-pure 0 tt
    by_model (some model) none = Spends-pure 0 tt
    by_model (some model) (some asked) =
        Spends-if (text_eq model asked) (Spends-pure 0 tt)
          (Spends-modify 0 (mark_escalated lens.id model))

module _ (w : Surroundings) (run : Run) where
  Spends-accept :
      (n : ℕ) (call : Call) (needs : Option OnNeeds) (text : Text) (fs : List ReviewFinding)
      → ((go : OnNeeds) (ns : List Text) (kept : List ReviewFinding)
          → needs ≡ some go
          → Spends n (go ns kept))
      → Spends n (accept w run call needs text fs)
  Spends-accept n call needs text fs go =
      Spends-le n
        (Spends-bind 0 n (Spends-contribute w run call.lens fs)
          (λ kept. by_needs needs (w.parse_needs text) kept go))
        (omega arith)
    where
      by_needs :
          (o : Option OnNeeds) (ns : List Text) (kept : List ReviewFinding)
          → ((go : OnNeeds) (ns : List Text) (kept : List ReviewFinding)
              → o ≡ some go
              → Spends n (go ns kept))
          → Spends n (defer_or o ns kept)
      by_needs none ns kept h = Spends-pure n (outcome kept none)
      by_needs (some go) [] kept h = Spends-pure n (outcome kept none)
      by_needs (some go) (m ∷ ns) kept h = h go (m ∷ ns) kept refl

  module _ (reissue : Reissue) (call : Call) (split : Option OnOversized) (needs : Option OnNeeds)
      (marks : Marks) (n : ℕ)
      (rem : (slice : Bool) (completed : List ReviewFinding) (reason : Reason)
          (exhausted : Option Reason)
        → Spends n
            (remedy_oversized w run reissue call marks split slice completed reason exhausted))
      (go : (f : OnNeeds) (ns : List Text) (kept : List ReviewFinding)
        → needs ≡ some f
        → Spends n (f ns kept)) where
    -- a call whose remedies, recoveries and deferral spend at most `n`
    Goes-call_lens :
        ((text : Text) (shape : ParseFailure)
          → Spends n (unparseable w run reissue call marks text shape))
        → Goes (suc n) (call_lens w run reissue call split needs marks)
    unfolding call_lens
    Goes-call_lens unp =
        Goes-le (suc n)
          (Goes-bind 1 n (Goes-metered_complete w (lens_request run call marks)) by_reply)
          (omega arith)
      where
        by_parsed :
            (result : ProviderResult) (p : Parsed)
            → Spends n (read_reply w run reissue call split needs marks result p)
        by_parsed result (parsed fs) = Spends-accept n call needs result.text fs go
        by_parsed result (parse_error shape recovered) =
            Spends-if (is_truncated shape)
              (Spends-cut_off w run reissue call n marks split result recovered rem)
              (unp result.text shape)

        by_reply : (r : Reply) → Spends n (handle w run reissue call split needs marks r)
        by_reply (failed exc) = Spends-call_failed w run reissue call n marks split exc rem
        by_reply (answered result) =
            Spends-then n (Spends-note_answering_model w result call.lens)
              (by_parsed result (w.parse_findings result.text))

  no_needs :
      (f : OnNeeds) (ns : List Text) (kept : List ReviewFinding)
      → ◌≡◌ {A = Option OnNeeds} none (some f)
      → Spends 0 (f ns kept)
  no_needs f ns kept e = absurd (cc e)

  -- a call that takes no remedy: only its unparseable reply can cost more
  GoesOnce-call_lens :
      (reissue : Reissue) (call : Call) (marks : Marks) (n : ℕ)
      → is_marked marks ≡ true
      → ((text : Text) (shape : ParseFailure)
          → Spends n (unparseable w run reissue call marks text shape))
      → GoesOnce is_reasoning_bound (suc n) (call_lens w run reissue call none none marks)
  unfolding call_lens
  GoesOnce-call_lens reissue call marks n e unp =
      GoesOnce-bind n (Goes-metered_complete w (lens_request run call marks)) by_reply
    where
      rem :
          (slice : Bool) (completed : List ReviewFinding) (reason : Reason)
          (exhausted : Option Reason)
          → Spends 0
              (remedy_oversized w run reissue call marks none slice completed reason exhausted)
      rem slice completed reason exhausted =
          Spends-remedy_marked w run reissue call marks slice completed reason exhausted e

      other_reason :
          (text : Text) (shape : ParseFailure) (s : Session)
          → is_reasoning_bound (unparseable w run reissue call marks text shape s).0.error ≡ false
      other_reason text shape s = (unparseable-Yields w run reissue call marks text shape).apply s

      by_parsed :
          (result : ProviderResult) (p : Parsed)
          → Quits is_reasoning_bound n (read_reply w run reissue call none none marks result p)
      by_parsed result (parsed fs) =
          Quits-quiet n (Spends-accept 0 call none result.text fs no_needs)
      by_parsed result (parse_error shape recovered) = elim (Bool-cases (is_truncated shape)) [
        | inl t ↦
            rw t
              (Quits-quiet n (Spends-cut_off w run reissue call 0 marks none result recovered rem))
        | inr t ↦ rw t (Quits-never n (unp result.text shape) (other_reason result.text shape))
      ]

      by_reply :
          (r : Reply) → Quits is_reasoning_bound n (handle w run reissue call none none marks r)
      by_reply (failed exc) =
          Quits-quiet n (Spends-call_failed w run reissue call 0 marks none exc rem)
      by_reply (answered result) =
          Quits-then n (Spends-note_answering_model w result call.lens)
            (by_parsed result (w.parse_findings result.text))

  abbrev plain_call : ℕ → Call → Marks → Action LensOutcome
  plain_call fuel call marks = complete_lens w run fuel call none none marks

  -- the call on the fallback model
  Goes-last :
      (f : ℕ) (call : Call) (target : Text)
      → Goes 1 (
          plain_call
            (suc f)
            call
            (record { effort = none; recover = false; escalate_to = some target }))
  unfolding complete_lens
  Goes-last f call target = GoesOnce-Goes (
      GoesOnce-call_lens (plain_call f) call
        (record { effort = none; recover = false; escalate_to = some target }) 0 refl
        (λ text shape.
          Spends-unparseable_recovery w run (plain_call f) call 0
            (record { effort = none; recover = false; escalate_to = some target }) text shape refl))

  both_values : {b : Bool} → b ≡ false → b ≡ true → ⊥
  both_values e t = cc

  -- a step down that sent no schema: the call and a reformat
  GoesOnce-bare_step :
      (f : ℕ) (call : Call) (effort : Effort)
      → call.response_format ≡ false
      → GoesOnce is_reasoning_bound 2
          (plain_call (suc f) call (record unmarked { effort = some effort }))
  unfolding complete_lens
  GoesOnce-bare_step f call effort e =
      GoesOnce-call_lens (plain_call f) call (record unmarked { effort = some effort }) 1 refl
        (λ text shape.
          Spends-unparseable w run (plain_call f) call 0 (record unmarked { effort = some effort })
            text shape (λ t. absurd (both_values e t)))

  -- the call without the schema, and its two steps down
  Goes-without_schema :
      (f : ℕ) (call : Call)
      → call.response_format ≡ false
      → Goes 4 (plain_call (suc (suc f)) call (record unmarked { recover = false }))
  unfolding complete_lens
  Goes-without_schema f call e =
      Goes-call_lens (plain_call (suc f)) call none none (record unmarked { recover = false }) 3
        (λ slice completed reason exhausted.
          Spends-remedy_piece w run (plain_call (suc f)) call 3
            (record unmarked { recover = false }) slice completed reason exhausted
            (λ x.
              Spends-retry_lower_effort w run (plain_call (suc f)) call 2 x
                (λ effort. GoesOnce-bare_step f call effort e)))
        (λ g ns kept h. absurd (cc h))
        (λ text shape.
          Spends-unparseable_recovery w run (plain_call (suc f)) call 3
            (record unmarked { recover = false }) text shape refl)

  GoesOnce-step :
      (f : ℕ) (call : Call) (effort : Effort)
      → GoesOnce is_reasoning_bound 6
          (plain_call (suc (suc (suc f))) call (record unmarked { effort = some effort }))
  unfolding complete_lens
  GoesOnce-step f call effort =
      GoesOnce-call_lens (plain_call (suc (suc f))) call (record unmarked { effort = some effort })
        5 refl
        (λ text shape.
          Spends-unparseable w run (plain_call (suc (suc f))) call 4
            (record unmarked { effort = some effort }) text shape
            (λ t. Goes-without_schema f (record call { response_format = false }) refl))

  Spends-lower :
      (f : ℕ) (call : Call) (reason : Reason)
      → Spends 7 (retry_lower_effort w run (plain_call (suc (suc (suc f)))) call reason)
  Spends-lower f call reason =
      Spends-retry_lower_effort w run (plain_call (suc (suc (suc f)))) call 6 reason
        (λ effort. GoesOnce-step f call effort)

  Spends-reformat :
      (f : ℕ) (call : Call) (text : Text) (shape : ParseFailure)
      → Spends 5 (unparseable w run (plain_call (suc (suc (suc f)))) call unmarked text shape)
  Spends-reformat f call text shape =
      Spends-unparseable w run (plain_call (suc (suc (suc f)))) call 4 unmarked text shape
        (λ t. Goes-without_schema (suc f) (record call { response_format = false }) refl)

  -- a piece of a split, or the re-run of a lens with the code that it asked for
  Goes-unmarked :
      (f : ℕ) (call : Call) → Goes 8 (plain_call (suc (suc (suc (suc f)))) call unmarked)
  unfolding complete_lens
  Goes-unmarked f call =
      Goes-call_lens (plain_call (suc (suc (suc f)))) call none none unmarked 7
        (λ slice completed reason exhausted.
          Spends-remedy_piece w run (plain_call (suc (suc (suc f)))) call 7 unmarked slice completed
            reason exhausted (λ x. Spends-lower f call x))
        (λ g ns kept h. absurd (cc h))
        (λ text shape. Spends-le 7 (Spends-reformat f call text shape) (omega arith))

  Spends-start_lens :
      (n : ℕ) (call : Call) (split : Option OnOversized) (needs : Option OnNeeds)
      → Goes n (complete_lens w run 4 call split needs unmarked)
      → Spends n (start_lens w run call split needs)
  unfolding start_lens
  Spends-start_lens n call split needs go =
      Spends-unless_skipped n w run (λ t. Spends-pure n (outcome [] (some (plain t)))) go

  pub Spends-review_piece :
      (batch_num : ℕ) (lens : Lens) (piece : List Patch)
      → Spends 8 (review_piece w run batch_num lens piece)
  unfolding review_piece
  Spends-review_piece batch_num lens piece =
      Spends-start_lens 8 (patch_call w run piece batch_num lens none) none none
        (Goes-unmarked 0 (patch_call w run piece batch_num lens none))

  Spends-review_with_context :
      (batch : List Patch) (batch_num : ℕ) (lens : Lens) (budget : ℕ) (needs : List Text)
      (findings : List ReviewFinding)
      → Spends 8 (review_with_context w run batch batch_num lens budget needs findings)
  unfolding review_with_context
  Spends-review_with_context batch batch_num lens budget needs findings =
      Spends-unless_skipped 8 w run (λ t. Spends-pure 8 (outcome findings (some (plain t))))
        (record {
          apply = λ s c a. by_context (w.fetch_context s.log needs (paths_of batch) budget) s c a;
        })
    where
      again : Text → Action LensOutcome
      again context =
          complete_lens w run 4 (patch_call w run batch batch_num lens (some context)) none none
            unmarked
          >>= λ o. pure (after findings o)

      by_context :
          (o : Option Text) (s : Session)
          → cleared s.log ≡ true
          → allowed s.log ≡ true
          → Adds 8 s.log
              (elim o as (λ _. LensOutcome × Session) [
                | none ↦ pure (outcome findings none) s
                | some context ↦ again context s
              ]).1.log
      by_context none s c a = (omega arith, c)
      by_context (some context) s c a =
          (Goes-le 8
              (Goes-bind 8 0
                (Goes-unmarked 0 (patch_call w run batch batch_num lens (some context)))
                (λ o. Spends-pure 0 (after findings o)))
              (omega arith)).apply
            s c a

  pub Spends-review_lens :
      (batch : List Patch) (batch_num : ℕ) (lens : Lens) (k : ℕ)
      → ((slice : Bool) → length (split_batch w.counter slice batch) ≤ k)
      → Spends (max 9 (2 + 8 * k)) (review_lens w run batch batch_num lens)
  unfolding review_lens complete_lens
  Spends-review_lens batch batch_num lens k fits =
      Spends-start_lens (max 9 (2 + 8 * k)) call (some split) needs (
        Goes-le (max 9 (2 + 8 * k))
          (Goes-call_lens (plain_call 3) call (some split) needs unmarked (max 7 (8 * k) + 1) rem
            defers
            (λ text shape.
              Spends-le (max 7 (8 * k) + 1) (Spends-reformat 0 call text shape) (omega arith)))
          (omega arith))
    where
      call : Call
      call = patch_call w run batch batch_num lens none

      split : OnOversized
      split = on_oversized w run batch batch_num lens

      needs : Option OnNeeds
      needs = on_needs w run batch batch_num lens

      splits : (slice : Bool) (x : Reason) → Spends (max 7 (8 * k)) (split x slice)
      splits slice x =
          Spends-le (max 7 (8 * k))
            (Spends-review_split (review_piece w run batch_num lens) 8
              (Spends-review_piece batch_num lens) batch_num (split_batch w.counter slice batch) x)
            (omega (arith, fits slice))

      rem :
          (slice : Bool) (completed : List ReviewFinding) (reason : Reason)
          (exhausted : Option Reason)
          → Spends (max 7 (8 * k) + 1) (
              remedy_oversized w run
                (plain_call 3)
                call
                unmarked
                (some split)
                slice
                completed
                reason
                exhausted)
      rem slice completed reason exhausted =
          Spends-remedy_batch w run (plain_call 3) call (max 7 (8 * k)) 1 unmarked split slice
            completed reason exhausted
            (λ x. Spends-le (max 7 (8 * k)) (Spends-lower 0 call x) (omega arith)) (splits slice)
            (λ x. Spends-escalate_model w run (plain_call 3) call 1 x (Goes-last 2 call))

      by_budget :
          (o : Option ℕ) (f : OnNeeds) (ns : List Text) (kept : List ReviewFinding)
          → elim o as (λ _. Option OnNeeds) [
            | none ↦ none
            | some budget ↦ some (review_with_context w run batch batch_num lens budget)
          ]
            ≡ some f
          → Spends (max 7 (8 * k) + 1) (f ns kept)
      by_budget none f ns kept e = absurd (cc e)
      by_budget (some budget) f ns kept e =
          let e' : review_with_context w run batch batch_num lens budget ≡ f = cc in
          rw (← e') (
            Spends-le (max 7 (8 * k) + 1)
              (Spends-review_with_context batch batch_num lens budget ns kept) (omega arith))

      defers :
          (f : OnNeeds) (ns : List Text) (kept : List ReviewFinding)
          → needs ≡ some f
          → Spends (max 7 (8 * k) + 1) (f ns kept)
      defers f ns kept e = by_budget run.retrieval_budget f ns kept e
