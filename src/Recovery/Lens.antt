-- ===== src/Recovery/Lens.antt =====
-- `_complete_lens`, `_review_lens` and `_review_with_context` of engine/engine.py, with the ladder tied
-- to them.
pub mod Spending
pub mod Errors
pub mod Failing
pub mod Kept
pub mod Calls
use lgtmaybe.Prelude.{
  ℕ, zero, suc, Bool, true, false, not, Option, none, some, List, [], ◌∷◌, ◌++◌, if◌then◌else◌,
}
use lgtmaybe.Text.{Text, codes, text_eq}
use lgtmaybe.Compress.Batch.{Patch}
use lgtmaybe.Findings.Model.{ReviewFinding}
use lgtmaybe.Findings.Bound.{Lens}
use lgtmaybe.Recovery.Provider.{
  Blocks, LensPrompt, lens_messages, Request, ProviderResult, Reply, failed, answered, Parsed,
  parsed, parse_error, is_truncated,
}
use lgtmaybe.Recovery.Run.{
  Surroundings, SupportsRecovery, Run, Action, pure, ◌>>=◌, ◌>>◌, modify, note, ran_out,
  unless_skipped, contribute, metered_complete,
}
use lgtmaybe.Recovery.Reasons.{Reason, plain, LensOutcome, is_empty_text}
use lgtmaybe.Recovery.Split.{split_batch, files_not_visible, paths_of}
use lgtmaybe.Recovery.Call.{
  Call, Marks, unmarked, Reissue, OnOversized, outcome, after, ask, nonempty, mark_escalated,
}
use lgtmaybe.Recovery.Pieces.{shown, review_split, retry_pieces}
use lgtmaybe.Recovery.Ladder.{call_failed, unparseable, cut_off}

-- `on_needs`
abbrev pub OnNeeds : Type 0
OnNeeds = List Text → List ReviewFinding → Action LensOutcome

-- the request of a call, with `opts`
abbrev pub lens_request : Run → Call → Marks → Request
lens_request run call marks = record {
  messages = call.messages;
  model = run.model;
  response_format = call.response_format;
  effort = marks.effort;
  model_override = marks.escalate_to;
  defer_truncation = true;
}

-- `if answered and asked and answered != asked`
abbrev pub note_model : Lens → Option Text → Option Text → Action (Unit {0})
note_model lens none asked = pure tt
note_model lens (some model) none = pure tt
note_model lens (some model) (some asked) =
    if text_eq model asked then pure tt else modify (mark_escalated lens.id model)

unfoldable pub note_answering_model : Surroundings → ProviderResult → Lens → Action (Unit {0})
note_answering_model w result lens =
    note_model lens (nonempty result.model) (nonempty (ask w.recovery (λ r. r.model)))

-- what a deferral does with the code that was asked for
abbrev pub defer_or : Option OnNeeds → List Text → List ReviewFinding → Action LensOutcome
defer_or none needs findings = pure (outcome findings none)
defer_or (some go) [] findings = pure (outcome findings none)
defer_or (some go) (n ∷ needs) findings = go (n ∷ needs) findings

module _ (w : Surroundings) (run : Run) where
  -- a reply that parsed
  abbrev pub accept : Call → Option OnNeeds → Text → List ReviewFinding → Action LensOutcome
  accept call on_needs text findings = do
    kept ← contribute w run call.lens findings
    defer_or on_needs (w.parse_needs text) kept

  module _ (reissue : Reissue) (call : Call) (on_oversized : Option OnOversized)
      (on_needs : Option OnNeeds) (marks : Marks) where
    abbrev pub read_reply : ProviderResult → Parsed → Action LensOutcome
    read_reply result (parsed findings) = accept call on_needs result.text findings
    read_reply result (parse_error shape recovered) =
        if is_truncated shape
        then cut_off w run reissue call marks on_oversized result recovered
        else unparseable w run reissue call marks result.text shape

    abbrev pub handle : Reply → Action LensOutcome
    handle (failed exc) = call_failed w run reissue call marks on_oversized exc
    handle (answered result) = do
      note_answering_model w result call.lens
      read_reply result (w.parse_findings result.text)

    unfoldable pub call_lens : Action LensOutcome
    call_lens = do reply ← metered_complete w (lens_request run call marks); handle reply

  -- `_complete_lens`; its calls of itself, through the ladder, take fuel
  unfoldable pub complete_lens :
      ℕ → Call → Option OnOversized → Option OnNeeds → Marks → Action LensOutcome
  unfolding call_lens
  complete_lens zero call on_oversized on_needs marks = do
    note ran_out
    pure (outcome [] (some (plain (codes "no fuel"))))
  complete_lens (suc fuel) call on_oversized on_needs marks =
      call_lens (λ c m. complete_lens fuel c none none m) call on_oversized on_needs marks

  -- the longest chain of calls: the first, a step down, one without the schema, and its step down
  abbrev pub fuel : ℕ
  fuel = 4

  -- the prompt that is common to the calls of one batch and lens
  abbrev pub lens_call : Text → Blocks → Option Text → Option Text → ℕ → Lens → Call
  lens_call wrapped blocks hidden context batch_num lens = record {
    messages = lens_messages (record {
      wrapped = wrapped;
      blocks = blocks;
      hidden = hidden;
      context = context;
      lens = lens;
    });
    response_format = run.response_format;
    batch_num = batch_num;
    lens = lens;
  }

  -- `_review_lens`, from its callbacks on
  unfoldable pub start_lens : Call → Option OnOversized → Option OnNeeds → Action LensOutcome
  unfolding complete_lens
  start_lens call on_oversized on_needs =
      unless_skipped w run (λ t. pure (outcome [] (some (plain t))))
        (complete_lens fuel call on_oversized on_needs unmarked)

  abbrev pub patch_call : List Patch → ℕ → Lens → Option Text → Call
  patch_call batch batch_num lens context =
      lens_call (w.wrap_diff (shown batch)) (w.blocks_for (paths_of batch))
        (w.wrap_not_shown (files_not_visible run.changed_files (paths_of batch))) context batch_num
        lens

  -- `_review_lens` with no batch: a piece of a split
  unfoldable pub review_piece : ℕ → Lens → List Patch → Action LensOutcome
  unfolding start_lens
  review_piece batch_num lens piece = start_lens (patch_call piece batch_num lens none) none none

  -- the re-run of a lens with the code that was fetched
  unfoldable pub review_with_context :
      List Patch → ℕ → Lens → ℕ → List Text → List ReviewFinding → Action LensOutcome
  unfolding complete_lens
  review_with_context batch batch_num lens budget needs findings =
      unless_skipped w run (λ t. pure (outcome findings (some (plain t))))
        (λ s. elim (w.fetch_context s.log needs (paths_of batch) budget) [
          | none ↦ pure (outcome findings none) s
          | some context ↦
              (do
                o ←
                    complete_lens fuel (patch_call batch batch_num lens (some context)) none none
                      unmarked
                pure (after findings o))
                s
        ])

  abbrev pub on_oversized : List Patch → ℕ → Lens → OnOversized
  on_oversized batch batch_num lens reason slice_hunks =
      review_split (review_piece batch_num lens) batch_num (split_batch w.counter slice_hunks batch)
        reason

  abbrev pub on_needs : List Patch → ℕ → Lens → Option OnNeeds
  on_needs batch batch_num lens = elim run.retrieval_budget [
    | none ↦ none
    | some budget ↦ some (review_with_context batch batch_num lens budget)
  ]

  -- `_review_lens` of a batch
  unfoldable pub review_lens : List Patch → ℕ → Lens → Action LensOutcome
  unfolding start_lens
  review_lens batch batch_num lens =
      start_lens (patch_call batch batch_num lens none) (some (on_oversized batch batch_num lens))
        (on_needs batch batch_num lens)
