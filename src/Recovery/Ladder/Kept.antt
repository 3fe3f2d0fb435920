-- ===== src/Recovery/Ladder/Kept.antt =====
-- What the steps of `_Ladder` of engine/recovery.py keep of the call that failed.
use lgtmaybe.Prelude.{
  ◌≡◌, refl, Bool, false, Option, none, some, List, [], ◌++◌, is_some, append_assoc, append-nil,
  sym, ◌∙◌, ◌||◌, ℕ, subst, arith, length,
}
use lgtmaybe.Findings.Model.{ReviewFinding}
use lgtmaybe.Findings.Bound.{Lens, bound, stamp_categories, stamp_and_bound}
use lgtmaybe.Findings.Ceiling.{clamp_to_category_ceiling}
use lgtmaybe.Recovery.Ladder.Ending.{is_pieces, call_failed-Yields}
use lgtmaybe.Findings.SelfTalk.{drop_self_talk, split_self_talk}
use lgtmaybe.Recovery.Provider.{other, Failure, ProviderResult}
use lgtmaybe.Recovery.Run.{Run, Surroundings, pure, ◌>>=◌, contribute}
use lgtmaybe.Recovery.Reasons.{
  Reason, plain, retryable, payload, reasoning_bound, pieces, LensOutcome, mark, error_reason,
  cut_off_reason, reasoning_exhausted_reason,
}
use lgtmaybe.Recovery.Call.{Call, Marks, Reissue, OnOversized, outcome, after}
use lgtmaybe.Recovery.Ladder.{
  retry_lower_effort, escalate_model, after_step_down, after_split, remedy_oversized, remedy,
  call_failed, cut_off, salvage_truncated,
}
use lgtmaybe.Recovery.Ending.{Yields, Yields-pure, Yields-bind, Yields-last, Yields-if}

-- the outcome's findings begin with these
abbrev pub BeginsWith : List ReviewFinding → LensOutcome → Type 0
BeginsWith fs o = (rest : List ReviewFinding) × (o.findings ≡ fs ++ rest)

BeginsWith-after :
    (fs gs : List ReviewFinding) (o : LensOutcome) → BeginsWith fs (after (fs ++ gs) o)
BeginsWith-after fs gs o = (gs ++ o.findings, append_assoc fs gs o.findings)

-- the findings of a call, stamped and bounded
abbrev pub bounded : Surroundings → Run → Lens → List ReviewFinding → List ReviewFinding
bounded w run lens fs = (stamp_and_bound w.is_word fs lens run.max_findings_per_lens).findings

bound-nil : (cap : ℕ) → (bound cap [] 0).findings ≡ []
unfolding bound
bound-nil cap = ground arith

-- a failure of another kind carries no findings
nothing_salvaged :
    (w : Surroundings) (run : Run) (lens : Lens) (exc : Failure)
    → exc.fault ≡ other
    → bounded w run lens (salvage_truncated w exc) ≡ []
unfolding salvage_truncated stamp_and_bound stamp_categories drop_self_talk split_self_talk
    clamp_to_category_ceiling
nothing_salvaged w run lens exc e = rw e (bound-nil run.max_findings_per_lens)

module _ (w : Surroundings) (run : Run) (reissue : Reissue) (call : Call) where
  pub remedy_oversized-BeginsWith :
      (marks : Marks) (split : Option OnOversized) (slice : Bool) (completed : List ReviewFinding)
      (reason : Reason) (exhausted : Option Reason)
      → Yields
          (BeginsWith completed)
          (remedy_oversized w run reissue call marks split slice completed reason exhausted)
  unfolding remedy_oversized
  remedy_oversized-BeginsWith marks none slice completed reason none =
      Yields-pure (outcome completed (some reason)) ([], sym (append-nil completed))
  remedy_oversized-BeginsWith marks (some f) slice completed reason none =
      Yields-last (f reason slice) (λ o. rest o.findings o.error)
    where
      escalated :
          (fs : List ReviewFinding) (r : Reason)
          → Yields
              (BeginsWith completed)
              (escalate_model w run reissue call r >>= λ o. pure (after (completed ++ fs) o))
      escalated fs r =
          Yields-last (escalate_model w run reissue call r)
            (λ o. Yields-pure (after (completed ++ fs) o) (BeginsWith-after completed fs o))

      rest :
          (fs : List ReviewFinding) (e : Option Reason)
          → Yields (BeginsWith completed) (after_split w run reissue call completed (outcome fs e))
      rest fs none = Yields-pure (outcome (completed ++ fs) none) (fs, refl)
      rest fs (some (pieces t flaky settled)) =
          Yields-pure (outcome (completed ++ fs) (some (pieces t flaky settled))) (fs, refl)
      rest fs (some (plain t)) = escalated fs (plain t)
      rest fs (some (retryable t)) = escalated fs (retryable t)
      rest fs (some (payload t)) = escalated fs (payload t)
      rest fs (some (reasoning_bound t)) = escalated fs (reasoning_bound t)
  remedy_oversized-BeginsWith marks split slice completed reason (some x) =
      Yields-if (is_some marks.effort || is_some marks.escalate_to)
        (Yields-pure (outcome completed (some x)) ([], sym (append-nil completed)))
        (Yields-last (retry_lower_effort w run reissue call x) (λ o. rest split o.findings o.error))
    where
      rest :
          (split : Option OnOversized) (fs : List ReviewFinding) (e : Option Reason)
          → Yields
              (BeginsWith completed)
              (after_step_down w run reissue call split completed (outcome fs e))
      rest split fs none = Yields-pure (outcome (completed ++ fs) none) (fs, refl)
      rest none fs (some r) = Yields-pure (outcome (completed ++ fs) (some r)) (fs, refl)
      rest (some f) fs (some r) =
          Yields-last (escalate_model w run reissue call r)
            (λ o. Yields-pure (after (completed ++ fs) o) (BeginsWith-after completed fs o))

  pub call_failed-BeginsWith :
      (marks : Marks) (split : Option OnOversized) (exc : Failure)
      → Yields
          (BeginsWith (bounded w run call.lens (salvage_truncated w exc)))
          (call_failed w run reissue call marks split exc)
  unfolding contribute
  call_failed-BeginsWith marks split exc =
      call_failed-Yields (BeginsWith kept) w run reissue call marks split exc go
        (λ e. ([], sym (append-nil kept ∙ nothing_salvaged w run call.lens exc e)))
    where
      kept : List ReviewFinding
      kept = bounded w run call.lens (salvage_truncated w exc)

      go :
          (exhausted : Option Reason) (slice : Bool)
          → is_pieces exhausted ≡ false
          → Yields (BeginsWith kept) (remedy w run reissue call marks split exc exhausted slice)
      go exhausted slice e =
          Yields-bind (λ fs. fs ≡ kept) (record { apply = λ s. refl })
            (λ fs q.
              subst
                (λ gs. Yields (BeginsWith gs) (
                  remedy_oversized w run reissue call marks split slice fs
                    (mark exc (error_reason exc)) exhausted))
                q
                (remedy_oversized-BeginsWith marks split slice fs (mark exc (error_reason exc))
                  exhausted))

  pub cut_off-BeginsWith :
      (marks : Marks) (split : Option OnOversized) (result : ProviderResult)
      (recovered : List ReviewFinding)
      → Yields
          (BeginsWith (bounded w run call.lens recovered))
          (cut_off w run reissue call marks split result recovered)
  unfolding cut_off contribute
  cut_off-BeginsWith marks split result recovered =
      Yields-bind (λ fs. fs ≡ bounded w run call.lens recovered) (record { apply = λ s. refl })
        (λ fs e.
          subst
            (λ gs. Yields (BeginsWith gs) (
              remedy_oversized w run reissue call marks split false fs
                (plain (cut_off_reason result.output_tokens (length recovered)))
                (reasoning_exhausted_reason result.reasoning_tokens result.output_ceiling)))
            e
            (remedy_oversized-BeginsWith marks split false fs
              (plain (cut_off_reason result.output_tokens (length recovered)))
              (reasoning_exhausted_reason result.reasoning_tokens result.output_ceiling)))
