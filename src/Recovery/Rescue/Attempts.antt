-- ===== src/Recovery/Rescue/Attempts.antt =====
-- What `_rescue` of engine/recovery.py makes of the outcomes of the calls, each second attempt with its
-- session.
use lgtmaybe.Prelude.{
  ◌≡◌, inl, inr, refl, Bool, true, false, Option, none, some, ◌++◌, subst, List, [], ◌∷◌, arith,
  length, Bool-cases, sym,
}
use lgtmaybe.Text.{Text}
use lgtmaybe.Compress.Batch.{Patch}
use lgtmaybe.Recovery.Run.{Session, Surroundings, Run}
use lgtmaybe.Recovery.Reasons.{
  Reason, plain, retryable, payload, reasoning_bound, pieces, LensOutcome, rescuable,
}
use lgtmaybe.Recovery.Call.{after}
use lgtmaybe.Recovery.Pieces.{retry_pieces}
use lgtmaybe.Recovery.Lens.{review_piece, review_lens}
use lgtmaybe.Recovery.Rescue.{PreparedCall, rerun, rescue_one, rescue}

-- The error is the provider's: any of the reasons that a call may be tried again for.
abbrev pub FromProvider : Option Reason → Type 0
FromProvider none = ⊥
FromProvider (some (plain t)) = ⊥
FromProvider (some (retryable t)) = Unit
FromProvider (some (payload t)) = Unit
FromProvider (some (reasoning_bound t)) = ⊥
FromProvider (some (pieces t flaky settled)) = Unit

rescuable-FromProvider : (e : Option Reason) → rescuable e ≡ true → FromProvider e
unfolding rescuable
rescuable-FromProvider none h = cc
rescuable-FromProvider (some (plain t)) h = cc
rescuable-FromProvider (some (retryable t)) h = tt
rescuable-FromProvider (some (payload t)) h = tt
rescuable-FromProvider (some (reasoning_bound t)) h = cc
rescuable-FromProvider (some (pieces t flaky settled)) h = tt

not_rescuable-FromProvider : (e : Option Reason) → rescuable e ≡ false → ¬ FromProvider e
unfolding rescuable
not_rescuable-FromProvider none h k = k
not_rescuable-FromProvider (some (plain t)) h k = k
not_rescuable-FromProvider (some (retryable t)) h k = cc
not_rescuable-FromProvider (some (payload t)) h k = cc
not_rescuable-FromProvider (some (reasoning_bound t)) h k = k
not_rescuable-FromProvider (some (pieces t flaky settled)) h k = cc

-- whether a call was split
abbrev pub is_pieces : Option Reason → Bool
is_pieces none = false
is_pieces (some (plain t)) = false
is_pieces (some (retryable t)) = false
is_pieces (some (payload t)) = false
is_pieces (some (reasoning_bound t)) = false
is_pieces (some (pieces t flaky settled)) = true

module _ (w : Surroundings) (run : Run) where
  -- The second attempt at a call, from a session: after a split, its failed pieces, each as a call of its
  -- own; otherwise the call as it was first made.
  pub data Attempt (c : PreparedCall) (s : Session)
      : Option Reason → LensOutcome × Session → Type 0 where
    parts :
        (t : Text) (flaky : List (List Patch)) (settled : List Text)
        → Attempt c s
            (some (pieces t flaky settled))
            (retry_pieces (review_piece w run c.batch_num c.lens) c.batch_num flaky settled s)
    whole :
        (e : Option Reason)
        → is_pieces e ≡ false
        → Attempt c s e (review_lens w run c.batch c.batch_num c.lens s)

  -- What the rescue makes of the outcomes of calls, one behind the other, each attempt from the session
  -- in which the one before ended.
  pub data Rescued
      : Session → List PreparedCall → List LensOutcome → List LensOutcome → Session → Type 0 where
    done : {s : Session} → Rescued s [] [] [] s
    stays :
        {s t : Session} {c : PreparedCall} {o : LensOutcome} {cs : List PreparedCall}
        {os ps : List LensOutcome}
        → ¬ FromProvider o.error
        → Rescued s cs os ps t
        → Rescued s (c ∷ cs) (o ∷ os) (o ∷ ps) t
    tried_again :
        {s t : Session} {c : PreparedCall} {o p : LensOutcome} {again : LensOutcome × Session}
        {cs : List PreparedCall} {os ps : List LensOutcome}
        → FromProvider o.error
        → Attempt c s o.error again
        → p.findings ≡ o.findings ++ again.0.findings
        → p.error ≡ again.0.error
        → Rescued again.1 cs os ps t
        → Rescued s (c ∷ cs) (o ∷ os) (p ∷ ps) t

  rerun-Attempt :
      (c : PreparedCall) (e : Option Reason) (s : Session) → Attempt c s e (rerun w run c e s)
  unfolding rerun
  rerun-Attempt c none s = whole none refl
  rerun-Attempt c (some (plain t)) s = whole (some (plain t)) refl
  rerun-Attempt c (some (retryable t)) s = whole (some (retryable t)) refl
  rerun-Attempt c (some (payload t)) s = whole (some (payload t)) refl
  rerun-Attempt c (some (reasoning_bound t)) s = whole (some (reasoning_bound t)) refl
  rerun-Attempt c (some (pieces t flaky settled)) s = parts t flaky settled

  rescue_one-stays :
      (c : PreparedCall) (o : LensOutcome) (s : Session)
      → rescuable o.error ≡ false
      → rescue_one w run c o s ≡ (o, s)
  unfolding rescue_one
  rescue_one-stays c o s e = rw e

  rescue_one-again :
      (c : PreparedCall) (o : LensOutcome) (s : Session)
      → rescuable o.error ≡ true
      → let again = rerun w run c o.error s in
        rescue_one w run c o s ≡ (after o.findings again.0, again.1)
  unfolding rescue_one
  rescue_one-again c o s e = rw e

  pub rescue-Rescued :
      (calls : List PreparedCall) (os : List LensOutcome) (s : Session)
      → length calls ≡ length os
      → let end = rescue w run calls os s in Rescued s calls os end.0 end.1
  unfolding rescue
  rescue-Rescued [] [] s h = done
  rescue-Rescued [] (o ∷ os) s h = absurd (omega (arith, h))
  rescue-Rescued (c ∷ cs) [] s h = absurd (omega (arith, h))
  rescue-Rescued (c ∷ cs) (o ∷ os) s h =
      let From = λ (r : LensOutcome × Session).
        let end = rescue w run cs os r.1 in Rescued s (c ∷ cs) (o ∷ os) (r.0 ∷ end.0) end.1 in
      elim (Bool-cases (rescuable o.error)) [
        | inl e ↦
            let again = rerun w run c o.error s in
            subst From (sym (rescue_one-again c o s e)) (
              tried_again {again = again} (rescuable-FromProvider o.error e)
                (rerun-Attempt c o.error s) refl refl
                (rescue-Rescued cs os again.1 (omega (arith, h))))
        | inr e ↦ subst From (sym (rescue_one-stays c o s e)) (
            stays (not_rescuable-FromProvider o.error e)
              (rescue-Rescued cs os s (omega (arith, h))))
      ]
