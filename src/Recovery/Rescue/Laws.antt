-- ===== src/Recovery/Rescue/Laws.antt =====
-- The rescue of calls that failed on the provider, and what all the calls of a review spend (`_rescue` of
-- engine/recovery.py).
use lgtmaybe.Prelude.{
  ℕ, ◌+◌, ◌*◌, ◌≤◌, ◌≡◌, Bool, true, Option, none, some, List, [], ◌∷◌, arith, length, max, All,
}
use lgtmaybe.Recovery.Run.{Session, Surroundings, Run, Action, ◌>>=◌}
use lgtmaybe.Recovery.Reasons.{
  Reason, plain, retryable, payload, reasoning_bound, pieces, LensOutcome, rescuable,
}
use lgtmaybe.Recovery.Split.{split_batch}
use lgtmaybe.Recovery.Call.{after}
use lgtmaybe.Recovery.Pieces.Errors.{Few}
use lgtmaybe.Recovery.Pieces.Spending.{Spends-retry_pieces}
use lgtmaybe.Recovery.Ladder.Errors.{Ends}
use lgtmaybe.Recovery.Spending.{
  sends, cleared, Adds, Spends, Spends-le, Spends-pure, Spends-bind, Spends-if,
}
use lgtmaybe.Recovery.Ending.{Yields, Yields-pure, Yields-bind}
use lgtmaybe.Recovery.Lens.{review_piece}
use lgtmaybe.Recovery.Lens.Spending.{Spends-review_piece, Spends-review_lens}
use lgtmaybe.Recovery.Lens.Errors.{review_lens-Few}
use lgtmaybe.Recovery.Lens.Calls.{most_pieces, fits_most}
use lgtmaybe.Recovery.Rescue.{PreparedCall, task, rerun, rescue_one, rescue, run_calls, fan_out}
use lgtmaybe.Recovery.Rescue.Attempts.{Rescued, rescue-Rescued}

-- the most requests of one call whose batch splits into `k` pieces at most
abbrev pub call_cost : ℕ → ℕ
call_cost k = max 9 (2 + 8 * k)

-- what follows an action may count on what the action ends with
Spends-after :
    {A B : Type 0} (P : A → Type 0) (m n : ℕ) {act : Action A} {f : A → Action B}
    → Spends m act
    → Yields P act
    → ((a : A) → P a → Spends n (f a))
    → Spends (m + n) (act >>= f)
Spends-after P m n {act} {f} p y q = record {
  apply = λ s c. step s (p.apply s c) ((q (act s).0 (y.apply s)).apply (act s).1 (p.apply s c).1);
}
  where
    step :
        (s : Session)
        → Adds m s.log (act s).1.log
        → Adds n (act s).1.log ((act >>= f) s).1.log
        → Adds (m + n) s.log ((act >>= f) s).1.log
    step s h h' = (omega (arith, h.0, h'.0), h'.1)

module _ (w : Surroundings) (run : Run) (k : ℕ) where
  abbrev Fits : PreparedCall → Type 0
  Fits c = most_pieces w c.batch ≤ k

  pieces_below :
      (c : PreparedCall)
      → Fits c
      → (slice : Bool) → length (split_batch w.counter slice c.batch) ≤ k
  pieces_below c h slice = omega (arith, h, fits_most w c.batch slice)

  Spends-task : (c : PreparedCall) → Fits c → Spends (call_cost k) (task w run c)
  Spends-task c h = Spends-review_lens w run c.batch c.batch_num c.lens k (pieces_below c h)

  Spends-rerun :
      (c : PreparedCall) (e : Option Reason)
      → Fits c
      → Few k e
      → Spends (call_cost k) (rerun w run c e)
  unfolding rerun
  Spends-rerun c none h few = Spends-task c h
  Spends-rerun c (some (plain t)) h few = Spends-task c h
  Spends-rerun c (some (retryable t)) h few = Spends-task c h
  Spends-rerun c (some (payload t)) h few = Spends-task c h
  Spends-rerun c (some (reasoning_bound t)) h few = Spends-task c h
  Spends-rerun c (some (pieces t flaky settled)) h few =
      Spends-le (call_cost k)
        (Spends-retry_pieces (review_piece w run c.batch_num c.lens) 8
          (Spends-review_piece w run c.batch_num c.lens) c.batch_num flaky settled)
        (omega (arith, few))

  Spends-rescue_one :
      (c : PreparedCall) (o : LensOutcome)
      → Fits c
      → Few k o.error
      → Spends (call_cost k) (rescue_one w run c o)
  unfolding rescue_one
  Spends-rescue_one c o h few =
      Spends-if (rescuable o.error)
        (Spends-le (call_cost k)
          (Spends-bind (call_cost k) 0 (Spends-rerun c o.error h few)
            (λ again. Spends-pure 0 (after o.findings again)))
          (omega arith))
        (Spends-pure (call_cost k) o)

  -- `n` for each of the calls, and so on
  abbrev total : List PreparedCall → ℕ
  total [] = 0
  total (c ∷ cs) = call_cost k + total cs

  Spends-rescue :
      (cs : List PreparedCall) (os : List LensOutcome)
      → All Fits cs
      → All (Ends (Few k)) os
      → Spends (total cs) (rescue w run cs os)
  unfolding rescue
  Spends-rescue [] os h few = Spends-pure 0 os
  Spends-rescue (c ∷ cs) [] h few = Spends-pure (total (c ∷ cs)) []
  Spends-rescue (c ∷ cs) (o ∷ os) h few =
      Spends-bind (call_cost k) (total cs) (Spends-rescue_one c o h.0 few.0) (λ p.
        Spends-le (total cs)
          (Spends-bind (total cs) 0 (Spends-rescue cs os h.1 few.1) (λ ps. Spends-pure 0 (p ∷ ps)))
          (omega arith))

  Spends-run_calls : (cs : List PreparedCall) → All Fits cs → Spends (total cs) (run_calls w run cs)
  unfolding run_calls
  Spends-run_calls [] h = Spends-pure 0 []
  Spends-run_calls (c ∷ cs) h = Spends-bind (call_cost k) (total cs) (Spends-task c h.0) (λ o.
      Spends-le (total cs)
        (Spends-bind (total cs) 0 (Spends-run_calls cs h.1) (λ os. Spends-pure 0 (o ∷ os)))
        (omega arith))

  run_calls-Few :
      (cs : List PreparedCall) → All Fits cs → Yields (All (Ends (Few k))) (run_calls w run cs)
  unfolding run_calls
  run_calls-Few [] h = Yields-pure [] tt
  run_calls-Few (c ∷ cs) h =
      Yields-bind (Ends (Few k))
        (review_lens-Few w run c.batch c.batch_num c.lens k (pieces_below c h.0))
        (λ o few.
          Yields-bind (All (Ends (Few k))) (run_calls-Few cs h.1)
            (λ os more. Yields-pure (o ∷ os) (few, more)))

  total-length : (cs : List PreparedCall) → total cs ≡ call_cost k * length cs
  total-length [] = omega arith
  total-length (c ∷ cs) = grind (arith, total-length cs)

  Spends-fan_out :
      (cs : List PreparedCall) → All Fits cs → Spends (total cs + total cs) (fan_out w run cs)
  unfolding fan_out
  Spends-fan_out cs h =
      Spends-after (All (Ends (Few k))) (total cs) (total cs) (Spends-run_calls cs h)
        (run_calls-Few cs h) (λ os few. Spends-rescue cs os h few)

-- For every call the rescue leaves an outcome. One whose error is not the provider's stays as it is, and
-- nothing is sent for it. Each other call is made once more, from where the one before ended: all of it, or
-- only the failed pieces if it was split; its findings are those it had, with those of the second attempt
-- behind them, and its error is that of the second attempt.
pub rescue-keeps :
    (w : Surroundings) (run : Run) (calls : List PreparedCall) (outcomes : List LensOutcome)
    (s : Session)
    → length calls ≡ length outcomes
    → let end = rescue w run calls outcomes s in Rescued w run s calls outcomes end.0 end.1
rescue-keeps w run calls outcomes s h = rescue-Rescued w run calls outcomes s h

-- the most pieces of any of the calls' batches
abbrev most_of : Surroundings → List PreparedCall → ℕ
most_of w [] = 0
most_of w (c ∷ cs) = max (most_pieces w c.batch) (most_of w cs)

All-most_of :
    (w : Surroundings) (k : ℕ) (cs : List PreparedCall)
    → most_of w cs ≤ k
    → All (λ c. most_pieces w c.batch ≤ k) cs
All-most_of w k [] h = tt
All-most_of w k (c ∷ cs) h = (omega (arith, h), All-most_of w k cs (omega (arith, h)))

-- From a log in which every request was cleared, a review of `n` lens calls, whose batches split into `k`
-- pieces at most, sends at most `2 * n` times the requests of one call (9, or 2 and 8 for each piece),
-- the rescue of failed calls included.
pub fan_out-sends :
    (w : Surroundings) (run : Run) (calls : List PreparedCall) (s : Session) (k : ℕ)
    → All (λ c. most_pieces w c.batch ≤ k) calls
    → cleared s.log ≡ true
    → sends (fan_out w run calls s).1.log ≤ sends s.log + 2 * (max 9 (2 + 8 * k) * length calls)
fan_out-sends w run calls s k h c =
    omega (arith, ((Spends-fan_out w run k calls h).apply s c).0, total-length w run k calls)

-- If in the log before each request stands directly behind a check of the interruption, the deadline and
-- the token budget that allowed it, and the fuel has not run out, this holds of the log behind a whole
-- review too: of every call, split, retry, reformat, deferral, escalation and rescue.
pub fan_out-cleared :
    (w : Surroundings) (run : Run) (calls : List PreparedCall) (s : Session)
    → cleared s.log ≡ true
    → cleared (fan_out w run calls s).1.log ≡ true
fan_out-cleared w run calls s c =
    ((Spends-fan_out w run (most_of w calls) calls
        (All-most_of w (most_of w calls) calls (omega arith))).apply
      s c).1
