-- ===== src/Tests/Recovery.antt =====
-- Concrete inputs for the theorems on the calls of a lens and their recovery (engine/run.py,
-- engine/recovery.py, engine/engine.py).
use lgtmaybe.Prelude.{
  ℕ, ◌+◌, ◌*◌, ◌≤◌, ◌<◌, ◌≡◌, ◌⊎◌, refl, Bool, true, false, none, some, List, [], ◌∷◌, ◌++◌, arith,
  length, is_some, max, if◌then◌else◌, ltb, any, ◌==◌,
}
use lgtmaybe.Text.{Text, codes}
use lgtmaybe.Compress.Batch.{Patch}
use lgtmaybe.Findings.Model.{ReviewFinding, high}
use lgtmaybe.Findings.Bound.{Lens, stamp_and_bound, stamp_categories}
use lgtmaybe.Findings.Ceiling.{clamp_to_category_ceiling}
use lgtmaybe.Findings.SelfTalk.{drop_self_talk}
use lgtmaybe.Recovery.Ladder.{call_failed}
use lgtmaybe.Recovery.Pieces.{review_split}
use lgtmaybe.Diff.Index.{right}
use lgtmaybe.Recovery.Provider.{
  Failure, wall_timeout, truncated, failed, parse_error, prose, cut, Blocks,
}
use lgtmaybe.Recovery.Run.{
  checked, Session, Surroundings, Run, ceiling_reached, unless_skipped, metered_complete,
  contribute,
}
use lgtmaybe.Recovery.Reasons.{retryable, payload, LensOutcome, provider_side, mark, error_reason}
use lgtmaybe.Recovery.Split.{split_batch, files_not_visible}
use lgtmaybe.Recovery.Call.{outcome}
use lgtmaybe.Recovery.Spending.{sends, cleared}
use lgtmaybe.Recovery.Lens.{review_lens, review_piece}
use lgtmaybe.Recovery.Lens.Kept.{own_findings, first_request}
use lgtmaybe.Recovery.Lens.Calls.{
  most_pieces, review_lens-sends, review_lens-error, review_lens-keeps,
}
use lgtmaybe.Recovery.Rescue.{PreparedCall, rescue, fan_out}
use lgtmaybe.Recovery.Rescue.Attempts.{Rescued}
use lgtmaybe.Recovery.Rescue.Laws.{rescue-keeps, fan_out-sends, fan_out-cleared}
use lgtmaybe.Recovery.FanOut.{Batches, Pool, here, next, completes, submit, complete_call}
use lgtmaybe.Recovery.FanOut.Laws.{calls_in, count, answered_calls, submit-settles}

abbrev no_blocks : Blocks
no_blocks = record { intent = none; hint = none; dir = none; spec = none }

-- a provider whose every call runs out of time
abbrev late_failure : Failure
late_failure = record {
  name = codes "ProviderWallTimeout";
  message = codes "out  of time";
  fault = wall_timeout;
  unrecoverable = false;
  input_tokens = some 100;
  output_tokens = none;
  schema_dropped = false;
  temperature_dropped = false;
}

abbrev late_provider : Surroundings
late_provider = record {
  interrupt_requested = λ log. false;
  perf_counter = λ log. 0;
  complete = λ log request. failed late_failure;
  recovery = none;
  parse_findings = λ text. parse_error prose [];
  parse_needs = λ text. [];
  wrap_diff = λ text. text;
  wrap_not_shown = λ paths. none;
  blocks_for = λ paths. no_blocks;
  fetch_context = λ log needs paths budget. none;
  counter = some length;
  is_word = λ c. true;
}

abbrev run : Run
run = record {
  model = codes "m";
  response_format = true;
  deadline_at = none;
  budget_at = some 1_000;
  retrieval_budget = none;
  changed_files = codes "b.py" ∷ codes "a.py" ∷ codes "b.py" ∷ codes "c.py" ∷ [];
  repair_unparseable = true;
  retry_without_schema = true;
  structured_output = true;
  max_findings_per_lens = 10;
  cfg_model = codes "m";
}

abbrev fresh : Session
fresh = record {
  state = record {
    split_batches = [];
    stepped_down = [];
    reasoning_off = [];
    escalated = [];
    repaired = [];
    re_asked = [];
    flooded = [];
    self_talk = [];
    schema_dropped = false;
    temperature_dropped = false;
    tokens = 0;
  };
  log = [];
}

abbrev lens : Lens
lens = record { id = codes "security"; allowed_categories = none }

abbrev batch : List Patch
batch = (codes "a.py", codes "x") ∷ (codes "b.py", codes "y") ∷ (codes "c.py", codes "z") ∷ []

files_not_visible_runs :
    files_not_visible run.changed_files (codes "a.py" ∷ []) ≡ codes "b.py" ∷ codes "c.py" ∷ []
unfolding files_not_visible
files_not_visible_runs = refl

error_reason_runs :
    mark late_failure (error_reason late_failure)
    ≡ payload (codes "ProviderWallTimeout: out of time")
unfolding mark error_reason lgtmaybe.Text.Words.words lgtmaybe.Text.Words.join_words
error_reason_runs = refl

split_batch_runs :
    split_batch (some length) false batch
    ≡ ((codes "a.py", codes "x") ∷ [])
      ∷ ((codes "b.py", codes "y") ∷ (codes "c.py", codes "z") ∷ [])
      ∷ []
unfolding split_batch
split_batch_runs = refl

review_lens-sends_example :
    sends (review_lens late_provider run batch 1 lens fresh).1.log
    ≤ 0 + max 9 (2 + 8 * most_pieces late_provider batch)
review_lens-sends_example = review_lens-sends late_provider run batch 1 lens fresh refl

review_lens-error_example :
    is_some (review_lens late_provider run batch 1 lens fresh).0.error ≡ true
review_lens-error_example =
    review_lens-error late_provider run batch 1 lens fresh (λ log request. refl)

abbrev leak : ReviewFinding
leak = record {
  path = codes "a.py";
  line = 2;
  side = right;
  severity = high;
  title = codes "key";
  body = codes "a key in the source";
  failure_scenario = none;
  suggestion = none;
  anchor = none;
  anchored = true;
  broad = false;
  confidence = none;
  category = some (codes "security");
}

-- a provider whose every answer is cut at its ceiling, behind one finding
abbrev cutting_provider : Surroundings
cutting_provider = record late_provider {
  complete = λ log request.
      failed
        (record late_failure { fault = truncated (codes "{") (some 10); output_tokens = some 100 });
  parse_findings = λ text. parse_error cut (leak ∷ []);
  is_word = λ c. false;
}

review_lens-keeps_example :
    (rest : List ReviewFinding) × ((review_lens cutting_provider run batch 1 lens fresh).0.findings
      ≡ own_findings cutting_provider run lens (
          cutting_provider.complete
            (checked true ∷ [])
            (first_request cutting_provider run batch 1 lens))
        ++ rest)
unfolding ceiling_reached
review_lens-keeps_example = review_lens-keeps cutting_provider run batch 1 lens fresh refl

-- the call and its two pieces, which fail alike
review_lens_runs : sends (review_lens late_provider run batch 1 lens fresh).1.log ≡ 3
unfolding review_lens split_batch unless_skipped metered_complete call_failed review_split
    review_piece contribute stamp_and_bound drop_self_talk stamp_categories
    clamp_to_category_ceiling provider_side mark
review_lens_runs = refl

abbrev call : PreparedCall
call = record { batch = batch; batch_num = 1; lens = lens }

abbrev flaky : LensOutcome
flaky = outcome [] (some (retryable (codes "RateLimitError")))

abbrev quiet : LensOutcome
quiet = outcome [] none

rescue-keeps_example :
    let end = rescue late_provider run (call ∷ call ∷ []) (flaky ∷ quiet ∷ []) fresh in
    Rescued late_provider run fresh (call ∷ call ∷ []) (flaky ∷ quiet ∷ []) end.0 end.1
rescue-keeps_example =
    rescue-keeps late_provider run (call ∷ call ∷ []) (flaky ∷ quiet ∷ []) fresh refl

fan_out-sends_example :
    sends (fan_out late_provider run (call ∷ call ∷ []) fresh).1.log
    ≤ 0 + 2 * (max 9 (2 + 8 * 2) * 2)
unfolding split_batch
fan_out-sends_example =
    fan_out-sends late_provider run (call ∷ call ∷ []) fresh 2 (omega arith, (omega arith, tt)) refl

fan_out-cleared_example : cleared (fan_out late_provider run (call ∷ call ∷ []) fresh).1.log ≡ true
fan_out-cleared_example = fan_out-cleared late_provider run (call ∷ call ∷ []) fresh refl

-- a batch that warms the cache, and one that does not
abbrev batches : Batches ℕ
batches = (true, 5 ∷ 6 ∷ []) ∷ (false, 7 ∷ []) ∷ []

abbrev start : Pool Bool
start = record { pending = 0 ∷ 2 ∷ []; deferred = (0, 1 ∷ []) ∷ []; results = [] }

submit_runs : submit batches ≡ start
unfolding submit
submit_runs = refl

-- the call behind the primer completes, then the other
submit-settles_example :
    ((i : ℕ) × (any (λ j. i == j) (complete_call 0 true start).pending ≡ true)
      × (1 < calls_in batches))
    ⊎ ((1 ≡ calls_in batches)
        × ((complete_call 0 true start).pending ≡ [])
        × ((complete_call 0 true start).deferred ≡ [])
        × ((j : ℕ)
            → count j (answered_calls (complete_call 0 true start).results)
              ≡ (if ltb j (calls_in batches) then 1 else 0)))
unfolding submit
submit-settles_example =
    submit-settles batches 1 (complete_call 0 true start) (next here (completes 0 true refl refl))
