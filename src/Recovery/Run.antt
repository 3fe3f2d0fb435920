-- ===== src/Recovery/Run.antt =====
-- `_RunState`, `_Run`, `_MeteredProvider` and `_skip_reason` of engine/run.py, and the actions in which
-- the model calls of a review are written.
use lgtmaybe.Prelude.{
  ℕ, zero, suc, ◌+◌, Bool, false, ◌||◌, Option, none, some, List, ◌∷◌, if◌then◌else◌, leb, is_some,
  not,
}
use lgtmaybe.Text.{Text, codes}
use lgtmaybe.Collections.{text_is_eq, nat_is_eq}
use lgtmaybe.Collections.Dict.{get, put}
use lgtmaybe.Compress.Tokens.{Counter}
use lgtmaybe.Findings.Model.{ReviewFinding}
use lgtmaybe.Findings.Bound.{Lens, stamp_and_bound}
use lgtmaybe.Recovery.Provider.{Blocks, Request, Reply, failed, answered, Parsed, Effort}

pub record RunState : Type 0 where
  pub split_batches : List ℕ
  pub stepped_down : List Text
  pub reasoning_off : List Text
  pub escalated : List (Text × Text)
  pub repaired : List Text
  pub re_asked : List Text
  pub flooded : List (Text × ℕ)
  pub self_talk : List (Text × ℕ)
  pub schema_dropped : Bool
  pub temperature_dropped : Bool
  pub tokens : ℕ

-- What has happened so far, the latest first: a ceiling was checked (`true` to go ahead), a request
-- went to the provider, the adapter was told to send no schema, or the fuel of the model ran out.
pub data Event : Type 0 where
  checked : Bool → Event
  sent : Request → Event
  schema_off : Event
  ran_out : Event

pub record Session : Type 0 where
  pub state : RunState
  pub log : List Event

-- `SupportsRecovery`, the adapter's optional capability
pub record SupportsRecovery : Type 0 where
  pub model : Option Text
  pub lower_reasoning_effort : Option Effort
  pub disable_reasoning : Option Effort
  pub escalate_model : Option Text
  pub sends_response_format : List Event → Text → Bool

-- What the calls rely on and other parts supply. The provider, the clock and the signal are outside the
-- program: what they answer may depend on all that happened before. The others are the reader of replies
-- (engine/parse.py), the wrappers of engine/injection.py, the tokenizer, the table of word characters,
-- the blocks of the batch's files, and the code that a lens asked for (engine/retrieve.py), none where
-- nothing could be fetched.
pub record Surroundings : Type 0 where
  pub interrupt_requested : List Event → Bool
  pub perf_counter : List Event → ℕ
  pub complete : List Event → Request → Reply
  pub recovery : Option SupportsRecovery
  pub parse_findings : Text → Parsed
  pub parse_needs : Text → List Text
  pub wrap_diff : Text → Text
  pub wrap_not_shown : List Text → Option Text
  pub blocks_for : List Text → Blocks
  pub fetch_context : List Event → List Text → List Text → ℕ → Option Text
  pub counter : Counter
  pub is_word : ℕ → Bool

-- the settings of `_Run` and of its `cfg` that the calls read
pub record Run : Type 0 where
  pub model : Text
  pub response_format : Bool
  pub deadline_at : Option ℕ
  pub budget_at : Option ℕ
  pub retrieval_budget : Option ℕ
  pub changed_files : List Text
  pub repair_unparseable : Bool
  pub retry_without_schema : Bool
  pub structured_output : Bool
  pub max_findings_per_lens : ℕ
  pub cfg_model : Text

abbrev pub Action : Type 0 → Type 0
Action A = Session → A × Session

abbrev pub pure : {A : Type 0} → A → Action A
pure a s = (a, s)

infixl 5 ◌>>=◌ ◌>>◌
abbrev pub ◌>>=◌ : {A B : Type 0} → Action A → (A → Action B) → Action B
◌>>=◌ m f s = f (m s).0 (m s).1

abbrev pub ◌>>◌ : {A B : Type 0} → Action A → Action B → Action B
◌>>◌ m k s = k (m s).1

abbrev pub modify : (RunState → RunState) → Action (Unit {0})
modify f s = (tt, record s { state = f s.state })

abbrev pub note : Event → Action (Unit {0})
note e s = (tt, record s { log = e ∷ s.log })

abbrev pub or_zero : Option ℕ → ℕ
or_zero none = 0
or_zero (some n) = n

-- `add_flooded` and `add_self_talk`
unfoldable pub add_flooded : Text → ℕ → RunState → RunState
add_flooded lens_id dropped st = record st {
  flooded = put lens_id (or_zero (get lens_id st.flooded) + dropped) st.flooded;
}

unfoldable pub add_self_talk : Text → ℕ → RunState → RunState
add_self_talk lens_id dropped st = record st {
  self_talk = put lens_id (or_zero (get lens_id st.self_talk) + dropped) st.self_talk;
}

unfoldable pub charge : ℕ → RunState → RunState
charge tokens st = record st { tokens = st.tokens + tokens }

unfoldable pub note_degradation : Bool → Bool → RunState → RunState
note_degradation schema temperature st = record st {
  schema_dropped = st.schema_dropped || schema;
  temperature_dropped = st.temperature_dropped || temperature;
}

-- what `_MeteredProvider.complete` records of a reply
unfoldable pub meter : Reply → RunState → RunState
unfolding charge note_degradation
meter (failed exc) st =
    note_degradation exc.schema_dropped exc.temperature_dropped
      (charge (or_zero exc.input_tokens + or_zero exc.output_tokens) st)
meter (answered result) st =
    note_degradation result.schema_dropped result.temperature_dropped
      (charge (result.input_tokens + result.output_tokens) st)

-- `_MeteredProvider.complete`
unfoldable pub metered_complete : Surroundings → Request → Action Reply
unfolding meter
metered_complete w request s =
    let reply = w.complete s.log request in
    (reply, record { state = meter reply s.state; log = sent request ∷ s.log })

abbrev pub reached : Option ℕ → ℕ → Bool
reached none n = false
reached (some ceiling) n = leb ceiling n

abbrev pub interrupt_skip_reason : Text
interrupt_skip_reason = codes "review interrupted (termination signal): call skipped"

abbrev pub deadline_skip_reason : Text
deadline_skip_reason = codes "review deadline (max_review_seconds) reached: call skipped"

abbrev pub budget_skip_reason : Text
budget_skip_reason = codes "token budget (max_review_tokens) reached: call skipped"

-- the ceilings, in their order
unfoldable pub ceiling_reached : Surroundings → Run → Session → Option Text
ceiling_reached w run s =
    if w.interrupt_requested s.log
    then some interrupt_skip_reason
    else if reached run.deadline_at (w.perf_counter s.log)
    then some deadline_skip_reason
    else if reached run.budget_at s.state.tokens
    then some budget_skip_reason
    else none

-- `_skip_reason`: none to go ahead
unfoldable pub skip_reason : Surroundings → Run → Action (Option Text)
unfolding ceiling_reached
skip_reason w run s =
    let skip = ceiling_reached w run s in
    (skip, record s { log = checked (not (is_some skip)) ∷ s.log })

-- `if _skip_reason(...) is not None: return ...`, and what follows it
unfoldable pub unless_skipped :
    {A : Type 0} → Surroundings → Run → (Text → Action A) → Action A → Action A
unfolding skip_reason
unless_skipped w run stop go = do
  skip ← skip_reason w run
  (elim skip [ some t ↦ stop t | none ↦ go ])

-- `if self_talk: ...`, and the count of what is over the bound
abbrev pub count_notes : Text → ℕ → RunState → RunState
count_notes lens_id zero st = st
count_notes lens_id (suc n) st = add_self_talk lens_id (suc n) st

abbrev pub count_flood : Text → ℕ → RunState → RunState
count_flood lens_id zero st = st
count_flood lens_id (suc n) st = add_flooded lens_id (suc n) st

-- `_stamp_and_bound`, with what it counts in the run's state
unfoldable pub contribute :
    Surroundings → Run → Lens → List ReviewFinding → Action (List ReviewFinding)
unfolding add_flooded add_self_talk
contribute w run lens findings s =
    let b = stamp_and_bound w.is_word findings lens run.max_findings_per_lens in
    (
      b.findings,
      record s { state = count_flood lens.id b.flooded (count_notes lens.id b.self_talk s.state) },
    )
