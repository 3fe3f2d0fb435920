-- ===== src/Recovery/Repair.antt =====
-- `repair_findings` of engine/repair.py: one reformat of a reply that would not parse.
use lgtmaybe.Prelude.{
  ℕ, Bool, true, false, ◌||◌, not, Option, none, some, List, if◌then◌else◌, take,
}
use lgtmaybe.Text.{Text}
use lgtmaybe.Text.Words.{strip}
use lgtmaybe.Findings.Model.{ReviewFinding}
use lgtmaybe.Recovery.Provider.{
  Request, repair_messages, Reply, failed, answered, ParseFailure, empty, prose, malformed_json,
  not_findings, schema, cut, parsed, parse_error,
}
use lgtmaybe.Recovery.Run.{Surroundings, Run, Action, pure, ◌>>=◌, metered_complete}
use lgtmaybe.Recovery.Reasons.{is_empty_text}

-- `_RECOVERABLE`
abbrev pub is_recoverable : ParseFailure → Bool
is_recoverable prose = true
is_recoverable malformed_json = true
is_recoverable not_findings = true
is_recoverable schema = true
is_recoverable empty = false
is_recoverable cut = false

abbrev pub max_reply_chars : ℕ
max_reply_chars = 20_000

-- the findings of a reply, none where the call or the parser raised
abbrev pub reformatted : Surroundings → Reply → Option (List ReviewFinding)
reformatted w (failed exc) = none
reformatted w (answered result) = elim (w.parse_findings result.text) [
  | parsed findings ↦ some findings
  | parse_error shape recovered ↦ none
]

-- the reply, cut to its size, is neutralised where the messages are written
abbrev pub repair_request : Run → Text → Request
repair_request run reply = record {
  messages = repair_messages (take max_reply_chars reply);
  model = run.cfg_model;
  response_format = run.structured_output;
  effort = none;
  model_override = none;
  defer_truncation = false;
}

unfoldable pub repair_findings :
    Surroundings → Run → Text → ParseFailure → Action (Option (List ReviewFinding))
repair_findings w run reply shape =
    if not run.repair_unparseable || (not (is_recoverable shape) || is_empty_text (strip reply))
    then pure none
    else do answer ← metered_complete w (repair_request run reply); pure (reformatted w answer)
