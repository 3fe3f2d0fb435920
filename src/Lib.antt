-- ===== src/Lib.antt =====
-- lgtmaybe reviews a pull request: it reads the unified diff, cuts it into pieces that fit a model's
-- context, asks a model about each, and posts the findings as comments on lines of the diff. These
-- files model the part that decides without a model: what a diff says and which lines a comment can
-- stand on, how a diff is cut, how often a model is asked and what follows a call that failed, and
-- which findings are posted, and where.
--
-- The parts, and the files that model them (paths from the repository's root):
--   * Prelude, Text, Collections: lists, texts as lists of code points, lines, decimal numbers,
--     a matcher of regular expressions, insertion-ordered sets and maps behind an equality interface.
--   * Diff: src/lgtmaybe/core/diffparse.py, diff.py and diffbuild.py. Diff.Header has the regular
--     expressions on one line (`parse_hunk_header`, `is_file_header`, the `---`, `+++` and
--     `rename to` lines). Diff.Walk is `walk_diff`: the record Walk has the loop's variables and
--     `step` is one round. Diff.Index has its two clients, `changed_line_index` and
--     `build_commentable_lines`; Diff.Count is `changed_line_count`, Diff.Split `split_by_file`,
--     Diff.Locate `hunk_for_line` (Diff.Locate.Ranges compares a hunk's ranges with the walk of its
--     lines), Diff.Build the writer, `patch_from_hunks`, and Diff.Skip the filter of
--     paths, `is_reviewable`.
--   * Compress: src/lgtmaybe/engine/compress.py. Compress.Tokens has `count_tokens` and
--     `take_lines`, Compress.Hunks `split_patch_into_hunks`, Compress.Slices
--     `split_hunk_by_budget`, Compress.Batch `batch_files`, one function per round of the loop, and
--     Compress.Expand `expand_hunks`, which groups hunks by a recursion that carries the last group.
--   * Findings: what is done with the findings of all calls. Findings.Model has the types of
--     src/lgtmaybe/core/models.py, Findings.Anchor `_snap_findings`, Findings.Scan and Findings.Cap
--     the stages on scanners' findings, Findings.Merge `_dedupe` (all of
--     src/lgtmaybe/engine/engine.py), Findings.Conflicts `resolve_conflicts` of
--     src/lgtmaybe/engine/conflicts.py, Findings.Ceiling src/lgtmaybe/engine/severity.py,
--     Findings.Suppress src/lgtmaybe/engine/suppress.py with its cache as a state that is passed on,
--     Findings.Labels src/lgtmaybe/features/labels.py, Findings.SelfTalk
--     src/lgtmaybe/engine/selftalk.py, and Findings.Bound `_stamp_and_bound` of
--     src/lgtmaybe/engine/run.py.
--   * Forge: Forge.Pages is `paginate_pages` of src/lgtmaybe/core/paginate.py. A walk ends as the data
--     type Outcome says: with the items, with an error, or with no fuel left.
--   * Triage: src/lgtmaybe/engine/triage.py, with its regular expressions run by Text.Regex.
--   * Command: `parse_command` of src/lgtmaybe/cli/slash.py.
--   * Recovery: the model calls of a review. Recovery.Provider is what crosses the provider's port of
--     src/lgtmaybe/core/ports.py, and Recovery.Run src/lgtmaybe/engine/run.py: `_RunState` with a log
--     of events as the session that every action threads, `_skip_reason`, `_MeteredProvider`.
--     src/lgtmaybe/engine/recovery.py is Recovery.Reasons, Recovery.Split `_split_batch`,
--     Recovery.Pieces `_review_split` and the retry of its pieces, Recovery.Ladder the other steps of
--     `_Ladder`, and Recovery.Rescue `_rescue` (Recovery.Rescue.Attempts has what
--     a second attempt may be); src/lgtmaybe/engine/repair.py is Recovery.Repair. Of
--     src/lgtmaybe/engine/engine.py, Recovery.Lens is `_complete_lens`, `_review_lens` and
--     `_review_with_context`, which close the circle with the ladder, and Recovery.FanOut the pool of
--     `_fan_out`, in which any call in flight may complete next.
--   * Preparation: the stages of src/lgtmaybe/engine/stages.py on file patches, `filter_files`,
--     `cap_files`, `expand_context` and `batch_patches`, as `_prepare_review` of
--     src/lgtmaybe/engine/engine.py composes them.
--   * Surfacing: `_collect_findings` of src/lgtmaybe/engine/engine.py, from the findings of the calls to
--     those that are posted. Surfacing.Stages has the stages that Findings does not, Surfacing.Reflect
--     `reflect_findings` of src/lgtmaybe/engine/reflect.py, Surfacing.Rules
--     src/lgtmaybe/engine/rules.py on the patterns of Text.Glob, and Surfacing.Pipeline composes all
--     stages in their order. Surfacing.Pipeline.Kept and Surfacing.Pipeline.Flow carry a predicate on
--     findings through every stage, and Surfacing.Pipeline.Floors says what each floor asks of a finding.
--   * Tests: the theorems at concrete inputs.
--
-- How the parts interact: the batches of Compress cut patches that `split_by_file` of Diff made; a
-- slice is written with the hunk header that Diff.Header reads back. A finding is placed on a line of
-- `changed_line_index`, and posted where `build_commentable_lines` has that line.
--
-- A lens call of Recovery is sent for a batch of Compress, splits it along the hunks and slices of
-- Compress where it is too large, and stamps and bounds what it found by Findings.Bound.
--
-- Preparation makes the batches: it filters the patches of `split_by_file`, pads them by `expand_hunks`
-- and packs them by `batch_files`.
--
-- Surfacing runs the stages of Findings on what the calls of Recovery found, and places each finding in
-- the joined patches that those calls were about.
--
-- Numbers are natural numbers. Line numbers, lengths and budgets are never negative in the code
-- modelled here, and a difference is written only where the code takes it of a number and a smaller
-- one, or where a `max` beside it hides what lies below zero (`_lead_start`). A text is a list of code
-- points, and a digit of a hunk header is any decimal digit of
-- Unicode, as for Python's `\d` and `int`.
--
-- Fuel: the shrinking loop of a slice runs at most `end - start` rounds, since `end` falls in each,
-- and the loop over slices at most as many rounds as the body has lines, since each slice has one
-- line or more. Both functions are given this many rounds.
-- `complete_lens` calls itself through the ladder, and takes fuel 4: the longest chain is a call, its
-- step down, this one without the schema, and the step down of that. A call without fuel writes an
-- event of its own to the log.
-- A deferral is audited again at most `MAX_HOPS` times: `reflect_from` counts the hops that are left.
-- The page walk takes its fuel as an argument: a forge could answer without end.
--
-- Parameters: the tokenizer (tiktoken; `none` where it could not be loaded), `difflib.unified_diff`,
-- SHA-256, `str.lower`, the table of word characters, what a forge answers for a page,
-- and what the triage model says of the files it is asked about. For Recovery also the record
-- Surroundings: the provider, the adapter's optional steps, the clock and the termination signal, which
-- may answer by all that happened before; and the parts that are not modelled, the reader of replies
-- (src/lgtmaybe/engine/parse.py), the wrappers of prompts and the code that a lens asks for.
-- For Preparation: the redaction of secrets, the spans of definitions that ast-grep finds, the overhead
-- of the prompts in tokens, and what triage leaves. For Surfacing the record Outside: also one audit
-- by the model, and what its deferral fetches, on each hop.
--
-- Threads: the calls of Recovery.Rescue and the pieces of a split are made one behind the other, in the
-- order in which their pools yield. Recovery.FanOut leaves the order of completion open.
--
-- Not modelled: the network behind models and forges, the prompts, logs and timers, the scanners'
-- output, the secret patterns, configuration and the command line, which are I/O or tables of text.
pub mod Prelude
pub mod Text
pub mod Collections
pub mod Diff
pub mod Compress
pub mod Findings
pub mod Forge
pub mod Triage
pub mod Command
pub mod Recovery
pub mod Preparation
pub mod Surfacing
pub mod Tests
