-- ===== src/Preparation.antt =====
-- From the diff of a pull request to the batches of its files: the stages of engine/stages.py that
-- `_prepare_review` of engine/engine.py runs on file patches.
pub mod Laws
use lgtmaybe.Prelude.{
  ℕ, suc, ◌+◌, ◌-◌, ◌*◌, Bool, true, false, not, ◌&&◌, ◌||◌, Option, none, some, List, [], ◌∷◌,
  if◌then◌else◌, leb, ltb, ◌==◌, max, min, any, take, map, length, keep_if,
}
use lgtmaybe.Text.{Text, nl}
use lgtmaybe.Text.Glob.{matches_glob}
use lgtmaybe.Collections.{text_is_eq}
use lgtmaybe.Collections.Dict.{get}
use lgtmaybe.Diff.Skip.{is_reviewable}
use lgtmaybe.Diff.Split.{split_by_file}
use lgtmaybe.Compress.Tokens.{
  Counter, count_tokens, context_lines_for_budget, trailing_context_lines,
}
use lgtmaybe.Compress.Batch.{Patch, batch_files}
use lgtmaybe.Compress.Expand.{Span, expand_hunks}

-- the fields of `BatchingConfig` that these stages read
pub record BatchingConfig : Type 0 where
  pub include_paths : List Text
  pub exclude_paths : List Text
  pub max_file_diff_lines : ℕ
  pub max_files : ℕ
  pub max_input_tokens : ℕ
  pub context_lines : ℕ
  pub recursive : Bool

abbrev some_path : List Text → Bool
some_path [] = false
some_path (p ∷ ps) = true

unfoldable pub passes_path_filters : Text → List Text → List Text → Bool
passes_path_filters path include exclude =
    if some_path include && not (any (matches_glob path) include)
    then false
    else not (any (matches_glob path) exclude)

-- `patch.count("\n")`
unfoldable pub newlines : Text → ℕ
newlines [] = 0
newlines (c ∷ s) = let rest = newlines s in if c == nl then suc rest else rest

unfoldable pub passes_size_cap : Text → ℕ → Bool
unfolding newlines
passes_size_cap patch max_lines = max_lines == 0 || leb (newlines patch) max_lines

-- the patches and the paths of those that are too long
abbrev pub FilteredFiles : Type 0
FilteredFiles = List Patch × List Text

-- the loop of the size cap
unfoldable pub sized : ℕ → List Patch → FilteredFiles
unfolding passes_size_cap
sized max_lines [] = ([], [])
sized max_lines ((path, patch) ∷ files) =
    let (kept, oversized) = sized max_lines files in
    if passes_size_cap patch max_lines
    then ((path, patch) ∷ kept, oversized)
    else (kept, path ∷ oversized)

module _ (batching : BatchingConfig) where
  unfoldable pub is_eligible : Patch → Bool
  unfolding passes_path_filters
  is_eligible file =
      is_reviewable file.0
      && passes_path_filters file.0 batching.include_paths batching.exclude_paths

  unfoldable pub filter_files : Text → List Text → FilteredFiles
  unfolding is_eligible sized
  filter_files diff changed_files =
      sized batching.max_file_diff_lines (keep_if is_eligible (split_by_file diff changed_files))

  unfoldable pub cap_files : List Patch → List Patch × Bool
  cap_files file_patches =
      let capped_files = ltb batching.max_files (length file_patches) in
      (if capped_files then take batching.max_files file_patches else file_patches, capped_files)

  -- `overhead` is what `_prompt_overhead_tokens` measures
  unfoldable pub batch_budget : ℕ → ℕ
  batch_budget overhead =
      if leb batching.max_input_tokens (overhead * 2)
      then max 1 batching.max_input_tokens
      else batching.max_input_tokens - overhead

  abbrev used_tokens : Counter → List Patch → ℕ
  used_tokens counter [] = 0
  used_tokens counter (file ∷ files) = count_tokens counter file.1 + used_tokens counter files

  abbrev or_empty_text : Option Text → Text
  or_empty_text none = []
  or_empty_text (some text) = text

  -- The redaction of secrets and the spans that ast-grep finds in a file's text are parameters.
  module _ (counter : Counter) (redact : Text → Text) (spans : Text → List Span)
      (file_contents : List (Text × Text)) where
    unfoldable pub expand_file : ℕ → Patch → Patch
    expand_file ctx_lines (path, patch) = (
      path,
      expand_hunks patch (some (redact (or_empty_text (get path file_contents)))) ctx_lines
          (trailing_context_lines ctx_lines) (spans path),
    )

    abbrev no_contents : List (Text × Text) → Bool
    no_contents [] = true
    no_contents (file ∷ files) = false

    unfoldable pub expand_context : List Patch → List Patch
    unfolding expand_file
    expand_context file_patches =
        let remaining = batching.max_input_tokens - used_tokens counter file_patches in
        let ctx_lines = min batching.context_lines (context_lines_for_budget remaining) in
        if ltb 0 ctx_lines && not (no_contents file_contents)
        then map (expand_file ctx_lines) file_patches
        else file_patches

    unfoldable pub batch_patches : List Patch → ℕ → List (List Patch)
    unfolding batch_budget
    batch_patches file_patches overhead =
        batch_files counter (batch_budget overhead) batching.recursive file_patches

    -- The stages in their order. `triage` is `triage_patches`, which gives what it leaves and the paths
    -- that it skips. Behind `filter_files` the source raises `ReviewIncompleteError` if files are left and
    -- no lens can run: that guard is not modelled, so this is what the stages give where it lets the
    -- review go on.
    unfoldable pub prepare_batches :
        (List Patch → List Patch × List Text) → Text → List Text → ℕ → List (List Patch)
    unfolding filter_files cap_files expand_context batch_patches
    prepare_batches triage diff changed_files overhead =
        let (patches, oversized) = filter_files diff changed_files in
        let (triaged, skipped_by_triage) = triage patches in
        let (capped, capped_files) = cap_files triaged in
        batch_patches (expand_context capped) overhead
