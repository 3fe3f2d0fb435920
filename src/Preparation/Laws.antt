-- ===== src/Preparation/Laws.antt =====
-- What the batches show of the files of a pull request.
use lgtmaybe.Prelude.{
  ℕ, ◌≡◌, refl, ap, ◌∙◌, inl, inr, not, ◌&&◌, List, [], ◌∷◌, if◌then◌else◌, map, concat, Bool-cases,
  keep_if, ltb, min, ◌-◌,
}
use lgtmaybe.Text.{Text}
use lgtmaybe.Text.Lines.{lines}
use lgtmaybe.Compress.Tokens.{Counter, context_lines_for_budget}
use lgtmaybe.Compress.Batch.{Patch, file_units}
use lgtmaybe.Compress.Batch.Laws.{concat-batch_files}
use lgtmaybe.Compress.Expand.{Span}
use lgtmaybe.Compress.Expand.Laws.{changes}
use lgtmaybe.Compress.Expand.Whole.{expand_hunks-changes}
use lgtmaybe.Diff.Split.{split_by_file}
use lgtmaybe.Preparation.{
  BatchingConfig, passes_size_cap, sized, is_eligible, filter_files, cap_files, batch_budget,
  used_tokens, expand_file, no_contents, expand_context, batch_patches, prepare_batches,
}

-- the path, and the lines that the patch adds and deletes
abbrev pub seen : Patch → Text × List Text
seen file = (file.0, changes (lines file.1))

-- what is small enough, in order
sized-keep_if :
    (max_lines : ℕ) (files : List Patch)
    → (sized max_lines files).0 ≡ keep_if (λ (f : Patch). passes_size_cap f.1 max_lines) files
unfolding sized
sized-keep_if max_lines [] = refl
sized-keep_if max_lines ((path, patch) ∷ files) =
    elim (Bool-cases (passes_size_cap patch max_lines)) [
      | inl e ↦ rw e (ap (λ fs. (path, patch) ∷ fs) (sized-keep_if max_lines files))
      | inr e ↦ rw e (sized-keep_if max_lines files)
    ]

module _ (batching : BatchingConfig) (counter : Counter) (redact : Text → Text)
    (spans : Text → List Span) (file_contents : List (Text × Text)) where
  expand_file-seen :
      (ctx_lines : ℕ) (file : Patch)
      → seen (expand_file batching counter redact spans file_contents ctx_lines file) ≡ seen file
  unfolding expand_file
  expand_file-seen ctx_lines (path, patch) =
      ap (λ ls. (path, ls)) (expand_hunks-changes patch _ ctx_lines _ (spans path))

  map-seen :
      (ctx_lines : ℕ) (files : List Patch)
      → map seen (map (expand_file batching counter redact spans file_contents ctx_lines) files)
        ≡ map seen files
  map-seen ctx_lines [] = refl
  map-seen ctx_lines (f ∷ fs) = rw (expand_file-seen ctx_lines f, map-seen ctx_lines fs)

  expand_context-seen :
      (files : List Patch)
      → map seen (expand_context batching counter redact spans file_contents files) ≡ map seen files
  unfolding expand_context
  expand_context-seen files =
      let ctx_lines = min batching.context_lines (
        context_lines_for_budget
          (batching.max_input_tokens - used_tokens batching counter files)) in
      elim (Bool-cases (
        ltb 0 ctx_lines
        && not (no_contents batching counter redact spans file_contents file_contents))) [
          | inl e ↦ rw e (map-seen ctx_lines files)
          | inr e ↦ rw e
        ]

  -- the files that are small enough and that the filters let through
  abbrev pub reviewable_files : Text → List Text → List Patch
  reviewable_files diff changed_files =
      keep_if (λ (f : Patch). passes_size_cap f.1 batching.max_file_diff_lines)
        (keep_if (is_eligible batching) (split_by_file diff changed_files))

  -- The batches, one behind the other, are the patches of some files, once and in order, each cut into
  -- its units where the configuration says so. These files are those that the filters of names, paths and
  -- size, triage and the cap on files leave, in their order, and each patch has all lines that the file's
  -- own patch adds and deletes, and no others: the padding with context changes nothing else.
  pub prepare_batches-seen :
      (triage : List Patch → List Patch × List Text) (diff : Text) (changed_files : List Text)
      (overhead : ℕ)
      → (padded : List Patch) × (map seen padded
          ≡ map seen (cap_files batching (triage (reviewable_files diff changed_files)).0).0)
        × (concat (
              prepare_batches batching counter redact spans file_contents triage diff changed_files
                overhead)
            ≡ (if batching.recursive
                then concat (map (file_units counter (batch_budget batching overhead)) padded)
                else padded))
  unfolding prepare_batches filter_files batch_patches
  prepare_batches-seen triage diff changed_files overhead =
      let eligible = keep_if (is_eligible batching) (split_by_file diff changed_files) in
      let sized_files = (sized batching.max_file_diff_lines eligible).0 in
      let capped = (cap_files batching (triage sized_files).0).0 in
      let padded = expand_context batching counter redact spans file_contents capped in
      (
        padded,
        expand_context-seen capped
            ∙ ap (λ files. map seen (cap_files batching (triage files).0).0)
                (sized-keep_if batching.max_file_diff_lines eligible),
        concat-batch_files counter (batch_budget batching overhead) batching.recursive padded,
      )
