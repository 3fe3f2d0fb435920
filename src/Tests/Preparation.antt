-- ===== src/Tests/Preparation.antt =====
-- A concrete input for the theorem on the batches of a pull request (engine/stages.py).
use lgtmaybe.Prelude.{◌≡◌, refl, true, false, some, List, [], ◌∷◌, concat, map, length}
use lgtmaybe.Text.{Text, codes}
use lgtmaybe.Text.Lines.{unlines}
use lgtmaybe.Text.Glob.{matches_glob}
use lgtmaybe.Compress.Batch.{Patch, file_units}
use lgtmaybe.Preparation.{
  BatchingConfig, batch_budget, prepare_batches, cap_files, passes_path_filters,
}
use lgtmaybe.Preparation.Laws.{seen, reviewable_files, prepare_batches-seen}

abbrev diff : Text
diff = unlines (
    codes "diff --git a/f.py b/f.py"
    ∷ codes "--- a/f.py"
    ∷ codes "+++ b/f.py"
    ∷ codes "@@ -2 +2 @@"
    ∷ codes "-b"
    ∷ codes "+B"
    ∷ codes "diff --git a/uv.lock b/uv.lock"
    ∷ codes "--- a/uv.lock"
    ∷ codes "+++ b/uv.lock"
    ∷ codes "@@ -1 +1 @@"
    ∷ codes "-1"
    ∷ codes "+2"
    ∷ [])

abbrev batching : BatchingConfig
batching = record {
  include_paths = codes "**/*.py" ∷ codes "*.lock" ∷ [];
  exclude_paths = codes "docs/*" ∷ [];
  max_file_diff_lines = 1500;
  max_files = 30;
  max_input_tokens = 100000;
  context_lines = 10;
  recursive = true;
}

abbrev contents : List (Text × Text)
contents = (codes "f.py", codes "a\nB\nc\n") ∷ []

prepare_batches-seen_example :
    (padded : List Patch) × (map seen padded
      ≡ map seen
          (cap_files batching
            (reviewable_files batching (some length) (λ s. s) (λ path. []) contents diff [])).0)
    × (concat (
          prepare_batches batching
            (some length)
            (λ s. s)
            (λ path. [])
            contents
            (λ files. (files, []))
            diff
            []
            400)
        ≡ concat (map (file_units (some length) (batch_budget batching 400)) padded))
prepare_batches-seen_example =
    prepare_batches-seen batching (some length) (λ s. s) (λ path. []) contents
      (λ files. (files, [])) diff [] 400

filters_run :
    (passes_path_filters (codes "a/f.py") batching.include_paths batching.exclude_paths ≡ true)
    × (passes_path_filters (codes "f.py") batching.include_paths batching.exclude_paths ≡ true)
    × (passes_path_filters (codes "a/f.md") batching.include_paths batching.exclude_paths ≡ false)
    × (passes_path_filters (codes "docs/f.py") batching.include_paths batching.exclude_paths
        ≡ false)
unfolding passes_path_filters matches_glob
filters_run = (refl, refl, refl, refl)
