-- ===== src/Compress/Batch.antt =====
-- `batch_files` of engine/compress.py.
pub mod Laws
use lgtmaybe.Prelude.{
  ℕ, zero, suc, ◌+◌, ◌-◌, ◌≤◌, ◌<◌, ◌≡◌, ◌≢◌, refl, List, [], ◌∷◌, ◌++◌, Bool, true, false, ◌&&◌,
  not, Option, none, some, arith, if◌then◌else◌, leb, ltb, map, concat,
}
use lgtmaybe.Text.{Text}
use lgtmaybe.Compress.Tokens.{Counter, count_tokens}
use lgtmaybe.Compress.Hunks.{split_patch_into_hunks}
use lgtmaybe.Compress.Slices.{split_hunk_by_budget}

-- one file's patch: (path, patch)
abbrev pub Patch : Type 0
Patch = Text × Text

-- the variables of the loop
pub record Batching : Type 0 where
  pub batches : List (List Patch)
  pub current_batch : List Patch
  pub current_tokens : ℕ

abbrev pub is_empty {ℓ} : {A : Type ℓ} → List A → Bool
is_empty [] = true
is_empty (x ∷ xs) = false

-- `if current_batch: batches.append(current_batch)`
abbrev pub closed : List (List Patch) → List Patch → List (List Patch)
closed batches [] = batches
closed batches (f ∷ fs) = batches ++ (f ∷ fs) ∷ []

module _ (counter : Counter) (max_tokens : ℕ) where
  -- one file
  unfoldable pub add_file : Batching → Patch → Batching
  add_file b (path, patch) =
      let file_tokens = count_tokens counter patch in
      if leb max_tokens file_tokens
      then record {
        batches = closed b.batches b.current_batch ++ ((path, patch) ∷ []) ∷ [];
        current_batch = [];
        current_tokens = (if is_empty b.current_batch then b.current_tokens else 0);
      }
      else if ltb max_tokens (b.current_tokens + file_tokens) && not (is_empty b.current_batch)
      then record {
        batches = b.batches ++ b.current_batch ∷ [];
        current_batch = (path, patch) ∷ [];
        current_tokens = file_tokens;
      }
      else record {
        batches = b.batches;
        current_batch = b.current_batch ++ (path, patch) ∷ [];
        current_tokens = b.current_tokens + file_tokens;
      }

  unfoldable pub add_files : Batching → List Patch → Batching
  unfolding add_file
  add_files b [] = b
  add_files b (f ∷ fs) = add_files (add_file b f) fs

  -- what the recursive walk makes of one file
  unfoldable pub hunk_units : Text → List Text → List Patch
  hunk_units path [] = []
  hunk_units path (hunk ∷ hunks) =
      (if leb max_tokens (count_tokens counter hunk)
        then map (λ piece. (path, piece)) (split_hunk_by_budget counter hunk max_tokens)
        else (path, hunk) ∷ [])
      ++ hunk_units path hunks

  unfoldable pub file_units : Patch → List Patch
  unfolding hunk_units
  file_units (path, patch) =
      if ltb (count_tokens counter patch) max_tokens
      then (path, patch) ∷ []
      else hunk_units path (split_patch_into_hunks patch)

  unfoldable pub batch_files : Bool → List Patch → List (List Patch)
  unfolding add_files file_units
  batch_files recursive files =
      let files' = if recursive then concat (map file_units files) else files in
      let b = add_files (record { batches = []; current_batch = []; current_tokens = 0 }) files' in
      closed b.batches b.current_batch
