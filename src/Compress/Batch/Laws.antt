-- ===== src/Compress/Batch/Laws.antt =====
-- What the batches hold and cost, for `batch_files` of engine/compress.py.
use lgtmaybe.Prelude.{
  ℕ, ◌+◌, ◌≤◌, ◌≡◌, ◌⊎◌, inl, inr, refl, sym, ap, ◌∙◌, List, [], ◌∷◌, ◌++◌, Bool, true, false, ◌&&◌,
  not, arith, if◌then◌else◌, leb, ltb, map, concat, concat-append, append_assoc, append-nil, All,
  All-append, Bool-cases,
}
use lgtmaybe.Compress.Tokens.{Counter, count_tokens}
use lgtmaybe.Compress.Batch.{
  Patch, Batching, closed, is_empty, add_file, add_files, batch_files, file_units,
}

concat-closed :
    (batches : List (List Patch)) (current : List Patch)
    → concat (closed batches current) ≡ concat batches ++ current
concat-closed batches [] = sym (append-nil (concat batches))
concat-closed batches (f ∷ fs) = simp (concat-append batches, append-nil)

module _ (counter : Counter) (max_tokens : ℕ) where
  abbrev pub tokens : List Patch → ℕ
  tokens [] = 0
  tokens ((path, patch) ∷ fs) = count_tokens counter patch + tokens fs

  -- a batch of files that fit together, or of one file that is over the budget by itself
  abbrev pub IsBatch : List Patch → Type 0
  IsBatch [] = ⊥
  IsBatch ((path, patch) ∷ fs) =
      (count_tokens counter patch + tokens fs ≤ max_tokens)
      ⊎ ((fs ≡ []) × (max_tokens ≤ count_tokens counter patch))

  -- what holds between two files
  record Keeps (b : Batching) : Type 0 where
    counted : b.current_tokens ≡ tokens b.current_batch
    fits : b.current_tokens ≤ max_tokens
    batches : All IsBatch b.batches

  held-add_file :
      (b : Batching) (f : Patch)
      → concat (add_file counter max_tokens b f).batches
          ++ (add_file counter max_tokens b f).current_batch
        ≡ (concat b.batches ++ b.current_batch) ++ f ∷ []
  unfolding add_file
  held-add_file b (path, patch) = elim (Bool-cases (leb max_tokens (count_tokens counter patch))) [
    | inl over ↦ rw over (
        simp
          (concat-append (closed b.batches b.current_batch), concat-closed b.batches, append-nil))
    | inr under ↦
        elim (Bool-cases (
          ltb max_tokens (b.current_tokens + count_tokens counter patch)
          && not (is_empty b.current_batch))) [
            | inl full ↦ rw (under, full) (simp (concat-append b.batches, append-nil))
            | inr room ↦ rw (under, room) (sym (append_assoc (concat b.batches) b.current_batch _))
          ]
  ]

  tokens-append : (fs gs : List Patch) → tokens (fs ++ gs) ≡ tokens fs + tokens gs
  tokens-append [] gs = omega arith
  tokens-append (f ∷ fs) gs = omega (arith, tokens-append fs gs)

  current-IsBatch :
      (f : Patch) (fs : List Patch) (n : ℕ)
      → n ≡ tokens (f ∷ fs)
      → n ≤ max_tokens
      → IsBatch (f ∷ fs)
  current-IsBatch f fs n counted fits = inl (omega arith)

  closed-IsBatch :
      (batches : List (List Patch)) (current : List Patch) (n : ℕ)
      → All IsBatch batches
      → n ≡ tokens current
      → n ≤ max_tokens
      → All IsBatch (closed batches current)
  closed-IsBatch batches [] n ok counted fits = ok
  closed-IsBatch batches (f ∷ fs) n ok counted fits =
      All-append IsBatch batches ((f ∷ fs) ∷ []) ok (current-IsBatch f fs n counted fits, tt)

  full-IsBatch :
      (current : List Patch) (n : ℕ)
      → not (is_empty current) ≡ true
      → n ≡ tokens current
      → n ≤ max_tokens
      → IsBatch current
  full-IsBatch [] n h counted fits = cc
  full-IsBatch (f ∷ fs) n h counted fits = current-IsBatch f fs n counted fits

  reset_zero :
      (current : List Patch) (n : ℕ) → n ≡ tokens current → (if is_empty current then n else 0) ≡ 0
  reset_zero [] n counted = counted
  reset_zero (f ∷ fs) n counted = refl

  room_fits :
      (current : List Patch) (n file_tokens : ℕ)
      → (ltb max_tokens (n + file_tokens) && not (is_empty current)) ≡ false
      → n ≡ tokens current
      → file_tokens ≤ max_tokens
      → n + file_tokens ≤ max_tokens
  room_fits [] n file_tokens room counted h = omega arith
  room_fits (f ∷ fs) n file_tokens room counted h = ground arith

  add_file-Keeps : (b : Batching) (f : Patch) → Keeps b → Keeps (add_file counter max_tokens b f)
  unfolding add_file
  add_file-Keeps b (path, patch) k =
      elim (Bool-cases (leb max_tokens (count_tokens counter patch))) [
        | inl over ↦ rw over (record {
          counted = reset_zero b.current_batch b.current_tokens k.counted;
          fits = omega (arith, reset_zero b.current_batch b.current_tokens k.counted);
          batches =
              All-append IsBatch (closed b.batches b.current_batch) (((path, patch) ∷ []) ∷ [])
                (closed-IsBatch b.batches b.current_batch b.current_tokens k.batches k.counted
                  k.fits)
                (inr (refl, ground arith), tt);
        })
        | inr under ↦
            elim (Bool-cases (
              ltb max_tokens (b.current_tokens + count_tokens counter patch)
              && not (is_empty b.current_batch))) [
                | inl full ↦
                    rw (under, full)
                      (record {
                        counted = omega arith;
                        fits = ground arith;
                        batches = All-append IsBatch b.batches (b.current_batch ∷ []) k.batches (
                          full-IsBatch b.current_batch b.current_tokens (ground arith) k.counted
                              k.fits,
                          tt,
                        );
                      })
                | inr room ↦
                    rw (under, room)
                      (record {
                        counted =
                            omega (
                              arith,
                              tokens-append b.current_batch ((path, patch) ∷ []),
                              k.counted,
                            );
                        fits =
                            room_fits b.current_batch b.current_tokens (count_tokens counter patch)
                              room k.counted (ground arith);
                        batches = k.batches;
                      })
              ]
      ]

  add_files-Keeps :
      (b : Batching) (files : List Patch) → Keeps b → Keeps (add_files counter max_tokens b files)
  unfolding add_files
  add_files-Keeps b [] k = k
  add_files-Keeps b (f ∷ fs) k =
      add_files-Keeps (add_file counter max_tokens b f) fs (add_file-Keeps b f k)

  held-add_files :
      (b : Batching) (files : List Patch)
      → concat (add_files counter max_tokens b files).batches
          ++ (add_files counter max_tokens b files).current_batch
        ≡ (concat b.batches ++ b.current_batch) ++ files
  unfolding add_files
  held-add_files b [] = sym (append-nil (concat b.batches ++ b.current_batch))
  held-add_files b (f ∷ fs) =
      held-add_files (add_file counter max_tokens b f) fs
      ∙ ap (λ held. held ++ fs) (held-add_file b f)
      ∙ append_assoc (concat b.batches ++ b.current_batch) (f ∷ []) fs

  abbrev empty : Batching
  empty = record { batches = []; current_batch = []; current_tokens = 0 }

  -- Every batch is non-empty, and its patches together are within the token budget, or it is one
  -- patch that by itself reaches the budget.
  pub batch_files-IsBatch :
      (recursive : Bool) (files : List Patch)
      → All IsBatch (batch_files counter max_tokens recursive files)
  unfolding batch_files
  batch_files-IsBatch recursive files =
      let files' =
        if recursive then concat (map (file_units counter max_tokens) files) else files in
      let b = add_files counter max_tokens empty files' in
      let k =
        add_files-Keeps empty files'
          (record { counted = refl; fits = omega arith; batches = tt }) in
      closed-IsBatch b.batches b.current_batch b.current_tokens k.batches k.counted k.fits

  -- The batches, one behind the other, are the files in their order, each once; in the recursive
  -- walk, the units of the files.
  pub concat-batch_files :
      (recursive : Bool) (files : List Patch)
      → concat (batch_files counter max_tokens recursive files)
        ≡ (if recursive then concat (map (file_units counter max_tokens) files) else files)
  unfolding batch_files
  concat-batch_files recursive files =
      let files' =
        if recursive then concat (map (file_units counter max_tokens) files) else files in
      let b = add_files counter max_tokens empty files' in
      concat-closed b.batches b.current_batch ∙ held-add_files empty files'
