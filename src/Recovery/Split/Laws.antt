-- ===== src/Recovery/Split/Laws.antt =====
-- The pieces of `_split_batch` of engine/recovery.py.
use lgtmaybe.Prelude.{
  ◌+◌, ◌*◌, ◌/◌, ◌-◌, ◌≤◌, ◌≡◌, refl, Bool, List, [], ◌∷◌, ◌++◌, arith, length, take, drop, concat,
  ap, ◌∙◌, append-nil, take-append-drop, All, length-drop, length-append,
}
use lgtmaybe.Compress.Tokens.{Counter}
use lgtmaybe.Compress.Batch.{Patch}
use lgtmaybe.Recovery.Split.{halves, split_batch}

halves-whole {ℓ} : {A : Type ℓ} (xs : List A) → concat (halves xs) ≡ xs
halves-whole xs =
    ap (λ ys. take (length xs / 2) xs ++ ys) (append-nil (drop (length xs / 2) xs))
    ∙ take-append-drop (length xs / 2) xs

halves_sizes {ℓ} :
    {A : Type ℓ} (xs : List A)
    → (length (take (length xs / 2) xs) ≡ length xs / 2)
      × (length (drop (length xs / 2) xs) ≡ length xs - length xs / 2)
halves_sizes xs = (
  omega (
    arith,
    length-append (take (length xs / 2) xs) (drop (length xs / 2) xs),
    ap length (take-append-drop (length xs / 2) xs),
    length-drop (length xs / 2) xs,
  ),
  length-drop (length xs / 2) xs,
)

-- A batch of two or more files is split into two pieces, which hold its files in their order; neither is
-- empty, and neither is more than one file larger than the other.
split_batch-whole :
    (counter : Counter) (slice_hunks : Bool) (batch : List Patch)
    → 2 ≤ length batch
    → (concat (split_batch counter slice_hunks batch) ≡ batch)
      × (length (split_batch counter slice_hunks batch) ≡ 2)
      × All
          (λ piece. (length batch ≤ 2 * length piece + 1) × (2 * length piece ≤ length batch + 1))
          (split_batch counter slice_hunks batch)
unfolding split_batch
split_batch-whole counter slice_hunks [] h = absurd (omega (arith, h))
split_batch-whole counter slice_hunks (f ∷ []) h = absurd (omega (arith, h))
split_batch-whole counter slice_hunks (f ∷ g ∷ fs) h =
    let (front, back) = halves_sizes (f ∷ g ∷ fs) in
    (
      halves-whole (f ∷ g ∷ fs),
      refl,
      (
        (omega (arith, front), omega (arith, front)),
        ((omega (arith, back), omega (arith, back)), tt),
      ),
    )
