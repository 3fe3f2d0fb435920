-- ===== src/Compress/Expand/Bounds.antt =====
-- The numbers in the headers that `expand_hunks` writes.
use lgtmaybe.Prelude.{
  ℕ, zero, suc, ◌+◌, ◌-◌, ◌≤◌, inl, inr, ◌&&◌, List, [], ◌∷◌, ◌++◌, arith, max, min, take, drop,
  length, All, All-imp, Bool-cases,
}
use lgtmaybe.Text.{Text}
use lgtmaybe.Compress.Expand.{
  Span, Hunk, Group, first_new, first_old, widened, enclosing_boundary, lead_start_of, reaches,
  fillable, trimmed, trail_end, group_from, group_hunks, lead_end, leading,
}

length-take_le : (n : ℕ) (ls : List Text) → length (take n ls) ≤ n
length-take_le zero ls = omega arith
length-take_le (suc n) [] = omega arith
length-take_le (suc n) (l ∷ ls) = omega (arith, length-take_le n ls)

max_right : (m n : ℕ) → n ≤ max m n
max_right m n = ground arith

max_left : (m n : ℕ) → m ≤ max m n
max_left m n = ground arith

min_left : (m n : ℕ) → min m n ≤ m
min_left m n = ground arith

pad_le :
    (first_new first_old lead_start len : ℕ)
    → first_new + 1 ≤ lead_start + first_old
    → let end = min first_new len in
      (end - 1 - (min lead_start end - 1) ≤ first_old - 1)
      × (end - 1 - (min lead_start end - 1) ≤ first_new - 1)
pad_le first_new first_old lead_start len h = (ground arith, ground arith)

-- the pad of the group does not reach above the first line of the old file
abbrev Clear : Group → Type 0
Clear g = first_new g.first + 1 ≤ g.lead_start + first_old g.first

lead_start_clear :
    (h : Hunk) (n : ℕ) (boundaries : List Span)
    → first_new h + 1 ≤ lead_start_of h n boundaries + first_old h
unfolding lead_start_of
lead_start_clear h n boundaries = omega (
  arith,
  max_right (widened (max 1 (first_new h - n)) (enclosing_boundary boundaries (first_new h)))
      (first_new h + 1 - first_old h),
)

module _ (content_lines : List Text) (n n_after : ℕ) (boundaries : List Span) where
  trimmed_clear :
      (g : Group) (h : Hunk)
      → first_new h + 1 ≤ trimmed content_lines n n_after boundaries g h + first_old h
  trimmed_clear g h = elim (Bool-cases (reaches content_lines n n_after boundaries g h)) [
    | inl e ↦ rw e (
        omega (
          arith,
          lead_start_clear h n boundaries,
          max_left (lead_start_of h n boundaries)
              (trail_end content_lines n n_after boundaries g + 1),
        ))
    | inr e ↦ rw e (lead_start_clear h n boundaries)
  ]

  group_from-Clear :
      (g : Group) (hs : List Hunk)
      → Clear g
      → All Clear (group_from content_lines n n_after boundaries g hs)
  unfolding group_from
  group_from-Clear g [] k = (k, tt)
  group_from-Clear g (h ∷ hs) k =
      elim (Bool-cases (
        reaches content_lines n n_after boundaries g h
        && fillable content_lines n n_after boundaries h)) [
          | inl e ↦ rw e (group_from-Clear (record g { more = g.more ++ h ∷ [] }) hs k)
          | inr e ↦
              let next : Group = record {
                first = h;
                more = [];
                lead_start = trimmed content_lines n n_after boundaries g h;
              } in
              rw e (k, group_from-Clear next hs (trimmed_clear g h))
        ]

  leading-le :
      (g : Group)
      → Clear g
      → (length (leading content_lines n n_after boundaries g) ≤ first_old g.first - 1)
        × (length (leading content_lines n n_after boundaries g) ≤ first_new g.first - 1)
  unfolding leading
  leading-le g k =
      let end = lead_end content_lines n n_after boundaries g in
      let start = min g.lead_start end - 1 in
      let short = length-take_le (end - 1 - start) (drop start content_lines) in
      let (old, new) =
        pad_le (first_new g.first) (first_old g.first) g.lead_start (length content_lines + 1) k in
      (omega (arith, short, old), omega (arith, short, new))

  -- No padded hunk begins above line 1, in the old or in the new file: the pad in front of it has fewer
  -- lines than the number of its first line, unless that is 0 and the pad is empty.
  pub group_hunks-leading :
      (hs : List Hunk)
      → All
          (λ g.
            (length (leading content_lines n n_after boundaries g) ≤ first_old g.first - 1)
            × (length (leading content_lines n n_after boundaries g) ≤ first_new g.first - 1))
          (group_hunks content_lines n n_after boundaries hs)
  unfolding group_hunks
  group_hunks-leading [] = tt
  group_hunks-leading (h ∷ hs) =
      All-imp Clear _ leading-le _ (group_from-Clear _ hs (lead_start_clear h n boundaries))
