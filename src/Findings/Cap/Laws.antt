-- ===== src/Findings/Cap/Laws.antt =====
-- Which findings `_cap_scans` of engine/engine.py keeps.
use lgtmaybe.Prelude.{
  ℕ, zero, suc, ◌≤◌, ◌≡◌, ◌⊎◌, inl, inr, refl, ap, ◌∙◌, Bool, not, List, [], ◌∷◌, ◌++◌, arith, leb,
  keep_if, length, take, drop, take-append-drop, All, All-imp, Bool-cases, ◌==◌,
}
use lgtmaybe.Findings.Model.{ReviewFinding, rank}
use lgtmaybe.Findings.Scan.{is_scan_finding}
use lgtmaybe.Findings.Cap.{max_scan_findings, insert_by_rank, sort_by_rank, cap_scans}

-- no finding of the list is more severe
abbrev pub Below : ℕ → List ReviewFinding → Type 0
Below n = All (λ g. rank g.severity ≤ n)

abbrev Sorted : List ReviewFinding → Type 0
Sorted [] = Unit
Sorted (f ∷ fs) = Below (rank f.severity) fs × Sorted fs

Below-imp : (m n : ℕ) (fs : List ReviewFinding) → m ≤ n → Below m fs → Below n fs
Below-imp m n fs le h = All-imp _ _ (λ g k. omega arith) fs h

Below-insert_by_rank :
    (n : ℕ) (f : ReviewFinding) (fs : List ReviewFinding)
    → rank f.severity ≤ n
    → Below n fs
    → Below n (insert_by_rank f fs)
unfolding insert_by_rank
Below-insert_by_rank n f [] le h = (le, tt)
Below-insert_by_rank n f (g ∷ gs) le h =
    elim (Bool-cases (leb (rank g.severity) (rank f.severity))) [
      | inl e ↦ rw e (le, h)
      | inr e ↦ rw e (h.0, Below-insert_by_rank n f gs le h.1)
    ]

Sorted-insert_by_rank :
    (f : ReviewFinding) (fs : List ReviewFinding) → Sorted fs → Sorted (insert_by_rank f fs)
unfolding insert_by_rank
Sorted-insert_by_rank f [] h = (tt, tt)
Sorted-insert_by_rank f (g ∷ gs) h = elim (Bool-cases (leb (rank g.severity) (rank f.severity))) [
  | inl e ↦
      rw e ((ground arith, Below-imp (rank g.severity) (rank f.severity) gs (ground arith) h.0), h)
  | inr e ↦ rw e (
    Below-insert_by_rank (rank g.severity) f gs (ground arith) h.0,
    Sorted-insert_by_rank f gs h.1,
  )
]

Sorted-sort_by_rank : (fs : List ReviewFinding) → Sorted (sort_by_rank fs)
unfolding sort_by_rank
Sorted-sort_by_rank [] = tt
Sorted-sort_by_rank (f ∷ fs) = Sorted-insert_by_rank f (sort_by_rank fs) (Sorted-sort_by_rank fs)

-- the findings of one severity, by its rank
abbrev pub of_rank : ℕ → ReviewFinding → Bool
of_rank n f = rank f.severity == n

keep_if-insert_by_rank :
    (n : ℕ) (f : ReviewFinding) (fs : List ReviewFinding)
    → keep_if (of_rank n) (insert_by_rank f fs) ≡ keep_if (of_rank n) (f ∷ fs)
unfolding insert_by_rank
keep_if-insert_by_rank n f [] = refl
keep_if-insert_by_rank n f (g ∷ gs) = ground (arith, keep_if-insert_by_rank n f gs)

keep_if-cons :
    (n : ℕ) (f : ReviewFinding) (fs gs : List ReviewFinding)
    → keep_if (of_rank n) fs ≡ keep_if (of_rank n) gs
    → keep_if (of_rank n) (f ∷ fs) ≡ keep_if (of_rank n) (f ∷ gs)
keep_if-cons n f fs gs h = rw h

keep_if-sort_by_rank :
    (n : ℕ) (fs : List ReviewFinding)
    → keep_if (of_rank n) (sort_by_rank fs) ≡ keep_if (of_rank n) fs
unfolding sort_by_rank
keep_if-sort_by_rank n [] = refl
keep_if-sort_by_rank n (f ∷ fs) =
    keep_if-insert_by_rank n f (sort_by_rank fs)
    ∙ keep_if-cons n f (sort_by_rank fs) fs (keep_if-sort_by_rank n fs)

Below-drop : (n : ℕ) (m : ℕ) (fs : List ReviewFinding) → Below n fs → Below n (drop m fs)
Below-drop n zero fs h = h
Below-drop n (suc m) [] h = tt
Below-drop n (suc m) (f ∷ fs) h = Below-drop n m fs h.1

-- the findings behind a cut are no more severe than those in front of it
Sorted-cut :
    (n : ℕ) (fs : List ReviewFinding)
    → Sorted fs
    → All (λ f. Below (rank f.severity) (drop n fs)) (take n fs)
Sorted-cut zero fs h = tt
Sorted-cut (suc n) [] h = tt
Sorted-cut (suc n) (f ∷ fs) h = (Below-drop (rank f.severity) n fs h.0, Sorted-cut n fs h.1)

pub length-take : (n : ℕ) (fs : List ReviewFinding) → n ≤ length fs → length (take n fs) ≡ n
length-take zero fs h = refl
length-take (suc n) [] h = absurd (omega arith)
length-take (suc n) (f ∷ fs) h = ap suc (length-take n fs (omega arith))

length-insert_by_rank :
    (f : ReviewFinding) (fs : List ReviewFinding) → length (insert_by_rank f fs) ≡ suc (length fs)
unfolding insert_by_rank
length-insert_by_rank f [] = refl
length-insert_by_rank f (g ∷ gs) = ground (arith, length-insert_by_rank f gs)

pub length-sort_by_rank : (fs : List ReviewFinding) → length (sort_by_rank fs) ≡ length fs
unfolding sort_by_rank
length-sort_by_rank [] = refl
length-sort_by_rank (f ∷ fs) =
    length-insert_by_rank f (sort_by_rank fs) ∙ ap suc (length-sort_by_rank fs)

-- `_cap_scans` changes nothing where there are at most 20 scan findings. Otherwise it keeps every other
-- finding, in order, and behind these 20 scan findings: with the dropped ones they are the scan
-- findings, of each severity in their order, and no dropped one is more severe than a kept one.
pub cap_scans-cases :
    (findings : List ReviewFinding) (off_diff : ℕ)
    → let scans = keep_if is_scan_finding findings in
      ((length scans ≤ max_scan_findings) × (cap_scans findings off_diff ≡ findings))
      ⊎ ((kept : List ReviewFinding) × (dropped : List ReviewFinding) × (cap_scans findings off_diff
            ≡ keep_if (λ f. not (is_scan_finding f)) findings ++ kept)
          × (length kept ≡ max_scan_findings)
          × ((n : ℕ) → keep_if (of_rank n) (kept ++ dropped) ≡ keep_if (of_rank n) scans)
          × All (λ f. Below (rank f.severity) dropped) kept)
unfolding cap_scans
cap_scans-cases findings off_diff =
    let scans = keep_if is_scan_finding findings in
    let sorted = sort_by_rank scans in
    elim (Bool-cases (leb (length scans) max_scan_findings)) [
      | inl few ↦ inl (ground arith, rw few)
      | inr many ↦ inr (
        take max_scan_findings sorted,
        drop max_scan_findings sorted,
        rw many,
        length-take max_scan_findings sorted (ground (arith, length-sort_by_rank scans)),
        λ n.
            ap (keep_if (of_rank n)) (take-append-drop max_scan_findings sorted)
            ∙ keep_if-sort_by_rank n scans,
        Sorted-cut max_scan_findings sorted (Sorted-sort_by_rank scans),
      )
    ]
