-- ===== src/Compress/Hunks.antt =====
-- `split_patch_into_hunks` of engine/compress.py.
use lgtmaybe.Prelude.{
  ◌≡◌, refl, ap, ◌∙◌, List, [], ◌∷◌, ◌++◌, Bool, true, false, arith, if◌then◌else◌, map, concat,
  append_assoc, All, Bool-cases, inl, inr,
}
use lgtmaybe.Text.{Text, codes, starts_with}
use lgtmaybe.Text.Lines.{lines_keepends, concat-lines_keepends}

abbrev pub is_hunk_line : Text → Bool
is_hunk_line line = starts_with line (codes "@@")

-- `lines[:i]` and `lines[i:]` for the first `i` whose line starts with "@@"
unfoldable pub before_hunk : List Text → List Text
before_hunk [] = []
before_hunk (l ∷ ls) = let rest = before_hunk ls in if is_hunk_line l then [] else l ∷ rest

unfoldable pub from_hunk : List Text → List Text
from_hunk [] = []
from_hunk (l ∷ ls) = let rest = from_hunk ls in if is_hunk_line l then l ∷ ls else rest

-- the loop over the lines from the first hunk on; `current` is the hunk so far
unfoldable pub group_units : List Text → List Text → List Text → List Text
group_units header [] [] = []
group_units header (c ∷ current) [] = concat (header ++ c ∷ current) ∷ []
group_units header [] (l ∷ ls) = group_units header (l ∷ []) ls
group_units header (c ∷ current) (l ∷ ls) =
    let cut = concat (header ++ c ∷ current) ∷ group_units header (l ∷ []) ls in
    let grown = group_units header (c ∷ current ++ l ∷ []) ls in
    if is_hunk_line l then cut else grown

abbrev pub units_of : List Text → List Text → Text → List Text
units_of header [] patch = patch ∷ []
units_of header (l ∷ ls) patch = group_units header [] (l ∷ ls)

unfoldable pub split_patch_into_hunks : Text → List Text
unfolding before_hunk from_hunk group_units
split_patch_into_hunks patch =
    let lines = lines_keepends patch in units_of (before_hunk lines) (from_hunk lines) patch

-- A hunk of whole lines: it begins with an "@@" line and holds no other.
abbrev pub OneHunk : List Text → Type 0
OneHunk [] = ⊥
OneHunk (l ∷ ls) = (is_hunk_line l ≡ true) × All (λ m. is_hunk_line m ≡ false) ls

before-from_hunk : (ls : List Text) → before_hunk ls ++ from_hunk ls ≡ ls
unfolding before_hunk from_hunk
before-from_hunk [] = refl
before-from_hunk (l ∷ ls) = ground (arith, before-from_hunk ls)

from_hunk-first : (l : Text) (ls ms : List Text) → from_hunk ms ≡ l ∷ ls → is_hunk_line l ≡ true
unfolding from_hunk
from_hunk-first l ls [] e = cc
from_hunk-first l ls (m ∷ ms) e = ground (arith, from_hunk-first l ls ms)

All-snoc :
    (xs : List Text) (x : Text)
    → All (λ m. is_hunk_line m ≡ false) xs
    → is_hunk_line x ≡ false
    → All (λ m. is_hunk_line m ≡ false) (xs ++ x ∷ [])
All-snoc [] x h k = (k, tt)
All-snoc (y ∷ xs) x h k = (h.0, All-snoc xs x h.1 k)

group_units-hunks :
    (header : List Text) (c : Text) (current ls : List Text)
    → OneHunk (c ∷ current)
    → (hunks : List (List Text)) × (group_units header (c ∷ current) ls
        ≡ map (λ h. concat (header ++ h)) hunks)
      × (concat hunks ≡ c ∷ current ++ ls)
      × All OneHunk hunks
unfolding group_units
group_units-hunks header c current [] one = ((c ∷ current) ∷ [], refl, refl, (one, tt))
group_units-hunks header c current (l ∷ ls) one = elim (Bool-cases (is_hunk_line l)) [
  | inl e ↦
      let (hunks, units, whole, ones) = group_units-hunks header l [] ls (e, tt) in
      (
        (c ∷ current) ∷ hunks,
        rw e (ap (λ us. concat (header ++ c ∷ current) ∷ us) units),
        ap (λ ms. c ∷ current ++ ms) whole,
        (one, ones),
      )
  | inr e ↦
      let (hunks, units, whole, ones) =
        group_units-hunks header c (current ++ l ∷ []) ls (one.0, All-snoc current l one.1 e) in
      (hunks, rw e units, whole ∙ ap (λ ms. c ∷ ms) (append_assoc current (l ∷ []) ls), ones)
]

before_hunk-lacks : (ls : List Text) → All (λ m. is_hunk_line m ≡ false) (before_hunk ls)
unfolding before_hunk
before_hunk-lacks [] = tt
before_hunk-lacks (l ∷ ls) = elim (Bool-cases (is_hunk_line l)) [
  | inl e ↦ rw e tt
  | inr e ↦ rw e (e, before_hunk-lacks ls)
]

-- what the units are, for the lines before the first hunk and the hunks behind them
abbrev pub units_for : Text → List Text → List (List Text) → List Text
units_for patch header [] = patch ∷ []
units_for patch header (h ∷ hs) = map (λ hunk. concat (header ++ hunk)) (h ∷ hs)

units_of-hunks :
    (patch : Text) (header tail : List Text)
    → ((l : Text) (ls : List Text) → tail ≡ l ∷ ls → is_hunk_line l ≡ true)
    → (hunks : List (List Text)) × (units_of header tail patch ≡ units_for patch header hunks)
      × (concat hunks ≡ tail)
      × All OneHunk hunks
units_of-hunks patch header [] first = ([], refl, refl, tt)
units_of-hunks patch header (l ∷ ls) first =
    let (hunks, units, whole, ones) = group_units-hunks header l [] ls (first l ls refl, tt) in
    (hunks, unfold group_units in units ∙ nonempty_units hunks whole, whole, ones)
  where
    nonempty_units :
        (hunks : List (List Text))
        → concat hunks ≡ l ∷ ls
        → map (λ hunk. concat (header ++ hunk)) hunks ≡ units_for patch header hunks
    nonempty_units [] e = cc
    nonempty_units (h ∷ hs) e = refl

-- `split_patch_into_hunks` cuts a patch at its "@@" lines and nowhere else, and loses nothing: the
-- lines before the first such line and the hunks spell the patch, each hunk begins with an "@@"
-- line and has no other, and each unit is that header with one of the hunks, in order. A patch with
-- no hunk is its own unit.
pub split_patch_into_hunks-units_for :
    (patch : Text)
    → (header : List Text) × (hunks : List (List Text)) × (split_patch_into_hunks patch
        ≡ units_for patch header hunks)
      × (concat (header ++ concat hunks) ≡ patch)
      × All (λ m. is_hunk_line m ≡ false) header
      × All OneHunk hunks
split_patch_into_hunks-units_for patch =
    let lines = lines_keepends patch in
    let header = before_hunk lines in
    let (hunks, units, whole, ones) =
      units_of-hunks patch header (from_hunk lines) (λ l ls. from_hunk-first l ls lines) in
    (
      header,
      hunks,
      unfold split_patch_into_hunks in units,
      ap (λ ls. concat (header ++ ls)) whole
          ∙ ap concat (before-from_hunk lines)
          ∙ concat-lines_keepends patch,
      before_hunk-lacks lines,
      ones,
    )
