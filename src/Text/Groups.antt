-- ===== src/Text/Groups.antt =====
-- Cutting lines in front of each line that passes a test.
use lgtmaybe.Prelude.{
  ◌≡◌, refl, ap, ◌∙◌, List, [], ◌∷◌, ◌++◌, Bool, true, false, arith, if◌then◌else◌, concat,
  append_assoc, ◌+◌, length, keep_if, All, Bool-cases, inl, inr,
}
use lgtmaybe.Text.{Text}

module _ (test : Text → Bool) where
  -- the lines in front of the first that passes, and the lines from it on
  unfoldable pub before : List Text → List Text
  before [] = []
  before (l ∷ ls) = let rest = before ls in if test l then [] else l ∷ rest

  unfoldable pub from : List Text → List Text
  from [] = []
  from (l ∷ ls) = let rest = from ls in if test l then l ∷ ls else rest

  -- the groups of the lines, with `current` begun
  unfoldable pub cut : List Text → List Text → List (List Text)
  cut current [] = current ∷ []
  cut current (l ∷ ls) =
      let next = current ∷ cut (l ∷ []) ls in
      let grown = cut (current ++ l ∷ []) ls in if test l then next else grown

  abbrev cut_all : List Text → List (List Text)
  cut_all [] = []
  cut_all (l ∷ ls) = cut (l ∷ []) ls

  unfoldable pub groups : List Text → List (List Text)
  unfolding from cut
  groups ls = cut_all (from ls)

  -- a line that passes, and lines that do not
  abbrev pub IsGroup : List Text → Type 0
  IsGroup [] = ⊥
  IsGroup (l ∷ ls) = (test l ≡ true) × All (λ m. test m ≡ false) ls

  pub before-from : (ls : List Text) → before ls ++ from ls ≡ ls
  unfolding before from
  before-from [] = refl
  before-from (l ∷ ls) = ground (arith, before-from ls)

  pub before-fails : (ls : List Text) → All (λ m. test m ≡ false) (before ls)
  unfolding before
  before-fails [] = tt
  before-fails (l ∷ ls) = elim (Bool-cases (test l)) [
    | inl e ↦ rw e tt
    | inr e ↦ rw e (e, before-fails ls)
  ]

  pub from-first : (l : Text) (ls ms : List Text) → from ms ≡ l ∷ ls → test l ≡ true
  unfolding from
  from-first l ls [] e = cc
  from-first l ls (m ∷ ms) e = ground (arith, from-first l ls ms)

  snoc-fails :
      (xs : List Text) (x : Text)
      → All (λ m. test m ≡ false) xs
      → test x ≡ false
      → All (λ m. test m ≡ false) (xs ++ x ∷ [])
  snoc-fails [] x h k = (k, tt)
  snoc-fails (y ∷ xs) x h k = (h.0, snoc-fails xs x h.1 k)

  concat-cut : (current ls : List Text) → concat (cut current ls) ≡ current ++ ls
  unfolding cut
  concat-cut current [] = refl
  concat-cut current (l ∷ ls) = ground (
    arith,
    concat-cut (l ∷ []) ls,
    concat-cut (current ++ l ∷ []) ls,
    append_assoc current (l ∷ []) ls,
  )

  cut-IsGroup :
      (l : Text) (current ls : List Text)
      → IsGroup (l ∷ current)
      → All IsGroup (cut (l ∷ current) ls)
  unfolding cut
  cut-IsGroup l current [] h = (h, tt)
  cut-IsGroup l current (m ∷ ls) h = elim (Bool-cases (test m)) [
    | inl e ↦ rw e (h, cut-IsGroup m [] ls (e, tt))
    | inr e ↦ rw e (cut-IsGroup l (current ++ m ∷ []) ls (h.0, snoc-fails current m h.1 e))
  ]

  concat-cut_all : (ls : List Text) → concat (cut_all ls) ≡ ls
  concat-cut_all [] = refl
  concat-cut_all (l ∷ ls) = concat-cut (l ∷ []) ls

  cut_all-IsGroup :
      (ls : List Text)
      → ((l : Text) (ms : List Text) → ls ≡ l ∷ ms → test l ≡ true)
      → All IsGroup (cut_all ls)
  cut_all-IsGroup [] first = tt
  cut_all-IsGroup (l ∷ ls) first = cut-IsGroup l [] ls (first l ls refl, tt)

  -- The groups spell the lines from the first that passes.
  pub concat-groups : (ls : List Text) → concat (groups ls) ≡ from ls
  unfolding groups
  concat-groups ls = concat-cut_all (from ls)

  pub groups-IsGroup : (ls : List Text) → All IsGroup (groups ls)
  unfolding groups
  groups-IsGroup ls = cut_all-IsGroup (from ls) (λ l ms e. from-first l ms ls e)

  length-cut : (current ls : List Text) → length (cut current ls) ≡ 1 + length (keep_if test ls)
  unfolding cut
  length-cut current [] = refl
  length-cut current (l ∷ ls) =
      ground (arith, length-cut (l ∷ []) ls, length-cut (current ++ l ∷ []) ls)

  keep_if-from : (ls : List Text) → keep_if test (from ls) ≡ keep_if test ls
  unfolding from
  keep_if-from [] = refl
  keep_if-from (l ∷ ls) = ground (arith, keep_if-from ls)

  length-cut_all :
      (ls : List Text)
      → ((l : Text) (ms : List Text) → ls ≡ l ∷ ms → test l ≡ true)
      → length (cut_all ls) ≡ length (keep_if test ls)
  length-cut_all [] first = refl
  length-cut_all (l ∷ ls) first = rw (first l ls refl) (omega (arith, length-cut (l ∷ []) ls))

  -- There are as many groups as lines that pass.
  pub length-groups : (ls : List Text) → length (groups ls) ≡ length (keep_if test ls)
  unfolding groups
  length-groups ls =
      length-cut_all (from ls) (λ l ms e. from-first l ms ls e) ∙ ap length (keep_if-from ls)
