-- ===== src/Triage/Laws.antt =====
-- What engine/triage.py can take out of the review.
use lgtmaybe.Prelude.{
  ℕ, ◌+◌, ◌≡◌, inl, inr, refl, sym, ap, ◌∙◌, subst, Bool, true, false, not, Option, none, some,
  List, [], ◌∷◌, ◌++◌, if◌then◌else◌, arith, leb, length, length-append, append-nil, keep_if,
  keep_if-append, keep_if-keep_if, All, All-imp, Bool-cases,
}
use lgtmaybe.Text.{Text, text_eq}
use lgtmaybe.Collections.{text_is_eq}
use lgtmaybe.Collections.Set.{has}
use lgtmaybe.Compress.Batch.{Patch}
use lgtmaybe.Triage.{
  Verdicts, or_review, insert_by_risk, survivors, skipped, paths, patches, escalates, route,
  candidates_of, triage_files,
}

-- how many patches are of a path, and how many of some paths are it
abbrev pub of_path : Text → List Patch → ℕ
of_path p fs = length (keep_if (λ f. text_eq f.0 p) fs)

abbrev pub count : Text → List Text → ℕ
count p ts = length (keep_if (λ t. text_eq t p) ts)

of_path_cons :
    (p : Text) (f : Patch) (fs : List Patch)
    → of_path p (f ∷ fs) ≡ (if text_eq f.0 p then 1 else 0) + of_path p fs
of_path_cons p f fs = ground arith

of_path-append :
    (p : Text) (fs gs : List Patch) → of_path p (fs ++ gs) ≡ of_path p fs + of_path p gs
of_path-append p fs gs =
    ap length (keep_if-append (λ f. text_eq f.0 p) fs gs)
    ∙ length-append (keep_if (λ f. text_eq f.0 p) fs) (keep_if (λ f. text_eq f.0 p) gs)

of_path-insert_by_risk :
    (p : Text) (f : Patch × ℕ) (fs : List (Patch × ℕ))
    → of_path p (patches (insert_by_risk f fs)) ≡ of_path p (f.0 ∷ patches fs)
unfolding insert_by_risk
of_path-insert_by_risk p f [] = refl
of_path-insert_by_risk p f (g ∷ gs) = ground (arith, of_path-insert_by_risk p f gs)

-- each candidate survives or is skipped
of_path-survivors :
    (p : Text) (verdicts : Verdicts) (fs : List Patch)
    → of_path p (patches (survivors verdicts fs)) + count p (skipped verdicts fs) ≡ of_path p fs
unfolding survivors skipped
of_path-survivors p verdicts [] = omega arith
of_path-survivors p verdicts (f ∷ fs) = ground (
  arith,
  of_path-survivors p verdicts fs,
  of_path-insert_by_risk p (f, (or_review (verdicts f.0)).1) (survivors verdicts fs),
)

module _ (P : Patch → Type 0) where
  insert_by_risk-All :
      (f : Patch × ℕ) (fs : List (Patch × ℕ))
      → P f.0
      → All P (patches fs)
      → All P (patches (insert_by_risk f fs))
  unfolding insert_by_risk
  insert_by_risk-All f [] hf h = (hf, tt)
  insert_by_risk-All f (g ∷ gs) hf h = elim (Bool-cases (leb g.1 f.1)) [
    | inl e ↦ rw e (hf, h)
    | inr e ↦ rw e (h.0, insert_by_risk-All f gs hf h.1)
  ]

  survivors-All :
      (verdicts : Verdicts) (fs : List Patch) → All P fs → All P (patches (survivors verdicts fs))
  unfolding survivors
  survivors-All verdicts [] h = tt
  survivors-All verdicts (f ∷ fs) h = elim (Bool-cases (or_review (verdicts f.0)).0) [
    | inl e ↦ rw e (
        insert_by_risk-All (f, (or_review (verdicts f.0)).1) (survivors verdicts fs) h.0
          (survivors-All verdicts fs h.1))
    | inr e ↦ rw e (survivors-All verdicts fs h.1)
  ]

module _ (is_word : ℕ → Bool) (ask : List Patch → Option Verdicts) (flagged : List Text) where
  abbrev pub is_floor : Patch → Bool
  is_floor = escalates is_word ask flagged

  abbrev pub floor_paths : List Patch → List Text
  floor_paths fs = paths (keep_if is_floor fs)

  keep_if-none : (fs : List Patch) → All (λ f. is_floor f ≡ false) fs → keep_if is_floor fs ≡ []
  keep_if-none [] h = refl
  keep_if-none (f ∷ fs) h = rw h.0 (keep_if-none fs h.1)

  has-here : (p : Text) (ps : List Text) → has p (p ∷ ps) ≡ true
  unfolding has
  has-here p ps = rw ((text_is_eq.beq_iff p p).1 refl)

  has-there : (p q : Text) (ps : List Text) → has p ps ≡ true → has p (q ∷ ps) ≡ true
  unfolding has
  has-there p q ps h = ground arith

  abbrev Listed : List Text → Patch → Type 0
  Listed ps f = is_floor f ≡ true → has f.0 ps ≡ true

  floor_paths-has : (fs : List Patch) → All (Listed (floor_paths fs)) fs
  floor_paths-has [] = tt
  floor_paths-has (g ∷ gs) = elim (Bool-cases (is_floor g)) [
    | inl e ↦
        let grown : floor_paths (g ∷ gs) ≡ g.0 ∷ floor_paths gs = rw e in
        subst (λ ps. All (Listed ps) (g ∷ gs)) (sym grown)
          (
            λ k. has-here g.0 (floor_paths gs),
            All-imp _ _ (λ f h k. has-there f.0 g.0 (floor_paths gs) (h k)) gs (floor_paths-has gs),
          )
    | inr e ↦
        let same : floor_paths (g ∷ gs) ≡ floor_paths gs = rw e in
        subst (λ ps. All (Listed ps) (g ∷ gs)) (sym same) (λ k. cc, floor_paths-has gs)
  ]

  not_found-floor :
      (ps : List Text) (fs : List Patch)
      → All (Listed ps) fs
      → All (λ f. is_floor f ≡ false) (keep_if (λ f. not (has f.0 ps)) fs)
  not_found-floor ps [] h = tt
  not_found-floor ps (f ∷ fs) h = elim (Bool-cases (has f.0 ps)) [
    | inl e ↦ rw e (not_found-floor ps fs h.1)
    | inr e ↦ rw e (off f (h.0) e, not_found-floor ps fs h.1)
  ]
    where
      off : (f : Patch) → Listed ps f → has f.0 ps ≡ false → is_floor f ≡ false
      off f h e = elim (Bool-cases (is_floor f)) [ inl k ↦ let found = h k in cc | inr k ↦ k ]

  candidates_of-floor :
      (fs : List Patch) → All (λ f. is_floor f ≡ false) (candidates_of is_word ask flagged fs)
  unfolding candidates_of
  candidates_of-floor fs = not_found-floor (floor_paths fs) fs (floor_paths-has fs)

  route-floor :
      (fs cs : List Patch) (verdicts : Option Verdicts)
      → All (λ f. is_floor f ≡ false) cs
      → keep_if is_floor (route is_word ask flagged fs (keep_if is_floor fs) cs verdicts).0
        ≡ keep_if is_floor fs
  unfolding route
  route-floor fs [] verdicts h = refl
  route-floor fs (c ∷ cs) none h = refl
  route-floor fs (c ∷ cs) (some verdicts) h =
      keep_if-append is_floor (keep_if is_floor fs) (patches (survivors verdicts (c ∷ cs)))
      ∙ ap (λ l. keep_if is_floor (keep_if is_floor fs) ++ l)
          (keep_if-none _ (survivors-All (λ f. is_floor f ≡ false) verdicts (c ∷ cs) h))
      ∙ append-nil _
      ∙ keep_if-keep_if is_floor is_floor fs (λ f k. k)

  -- Whatever the model says, `triage_files` leaves every file of the floor in the review: those that
  -- always escalate (by path, by content, by a scanner's finding or by size) are reviewed, in order.
  pub keep_if-triage_files :
      (fs : List Patch)
      → keep_if is_floor (triage_files is_word ask flagged fs).0 ≡ keep_if is_floor fs
  unfolding triage_files
  keep_if-triage_files fs =
      route-floor fs (candidates_of is_word ask flagged fs) _ (candidates_of-floor fs)

  of_path-split :
      (p : Text) (ps : List Text) (fs : List Patch)
      → All (λ f. has f.0 ps ≡ is_floor f) fs
      → of_path p (keep_if is_floor fs) + of_path p (keep_if (λ f. not (has f.0 ps)) fs)
        ≡ of_path p fs
  of_path-split p ps [] h = omega arith
  of_path-split p ps (f ∷ fs) h = elim (Bool-cases (is_floor f)) [
    | inl e ↦
        let floor = keep_if is_floor fs in
        rw (h.0, e)
          (omega (arith, of_path_cons p f floor, of_path_cons p f fs, of_path-split p ps fs h.1))
    | inr e ↦
        let others = keep_if (λ g. not (has g.0 ps)) fs in
        rw (h.0, e)
          (omega (arith, of_path_cons p f others, of_path_cons p f fs, of_path-split p ps fs h.1))
  ]

  route-of_path :
      (p : Text) (fs floor cs : List Patch) (verdicts : Option Verdicts)
      → of_path p floor + of_path p cs ≡ of_path p fs
      → of_path p (route is_word ask flagged fs floor cs verdicts).0
          + count p (route is_word ask flagged fs floor cs verdicts).1
        ≡ of_path p fs
  unfolding route
  route-of_path p fs floor [] verdicts h = omega arith
  route-of_path p fs floor (c ∷ cs) none h = omega arith
  route-of_path p fs floor (c ∷ cs) (some verdicts) h = omega (
    arith,
    of_path-append p floor (patches (survivors verdicts (c ∷ cs))),
    of_path-survivors p verdicts (c ∷ cs),
  )

  -- Where the patches of a path escalate all or none, `triage_files` loses no file and repeats none:
  -- of each path, there are as many patches to review and skipped entries as patches at first.
  pub of_path-triage_files :
      (p : Text) (fs : List Patch)
      → All (λ f. has f.0 (floor_paths fs) ≡ is_floor f) fs
      → of_path p (triage_files is_word ask flagged fs).0
          + count p (triage_files is_word ask flagged fs).1
        ≡ of_path p fs
  unfolding triage_files candidates_of
  of_path-triage_files p fs h =
      route-of_path p fs (keep_if is_floor fs) (candidates_of is_word ask flagged fs) _
        (of_path-split p (floor_paths fs) fs h)
