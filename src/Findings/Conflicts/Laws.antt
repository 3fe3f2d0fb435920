-- ===== src/Findings/Conflicts/Laws.antt =====
-- What `resolve_conflicts` of engine/conflicts.py drops and keeps.
use lgtmaybe.Prelude.{
  ◌≡◌, ◌⊎◌, inl, inr, sym, ap, ◌∙◌, Bool, true, false, not, ◌||◌, Option, some, List, if◌then◌else◌,
  arith, ltb, any, keep_if, Bool-cases, All, All-imp, any-keep_if, any-false, any-All, keep_if-All,
  keep_if-keep_if,
}
use lgtmaybe.Text.{Text, text_eq}
use lgtmaybe.Collections.{eq, text_is_eq, option_is_eq, option_beq_iff}
use lgtmaybe.Diff.Index.{side_beq}
use lgtmaybe.Findings.Model.{ReviewFinding, correctness, security, ponytail, or_empty}
use lgtmaybe.Findings.Conflicts.{
  precedence, distance, near_lines, rank_of, is_opposed, precedes, outranked_by, resolve_conflicts,
}

-- what the two categories of an opposed pair are
abbrev pub Pair : Option Text → Option Text → Type 0
Pair a b = (a ≡ some ponytail) × ((b ≡ some correctness) ⊎ (b ≡ some security))

is_opposed-Pair : (a b : Option Text) → is_opposed a b ≡ true → Pair a b ⊎ Pair b a
unfolding is_opposed
is_opposed-Pair a b h = ground (
  arith,
  option_beq_iff text_is_eq a (some ponytail),
  option_beq_iff text_is_eq a (some correctness),
  option_beq_iff text_is_eq a (some security),
  option_beq_iff text_is_eq b (some ponytail),
  option_beq_iff text_is_eq b (some correctness),
  option_beq_iff text_is_eq b (some security),
)

-- whether the second category outranks the first
abbrev higher : Option Text → Option Text → Bool
higher a b = precedes (rank_of (or_empty b) precedence) (rank_of (or_empty a) precedence)

guards_passed :
    (elsewhere far opposed higher : Bool)
    → (if elsewhere then false else if far then false else if not opposed then false else higher)
      ≡ true
    → (opposed ≡ true) × (higher ≡ true)
guards_passed elsewhere far opposed higher h = ground arith

outranked_by-is_opposed :
    (f w : ReviewFinding)
    → outranked_by f w ≡ true
    → (is_opposed f.category w.category ≡ true) × (higher f.category w.category ≡ true)
unfolding outranked_by
outranked_by-is_opposed f w h =
    guards_passed (not (text_eq f.path w.path) || not (side_beq f.side w.side))
      (ltb near_lines (distance f.line w.line)) (is_opposed f.category w.category)
      (higher f.category w.category) h

Pair-lower : (a b : Option Text) → Pair b a → higher a b ≡ false
unfolding rank_of
Pair-lower a b (e, inl f) = rw (e, f)
Pair-lower a b (e, inr f) = rw (e, f)

-- only leanness advice is outranked
pub outranked_by-Pair : (f w : ReviewFinding) → outranked_by f w ≡ true → Pair f.category w.category
outranked_by-Pair f w h =
    let (opposed, higher) = outranked_by-is_opposed f w h in
    elim (is_opposed-Pair f.category w.category opposed) [
      | inl p ↦ p
      | inr p ↦ let lower = Pair-lower f.category w.category p in cc
    ]

-- a finding that outranks another is outranked by none
winner-stays : (f w x : ReviewFinding) → outranked_by f w ≡ true → outranked_by w x ≡ false
winner-stays f w x h = elim (Bool-cases (outranked_by w x)) [
  | inl g ↦ elim (outranked_by-Pair f w h).1 [
    | inl e ↦
        let clash : false ≡ true =
          (option_beq_iff text_is_eq (some ponytail) (some correctness)).1
            (sym (outranked_by-Pair w x g).0 ∙ e) in
        cc
    | inr e ↦
        let clash : false ≡ true =
          (option_beq_iff text_is_eq (some ponytail) (some security)).1
            (sym (outranked_by-Pair w x g).0 ∙ e) in
        cc
  ]
  | inr g ↦ g
]

-- A finding is outranked by one of those that `resolve_conflicts` keeps exactly when one of the input
-- outranks it: a finding is dropped only beside a higher one that is posted.
pub any-resolve_conflicts :
    (findings : List ReviewFinding) (f : ReviewFinding)
    → any (outranked_by f) (resolve_conflicts findings) ≡ any (outranked_by f) findings
unfolding resolve_conflicts
any-resolve_conflicts findings f =
    any-keep_if (outranked_by f) (λ w. not (any (outranked_by w) findings)) findings
      (λ w h. ap not (any-false (outranked_by w) findings (λ x. winner-stays f w x h)))

not-true : (b : Bool) → not b ≡ true → b ≡ false
not-true b h = ground arith

-- No finding that `resolve_conflicts` keeps is outranked by another that it keeps.
pub resolve_conflicts-All :
    (findings : List ReviewFinding)
    → All
        (λ f. All (λ g. outranked_by f g ≡ false) (resolve_conflicts findings))
        (resolve_conflicts findings)
unfolding resolve_conflicts
resolve_conflicts-All findings =
    let kept = resolve_conflicts findings in
    All-imp _ _
      (λ f h. any-All (outranked_by f) kept (any-resolve_conflicts findings f ∙ not-true _ h)) kept
      (keep_if-All (λ f. not (any (outranked_by f) findings)) findings)

-- whether a finding is from the lens that cuts code
abbrev pub is_lean : ReviewFinding → Bool
is_lean f = eq f.category (some ponytail)

-- `resolve_conflicts` drops findings of the leanness lens only, and keeps all others in their order.
pub keep_if-resolve_conflicts :
    (findings : List ReviewFinding)
    → keep_if (λ f. not (is_lean f)) (resolve_conflicts findings)
      ≡ keep_if (λ f. not (is_lean f)) findings
unfolding resolve_conflicts
keep_if-resolve_conflicts findings =
    keep_if-keep_if (λ f. not (is_lean f)) (λ f. not (any (outranked_by f) findings)) findings
      (λ f h. ap not (any-false (outranked_by f) findings (lean_only f h)))
  where
    lean_only :
        (f : ReviewFinding)
        → not (is_lean f) ≡ true
        → (w : ReviewFinding) → outranked_by f w ≡ false
    lean_only f h w = elim (Bool-cases (outranked_by f w)) [
      | inl g ↦
          let lean : is_lean f ≡ true =
            (option_beq_iff text_is_eq f.category (some ponytail)).1 (outranked_by-Pair f w g).0 in
          ground arith
      | inr g ↦ g
    ]
