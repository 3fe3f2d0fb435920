-- ===== src/Findings/Anchor/Laws.antt =====
-- Where a finding stands after `_snap_findings` of engine/engine.py.
use lgtmaybe.Prelude.{
  ℕ, ◌≤◌, ◌≡◌, ◌⊎◌, inl, inr, refl, sym, ◌∙◌, Bool, true, false, not, ◌||◌, Option, none, some,
  List, [], ◌∷◌, if◌then◌else◌, arith, ltb, any, map, All, Bool-cases, subst, ◌==◌, ==_iff,
}
use lgtmaybe.Text.{Text}
use lgtmaybe.Text.Words.{strip}
use lgtmaybe.Collections.{eq, text_is_eq, nat_is_eq, pair_is_eq}
use lgtmaybe.Collections.Set.{has}
use lgtmaybe.Collections.Dict.{items}
use lgtmaybe.Diff.Index.{Side, side_is_eq, LineIndex, changed_line_index, build_commentable_lines}
use lgtmaybe.Diff.Index.Laws.{changed_line_index-commentable}
use lgtmaybe.Findings.Model.{ReviewFinding}
use lgtmaybe.Findings.Conflicts.{distance}
use lgtmaybe.Findings.Anchor.{
  Candidate, Prepared, prepare, prepare_candidates, lines_where, quotes, only, or_else,
  match_anchor, matches_of, nearest, is_blank, snap_to, snap_one, snap_findings,
}

nearest-any : (n best : ℕ) (ms : List ℕ) → any (λ m. m == nearest n best ms) (best ∷ ms) ≡ true
unfolding nearest
nearest-any n best [] = ground arith
nearest-any n best (m ∷ ms) = ground (arith, nearest-any n m ms, nearest-any n best ms)

nearest_closer :
    (n best m : ℕ) (ms : List ℕ)
    → nearest n best (m ∷ ms)
      ≡ (if ltb (distance m n) (distance best n) then nearest n m ms else nearest n best ms)
unfolding nearest
nearest_closer n best m ms = refl

nearest-le :
    (n best : ℕ) (ms : List ℕ)
    → All (λ m. distance (nearest n best ms) n ≤ distance m n) (best ∷ ms)
nearest-le n best [] = unfold nearest in (omega arith, tt)
nearest-le n best (m ∷ ms) = elim (Bool-cases (ltb (distance m n) (distance best n))) [
  | inl e ↦
      let (first, rest) = nearest-le n m ms in
      let move : nearest n best (m ∷ ms) ≡ nearest n m ms = nearest_closer n best m ms ∙ rw e in
      subst (λ x. All (λ k. distance x n ≤ distance k n) (best ∷ m ∷ ms)) (sym move)
        (ground arith, (first, rest))
  | inr e ↦
      let (first, rest) = nearest-le n best ms in
      let stay : nearest n best (m ∷ ms) ≡ nearest n best ms = nearest_closer n best m ms ∙ rw e in
      subst (λ x. All (λ k. distance x n ≤ distance k n) (best ∷ m ∷ ms)) (sym stay)
        (first, (ground arith, rest))
]

-- What holds of every candidate's line holds of the lines that are matched.
module _ (P : ℕ → Type 0) where
  lines_where-All :
      (test : Candidate → Bool) (cs : List Candidate)
      → All (λ c. P c.line) cs
      → All P (lines_where test cs)
  lines_where-All test [] h = tt
  lines_where-All test (c ∷ cs) h = elim (Bool-cases (test c)) [
    | inl e ↦ rw e (h.0, lines_where-All test cs h.1)
    | inr e ↦ rw e (lines_where-All test cs h.1)
  ]

  only-All : (ns : List ℕ) → All P ns → All P (only ns)
  only-All [] h = tt
  only-All (n ∷ []) h = h
  only-All (n ∷ m ∷ ns) h = tt

  or_else-All : (ns ms : List ℕ) → All P ns → All P ms → All P (or_else ns ms)
  or_else-All [] ms hn hm = hm
  or_else-All (n ∷ ns) ms hn hm = hn

  if-All : (b : Bool) (ns : List ℕ) → All P ns → All P (if b then ns else [])
  if-All true ns h = h
  if-All false ns h = tt

  matches_of-All :
      (anchor : Option Text) (cs : List Candidate)
      → All (λ c. P c.line) cs
      → All P (matches_of anchor cs)
  unfolding match_anchor
  matches_of-All none cs h = tt
  matches_of-All (some anchor) cs h = or_else-All _ _ (lines_where-All _ cs h) (
      or_else-All _ _ (lines_where-All _ cs h)
        (if-All _ _ (only-All _ (lines_where-All (quotes (strip anchor)) cs h))))

  nearest-All : (n best : ℕ) (ms : List ℕ) → P best → All P ms → P (nearest n best ms)
  unfolding nearest
  nearest-All n best [] hb hm = hb
  nearest-All n best (m ∷ ms) hb hm = elim (Bool-cases (ltb (distance m n) (distance best n))) [
    | inl e ↦ rw e (nearest-All n m ms hm.0 hm.1)
    | inr e ↦ rw e (nearest-All n best ms hb hm.1)
  ]

  any-All_line : (n : ℕ) (ms : List ℕ) → any (λ m. m == n) ms ≡ true → All P ms → P n
  any-All_line n [] e h = cc
  any-All_line n (m ∷ ms) e h = elim (Bool-cases (m == n)) [
    | inl same ↦ subst P ((==_iff m n).0 same) h.0
    | inr other ↦ any-All_line n ms (ground arith) h.1
  ]

  prepare-All : (ls : List (ℕ × Text)) → All (λ l. P l.0) ls → All (λ c. P c.line) (map prepare ls)
  unfolding prepare
  prepare-All [] h = tt
  prepare-All ((n, t) ∷ ls) h = (h.0, prepare-All ls h.1)

items-prepare_candidates :
    (k : Text × Side) (index : LineIndex)
    → items k (prepare_candidates index) ≡ map prepare (items k index)
unfolding prepare_candidates items
items-prepare_candidates k [] = refl
items-prepare_candidates k ((j, ls) ∷ index) = elim (Bool-cases (eq j k)) [
  | inl e ↦ rw e
  | inr e ↦ rw e (items-prepare_candidates k index)
]

-- how a finding with an anchor is placed among the matches
abbrev pub Placed : ReviewFinding → List ℕ → ReviewFinding → Type 0
Placed f matches r =
    ((matches ≡ []) × (r ≡ record f { anchored = false }))
    ⊎ ((any (λ m. m == r.line) matches ≡ true)
        × All (λ m. distance r.line f.line ≤ distance m f.line) matches
        × (r ≡ record f { line = r.line }))

distance_self : (n : ℕ) (ms : List ℕ) → All (λ m. distance n n ≤ distance m n) ms
distance_self n [] = tt
distance_self n (m ∷ ms) = (omega arith, distance_self n ms)

snap_to-Placed : (f : ReviewFinding) (ms : List ℕ) → Placed f ms (snap_to f ms)
unfolding snap_to
snap_to-Placed f [] = inl (refl, refl)
snap_to-Placed f (m ∷ ms) = elim (Bool-cases (any (λ n. n == f.line) (m ∷ ms))) [
  | inl e ↦
      let stays : snap_to f (m ∷ ms) ≡ f = rw e in
      subst (Placed f (m ∷ ms)) (sym stays) (inr (e, distance_self f.line (m ∷ ms), refl))
  | inr e ↦
      let moves : snap_to f (m ∷ ms) ≡ record f { line = nearest f.line m ms } = rw e in
      subst (Placed f (m ∷ ms)) (sym moves)
        (inr (nearest-any f.line m ms, nearest-le f.line m ms, refl))
]

-- A finding whose anchor is not blank: if the anchor matches no changed line of its path and side, the
-- finding is marked as not anchored and nothing else is changed. Otherwise its line becomes one of the
-- matched lines, none of which is nearer to the line it had, and nothing else is changed.
pub snap_one-Placed :
    (f : ReviewFinding) (index : Prepared)
    → is_blank f.anchor ≡ false
    → Placed f (matches_of f.anchor (items (f.path, f.side) index)) (snap_one f index)
unfolding snap_one
snap_one-Placed f index e = rw e (snap_to-Placed f _)

-- the finding is not anchored, or quotes nothing, or stands on a line that can be commented on
abbrev pub is_safe : Text → ReviewFinding → Bool
is_safe diff r =
    not r.anchored
    || (is_blank r.anchor || has (r.path, (r.line, r.side)) (build_commentable_lines diff))

Placed-is_safe :
    (diff : Text) (f r : ReviewFinding) (ms : List ℕ)
    → All (λ m. has (f.path, (m, f.side)) (build_commentable_lines diff) ≡ true) ms
    → Placed f ms r
    → is_safe diff r ≡ true
Placed-is_safe diff f r ms h (inl (e, g)) = rw g
Placed-is_safe diff f r ms h (inr (e, near, g)) =
    let stands : has (f.path, (r.line, f.side)) (build_commentable_lines diff) ≡ true =
      any-All_line (λ m. has (f.path, (m, f.side)) (build_commentable_lines diff) ≡ true) r.line ms
        e h in
    subst (λ q. is_safe diff q ≡ true) (sym g) (ground (arith, stands))

snap_one-is_safe :
    (diff : Text) (f : ReviewFinding)
    → is_safe diff (snap_one f (prepare_candidates (changed_line_index diff))) ≡ true
snap_one-is_safe diff f =
    let index = prepare_candidates (changed_line_index diff) in
    elim (Bool-cases (is_blank f.anchor)) [
      | inl e ↦
          let same : snap_one f index ≡ f = unfold snap_one in rw e in
          subst (λ q. is_safe diff q ≡ true) (sym same) (ground (arith, e))
      | inr e ↦
          let P = λ (m : ℕ). has (f.path, (m, f.side)) (build_commentable_lines diff) ≡ true in
          Placed-is_safe diff f (snap_one f index) _
            (matches_of-All P f.anchor (items (f.path, f.side) index) (
              subst (All (λ c. P c.line))
                (sym (items-prepare_candidates (f.path, f.side) (changed_line_index diff)))
                (prepare-All P (items (f.path, f.side) (changed_line_index diff))
                  (changed_line_index-commentable diff f.path f.side))))
            (snap_one-Placed f index e)
    ]

-- After `_snap_findings` on a diff, every finding that is anchored and whose anchor is not blank stands
-- on a line of the diff that a comment can be posted on.
pub snap_findings-is_safe :
    (findings : List ReviewFinding) (diff : Text)
    → All (λ r. is_safe diff r ≡ true) (snap_findings findings diff)
unfolding snap_findings
snap_findings-is_safe [] diff = tt
snap_findings-is_safe (f ∷ fs) diff = (snap_one-is_safe diff f, snap_findings-is_safe fs diff)
