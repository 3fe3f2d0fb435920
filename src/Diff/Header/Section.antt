-- ===== src/Diff/Header/Section.antt =====
-- The section that `parse_hunk_header` of core/diffparse.py returns.
use mathlib.Core.Option
use mathlib.Core.Option.{some-injective}
use lgtmaybe.Prelude.{
  ℕ, ◌≡◌, ◌≢◌, refl, subst, [], ◌∷◌, Option, none, some, arith, ◌==◌, ◌>>=◌, Bool-cases, inl, inr,
}
use lgtmaybe.Text.{Text, nl, Lacks}
use lgtmaybe.Diff.Header.{HunkHeader, parse_hunk_header, hunk_numbers, with_section, rest_of_line}

abbrev LacksSome : Option Text → Type 0
LacksSome none = Unit {0}
LacksSome (some r) = Lacks nl r

LacksSome-map :
    (c : ℕ) (o : Option Text) → c ≢ nl → LacksSome o → LacksSome (Option.map (λ t. c ∷ t) o)
LacksSome-map c none n h = tt
LacksSome-map c (some r) n h = (n, h)

rest_of_line-Lacks : (s : Text) → LacksSome (rest_of_line s)
unfolding rest_of_line
rest_of_line-Lacks [] = tt
rest_of_line-Lacks (c ∷ []) = elim (Bool-cases (c == nl)) [
  | inl e ↦ rw e tt
  | inr e ↦ rw e (ground arith, tt)
]
rest_of_line-Lacks (c ∷ d ∷ s) = elim (Bool-cases (c == nl)) [
  | inl e ↦ rw e tt
  | inr e ↦
      rw e (LacksSome-map c (rest_of_line (d ∷ s)) (ground arith) (rest_of_line-Lacks (d ∷ s)))
]

section_of_map :
    (f : Text → HunkHeader) (o : Option Text) (h : HunkHeader)
    → ((t : Text) → (f t).section ≡ t)
    → LacksSome o
    → Option.map f o ≡ some h
    → Lacks nl h.section
section_of_map f none h same lacks e = cc
section_of_map f (some t) h same lacks e =
    subst (λ (g : HunkHeader). Lacks nl g.section) (some-injective (f t) h e) (rw (same t) lacks)

with_section-Lacks :
    (o : Option (ℕ × ℕ × ℕ × ℕ × Text)) (h : HunkHeader)
    → (o >>= with_section) ≡ some h
    → Lacks nl h.section
unfolding with_section
with_section-Lacks none h e = cc
with_section-Lacks (some (a, b, c, d, s)) h e =
    section_of_map
      (λ t. record { old_start = a; old_len = b; new_start = c; new_len = d; section = t })
      (rest_of_line s) h (λ t. refl) (rest_of_line-Lacks s) e

pub parse_hunk_header-section :
    (line : Text) (h : HunkHeader) → parse_hunk_header line ≡ some h → Lacks nl h.section
parse_hunk_header-section line h e =
    with_section-Lacks (hunk_numbers line) h (unfold parse_hunk_header in e)
