-- ===== src/Text/Lines.antt =====
-- `split("\n")`, `"\n".join`, `removesuffix("\n")`, and `_lines` of engine/compress.py.
use lgtmaybe.Prelude.{
  ℕ, ◌≡◌, ◌≢◌, refl, ap, ◌∙◌, List, [], ◌∷◌, ◌++◌, Bool, true, false, arith, ◌==◌, if◌then◌else◌,
  All, append-nil, append_assoc, concat, Bool-cases, inl, inr,
}
use lgtmaybe.Text.{Text, nl, Lacks}

-- the character in front of the first line
abbrev pub add_head : ℕ → List Text → List Text
add_head c [] = (c ∷ []) ∷ []
add_head c (l ∷ ls) = (c ∷ l) ∷ ls

unfoldable pub split_lines : Text → List Text
split_lines [] = [] ∷ []
split_lines (c ∷ s) = let rest = split_lines s in if c == nl then [] ∷ rest else add_head c rest

-- every line behind a newline
abbrev pub behind_nl : List Text → Text
behind_nl [] = []
behind_nl (l ∷ ls) = nl ∷ (l ++ behind_nl ls)

unfoldable pub join_lines : List Text → Text
join_lines [] = []
join_lines (l ∷ ls) = l ++ behind_nl ls

unfoldable pub removesuffix_nl : Text → Text
removesuffix_nl [] = []
removesuffix_nl (c ∷ []) = if c == nl then [] else c ∷ []
removesuffix_nl (c ∷ d ∷ s) = c ∷ removesuffix_nl (d ∷ s)

unfoldable pub endswith_nl : Text → Bool
endswith_nl [] = false
endswith_nl (c ∷ []) = c == nl
endswith_nl (c ∷ d ∷ s) = endswith_nl (d ∷ s)

-- the lines that a diff is read by
unfoldable pub lines : Text → List Text
unfolding split_lines removesuffix_nl
lines s = split_lines (removesuffix_nl s)

abbrev pub with_ends : Bool → List Text → List Text
with_ends ends [] = []
with_ends ends (l ∷ []) = (if ends then l ++ nl ∷ [] else l) ∷ []
with_ends ends (l ∷ m ∷ ls) = (l ++ nl ∷ []) ∷ with_ends ends (m ∷ ls)

unfoldable pub lines_keepends : Text → List Text
unfolding lines endswith_nl
lines_keepends s = with_ends (endswith_nl s) (lines s)

-- every line with its newline
abbrev pub unlines : List Text → Text
unlines [] = []
unlines (l ∷ ls) = l ++ nl ∷ unlines ls

join-add_head : (c : ℕ) (ls : List Text) → join_lines (add_head c ls) ≡ c ∷ join_lines ls
unfolding join_lines
join-add_head c [] = refl
join-add_head c (l ∷ ls) = refl

split_lines-ne-nil : (s : Text) → split_lines s ≢ []
unfolding split_lines
split_lines-ne-nil [] h = cc
split_lines-ne-nil (c ∷ s) h = ground arith

join-nil_line : (ls : List Text) → ls ≢ [] → join_lines ([] ∷ ls) ≡ nl ∷ join_lines ls
unfolding join_lines
join-nil_line [] h = absurd (h refl)
join-nil_line (l ∷ ls) h = refl

-- Joining the lines of a text gives the text back.
pub join-split_lines : (s : Text) → join_lines (split_lines s) ≡ s
unfolding split_lines
join-split_lines [] = unfold join_lines in refl
join-split_lines (c ∷ s) = ground (
  arith,
  join-add_head c (split_lines s),
  join-nil_line (split_lines s) (split_lines-ne-nil s),
  join-split_lines s,
)

pub split_lines-append_nl :
    (l s : Text) → Lacks nl l → split_lines (l ++ nl ∷ s) ≡ l ∷ split_lines s
unfolding split_lines
split_lines-append_nl [] s h = refl
split_lines-append_nl (c ∷ l) s h = ground (arith, split_lines-append_nl l s h.1)

split_lines-line : (l : Text) → Lacks nl l → split_lines l ≡ l ∷ []
unfolding split_lines
split_lines-line [] h = refl
split_lines-line (c ∷ l) h = ground (arith, split_lines-line l h.1)

-- Splitting joined lines gives the lines back, if there is one and none holds a newline.
pub split-join_lines :
    (ls : List Text) → ls ≢ [] → All (Lacks nl) ls → split_lines (join_lines ls) ≡ ls
unfolding join_lines
split-join_lines [] n h = absurd (n refl)
split-join_lines (l ∷ []) n h = rw append-nil (split_lines-line l h.0)
split-join_lines (l ∷ m ∷ ls) n h =
    split_lines-append_nl l _ h.0 ∙ ap (λ rest. l ∷ rest) (split-join_lines (m ∷ ls) (λ e. cc) h.1)

removesuffix-append_nl : (s : Text) → removesuffix_nl (s ++ nl ∷ []) ≡ s
unfolding removesuffix_nl
removesuffix-append_nl [] = refl
removesuffix-append_nl (c ∷ []) = refl
removesuffix-append_nl (c ∷ d ∷ s) = ap (λ t. c ∷ t) (removesuffix-append_nl (d ∷ s))

pub unlines-join : (ls : List Text) → ls ≢ [] → unlines ls ≡ join_lines ls ++ nl ∷ []
unfolding join_lines
unlines-join [] n = absurd (n refl)
unlines-join (l ∷ []) n = rw append-nil
unlines-join (l ∷ m ∷ ls) n = simp (unlines-join (m ∷ ls) (λ e. cc), append_assoc)

-- The lines of newline-terminated lines are those lines.
pub lines-unlines : (ls : List Text) → ls ≢ [] → All (Lacks nl) ls → lines (unlines ls) ≡ ls
unfolding lines
lines-unlines ls n h = rw (unlines-join ls n, removesuffix-append_nl) (split-join_lines ls n h)

pub unlines-append : (ls ms : List Text) → unlines (ls ++ ms) ≡ unlines ls ++ unlines ms
unlines-append [] ms = refl
unlines-append (l ∷ ls) ms = simp (unlines-append ls ms, append_assoc)

endswith-append_nl : (s : Text) → endswith_nl (s ++ nl ∷ []) ≡ true
unfolding endswith_nl
endswith-append_nl [] = refl
endswith-append_nl (c ∷ []) = refl
endswith-append_nl (c ∷ d ∷ s) = endswith-append_nl (d ∷ s)

pub endswith-unlines : (ls : List Text) → ls ≢ [] → endswith_nl (unlines ls) ≡ true
endswith-unlines ls n = rw (unlines-join ls n) (endswith-append_nl (join_lines ls))

add_head-Lacks :
    (c : ℕ) (ls : List Text) → c ≢ nl → All (Lacks nl) ls → All (Lacks nl) (add_head c ls)
add_head-Lacks c [] n h = ((n, tt), tt)
add_head-Lacks c (l ∷ ls) n h = ((n, h.0), h.1)

pub split_lines-Lacks : (s : Text) → All (Lacks nl) (split_lines s)
unfolding split_lines
split_lines-Lacks [] = (tt, tt)
split_lines-Lacks (c ∷ s) = elim (Bool-cases (c == nl)) [
  | inl e ↦ rw e (tt, split_lines-Lacks s)
  | inr e ↦ rw e (add_head-Lacks c (split_lines s) (ground arith) (split_lines-Lacks s))
]

concat-with_ends :
    (ls : List Text) → ls ≢ [] → concat (with_ends true ls) ≡ join_lines ls ++ nl ∷ []
unfolding join_lines
concat-with_ends [] n = absurd (n refl)
concat-with_ends (l ∷ []) n = simp append_assoc
concat-with_ends (l ∷ m ∷ ls) n = simp (concat-with_ends (m ∷ ls) (λ e. cc), append_assoc)

concat-without_end : (ls : List Text) → concat (with_ends false ls) ≡ join_lines ls
unfolding join_lines
concat-without_end [] = refl
concat-without_end (l ∷ []) = refl
concat-without_end (l ∷ m ∷ ls) = simp (concat-without_end (m ∷ ls), append_assoc)

endswith-removesuffix : (s : Text) → endswith_nl s ≡ true → removesuffix_nl s ++ nl ∷ [] ≡ s
unfolding endswith_nl removesuffix_nl
endswith-removesuffix [] h = cc
endswith-removesuffix (c ∷ []) h = ground arith
endswith-removesuffix (c ∷ d ∷ s) h = ap (λ t. c ∷ t) (endswith-removesuffix (d ∷ s) h)

removesuffix-no_end : (s : Text) → endswith_nl s ≡ false → removesuffix_nl s ≡ s
unfolding endswith_nl removesuffix_nl
removesuffix-no_end [] h = refl
removesuffix-no_end (c ∷ []) h = ground arith
removesuffix-no_end (c ∷ d ∷ s) h = ap (λ t. c ∷ t) (removesuffix-no_end (d ∷ s) h)

-- The lines with their ends spell the text.
pub concat-lines_keepends : (s : Text) → concat (lines_keepends s) ≡ s
unfolding lines_keepends
concat-lines_keepends s = elim (Bool-cases (endswith_nl s)) [
  | inl e ↦ rw e (
      concat-with_ends (lines s) (split_lines-ne-nil (removesuffix_nl s))
      ∙ ap (λ t. t ++ nl ∷ []) (join-split_lines (removesuffix_nl s))
      ∙ endswith-removesuffix s e)
  | inr e ↦ rw e (
      concat-without_end (lines s) ∙ join-split_lines (removesuffix_nl s) ∙ removesuffix-no_end s e)
]
