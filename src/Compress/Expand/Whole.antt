-- ===== src/Compress/Expand/Whole.antt =====
-- The padded patch as a text: its lines are those that `expand_hunks` wrote.
use lgtmaybe.Prelude.{
  ℕ, zero, suc, ◌-◌, ◌≡◌, ◌≢◌, refl, sym, ap, ◌∙◌, inl, inr, ◌||◌, ◌&&◌, ◌==◌, Option, none, some,
  List, [], ◌∷◌, ◌++◌, arith, take, drop, map, concat, All, All-append, Bool-cases,
}
use lgtmaybe.Text.{Text, nl, Lacks}
use lgtmaybe.Text.Lines.{lines, removesuffix_nl, unlines-join, lines-unlines, split_lines-Lacks}
use lgtmaybe.Diff.Header.{HunkHeader, parse_hunk_header}
use lgtmaybe.Diff.Header.Section.{parse_hunk_header-section}
use lgtmaybe.Diff.Build.Files.OneLine.{header-Lacks}
use lgtmaybe.Compress.Expand.{
  Span, Hunk, Group, parse_line, parse_hunks, group_from, group_hunks, reaches, fillable, trimmed,
  padded, slice, filled, leading, trailing, group_lines, group_header, render_group, expanded,
  or_patch, is_empty, text_of, expand_hunks,
}
use lgtmaybe.Compress.Expand.Laws.{
  changes, parsed, parse_hunks-changes, expanded-changes, hunks_of, group_hunks-hunks,
}

abbrev Whole : List Text → Type 0
Whole = All (Lacks nl)

All-drop : (n : ℕ) (ls : List Text) → Whole ls → Whole (drop n ls)
All-drop zero ls h = h
All-drop (suc n) [] h = tt
All-drop (suc n) (l ∷ ls) h = All-drop n ls h.1

All-take : (n : ℕ) (ls : List Text) → Whole ls → Whole (take n ls)
All-take zero ls h = tt
All-take (suc n) [] h = tt
All-take (suc n) (l ∷ ls) h = (h.0, All-take n ls h.1)

lines-Whole : (s : Text) → Whole (lines s)
unfolding lines
lines-Whole s = split_lines-Lacks (removesuffix_nl s)

abbrev WholeHunk : Hunk → Type 0
WholeHunk h = Whole h.body × Lacks nl h.header.section

abbrev WholeParts : List Text × List Hunk → Type 0
WholeParts p = Whole p.0 × All WholeHunk p.1

parse_line-Whole :
    (l : Text) (o : Option HunkHeader) (p : List Text × List Hunk)
    → parse_hunk_header l ≡ o
    → Lacks nl l
    → WholeParts p
    → WholeParts (parse_line l o p)
parse_line-Whole l none (preamble, hunks) e k h = ((k, h.0), h.1)
parse_line-Whole l (some header) (body, hunks) e k h =
    (tt, ((h.0, parse_hunk_header-section l header e), h.1))

parse_hunks-Whole : (ls : List Text) → Whole ls → WholeParts (parse_hunks ls)
unfolding parse_hunks
parse_hunks-Whole [] h = (tt, tt)
parse_hunks-Whole (l ∷ ls) h =
    parse_line-Whole l (parse_hunk_header l) (parse_hunks ls) refl h.0 (parse_hunks-Whole ls h.1)

abbrev WholeGroup : Group → Type 0
WholeGroup g = WholeHunk g.first × All WholeHunk g.more

module _ (content_lines : List Text) (n n_after : ℕ) (boundaries : List Span)
    (whole : Whole content_lines) where
  padded-Whole :
      (texts : List Text) → Whole texts → Whole (padded content_lines n n_after boundaries texts)
  padded-Whole [] h = tt
  padded-Whole (t ∷ ts) h = ((omega arith, h.0), padded-Whole ts h.1)

  slice-Whole :
      (start end : ℕ)
      → Whole (
          padded content_lines n n_after boundaries
            (slice content_lines n n_after boundaries start end))
  slice-Whole start end =
      padded-Whole _
        (All-take (end - start) (drop start content_lines) (All-drop start content_lines whole))

  filled-Whole :
      (h : Hunk) (hs : List Hunk)
      → All WholeHunk hs
      → Whole (filled content_lines n n_after boundaries h hs)
  unfolding filled
  filled-Whole h [] k = tt
  filled-Whole h (g ∷ gs) k =
      All-append (Lacks nl) _ _ (slice-Whole _ _)
        (All-append (Lacks nl) _ _ k.0.0 (filled-Whole g gs k.1))

  group_lines-Whole :
      (g : Group) → WholeGroup g → Whole (group_lines content_lines n n_after boundaries g)
  unfolding group_lines leading trailing
  group_lines-Whole g k = All-append (Lacks nl) _ _ (slice-Whole _ _) (
      All-append (Lacks nl) _ _ (All-append (Lacks nl) _ _ k.0.0 (filled-Whole g.first g.more k.1))
        (slice-Whole _ _))

  render_group-Whole :
      (g : Group) → WholeGroup g → Whole (render_group content_lines n n_after boundaries g)
  unfolding render_group group_header
  render_group-Whole g k = (header-Lacks _ k.0.1, group_lines-Whole g k)

  group_from-Whole :
      (g : Group) (hs : List Hunk)
      → WholeGroup g
      → All WholeHunk hs
      → All WholeGroup (group_from content_lines n n_after boundaries g hs)
  unfolding group_from
  group_from-Whole g [] k h = (k, tt)
  group_from-Whole g (x ∷ xs) k h =
      elim (Bool-cases (
        reaches content_lines n n_after boundaries g x
        && fillable content_lines n n_after boundaries x)) [
          | inl e ↦ rw e (
              group_from-Whole (record g { more = g.more ++ x ∷ [] }) xs
                (k.0, All-append WholeHunk g.more (x ∷ []) k.1 (h.0, tt)) h.1)
          | inr e ↦
              let next : Group = record {
                first = x;
                more = [];
                lead_start = trimmed content_lines n n_after boundaries g x;
              } in
              rw e (k, group_from-Whole next xs (h.0, tt) h.1)
        ]

  group_hunks-Whole :
      (hs : List Hunk)
      → All WholeHunk hs
      → All WholeGroup (group_hunks content_lines n n_after boundaries hs)
  unfolding group_hunks
  group_hunks-Whole [] h = tt
  group_hunks-Whole (x ∷ xs) h = group_from-Whole _ xs (h.0, tt) h.1

  rendered-Whole :
      (gs : List Group)
      → All WholeGroup gs
      → Whole (concat (map (render_group content_lines n n_after boundaries) gs))
  rendered-Whole [] h = tt
  rendered-Whole (g ∷ gs) h =
      All-append (Lacks nl) _ _ (render_group-Whole g h.0) (rendered-Whole gs h.1)

  rendered-nonempty :
      (preamble : List Text) (gs : List Group) (h : Hunk) (hs : List Hunk)
      → hunks_of content_lines n n_after boundaries gs ≡ h ∷ hs
      → preamble ++ concat (map (render_group content_lines n n_after boundaries) gs) ≢ []
  unfolding render_group
  rendered-nonempty (l ∷ preamble) gs h hs e k = cc
  rendered-nonempty [] [] h hs e k = cc
  rendered-nonempty [] (g ∷ gs) h hs e k = cc

  or_patch-changes :
      (patch : Text) (p : List Text × List Hunk)
      → WholeParts p
      → changes (parsed p) ≡ changes (lines patch)
      → changes (lines (or_patch content_lines n n_after boundaries patch p))
        ≡ changes (lines patch)
  or_patch-changes patch (preamble, []) k h = refl
  or_patch-changes patch (preamble, x ∷ xs) k h =
      let out = expanded content_lines n n_after boundaries preamble (x ∷ xs) in
      let nonempty : out ≢ [] =
        unfold expanded in
        rendered-nonempty preamble (group_hunks content_lines n n_after boundaries (x ∷ xs)) x xs
          (group_hunks-hunks content_lines n n_after boundaries (x ∷ xs)) in
      let whole_out : Whole out =
        unfold expanded in
        All-append (Lacks nl) preamble _ k.0 (rendered-Whole _ (group_hunks-Whole (x ∷ xs) k.1)) in
      ap changes (ap lines (sym (unlines-join out nonempty)) ∙ lines-unlines out nonempty whole_out)
      ∙ expanded-changes content_lines n n_after boundaries preamble (x ∷ xs)
      ∙ h

-- However a patch is padded, and even where the file's text is not the one that the patch is of: the
-- lines of the padded patch that begin with "+" or "-" are those of the patch, in order.
pub expand_hunks-changes :
    (patch : Text) (file_content : Option Text) (n after : ℕ) (boundaries : List Span)
    → changes (lines (expand_hunks patch file_content n after boundaries)) ≡ changes (lines patch)
unfolding expand_hunks
expand_hunks-changes patch file_content n after boundaries =
    elim (Bool-cases (n == 0 || is_empty file_content)) [
      | inl e ↦ rw e refl
      | inr e ↦ rw e (
          or_patch-changes (lines (text_of file_content)) n after boundaries
            (lines-Whole (text_of file_content)) patch (parse_hunks (lines patch))
            (parse_hunks-Whole (lines patch) (lines-Whole patch))
            (parse_hunks-changes (lines patch)))
    ]
