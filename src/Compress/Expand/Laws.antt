-- ===== src/Compress/Expand/Laws.antt =====
-- What the padding of hunks leaves as it is.
use lgtmaybe.Prelude.{
  ℕ, ◌≡◌, refl, sym, ap, ◌∙◌, inl, inr, Bool, true, false, ◌||◌, ◌&&◌, append-nil, Option, none,
  some, List, [], ◌∷◌, ◌++◌, if◌then◌else◌, arith, keep_if, keep_if-append, append_assoc, map,
  concat, Bool-cases, ◌==◌,
}
use lgtmaybe.Text.{Text}
use lgtmaybe.Diff.Header.{HunkHeader, parse_hunk_header, hunk_numbers, render_hunk_header}
use lgtmaybe.Compress.Expand.{
  Hunk, Group, parse_line, parse_hunks, group_from, group_hunks, reaches, fillable, padded, slice,
  gap_end, filled, leading, trailing, group_lines, group_header, render_group, expanded, last_new,
  first_new,
}

-- a line that adds or deletes something
abbrev pub is_change : Text → Bool
is_change [] = false
is_change (c ∷ s) = c == b'+' || c == b'-'

abbrev pub changes : List Text → List Text
changes ls = keep_if is_change ls

abbrev pub bodies : List Hunk → List Text
bodies [] = []
bodies (h ∷ hs) = h.body ++ bodies hs

changes-append : (xs ys : List Text) → changes (xs ++ ys) ≡ changes xs ++ changes ys
changes-append xs ys = keep_if-append is_change xs ys

-- a line that changes something is no hunk header
change-parse : (c : ℕ) (s : Text) → is_change (c ∷ s) ≡ true → parse_hunk_header (c ∷ s) ≡ none
unfolding parse_hunk_header hunk_numbers
change-parse c s h = elim (Bool-cases (b'@' == c)) [ inl e ↦ absurd (ground arith) | inr e ↦ rw e ]

header-change : (l : Text) (h : HunkHeader) → parse_hunk_header l ≡ some h → is_change l ≡ false
header-change [] h e = refl
header-change (c ∷ s) h e = elim (Bool-cases (is_change (c ∷ s))) [
  | inl k ↦ let no : parse_hunk_header (c ∷ s) ≡ none = change-parse c s k in cc
  | inr k ↦ k
]

abbrev pub parsed : List Text × List Hunk → List Text
parsed (preamble, hunks) = preamble ++ bodies hunks

changes-cons :
    (l : Text) (xs ys : List Text) → changes xs ≡ changes ys → changes (l ∷ xs) ≡ changes (l ∷ ys)
changes-cons l xs ys e = ap (λ zs. if is_change l then l ∷ zs else zs) e

parse_line-changes :
    (l : Text) (o : Option HunkHeader) (p : List Text × List Hunk) (ls : List Text)
    → parse_hunk_header l ≡ o
    → changes (parsed p) ≡ changes ls
    → changes (parsed (parse_line l o p)) ≡ changes (l ∷ ls)
parse_line-changes l none (preamble, hunks) ls e h = changes-cons l (preamble ++ bodies hunks) ls h
parse_line-changes l (some header) (body, hunks) ls e h = rw (header-change l header e) h

-- the lines that change something all come from the preamble and the bodies
pub parse_hunks-changes : (ls : List Text) → changes (parsed (parse_hunks ls)) ≡ changes ls
unfolding parse_hunks
parse_hunks-changes [] = refl
parse_hunks-changes (l ∷ ls) =
    parse_line-changes l (parse_hunk_header l) (parse_hunks ls) ls refl (parse_hunks-changes ls)

header-quiet : (h : HunkHeader) → is_change (render_hunk_header h) ≡ false
unfolding render_hunk_header
header-quiet h = refl

bodies-append : (hs gs : List Hunk) → bodies (hs ++ gs) ≡ bodies hs ++ bodies gs
bodies-append [] gs = refl
bodies-append (h ∷ hs) gs = rw (bodies-append hs gs, append_assoc) refl

module _ (content_lines : List Text) (n n_after : ℕ) (boundaries : List (ℕ × ℕ)) where
  padded-quiet :
      (texts : List Text) → changes (padded content_lines n n_after boundaries texts) ≡ []
  padded-quiet [] = refl
  padded-quiet (t ∷ ts) = padded-quiet ts

  -- padded lines in front and behind add no change
  around-changes :
      (before texts after : List Text)
      → changes (
          padded content_lines n n_after boundaries before
          ++ (texts ++ padded content_lines n n_after boundaries after))
        ≡ changes texts
  around-changes before texts after =
      changes-append (padded content_lines n n_after boundaries before) _
      ∙ rw
          (
            padded-quiet before,
            changes-append texts (padded content_lines n n_after boundaries after),
            padded-quiet after,
          )
          (append-nil (changes texts))

  behind-changes :
      (before texts : List Text)
      → changes (padded content_lines n n_after boundaries before ++ texts) ≡ changes texts
  behind-changes before texts =
      changes-append (padded content_lines n n_after boundaries before) texts
      ∙ rw (padded-quiet before)

  both-changes :
      (xs ys zs : List Text) → changes ys ≡ changes zs → changes (xs ++ ys) ≡ changes (xs ++ zs)
  both-changes xs ys zs e =
      changes-append xs ys ∙ ap (λ us. changes xs ++ us) e ∙ sym (changes-append xs zs)

  filled-changes :
      (h : Hunk) (hs : List Hunk)
      → changes (filled content_lines n n_after boundaries h hs) ≡ changes (bodies hs)
  unfolding filled
  filled-changes h [] = refl
  filled-changes h (g ∷ gs) =
      behind-changes
        (slice content_lines n n_after boundaries (last_new h)
          (gap_end content_lines n n_after boundaries (first_new g)))
        (g.body ++ filled content_lines n n_after boundaries g gs)
      ∙ both-changes g.body _ (bodies gs) (filled-changes g gs)

  group_lines-changes :
      (g : Group)
      → changes (group_lines content_lines n n_after boundaries g)
        ≡ changes (bodies (g.first ∷ g.more))
  unfolding group_lines
  group_lines-changes g =
      around-changes (leading content_lines n n_after boundaries g) _
        (trailing content_lines n n_after boundaries g)
      ∙ both-changes g.first.body _ (bodies g.more) (filled-changes g.first g.more)

  abbrev pub hunks_of : List Group → List Hunk
  hunks_of [] = []
  hunks_of (g ∷ gs) = (g.first ∷ g.more) ++ hunks_of gs

  -- every hunk is in one group, in order
  group_from-hunks :
      (g : Group) (hs : List Hunk)
      → hunks_of (group_from content_lines n n_after boundaries g hs) ≡ (g.first ∷ g.more) ++ hs
  unfolding group_from
  group_from-hunks g [] = refl
  group_from-hunks g (h ∷ hs) =
      elim (Bool-cases (
        reaches content_lines n n_after boundaries g h
        && fillable content_lines n n_after boundaries h)) [
          | inl e ↦ rw e (
              group_from-hunks (record g { more = g.more ++ h ∷ [] }) hs
              ∙ ap (λ gs. g.first ∷ gs) (append_assoc g.more (h ∷ []) hs))
          | inr e ↦ rw e (ap (λ gs. (g.first ∷ g.more) ++ gs) (group_from-hunks _ hs))
        ]

  pub group_hunks-hunks :
      (hs : List Hunk) → hunks_of (group_hunks content_lines n n_after boundaries hs) ≡ hs
  unfolding group_hunks
  group_hunks-hunks [] = refl
  group_hunks-hunks (h ∷ hs) = group_from-hunks _ hs

  render_group-changes :
      (g : Group)
      → changes (render_group content_lines n n_after boundaries g)
        ≡ changes (bodies (g.first ∷ g.more))
  unfolding render_group group_header
  render_group-changes g =
      rw
        (header-quiet (record {
          old_start = _;
          old_len = _;
          new_start = _;
          new_len = _;
          section = g.first.header.section;
        }))
        (group_lines-changes g)

  rendered-changes :
      (gs : List Group)
      → changes (concat (map (render_group content_lines n n_after boundaries) gs))
        ≡ changes (bodies (hunks_of gs))
  rendered-changes [] = refl
  rendered-changes (g ∷ gs) =
      changes-append (render_group content_lines n n_after boundaries g) _
      ∙ ap (λ us. us ++ changes (concat (map (render_group content_lines n n_after boundaries) gs)))
          (render_group-changes g)
      ∙ ap (λ us. changes (bodies (g.first ∷ g.more)) ++ us) (rendered-changes gs)
      ∙ sym (changes-append (bodies (g.first ∷ g.more)) (bodies (hunks_of gs)))
      ∙ ap changes (sym (bodies-append (g.first ∷ g.more) (hunks_of gs)))

  pub expanded-changes :
      (preamble : List Text) (hunks : List Hunk)
      → changes (expanded content_lines n n_after boundaries preamble hunks)
        ≡ changes (preamble ++ bodies hunks)
  unfolding expanded
  expanded-changes preamble hunks = both-changes preamble _ (bodies hunks) (
      rendered-changes (group_hunks content_lines n n_after boundaries hunks)
      ∙ ap (λ hs. changes (bodies hs)) (group_hunks-hunks hunks))
