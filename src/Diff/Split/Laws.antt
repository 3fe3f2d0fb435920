-- ===== src/Diff/Split/Laws.antt =====
-- What the patches of `split_by_file` of core/diffparse.py hold.
use lgtmaybe.Prelude.{
  ℕ, suc, ◌≡◌, ◌≢◌, refl, sym, ap, ◌∙◌, List, [], ◌∷◌, ◌++◌, concat, All, append_assoc, append-nil,
  arith, length, keep_if, max,
}
use lgtmaybe.Text.{Text, nl}
use lgtmaybe.Text.Lines.{split_lines, join_lines, behind_nl}
use lgtmaybe.Text.Groups.{groups, from, concat-groups, groups-IsGroup, length-groups, IsGroup}
use lgtmaybe.Diff.Header.{is_file_header}
use lgtmaybe.Diff.Split.{patches_from, or_whole, split_by_file}

abbrev pub texts : List (Text × Text) → List Text
texts [] = []
texts ((path, patch) ∷ ps) = patch ∷ texts ps

behind_nl-append :
    (ls : List Text) (m : Text) (ms : List Text)
    → behind_nl (ls ++ m ∷ ms) ≡ behind_nl ls ++ nl ∷ (m ++ behind_nl ms)
behind_nl-append [] m ms = refl
behind_nl-append (l ∷ ls) m ms = simp (behind_nl-append ls m ms, append_assoc)

join-append :
    (ls : List Text) (m : Text) (ms : List Text)
    → ls ≢ []
    → join_lines (ls ++ m ∷ ms) ≡ (join_lines ls ++ nl ∷ []) ++ join_lines (m ∷ ms)
unfolding join_lines
join-append [] m ms n = absurd (n refl)
join-append (l ∷ []) m ms n = simp (append_assoc, append-nil)
join-append (l ∷ k ∷ ls) m ms n = simp (behind_nl-append ls m ms, append_assoc)

concat-patches_from :
    (changed_files : List Text) (i : ℕ) (gs : List (List Text))
    → All (IsGroup is_file_header) gs
    → concat (texts (patches_from changed_files i gs)) ≡ join_lines (concat gs)
unfolding patches_from
concat-patches_from changed_files i [] ok = unfold join_lines in refl
concat-patches_from changed_files i (g ∷ []) ok =
    append-nil (join_lines g) ∙ ap join_lines (sym (append-nil g))
concat-patches_from changed_files i (g ∷ [] ∷ gs) ok = elim ok.1.0 [ ]
concat-patches_from changed_files i ([] ∷ (l ∷ h) ∷ gs) ok = elim ok.0 [ ]
concat-patches_from changed_files i ((k ∷ g) ∷ (l ∷ h) ∷ gs) ok =
    ap (λ t. (join_lines (k ∷ g) ++ nl ∷ []) ++ t)
      (concat-patches_from changed_files (suc i) ((l ∷ h) ∷ gs) ok.1)
    ∙ sym (join-append (k ∷ g) l (h ++ concat gs) (λ e. cc))

-- the diff from its first `diff --git` line on, or the whole diff if it has none
abbrev pub whole_or : Text → List Text → Text
whole_or diff [] = diff
whole_or diff (l ∷ ls) = join_lines (l ∷ ls)

concat-or_whole :
    (changed_files : List Text) (diff : Text) (gs : List (List Text))
    → All (IsGroup is_file_header) gs
    → concat (texts (or_whole changed_files diff gs)) ≡ whole_or diff (concat gs)
concat-or_whole changed_files diff [] ok = append-nil diff
concat-or_whole changed_files diff ([] ∷ gs) ok = elim ok.0 [ ]
concat-or_whole changed_files diff ((l ∷ g) ∷ gs) ok =
    concat-patches_from changed_files 0 ((l ∷ g) ∷ gs) ok

-- The patches of `split_by_file`, one behind the other, are the diff from its first `diff --git`
-- line on, or the whole diff if it has no such line: no text is lost, repeated or moved.
pub concat-split_by_file :
    (diff : Text) (changed_files : List Text)
    → concat (texts (split_by_file diff changed_files))
      ≡ whole_or diff (from is_file_header (split_lines diff))
unfolding split_by_file
concat-split_by_file diff changed_files =
    let ls = split_lines diff in
    concat-or_whole changed_files diff (groups is_file_header ls) (groups-IsGroup is_file_header ls)
    ∙ ap (whole_or diff) (concat-groups is_file_header ls)

length-patches_from :
    (changed_files : List Text) (i : ℕ) (gs : List (List Text))
    → length (patches_from changed_files i gs) ≡ length gs
unfolding patches_from
length-patches_from changed_files i [] = refl
length-patches_from changed_files i (g ∷ []) = refl
length-patches_from changed_files i (g ∷ h ∷ gs) =
    ap suc (length-patches_from changed_files (suc i) (h ∷ gs))

length-or_whole :
    (changed_files : List Text) (diff : Text) (gs : List (List Text))
    → length (or_whole changed_files diff gs) ≡ max 1 (length gs)
length-or_whole changed_files diff [] = refl
length-or_whole changed_files diff (g ∷ gs) =
    omega (arith, length-patches_from changed_files 0 (g ∷ gs))

-- `split_by_file` returns one patch for each `diff --git` line of the diff, and one if there is none.
length-split_by_file :
    (diff : Text) (changed_files : List Text)
    → length (split_by_file diff changed_files)
      ≡ max 1 (length (keep_if is_file_header (split_lines diff)))
unfolding split_by_file
length-split_by_file diff changed_files =
    length-or_whole changed_files diff (groups is_file_header (split_lines diff))
    ∙ ap (max 1) (length-groups is_file_header (split_lines diff))
