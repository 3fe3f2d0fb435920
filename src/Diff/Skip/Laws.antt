-- ===== src/Diff/Skip/Laws.antt =====
-- What the skip filter of core/diff.py keeps out of a review.
use lgtmaybe.Prelude.{
  ℕ, ◌≡◌, inl, inr, sym, ap, ◌∙◌, Bool, true, false, not, ◌||◌, List, [], ◌∷◌, ◌++◌, if◌then◌else◌,
  arith, any, is_some, Bool-cases,
}
use lgtmaybe.Text.{Text, starts_with, strip_prefix-append}
use lgtmaybe.Text.Words.{contains}
use lgtmaybe.Collections.{text_is_eq, eq}
use lgtmaybe.Collections.Set.{has}
use lgtmaybe.Diff.Skip.{
  skip_filenames, skip_dir_prefixes, skip_extensions, skip_glob_patterns, name, suffix, lower,
  in_skipped_dir, fnmatchcase, is_reviewable,
}

starts_with-append : (p s : Text) → starts_with (p ++ s) p ≡ true
starts_with-append p s = ap is_some (strip_prefix-append p s)

contains-append : (a : Text) (c : ℕ) (n b : Text) → contains (c ∷ n) (a ++ ((c ∷ n) ++ b)) ≡ true
unfolding contains
contains-append [] c n b = rw (starts_with-append (c ∷ n) b)
contains-append (d ∷ a) c n b = ground (arith, contains-append a c n b)

any-has :
    (p : Text) (test : Text → Bool) (ps : List Text)
    → has p ps ≡ true
    → test p ≡ true
    → any test ps ≡ true
unfolding has
any-has p test [] h t = cc
any-has p test (q ∷ ps) h t = elim (Bool-cases (eq p q)) [
  | inl e ↦ let same : test q ≡ true = ap test (sym ((text_is_eq.beq_iff p q).0 e)) ∙ t in rw same
  | inr e ↦ ground (arith, any-has p test ps)
]

guards :
    (named extended skipped globbed : Bool)
    → named || skipped ≡ true
    → (if named then false else if extended then false else if skipped then false else not globbed)
      ≡ false
guards named extended skipped globbed h = ground arith

is_reviewable-in_skipped_dir :
    (path : Text) → in_skipped_dir path ≡ true → is_reviewable path ≡ false
unfolding is_reviewable
is_reviewable-in_skipped_dir path h =
    guards (has (name path) skip_filenames) (has (lower (suffix path)) skip_extensions)
      (in_skipped_dir path) (any (fnmatchcase path) skip_glob_patterns) (ground arith)

in_skipped_dir-any :
    (dir path : Text)
    → has dir skip_dir_prefixes ≡ true
    → starts_with path dir || contains (b'/' ∷ dir) path ≡ true
    → in_skipped_dir path ≡ true
unfolding in_skipped_dir
in_skipped_dir-any dir path h t =
    any-has dir (λ prefix. starts_with path prefix || contains (b'/' ∷ prefix) path)
      skip_dir_prefixes h t

-- Nothing in a skipped directory is reviewed, whether the directory is at the root of the repository
-- or below another, and whatever the rest of the path is.
is_reviewable-skip_dir :
    (dir above below : Text)
    → has dir skip_dir_prefixes ≡ true
    → (is_reviewable (dir ++ below) ≡ false)
      × (is_reviewable (above ++ ((b'/' ∷ dir) ++ below)) ≡ false)
is_reviewable-skip_dir dir above below h = (
  is_reviewable-in_skipped_dir (dir ++ below)
      (in_skipped_dir-any dir (dir ++ below) h (rw (starts_with-append dir below))),
  is_reviewable-in_skipped_dir (above ++ ((b'/' ∷ dir) ++ below)) (
      in_skipped_dir-any dir (above ++ ((b'/' ∷ dir) ++ below)) h
        (ground (arith, contains-append above b'/' dir below))),
)
