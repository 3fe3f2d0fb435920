-- ===== src/Findings/Suppress/Laws.antt =====
-- What engine/suppress.py can and cannot drop.
use lgtmaybe.Prelude.{
  ℕ, ◌≡◌, ◌⊎◌, inl, inr, refl, ap, ◌∙◌, Bool, true, false, not, ◌&&◌, Option, none, some, List, [],
  ◌∷◌, if◌then◌else◌, arith, any, keep_if, keep_if-keep_if, Bool-cases,
}
use lgtmaybe.Text.{Text, text_eq}
use lgtmaybe.Collections.{eq, eq_sound, text_is_eq}
use lgtmaybe.Collections.Dict.{get, put, get-put}
use lgtmaybe.Findings.Model.{ReviewFinding}
use lgtmaybe.Findings.Suppress.{
  finding_fingerprint, is_protected_security, head_lines, is_suppressed, lines_for, apply_from,
  apply_suppressions,
}

kept_or_dropped :
    (b : Bool) (f : ReviewFinding) (xs ys : List ReviewFinding)
    → xs ≡ ys
    → (if b then xs else f ∷ xs) ≡ (if not b then f ∷ ys else ys)
kept_or_dropped true f xs ys e = e
kept_or_dropped false f xs ys e = ap (λ l. f ∷ l) e

not_suppressed :
    (dismissed protected other : Bool)
    → (protected && not dismissed) ≡ true
    → (if dismissed then true else if protected then false else other) ≡ false
not_suppressed dismissed protected other h = ground arith

module _ (digest lower : Text → Text) (is_word : ℕ → Bool)
    (ignore_fingerprints feedback_downvotes : List Text) (file_contents : Text → Option Text) where
  abbrev suppresses : ReviewFinding → List Text → Bool
  suppresses =
      is_suppressed digest lower is_word ignore_fingerprints feedback_downvotes file_contents

  abbrev from_cache : List (Text × List Text) → List ReviewFinding → List ReviewFinding
  from_cache = apply_from digest lower is_word ignore_fingerprints feedback_downvotes file_contents

  abbrev lookup : List (Text × List Text) → Text → List Text × List (Text × List Text)
  lookup = lines_for digest lower is_word ignore_fingerprints feedback_downvotes file_contents

  -- the cache holds nothing but the lines of the files
  abbrev Fresh : List (Text × List Text) → Type 0
  Fresh cache =
      (path : Text)
      → (get path cache ≡ none) ⊎ (get path cache ≡ some (head_lines (file_contents path)))

  Fresh-put :
      (cache : List (Text × List Text)) (path : Text)
      → Fresh cache
      → Fresh (put path (head_lines (file_contents path)) cache)
  Fresh-put cache path h other = elim (Bool-cases (eq path other)) [
    | inl e ↦ inr (
        get-put path other (head_lines (file_contents path)) cache
        ∙ rw e (ap (λ p. some (head_lines (file_contents p))) (eq_sound e)))
    | inr e ↦ rw (get-put path other (head_lines (file_contents path)) cache, e) (h other)
  ]

  lookup-Fresh :
      (cache : List (Text × List Text)) (path : Text)
      → Fresh cache
      → ((lookup cache path).0 ≡ head_lines (file_contents path)) × Fresh (lookup cache path).1
  unfolding lines_for
  lookup-Fresh cache path h = elim (h path) [
    | inl e ↦ rw e (refl, Fresh-put cache path h)
    | inr e ↦ rw e (refl, h)
  ]

  from_cache_cons :
      (cache : List (Text × List Text)) (f : ReviewFinding) (fs : List ReviewFinding)
      → from_cache cache (f ∷ fs) ≡ (
          if suppresses f (lookup cache f.path).0
          then from_cache (lookup cache f.path).1 fs
          else f ∷ from_cache (lookup cache f.path).1 fs)
  unfolding apply_from
  from_cache_cons cache f fs = refl

  from_cache-keep_if :
      (cache : List (Text × List Text)) (findings : List ReviewFinding)
      → Fresh cache
      → from_cache cache findings
        ≡ keep_if (λ f. not (suppresses f (head_lines (file_contents f.path)))) findings
  from_cache-keep_if cache [] h = unfold apply_from in refl
  from_cache-keep_if cache (f ∷ fs) h =
      let (fresh, next) = lookup-Fresh cache f.path h in
      from_cache_cons cache f fs
      ∙ rw fresh (
          kept_or_dropped (suppresses f (head_lines (file_contents f.path))) f _ _
            (from_cache-keep_if (lookup cache f.path).1 fs next))

  -- `apply_suppressions` removes the findings that are suppressed by the lines of their own file, and
  -- keeps the others in order: the cache of split files is never stale.
  pub apply_suppressions-keep_if :
      (findings : List ReviewFinding)
      → apply_suppressions digest lower is_word ignore_fingerprints feedback_downvotes file_contents
          findings
        ≡ keep_if (λ f. not (suppresses f (head_lines (file_contents f.path)))) findings
  unfolding apply_suppressions
  apply_suppressions-keep_if findings =
      from_cache-keep_if [] findings (λ path. inl (unfold get in refl))

  -- a security finding of high or critical severity that the configuration does not dismiss
  abbrev pub is_serious : ReviewFinding → Bool
  is_serious f =
      is_protected_security f
      && not (any (text_eq (finding_fingerprint digest lower f.path f.title)) ignore_fingerprints)

  serious-kept :
      (f : ReviewFinding) (lines : List Text) → is_serious f ≡ true → suppresses f lines ≡ false
  unfolding is_suppressed
  serious-kept f lines h =
      not_suppressed
        (any (text_eq (finding_fingerprint digest lower f.path f.title)) ignore_fingerprints)
        (is_protected_security f) _ h

  -- Whatever the files say and whoever voted, `apply_suppressions` keeps every security finding of high
  -- or critical severity that the configuration does not dismiss by its fingerprint.
  pub keep_if-apply_suppressions :
      (findings : List ReviewFinding)
      → keep_if is_serious (
          apply_suppressions digest lower is_word ignore_fingerprints feedback_downvotes
            file_contents findings)
        ≡ keep_if is_serious findings
  keep_if-apply_suppressions findings =
      ap (keep_if is_serious) (apply_suppressions-keep_if findings)
      ∙ keep_if-keep_if is_serious (λ f. not (suppresses f (head_lines (file_contents f.path))))
          findings (λ f h. ap not (serious-kept f (head_lines (file_contents f.path)) h))
