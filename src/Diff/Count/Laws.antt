-- ===== src/Diff/Count/Laws.antt =====
-- `changed_line_count` against `walk_diff`, both of core/diffparse.py.
use lgtmaybe.Prelude.{
  ℕ, ◌+◌, ◌≡◌, refl, sym, ap, subst, ◌∙◌, List, [], ◌∷◌, Bool, true, false, Option, none, some,
  arith, keep_if, length, All, if◌then◌else◌, ◌⊎◌, ◌==◌, is_some,
}
use lgtmaybe.Text.{Text}
use lgtmaybe.Text.Lines.{lines}
use lgtmaybe.Diff.Header.{
  parse_hunk_header, is_file_header, fallback_path, old_file_header, new_file_header,
}
use lgtmaybe.Diff.Walk.{
  Entry, context, Walk, start, step, content, preamble_path, walk_lines, walk_diff, yield_to,
}
use lgtmaybe.Diff.Count.{has_marker, count_line, count_lines, changed_line_count}

abbrev pub is_changed : Entry → Bool
is_changed e = elim e.kind [ context ↦ false | _ ↦ true ]

-- every `diff --git` line of the list names a path
abbrev pub NamedHeader : Text → Type 0
NamedHeader line = is_file_header line ≡ true → is_some (fallback_path line) ≡ true

-- the count of changed lines that one line adds
abbrev changed_in : Option Entry → ℕ
changed_in none = 0
changed_in (some e) = if is_changed e then 1 else 0

no_at_no_hunk : (c : ℕ) (s : Text) → (64 == c) ≡ false → parse_hunk_header (c ∷ s) ≡ none
unfolding parse_hunk_header
no_at_no_hunk c s h = rw h

file_header_first : (c : ℕ) (s : Text) → is_file_header (c ∷ s) ≡ true → c ≡ 100
unfolding is_file_header
file_header_first c s h = ground arith

file_header_no_hunk : (line : Text) → is_file_header line ≡ true → parse_hunk_header line ≡ none
file_header_no_hunk [] h = unfold is_file_header in cc
file_header_no_hunk (c ∷ s) h = no_at_no_hunk c s (ground (arith, file_header_first c s h))

preamble_first :
    (c : ℕ) (s : Text) → is_some (preamble_path false (c ∷ s)) ≡ true → (c ≡ 45) ⊎ (c ≡ 43)
unfolding old_file_header new_file_header
preamble_first c s h = ground arith

preamble_no_hunk :
    (line : Text) → is_some (preamble_path false line) ≡ true → parse_hunk_header line ≡ none
preamble_no_hunk [] h = unfold old_file_header new_file_header in cc
preamble_no_hunk (c ∷ s) h = no_at_no_hunk c s (ground (arith, preamble_first c s h))

content_lem :
    (w : Walk) (path line : Text)
    → ((content w path line).0.current_file ≡ w.current_file)
      × ((content w path line).0.in_hunk ≡ w.in_hunk)
      × (changed_in (content w path line).1 ≡ (if has_marker line then 1 else 0))
unfolding content
content_lem w path [] = ground arith
content_lem w path (c ∷ s) = ground arith

-- The two loops move alike on a line, where a file is known.
abbrev Alike : Walk → ℕ → Text → Type 0
Alike w count line =
    (is_some (step w line).0.current_file ≡ true)
    × ((count_line count w.in_hunk line).1 ≡ (step w line).0.in_hunk)
    × ((count_line count w.in_hunk line).0 ≡ count + changed_in (step w line).1)

Alike-known :
    (path : Text) (o n count : ℕ) (b : Bool) (line : Text)
    → NamedHeader line
    → Alike
        (record { current_file = some path; old_line = o; new_line = n; in_hunk = b })
        count
        line
unfolding step count_line
Alike-known path o n count true line named = ground (
  arith,
  file_header_no_hunk line,
  content_lem (record { current_file = some path; old_line = o; new_line = n; in_hunk = true }) path
      line,
)
Alike-known path o n count false line named =
    ground (arith, file_header_no_hunk line, preamble_no_hunk line)

Alike-step :
    (w : Walk) (o : Option Text) (count : ℕ) (line : Text)
    → w.current_file ≡ o
    → is_some o ≡ true
    → NamedHeader line
    → Alike w count line
Alike-step w none count line e known named = cc
Alike-step w (some path) count line e known named =
    subst (λ (v : Walk). Alike v count line)
      (λ i. record {
        current_file = sym e i;
        old_line = w.old_line;
        new_line = w.new_line;
        in_hunk = w.in_hunk;
      })
      (Alike-known path w.old_line w.new_line count w.in_hunk line named)

length-yield_to :
    (o : Option Entry) (es : List Entry)
    → length (keep_if is_changed (yield_to o es)) ≡ changed_in o + length (keep_if is_changed es)
length-yield_to none es = omega arith
length-yield_to (some e) es = ground arith

count_lines-walk_lines :
    (w : Walk) (count : ℕ) (ls : List Text)
    → is_some w.current_file ≡ true
    → All NamedHeader ls
    → count_lines count w.in_hunk ls ≡ count + length (keep_if is_changed (walk_lines w ls))
unfolding count_lines walk_lines
count_lines-walk_lines w count [] known named = omega arith
count_lines-walk_lines w count (line ∷ rest) known named =
    let (known', same_hunk, counted) = Alike-step w w.current_file count line refl known named.0 in
    let (count', in_hunk) = count_line count w.in_hunk line in
    let (w', entry) = step w line in
    ap (λ b. count_lines count' b rest) same_hunk
    ∙ count_lines-walk_lines w' count' rest known' named.1
    ∙ omega (arith, counted, length-yield_to entry (walk_lines w' rest))

count_lines-file_header :
    (line : Text) (rest : List Text)
    → is_file_header line ≡ true
    → count_lines 0 false (line ∷ rest) ≡ count_lines 0 false rest
unfolding count_lines count_line
count_lines-file_header line rest first = rw (file_header_no_hunk line first, first)

walk_lines-file_header :
    (line : Text) (rest : List Text)
    → is_file_header line ≡ true
    → walk_lines start (line ∷ rest)
      ≡ walk_lines (record start { current_file = fallback_path line }) rest
unfolding walk_lines step
walk_lines-file_header line rest first = rw first

-- For a diff that begins with a `diff --git` line, all of whose such lines name a path,
-- `changed_line_count` is the number of added and deleted lines that `walk_diff` yields. (Every
-- patch of `split_by_file` with git's `a/` and `b/` prefixes is such a diff.)
pub changed_line_count-walk_diff :
    (diff line : Text) (rest : List Text)
    → lines diff ≡ line ∷ rest
    → is_file_header line ≡ true
    → All NamedHeader (line ∷ rest)
    → changed_line_count diff ≡ length (keep_if is_changed (walk_diff diff))
unfolding changed_line_count walk_diff
changed_line_count-walk_diff diff line rest e first named =
    let w : Walk = record start { current_file = fallback_path line } in
    ap (count_lines 0 false) e
    ∙ count_lines-file_header line rest first
    ∙ count_lines-walk_lines w 0 rest (named.0 first) named.1
    ∙ omega arith
    ∙ ap (λ es. length (keep_if is_changed es))
        (sym (ap (walk_lines start) e ∙ walk_lines-file_header line rest first))
