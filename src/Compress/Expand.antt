-- ===== src/Compress/Expand.antt =====
-- `expand_hunks` of engine/compress.py, which pads the hunks of a patch with lines of the file's text.
-- Spans of definitions are sorted by their start and counted from 1; no spans stand for None.
pub mod Laws
pub mod Whole
pub mod Bounds
use lgtmaybe.Prelude.{
  ℕ, zero, suc, ◌+◌, ◌-◌, ◌*◌, Bool, true, false, not, ◌&&◌, ◌||◌, Option, none, some, List, [],
  ◌∷◌, ◌++◌, ◌/◌, if◌then◌else◌, leb, ltb, ◌==◌, min, max, take, drop, map, concat, length, keep_if,
}
use lgtmaybe.Text.{Text, nl, codes}
use lgtmaybe.Text.Lines.{lines, join_lines}
use lgtmaybe.Compress.Tokens.{max_context_lines}
use lgtmaybe.Diff.Header.{HunkHeader, parse_hunk_header, render_hunk_header}

abbrev pub max_boundary_reach : ℕ
max_boundary_reach = 2 * max_context_lines

abbrev pub Span : Type 0
Span = ℕ × ℕ

-- the walk back over the spans that start no later, the nearest first
unfoldable pub walk_back : ℕ → List Span → Option ℕ
walk_back new_start [] = none
walk_back new_start ((start, end) ∷ spans) =
    let further = walk_back new_start spans in
    if ltb max_boundary_reach (new_start - start)
    then none
    else if leb new_start end
    then some start
    else further

-- the spans up to the place that `bisect_right` finds, the last of them first
unfoldable pub nearest_first : ℕ → List Span → List Span → List Span
nearest_first new_start found [] = found
nearest_first new_start found ((start, end) ∷ spans) =
    let further = nearest_first new_start ((start, end) ∷ found) spans in
    if leb start new_start then further else found

unfoldable pub enclosing_boundary : List Span → ℕ → Option ℕ
unfolding walk_back nearest_first
enclosing_boundary boundaries new_start =
    walk_back new_start (nearest_first new_start [] boundaries)

pub record Hunk : Type 0 where
  pub header : HunkHeader
  pub body : List Text

-- one more where the hunk has no lines of this side
abbrev pub first_line : ℕ → ℕ → ℕ
first_line start len = if len == 0 then start + 1 else start

abbrev pub first_new : Hunk → ℕ
first_new h = first_line h.header.new_start h.header.new_len

abbrev pub first_old : Hunk → ℕ
first_old h = first_line h.header.old_start h.header.old_len

abbrev pub last_new : Hunk → ℕ
last_new h = first_new h + h.header.new_len - 1

-- The lines in front of the first header, and the hunks: the lines that no header stands in front of
-- are the body of the header before them, or of the preamble.
abbrev pub parse_line : Text → Option HunkHeader → List Text × List Hunk → List Text × List Hunk
parse_line line none (preamble, hunks) = (line ∷ preamble, hunks)
parse_line line (some header) (body, hunks) = ([], record { header = header; body = body } ∷ hunks)

unfoldable pub parse_hunks : List Text → List Text × List Hunk
parse_hunks [] = ([], [])
parse_hunks (l ∷ ls) = parse_line l (parse_hunk_header l) (parse_hunks ls)

abbrev pub widened : ℕ → Option ℕ → ℕ
widened lead_start none = lead_start
widened lead_start (some enclosing) = if ltb enclosing lead_start then enclosing else lead_start

-- `first_new - (first_old - 1)`, which may exceed `first_new` by 1
unfoldable pub lead_start_of : Hunk → ℕ → List Span → ℕ
unfolding enclosing_boundary
lead_start_of hunk n boundaries =
    max (widened (max 1 (first_new hunk - n)) (enclosing_boundary boundaries (first_new hunk)))
      (first_new hunk + 1 - first_old hunk)

-- a group holds one hunk at least
pub record Group : Type 0 where
  pub first : Hunk
  pub more : List Hunk
  pub lead_start : ℕ

abbrev pub last_from : Hunk → List Hunk → Hunk
last_from h [] = h
last_from h (g ∷ gs) = last_from g gs

abbrev pub last_of : Group → Hunk
last_of g = last_from g.first g.more

module _ (content_lines : List Text) (n n_after : ℕ) (boundaries : List Span) where
  abbrev pub trail_end : Group → ℕ
  trail_end group = min (length content_lines) (last_new (last_of group) + n_after)

  abbrev pub reaches : Group → Hunk → Bool
  reaches group hunk = leb (lead_start_of hunk n boundaries) (trail_end group + 1)

  abbrev pub fillable : Hunk → Bool
  fillable hunk = leb (first_new hunk - 1) (length content_lines)

  -- where the pad of a hunk that starts a group begins
  abbrev pub trimmed : Group → Hunk → ℕ
  trimmed group hunk =
      if reaches group hunk
      then max (lead_start_of hunk n boundaries) (trail_end group + 1)
      else lead_start_of hunk n boundaries

  -- the rounds of the loop behind the first; the group is the last one so far
  unfoldable pub group_from : Group → List Hunk → List Group
  unfolding lead_start_of
  group_from group [] = group ∷ []
  group_from group (hunk ∷ hunks) =
      let joined = group_from (record group { more = group.more ++ hunk ∷ [] }) hunks in
      let apart =
        group
        ∷ group_from (record { first = hunk; more = []; lead_start = trimmed group hunk }) hunks in
      if reaches group hunk && fillable hunk then joined else apart

  unfoldable pub group_hunks : List Hunk → List Group
  unfolding group_from
  group_hunks [] = []
  group_hunks (hunk ∷ hunks) =
      group_from (record { first = hunk; more = []; lead_start = lead_start_of hunk n boundaries })
        hunks

  -- `content_lines[start:end]`
  abbrev pub slice : ℕ → ℕ → List Text
  slice start end = take (end - start) (drop start content_lines)

  abbrev pub padded : List Text → List Text
  padded texts = map (λ text. b' ' ∷ text) texts

  -- `first_new - 1` as the end of a slice: -1 is in front of the last line
  abbrev pub gap_end : ℕ → ℕ
  gap_end zero = length content_lines - 1
  gap_end (suc line) = line

  -- the bodies of further hunks, each behind the lines between it and the one before
  unfoldable pub filled : Hunk → List Hunk → List Text
  filled previous [] = []
  filled previous (hunk ∷ hunks) =
      padded (slice (last_new previous) (gap_end (first_new hunk)))
      ++ (hunk.body ++ filled hunk hunks)

  abbrev pub lead_end : Group → ℕ
  lead_end group = min (first_new group.first) (length content_lines + 1)

  unfoldable pub leading : Group → List Text
  leading group = slice (min group.lead_start (lead_end group) - 1) (lead_end group - 1)

  unfoldable pub trailing : Group → List Text
  trailing group = slice (last_new (last_of group)) (trail_end group)

  unfoldable pub group_lines : Group → List Text
  unfolding filled leading trailing
  group_lines group =
      padded (leading group)
      ++ ((group.first.body ++ filled group.first group.more) ++ padded (trailing group))

  -- `line[:1] in {" ", marker, ""}`
  abbrev counts : ℕ → Text → Bool
  counts marker [] = true
  counts marker (c ∷ s) = c == b' ' || c == marker

  unfoldable pub group_header : Group → Text
  unfolding group_lines
  group_header group = render_hunk_header (record {
    old_start = first_old group.first - length (leading group);
    old_len = length (keep_if (counts b'-') (group_lines group));
    new_start = first_new group.first - length (leading group);
    new_len = length (keep_if (counts b'+') (group_lines group));
    section = group.first.header.section;
  })

  unfoldable pub render_group : Group → List Text
  unfolding group_header
  render_group group = group_header group ∷ group_lines group

  unfoldable pub expanded : List Text → List Hunk → List Text
  unfolding render_group group_hunks
  expanded preamble hunks = preamble ++ concat (map render_group (group_hunks hunks))

  abbrev pub or_patch : Text → List Text × List Hunk → Text
  or_patch patch (preamble, []) = patch
  or_patch patch (preamble, hunk ∷ hunks) = join_lines (expanded preamble (hunk ∷ hunks)) ++ nl ∷ []

abbrev pub is_empty : Option Text → Bool
is_empty none = true
is_empty (some []) = true
is_empty (some (c ∷ s)) = false

abbrev pub text_of : Option Text → Text
text_of none = []
text_of (some text) = text

-- `after` is at least 0 where the program calls it
unfoldable pub expand_hunks : Text → Option Text → ℕ → ℕ → List Span → Text
unfolding expanded parse_hunks
expand_hunks patch file_content n after boundaries =
    let padded_patch =
      or_patch (lines (text_of file_content)) n after boundaries patch
        (parse_hunks (lines patch)) in
    if n == 0 || is_empty file_content then patch else padded_patch
