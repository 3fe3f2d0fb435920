-- ===== src/Diff/Index/Laws.antt =====
-- What the two indexes of core/diffparse.py and core/diff.py hold.
use lgtmaybe.Prelude.{
  ℕ, ◌≡◌, sym, ap, ◌∙◌, List, [], ◌∷◌, ◌++◌, Bool, true, ◌&&◌, ◌||◌, arith, ◌==◌, any, All,
  All-append, All-imp, append_assoc, append-nil, if◌then◌else◌,
}
use lgtmaybe.Text.{Text, text_eq, text_eq_iff}
use lgtmaybe.Collections.{pair_is_eq, text_is_eq, nat_is_eq}
use lgtmaybe.Collections.Set.{add, has, has-add}
use lgtmaybe.Collections.Dict.{items, items-append_at}
use lgtmaybe.Diff.Walk.{Entry, deleted, added, context, walk_diff}
use lgtmaybe.Diff.Index.{
  Side, left, right, side_beq, side_is_eq, LineIndex, index_entry, index_entries,
  changed_line_index, Anchor, comment_entry, comment_entries, build_commentable_lines,
}

-- The changed line at (path, side) that an entry is, if it is one: the reference for the index.
abbrev pub changed_at : Text → Side → Entry → List (ℕ × Text)
changed_at path side e = elim e.kind [
  | deleted ↦ if text_eq e.path path && side_beq left side then (e.old_line, e.text) ∷ [] else []
  | added ↦ if text_eq e.path path && side_beq right side then (e.new_line, e.text) ∷ [] else []
  | context ↦ []
]

abbrev pub all_changed_at : Text → Side → List Entry → List (ℕ × Text)
all_changed_at path side [] = []
all_changed_at path side (e ∷ es) = changed_at path side e ++ all_changed_at path side es

items-index_entry :
    (path : Text) (side : Side) (index : LineIndex) (e : Entry)
    → items (path, side) (index_entry index e) ≡ items (path, side) index ++ changed_at path side e
unfolding index_entry
items-index_entry path side index e = ground (
  arith,
  items-append_at (e.path, left) (path, side) (e.old_line, e.text) index,
  items-append_at (e.path, right) (path, side) (e.new_line, e.text) index,
  append-nil (items (path, side) index),
)

items-index_entries :
    (path : Text) (side : Side) (index : LineIndex) (es : List Entry)
    → items (path, side) (index_entries index es)
      ≡ items (path, side) index ++ all_changed_at path side es
unfolding index_entries
items-index_entries path side index [] = sym (append-nil _)
items-index_entries path side index (e ∷ es) =
    items-index_entries path side (index_entry index e) es
    ∙ ap (λ l. l ++ all_changed_at path side es) (items-index_entry path side index e)
    ∙ append_assoc (items (path, side) index) _ _

-- `changed_line_index` maps each (path, side) to exactly the changed lines that `walk_diff` yields
-- for it, in diff order: the deleted ones with their old line numbers on the left side, and the
-- added ones with their new line numbers on the right side.
pub items-changed_line_index :
    (diff path : Text) (side : Side)
    → items (path, side) (changed_line_index diff) ≡ all_changed_at path side (walk_diff diff)
unfolding changed_line_index
items-changed_line_index diff path side =
    unfold items in items-index_entries path side [] (walk_diff diff)

-- An entry is on the left side unless it is added, and on the right side unless it is deleted.
abbrev pub anchors : Anchor → Entry → Bool
anchors (path, (line, side)) e = elim e.kind [
  | deleted ↦ text_eq path e.path && (line == e.old_line && side_beq side left)
  | added ↦ text_eq path e.path && (line == e.new_line && side_beq side right)
  | context ↦
      text_eq path e.path && (line == e.old_line && side_beq side left)
      || text_eq path e.path && (line == e.new_line && side_beq side right)
]

has-comment_entry :
    (a : Anchor) (s : List Anchor) (e : Entry)
    → has a (comment_entry s e) ≡ (has a s || anchors a e)
unfolding comment_entry
has-comment_entry (path, (line, side)) s e = ground (
  arith,
  has-add (path, (line, side)) (e.path, (e.old_line, left)) s,
  has-add (path, (line, side)) (e.path, (e.new_line, right)) s,
  has-add (path, (line, side)) (e.path, (e.new_line, right)) (add (e.path, (e.old_line, left)) s),
)

has-comment_entries :
    (a : Anchor) (s : List Anchor) (es : List Entry)
    → has a (comment_entries s es) ≡ (has a s || any (anchors a) es)
unfolding comment_entries
has-comment_entries a s [] = ground arith
has-comment_entries a s (e ∷ es) =
    ground (arith, has-comment_entries a (comment_entry s e) es, has-comment_entry a s e)

-- A (file, line, side) is commentable exactly when some line that `walk_diff` yields stands there:
-- deleted and context lines on the left at their old number, added and context lines on the right
-- at their new number.
pub has-build_commentable_lines :
    (diff : Text) (a : Anchor)
    → has a (build_commentable_lines diff) ≡ any (anchors a) (walk_diff diff)
unfolding build_commentable_lines has
has-build_commentable_lines diff a = has-comment_entries a [] (walk_diff diff)

changed_at-anchors :
    (path : Text) (side : Side) (e : Entry) (es : List Entry)
    → All
        (λ (l : ℕ × Text). any (anchors (path, (l.0, side))) (e ∷ es) ≡ true)
        (changed_at path side e)
changed_at-anchors path side e es = grind (
  arith,
  text_eq_iff e.path path,
  text_eq_iff path e.path,
  side_is_eq.beq_iff left side,
  side_is_eq.beq_iff side left,
  side_is_eq.beq_iff side right,
  side_is_eq.beq_iff right side,
)

all_changed_at-anchors :
    (path : Text) (side : Side) (es : List Entry)
    → All
        (λ (l : ℕ × Text). any (anchors (path, (l.0, side))) es ≡ true)
        (all_changed_at path side es)
all_changed_at-anchors path side [] = tt
all_changed_at-anchors path side (e ∷ es) =
    All-append _ (changed_at path side e) (all_changed_at path side es)
      (changed_at-anchors path side e es)
      (All-imp _ _ (λ l h. ground arith) (all_changed_at path side es)
        (all_changed_at-anchors path side es))

-- Every changed line that `changed_line_index` lists for a (path, side) is commentable there by
-- `build_commentable_lines`: a finding that is anchored to it is never dropped as off the diff.
pub changed_line_index-commentable :
    (diff path : Text) (side : Side)
    → All
        (λ (l : ℕ × Text). has (path, (l.0, side)) (build_commentable_lines diff) ≡ true)
        (items (path, side) (changed_line_index diff))
changed_line_index-commentable diff path side = rw items-changed_line_index (
    All-imp _ _ (λ l h. has-build_commentable_lines diff (path, (l.0, side)) ∙ h)
      (all_changed_at path side (walk_diff diff))
      (all_changed_at-anchors path side (walk_diff diff)))
