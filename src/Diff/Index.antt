-- ===== src/Diff/Index.antt =====
-- `changed_line_index` of core/diffparse.py and `build_commentable_lines` of core/diff.py: the two
-- indexes that a comment's position is checked against, both loops over `walk_diff`.
pub mod Laws
use lgtmaybe.Prelude.{
  ℕ, ◌+◌, ◌≡◌, refl, List, [], ◌∷◌, ◌↔◌, Bool, true, false, Option, none, some, arith,
}
use lgtmaybe.Text.{Text}
use lgtmaybe.Collections.{Eq, pair_is_eq, text_is_eq, nat_is_eq}
use lgtmaybe.Collections.Set.{add}
use lgtmaybe.Collections.Dict.{append_at}
use lgtmaybe.Diff.Walk.{Entry, Kind, deleted, added, context, walk_diff}

-- the side of the diff that a comment attaches to
pub data Side : Type 0 where
  left right : Side

abbrev pub side_beq : Side → Side → Bool
side_beq left left = true
side_beq right right = true
side_beq _ _ = false

pub side_beq_iff : (s t : Side) → (side_beq s t ≡ true) ↔ (s ≡ t)
side_beq_iff left left = (λ _. refl, λ _. refl)
side_beq_iff left right = (λ h. cc, λ h. cc)
side_beq_iff right left = (λ h. cc, λ h. cc)
side_beq_iff right right = (λ _. refl, λ _. refl)

instance abbrev pub side_is_eq : Eq Side
side_is_eq = record { beq = side_beq; beq_iff = side_beq_iff }

abbrev pub LineIndex : Type 0
LineIndex = List ((Text × Side) × List (ℕ × Text))

-- one round of `changed_line_index`
unfoldable pub index_entry : LineIndex → Entry → LineIndex
index_entry index e = elim e.kind [
  | deleted ↦ append_at (e.path, left) (e.old_line, e.text) index
  | added ↦ append_at (e.path, right) (e.new_line, e.text) index
  | context ↦ index
]

unfoldable pub index_entries : LineIndex → List Entry → LineIndex
unfolding index_entry
index_entries index [] = index
index_entries index (e ∷ es) = index_entries (index_entry index e) es

unfoldable pub changed_line_index : Text → LineIndex
unfolding index_entries walk_diff
changed_line_index diff = index_entries [] (walk_diff diff)

-- (filename, line, side)
abbrev pub Anchor : Type 0
Anchor = Text × (ℕ × Side)

-- one round of `build_commentable_lines`
unfoldable pub comment_entry : List Anchor → Entry → List Anchor
comment_entry s e = elim e.kind [
  | deleted ↦ add (e.path, (e.old_line, left)) s
  | added ↦ add (e.path, (e.new_line, right)) s
  | context ↦ add (e.path, (e.new_line, right)) (add (e.path, (e.old_line, left)) s)
]

unfoldable pub comment_entries : List Anchor → List Entry → List Anchor
unfolding comment_entry
comment_entries s [] = s
comment_entries s (e ∷ es) = comment_entries (comment_entry s e) es

unfoldable pub build_commentable_lines : Text → List Anchor
unfolding comment_entries walk_diff
build_commentable_lines diff = comment_entries [] (walk_diff diff)
