-- ===== src/Diff/Hunk.antt =====
-- A hunk by its parts, as the reference for what the readers of a diff are to find: a header, and
-- content lines with a marker each.
use lgtmaybe.Prelude.{ℕ, ◌+◌, List, [], ◌∷◌, map, All}
use lgtmaybe.Text.{Text, nl, Lacks}
use lgtmaybe.Diff.Header.{HunkHeader, render_hunk_header}
use lgtmaybe.Diff.Walk.{Kind, deleted, added, context, Entry}

pub record Line : Type 0 where
  pub kind : Kind
  pub text : Text

pub record Hunk : Type 0 where
  pub header : HunkHeader
  pub body : List Line

abbrev pub marker : Kind → ℕ
marker deleted = b'-'
marker added = b'+'
marker context = b' '

abbrev pub marked : Line → Text
marked l = marker l.kind ∷ l.text

abbrev pub hunk_lines : Hunk → List Text
hunk_lines h = render_hunk_header h.header ∷ map marked h.body

-- how far a line moves the two counters
abbrev pub old_step : Kind → ℕ
old_step deleted = 1
old_step added = 0
old_step context = 1

abbrev pub new_step : Kind → ℕ
new_step deleted = 0
new_step added = 1
new_step context = 1

-- the entries of content lines that begin at two line numbers
abbrev pub numbered : Text → ℕ → ℕ → List Line → List Entry
numbered path o n [] = []
numbered path o n (l ∷ ls) =
    record { path = path; kind = l.kind; old_line = o; new_line = n; text = l.text }
    ∷ numbered path (o + old_step l.kind) (n + new_step l.kind) ls

abbrev pub hunk_entries : Text → Hunk → List Entry
hunk_entries path h = numbered path h.header.old_start h.header.new_start h.body

-- each part is one line
pub record IsHunk (h : Hunk) : Type 0 where
  pub section : Lacks nl h.header.section
  pub body : All (λ (l : Line). Lacks nl l.text) h.body
