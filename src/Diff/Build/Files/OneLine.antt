-- ===== src/Diff/Build/Files/OneLine.antt =====
-- The lines of a patch that core/diffbuild.py writes, one by one.
use lgtmaybe.Prelude.{
  ℕ, ◌≡◌, ◌≢◌, refl, ◌∙◌, List, [], ◌∷◌, ◌++◌, true, false, Option, none, some, arith, ltb, map,
  concat, All, All-append, Bool-cases, inl, inr,
}
use lgtmaybe.Text.{Text, nl, codes, Lacks, text_eq}
use lgtmaybe.Text.Decimal.{decimal, decimal-Lacks}
use lgtmaybe.Diff.Header.{HunkHeader, render_hunk_header}
use lgtmaybe.Diff.Hunk.{Line, Hunk, marked, marker, hunk_lines, IsHunk}
use lgtmaybe.Diff.Walk.{deleted, added, context, Kind}
use lgtmaybe.Diff.Build.{
  has_unsafe_path_chars, metadata, mode_lines, rename_lines, git_line, path_or, text_or,
  old_label_line, new_label_line, both_missing,
}
use lgtmaybe.Diff.Build.Files.{FileDiff, SafePath, OneLine, IsFileDiff, label_lines, file_lines}

pub any-Lacks :
    (p : Text) (c : ℕ) → (ltb c 0x20) ≡ true → has_unsafe_path_chars p ≡ false → Lacks c p
unfolding has_unsafe_path_chars
any-Lacks [] c low h = tt
any-Lacks (d ∷ p) c low h = (ground arith, any-Lacks p c low (ground arith))

path-Lacks :
    (p q : Option Text)
    → SafePath p
    → SafePath q
    → both_missing p q ≡ false
    → Lacks nl (path_or p q)
path-Lacks none none hp hq named = cc
path-Lacks none (some q) hp hq named = any-Lacks q nl refl hq.1
path-Lacks (some p) q hp hq named = any-Lacks p nl refl hp.1

label-Lacks :
    (p : Option Text) → SafePath p → Lacks nl (old_label_line p) × Lacks nl (new_label_line p)
unfolding old_label_line new_label_line
label-Lacks none h = (omega arith, omega arith)
label-Lacks (some p) h =
    let q = any-Lacks p nl refl h.1 in
    (
      All-append _ (codes "--- a/") p (omega arith) q,
      All-append _ (codes "+++ b/") p (omega arith) q,
    )

append-Lacks : (p s : Text) → Lacks nl p → Lacks nl s → Lacks nl (p ++ s)
append-Lacks = All-append (λ d. d ≢ nl)

git_line-Lacks :
    (p q : Option Text) → Lacks nl (path_or p q) → Lacks nl (path_or q p) → Lacks nl (git_line p q)
unfolding git_line
git_line-Lacks p q hp hq =
    append-Lacks (codes "diff --git a/") _ (omega arith)
      (append-Lacks (path_or p q) _ hp (append-Lacks (codes " b/") _ (omega arith) hq))

text_or-Lacks : (m : Option Text) → OneLine m → Lacks nl (text_or m (codes "100644"))
text_or-Lacks none h = omega arith
text_or-Lacks (some []) h = omega arith
text_or-Lacks (some (c ∷ s)) h = h

mode_lines-Lacks : (m n : Option Text) → OneLine m → OneLine n → All (Lacks nl) (mode_lines m n)
unfolding mode_lines
mode_lines-Lacks (some (c ∷ o)) (some (d ∷ n)) hm hn = elim (Bool-cases (text_eq (c ∷ o) (d ∷ n))) [
  | inl e ↦ rw (e, mode_lines) tt
  | inr e ↦
      rw (e, mode_lines)
        (
          append-Lacks (codes "old mode ") (c ∷ o) (omega arith) hm,
          (append-Lacks (codes "new mode ") (d ∷ n) (omega arith) hn, tt),
        )
]
mode_lines-Lacks (some []) n hm hn = tt
mode_lines-Lacks none n hm hn = tt
mode_lines-Lacks (some (c ∷ o)) n hm hn = tt

rename_lines-Lacks : (p q : Text) → Lacks nl p → Lacks nl q → All (Lacks nl) (rename_lines p q)
unfolding rename_lines
rename_lines-Lacks p q hp hq = elim (Bool-cases (text_eq p q)) [
  | inl e ↦ rw (e, rename_lines) tt
  | inr e ↦
      rw (e, rename_lines)
        (
          append-Lacks (codes "rename from ") p (omega arith) hp,
          (append-Lacks (codes "rename to ") q (omega arith) hq, tt),
        )
]

metadata-Lacks :
    (p q m n : Option Text)
    → SafePath p
    → SafePath q
    → OneLine m
    → OneLine n
    → All (Lacks nl) (metadata p q m n)
unfolding metadata
metadata-Lacks none q m n hp hq hm hn =
    (append-Lacks (codes "new file mode ") _ (omega arith) (text_or-Lacks n hn), tt)
metadata-Lacks (some p) none m n hp hq hm hn =
    (append-Lacks (codes "deleted file mode ") _ (omega arith) (text_or-Lacks m hm), tt)
metadata-Lacks (some p) (some q) m n hp hq hm hn =
    All-append (Lacks nl) (mode_lines m n) (rename_lines p q) (mode_lines-Lacks m n hm hn)
      (rename_lines-Lacks p q (any-Lacks p nl refl hp.1) (any-Lacks q nl refl hq.1))

pub header-Lacks : (h : HunkHeader) → Lacks nl h.section → Lacks nl (render_hunk_header h)
unfolding render_hunk_header
header-Lacks h ok = append-Lacks (codes "@@ -") _ (omega arith) (
    append-Lacks (decimal h.old_start) _ (decimal-Lacks h.old_start) (
      omega arith,
      append-Lacks (decimal h.old_len) _ (decimal-Lacks h.old_len) (
          append-Lacks (codes " +") _ (omega arith) (
            append-Lacks (decimal h.new_start) _ (decimal-Lacks h.new_start) (
              omega arith,
              append-Lacks (decimal h.new_len) _ (decimal-Lacks h.new_len)
                  (append-Lacks (codes " @@") _ (omega arith) ok),
            ))),
    ))

marked-Lacks :
    (ls : List Line) → All (λ (l : Line). Lacks nl l.text) ls → All (Lacks nl) (map marked ls)
marked-Lacks [] h = tt
marked-Lacks (l ∷ ls) h = ((marker_lem l.kind, h.0), marked-Lacks ls h.1)
  where
    marker_lem : (k : Kind) → marker k ≢ nl
    marker_lem deleted = omega arith
    marker_lem added = omega arith
    marker_lem context = omega arith

hunks-Lacks : (hs : List Hunk) → All IsHunk hs → All (Lacks nl) (concat (map hunk_lines hs))
hunks-Lacks [] ok = tt
hunks-Lacks (h ∷ hs) ok =
    All-append (Lacks nl) (hunk_lines h) (concat (map hunk_lines hs))
      (header-Lacks h.header ok.0.section, marked-Lacks h.body ok.0.body) (hunks-Lacks hs ok.1)

labels-Lacks :
    (p q : Option Text) (hs : List Hunk)
    → SafePath p
    → SafePath q
    → All (Lacks nl) (label_lines p q hs)
labels-Lacks p q [] hp hq = tt
labels-Lacks p q (h ∷ hs) hp hq = ((label-Lacks p hp).0, ((label-Lacks q hq).1, tt))

both_missing_comm : (p q : Option Text) → both_missing p q ≡ both_missing q p
both_missing_comm none none = refl
both_missing_comm none (some q) = refl
both_missing_comm (some p) none = refl
both_missing_comm (some p) (some q) = refl

-- Every line of a patch is one line.
pub file_lines-Lacks : (f : FileDiff) → IsFileDiff f → All (Lacks nl) (file_lines f)
file_lines-Lacks f ok = (
  git_line-Lacks f.old_path f.new_path
      (path-Lacks f.old_path f.new_path ok.old_path ok.new_path ok.named)
      (path-Lacks f.new_path f.old_path ok.new_path ok.old_path
        (both_missing_comm f.new_path f.old_path ∙ ok.named)),
  All-append (Lacks nl) (metadata f.old_path f.new_path f.old_mode f.new_mode) _
      (metadata-Lacks f.old_path f.new_path f.old_mode f.new_mode ok.old_path ok.new_path
        ok.old_mode ok.new_mode)
      (All-append (Lacks nl) (label_lines f.old_path f.new_path f.hunks) _
        (labels-Lacks f.old_path f.new_path f.hunks ok.old_path ok.new_path)
        (hunks-Lacks f.hunks ok.hunks)),
)
