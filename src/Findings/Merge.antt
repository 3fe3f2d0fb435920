-- ===== src/Findings/Merge.antt =====
-- `_dedupe` of engine/engine.py.
pub mod Laws
use lgtmaybe.Prelude.{
  ℕ, Bool, true, false, not, ◌&&◌, ◌||◌, Option, none, some, List, [], ◌∷◌, if◌then◌else◌, ltb,
  ◌==◌, length, map,
}
use lgtmaybe.Text.{Text}
use lgtmaybe.Collections.{Eq, eq, text_is_eq, nat_is_eq, pair_is_eq, option_is_eq}
use lgtmaybe.Collections.Dict.{get, put, values}
use lgtmaybe.Diff.Index.{Side, side_is_eq}
use lgtmaybe.Findings.Model.{ReviewFinding, rank}
use lgtmaybe.Findings.Scan.{is_scan_finding}

-- (path, line, side, scan title)
abbrev pub Key : Type 0
Key = Text × (ℕ × (Side × Option Text))

unfoldable pub key : ReviewFinding → Key
key f = (f.path, (f.line, (f.side, if is_scan_finding f then some f.title else none)))

abbrev bool_eq : Bool → Bool → Bool
bool_eq true b = b
bool_eq false b = not b

-- whether a finding takes the place of the one there is
unfoldable pub displaces : ReviewFinding → ReviewFinding → Bool
displaces finding existing =
    if bool_eq finding.anchored existing.anchored
    then ltb (rank existing.severity) (rank finding.severity)
      || (rank finding.severity == rank existing.severity
          && ltb (length existing.body) (length finding.body))
    else finding.anchored

abbrev pub Best : Type 0
Best = List (Key × ReviewFinding)

abbrev pub stays : Best → ReviewFinding → Option ReviewFinding → Bool
stays best finding none = false
stays best finding (some existing) = not (displaces finding existing)

-- one round of the loop
unfoldable pub place : Best → ReviewFinding → Best
place best finding =
    let written = put (key finding) finding best in
    if stays best finding (get (key finding) best) then best else written

unfoldable pub place_all : Best → List ReviewFinding → Best
unfolding place
place_all best [] = best
place_all best (f ∷ fs) = place_all (place best f) fs

unfoldable pub dedupe : List ReviewFinding → List ReviewFinding
unfolding place_all
dedupe findings = values (place_all [] findings)
