-- ===== src/Findings/SelfTalk.antt =====
-- engine/selftalk.py: findings whose text is the model's note to itself. `is_word` is the table of word
-- characters.
use lgtmaybe.Prelude.{ℕ, Bool, ◌&&◌, Option, none, some, List, [], ◌∷◌, ◌++◌, if◌then◌else◌}
use lgtmaybe.Text.{Text, codes}
use lgtmaybe.Text.Lines.{join_lines}
use lgtmaybe.Text.Words.{is_space}
use lgtmaybe.Text.Regex.{
  Regex, empty, one, both, repeated, not_behind, not_ahead, literal, choice, optional, search,
}
use lgtmaybe.Findings.Model.{ReviewFinding}

abbrev pub sequence : List Regex → Regex
sequence [] = empty
sequence (r ∷ rs) = both r (sequence rs)

abbrev literals : List Text → List Regex
literals [] = []
literals (w ∷ ws) = literal w ∷ literals ws

abbrev pub words_of : List Text → Regex
words_of ws = choice (literals ws)

-- `\s+`
abbrev pub spaces : Regex
spaces = both (one is_space) (repeated (one is_space))

module _ (is_word : ℕ → Bool) where
  -- a pattern between two word boundaries; it begins and ends with a letter
  abbrev pub bounded : List Regex → Regex
  bounded rs = both (not_behind is_word) (both (sequence rs) (not_ahead is_word))

  -- `(?:\w+\s+)?`
  abbrev pub one_word : Regex
  one_word = optional (sequence (one is_word ∷ repeated (one is_word) ∷ spaces ∷ []))

  -- `_BROKEN_ATTEMPT`
  abbrev pub broken_attempt : Regex
  broken_attempt = choice (
      bounded (
        words_of (codes "corrupted" ∷ codes "garbled" ∷ [])
        ∷ spaces
        ∷ words_of
            (codes "text" ∷ codes "output" ∷ codes "response" ∷ codes "reply" ∷ codes "json" ∷ [])
        ∷ [])
      ∷ bounded
          (literal (codes "meta") ∷ optional (literal (codes "-")) ∷ literal (codes "text") ∷ [])
      ∷ bounded (
          literal (codes "not")
          ∷ spaces
          ∷ literal (codes "instructions")
          ∷ spaces
          ∷ literal (codes "to")
          ∷ spaces
          ∷ literal (codes "follow")
          ∷ [])
      ∷ bounded (
          words_of (codes "my" ∷ codes "previous" ∷ codes "above" ∷ [])
          ∷ spaces
          ∷ one_word
          ∷ words_of (codes "response" ∷ codes "reply" ∷ codes "output" ∷ codes "answer" ∷ [])
          ∷ spaces
          ∷ words_of (
              codes "had"
              ∷ codes "has"
              ∷ codes "contains"
              ∷ codes "contain"
              ∷ codes "contained"
              ∷ [])
          ∷ spaces
          ∷ optional (sequence (literal (codes "a") ∷ optional (literal (codes "n")) ∷ spaces ∷ []))
          ∷ one_word
          ∷ literal (codes "formatting")
          ∷ spaces
          ∷ literal (codes "error")
          ∷ optional (literal (codes "s"))
          ∷ [])
      ∷ bounded (
          literal (codes "discard")
          ∷ optional (words_of (codes "ed" ∷ codes "ing" ∷ []))
          ∷ spaces
          ∷ optional (both (words_of (codes "all" ∷ codes "the" ∷ codes "this" ∷ [])) spaces)
          ∷ optional (
              both
                (words_of
                  (codes "corrupted" ∷ codes "garbled" ∷ codes "previous" ∷ codes "above" ∷ []))
                spaces)
          ∷ words_of (codes "output" ∷ codes "text" ∷ codes "response" ∷ codes "attempt" ∷ [])
          ∷ [])
      ∷ [])

  -- `_REQUIRED_SHAPE`
  abbrev pub required_shape : Regex
  required_shape = choice (
      bounded (literal (codes "valid") ∷ spaces ∷ literal (codes "json") ∷ [])
      ∷ bounded (
          literal (codes "findings")
          ∷ spaces
          ∷ words_of (codes "object" ∷ codes "array" ∷ codes "list" ∷ [])
          ∷ [])
      ∷ bounded (literal (codes "no") ∷ spaces ∷ literal (codes "prose") ∷ [])
      ∷ bounded (literal (codes "trailing") ∷ spaces ∷ literal (codes "junk") ∷ [])
      ∷ bounded (literal (codes "json") ∷ spaces ∷ literal (codes "only") ∷ [])
      ∷ [])

  -- a part of the prose, if it is there and not empty
  abbrev pub part : Option Text → List Text
  part none = []
  part (some []) = []
  part (some (c ∷ s)) = (c ∷ s) ∷ []

  unfoldable pub prose : ReviewFinding → Text
  prose finding = join_lines (
      part (some finding.title)
      ++ part (some finding.body)
      ++ part finding.failure_scenario
      ++ part finding.suggestion)

  unfoldable pub is_self_talk : ReviewFinding → Bool
  is_self_talk finding =
      search broken_attempt (prose finding) && search required_shape (prose finding)

  -- the loop, with the lists of kept and dropped findings
  unfoldable pub split_self_talk :
      List ReviewFinding
      → List ReviewFinding
      → List ReviewFinding
      → List ReviewFinding × List ReviewFinding
  split_self_talk kept dropped [] = (kept, dropped)
  split_self_talk kept dropped (f ∷ fs) =
      let to_dropped = split_self_talk kept (dropped ++ f ∷ []) fs in
      let to_kept = split_self_talk (kept ++ f ∷ []) dropped fs in
      if is_self_talk f then to_dropped else to_kept

  unfoldable pub drop_self_talk : List ReviewFinding → List ReviewFinding × List ReviewFinding
  unfolding split_self_talk
  drop_self_talk findings = split_self_talk [] [] findings
