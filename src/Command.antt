-- ===== src/Command.antt =====
-- The slash commands of a comment: `parse_command` of cli/slash.py.
pub mod Laws
use lgtmaybe.Prelude.{
  ℕ, ◌+◌, Bool, true, false, ◌&&◌, Option, none, some, List, [], ◌∷◌, ◌++◌, if◌then◌else◌, ◌==◌,
  leb, ◌>>=◌,
}
use lgtmaybe.Text.{Text, codes, text_eq}
use lgtmaybe.Text.Words.{is_space, strip, lstrip}
use lgtmaybe.Diff.Skip.{lower}

pub data SlashCommand : Type 0 where
  review improve ask describe diagram : SlashCommand

-- the member's value
abbrev pub value : SlashCommand → Text
value review = codes "review"
value improve = codes "improve"
value ask = codes "ask"
value describe = codes "describe"
value diagram = codes "diagram"

-- `SlashCommand(text)`, `none` for the ValueError
unfoldable pub slash_command : Text → Option SlashCommand
slash_command text =
    if text_eq text (value review)
    then some review
    else if text_eq text (value improve)
    then some improve
    else if text_eq text (value ask)
    then some ask
    else if text_eq text (value describe)
    then some describe
    else if text_eq text (value diagram)
    then some diagram
    else none

pub record ParsedCommand : Type 0 where
  pub name : SlashCommand
  pub arg : Text

-- the text up to its first white space, and the rest of it
unfoldable pub first_word : Text → Text
first_word [] = []
first_word (c ∷ s) = let rest = first_word s in if is_space c then [] else c ∷ rest

unfoldable pub behind_word : Text → Text
behind_word [] = []
behind_word (c ∷ s) = let rest = behind_word s in if is_space c then c ∷ s else rest

-- what is done with the text behind the slash, its leading white space left out, as `split(None, 1)`
abbrev pub parse_words : Text → Option ParsedCommand
parse_words [] = none
parse_words (c ∷ s) = slash_command (lower (first_word (c ∷ s))) >>= λ name.
    some (record { name = name; arg = strip (lstrip (behind_word (c ∷ s))) })

abbrev pub behind_slash : Text → Option ParsedCommand
behind_slash [] = none
behind_slash (c ∷ s) = if c == b'/' then parse_words (lstrip s) else none

unfoldable pub parse_command : Text → Option ParsedCommand
parse_command body = behind_slash (strip body)
