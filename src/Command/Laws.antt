-- ===== src/Command/Laws.antt =====
-- Reading written commands with `parse_command` of cli/slash.py.
use lgtmaybe.Prelude.{
  ℕ, ◌≡◌, ◌≢◌, refl, sym, ap, ◌∙◌, true, false, some, [], ◌∷◌, ◌++◌, All, append_assoc,
}
use lgtmaybe.Text.{Text, codes}
use lgtmaybe.Text.Words.{is_space, strip, lstrip, rstrip, keep_last}
use lgtmaybe.Diff.Skip.{lower}
use lgtmaybe.Command.{
  SlashCommand, review, improve, ask, describe, diagram, value, slash_command, first_word,
  behind_word, parse_words, behind_slash, parse_command,
}

-- a text of white space
abbrev pub IsSpaces : Text → Type 0
IsSpaces = All (λ c. is_space c ≡ true)

rstrip-append : (s t : Text) → rstrip t ≡ t → t ≢ [] → rstrip (s ++ t) ≡ s ++ t
unfolding rstrip
rstrip-append [] t e n = e
rstrip-append (c ∷ s) t e n = ap (keep_last c) (rstrip-append s t e n) ∙ kept c s t n
  where
    kept : (c : ℕ) (s t : Text) → t ≢ [] → keep_last c (s ++ t) ≡ c ∷ (s ++ t)
    kept c [] [] n = absurd (n refl)
    kept c [] (d ∷ t) n = refl
    kept c (d ∷ s) t n = refl

lstrip-append : (s t : Text) → IsSpaces s → lstrip (s ++ t) ≡ lstrip t
unfolding lstrip
lstrip-append [] t h = refl
lstrip-append (c ∷ s) t h = rw h.0 (lstrip-append s t h.1)

-- a word without white space, and white space behind it
module _ (c : ℕ) (s : Text) (space : is_space c ≡ true) where
  first_word-append : (w : Text) → All (λ d. is_space d ≡ false) w → first_word (w ++ c ∷ s) ≡ w
  unfolding first_word
  first_word-append [] h = rw space
  first_word-append (d ∷ w) h = rw h.0 (ap (λ t. d ∷ t) (first_word-append w h.1))

  behind_word-append :
      (w : Text) → All (λ d. is_space d ≡ false) w → behind_word (w ++ c ∷ s) ≡ c ∷ s
  unfolding behind_word
  behind_word-append [] h = rw space
  behind_word-append (d ∷ w) h = rw h.0 (behind_word-append w h.1)

value-word : (name : SlashCommand) → All (λ d. is_space d ≡ false) (value name)
unfolding is_space
value-word review = (refl, (refl, (refl, (refl, (refl, (refl, tt))))))
value-word improve = (refl, (refl, (refl, (refl, (refl, (refl, (refl, tt)))))))
value-word ask = (refl, (refl, (refl, tt)))
value-word describe = (refl, (refl, (refl, (refl, (refl, (refl, (refl, (refl, tt))))))))
value-word diagram = (refl, (refl, (refl, (refl, (refl, (refl, (refl, tt)))))))

slash_command-value : (name : SlashCommand) → slash_command (lower (value name)) ≡ some name
unfolding slash_command
slash_command-value review = refl
slash_command-value improve = refl
slash_command-value ask = refl
slash_command-value describe = refl
slash_command-value diagram = refl

lstrip-word : (d : ℕ) (s : Text) → is_space d ≡ false → lstrip (d ∷ s) ≡ d ∷ s
unfolding lstrip
lstrip-word d s h = rw h

parse_words-word :
    (name : SlashCommand) (d : ℕ) (w : Text) (c : ℕ) (s : Text)
    → is_space c ≡ true
    → All (λ e. is_space e ≡ false) (d ∷ w)
    → slash_command (lower (d ∷ w)) ≡ some name
    → parse_words (lstrip ((d ∷ w) ++ c ∷ s))
      ≡ some (record { name = name; arg = strip (lstrip (c ∷ s)) })
parse_words-word name d w c s space h e =
    ap parse_words (lstrip-word d (w ++ c ∷ s) h.0)
    ∙ rw (first_word-append c s space (d ∷ w) h, behind_word-append c s space (d ∷ w) h, e)

parse_words-value :
    (name : SlashCommand) (c : ℕ) (s : Text)
    → is_space c ≡ true
    → parse_words (lstrip (value name ++ c ∷ s))
      ≡ some (record { name = name; arg = strip (lstrip (c ∷ s)) })
parse_words-value review c s space =
    parse_words-word review b'r' (codes "eview") c s space (value-word review)
      (slash_command-value review)
parse_words-value improve c s space =
    parse_words-word improve b'i' (codes "mprove") c s space (value-word improve)
      (slash_command-value improve)
parse_words-value ask c s space =
    parse_words-word ask b'a' (codes "sk") c s space (value-word ask) (slash_command-value ask)
parse_words-value describe c s space =
    parse_words-word describe b'd' (codes "escribe") c s space (value-word describe)
      (slash_command-value describe)
parse_words-value diagram c s space =
    parse_words-word diagram b'd' (codes "iagram") c s space (value-word diagram)
      (slash_command-value diagram)

slash-not_space : is_space b'/' ≡ false
unfolding is_space
slash-not_space = refl

strip-command :
    (s arg : Text) → rstrip arg ≡ arg → arg ≢ [] → strip (b'/' ∷ (s ++ arg)) ≡ b'/' ∷ (s ++ arg)
unfolding strip
strip-command s arg back n =
    ap rstrip (lstrip-word b'/' (s ++ arg) slash-not_space) ∙ rstrip-append (b'/' ∷ s) arg back n

strip-arg : (arg : Text) → lstrip arg ≡ arg → rstrip arg ≡ arg → strip arg ≡ arg
unfolding strip
strip-arg arg front back = ap rstrip front ∙ back

-- A slash, a command's name, white space and an argument, which neither begins nor ends with white space,
-- are read as this command with this argument.
pub parse_command-value :
    (name : SlashCommand) (c : ℕ) (spaces arg : Text)
    → IsSpaces (c ∷ spaces)
    → lstrip arg ≡ arg
    → rstrip arg ≡ arg
    → arg ≢ []
    → parse_command (b'/' ∷ (value name ++ c ∷ (spaces ++ arg)))
      ≡ some (record { name = name; arg = arg })
parse_command-value name c spaces arg h front back n =
    ap (λ t. parse_command (b'/' ∷ t)) (sym (append_assoc (value name) (c ∷ spaces) arg))
    ∙ unfolded (value name ++ c ∷ spaces)
    ∙ ap (λ t. parse_words (lstrip t)) (append_assoc (value name) (c ∷ spaces) arg)
    ∙ parse_words-value name c (spaces ++ arg) h.0
    ∙ ap (λ a. some (record { name = name; arg = a }))
        (ap strip (lstrip-append (c ∷ spaces) arg h ∙ front) ∙ strip-arg arg front back)
  where
    unfolded : (s : Text) → parse_command (b'/' ∷ (s ++ arg)) ≡ parse_words (lstrip (s ++ arg))
    unfolded s = unfold parse_command in ap behind_slash (strip-command s arg back n)
