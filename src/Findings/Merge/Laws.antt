-- ===== src/Findings/Merge/Laws.antt =====
-- Which findings `_dedupe` of engine/engine.py keeps.
use lgtmaybe.Prelude.{
  ◌<◌, ◌⊎◌, length, ◌≡◌, refl, sym, ap, ◌∙◌, Bool, true, false, Option, none, some, List, [], ◌∷◌,
  ◌++◌, if◌then◌else◌, arith, keep_if, keep_if-append, All, All-append, All-imp, append_assoc,
  append-nil, Bool-cases, Option-cases, inl, inr, subst,
}
use lgtmaybe.Collections.{eq, text_is_eq, nat_is_eq, pair_is_eq, option_is_eq, eq_sound, eq-swap}
use lgtmaybe.Collections.Dict.{get, put, values, get-put}
use lgtmaybe.Diff.Index.{side_is_eq}
use lgtmaybe.Findings.Model.{ReviewFinding, rank}
use lgtmaybe.Findings.Merge.{Key, Best, key, displaces, stays, place, place_all, dedupe}

-- the finding stands at the key
abbrev pub at_key : Key → ReviewFinding → Bool
at_key k f = eq (key f) k

abbrev pub to_list : Option ReviewFinding → List ReviewFinding
to_list none = []
to_list (some f) = f ∷ []

-- the first of the best of some findings: it displaces each earlier one, and no later one displaces it
abbrev pub Chosen : List ReviewFinding → Option ReviewFinding → Type 0
Chosen fs none = fs ≡ []
Chosen fs (some f) =
    (earlier : List ReviewFinding) × (later : List ReviewFinding) × (fs ≡ earlier ++ f ∷ later)
    × All (λ g. displaces f g ≡ true) earlier
    × All (λ g. displaces g f ≡ false) later

-- One finding is worse than another: it is not anchored and the other is; or they are alike in this,
-- and it is less severe; or they are alike in both, and its body is shorter.
abbrev pub Worse : ReviewFinding → ReviewFinding → Type 0
Worse g f =
    ((g.anchored ≡ false) × (f.anchored ≡ true))
    ⊎ ((g.anchored ≡ f.anchored)
        × ((rank g.severity < rank f.severity)
            ⊎ ((rank g.severity ≡ rank f.severity) × (length g.body < length f.body))))

-- the first of the best of some findings
abbrev pub Winner : List ReviewFinding → Option ReviewFinding → Type 0
Winner fs none = fs ≡ []
Winner fs (some f) =
    (earlier : List ReviewFinding) × (later : List ReviewFinding) × (fs ≡ earlier ++ f ∷ later)
    × All (λ g. Worse g f) earlier
    × All (λ g. ¬ Worse f g) later

displaces-Worse : (f g : ReviewFinding) → displaces f g ≡ true → Worse g f
unfolding displaces
displaces-Worse f g h = ground arith

Worse-displaces : (f g : ReviewFinding) → displaces g f ≡ false → ¬ Worse f g
unfolding displaces
Worse-displaces f g h w = ground arith

displaces_trans :
    (f g h : ReviewFinding) → displaces g f ≡ true → displaces f h ≡ true → displaces g h ≡ true
unfolding displaces
displaces_trans f g h p q = ground arith

displaces_skip :
    (f g h : ReviewFinding) → displaces g f ≡ true → displaces h f ≡ false → displaces g h ≡ true
unfolding displaces
displaces_skip f g h p q = ground arith

-- what one more finding makes of the winner
abbrev next : Option ReviewFinding → ReviewFinding → ReviewFinding
next none g = g
next (some f) g = if displaces g f then g else f

Chosen-snoc :
    (fs : List ReviewFinding) (o : Option ReviewFinding) (g : ReviewFinding)
    → Chosen fs o
    → Chosen (fs ++ g ∷ []) (some (next o g))
Chosen-snoc fs none g e = rw e ([], [], refl, tt, tt)
Chosen-snoc fs (some f) g (earlier, later, e, worse, not_better) =
    elim (Bool-cases (displaces g f)) [
      | inl wins ↦ rw wins (
        fs,
        [],
        refl,
        subst (All (λ h. displaces g h ≡ true)) (sym e) (
            All-append (λ h. displaces g h ≡ true) earlier (f ∷ later)
              (All-imp _ _ (λ h. displaces_trans f g h wins) earlier worse)
              (wins, All-imp _ _ (λ h. displaces_skip f g h wins) later not_better)),
        tt,
      )
      | inr loses ↦ rw loses (
        earlier,
        later ++ g ∷ [],
        ap (λ l. l ++ g ∷ []) e ∙ append_assoc earlier (f ∷ later) (g ∷ []),
        worse,
        All-append (λ h. displaces h f ≡ false) later (g ∷ []) not_better (loses, tt),
      )
    ]

get-place :
    (best : Best) (g : ReviewFinding) (k : Key)
    → get k (place best g) ≡ (if at_key k g then some (next (get (key g) best) g) else get k best)
unfolding place
get-place best g k = elim (Option-cases (get (key g) best)) [
  | inl e ↦ rw e (get-put (key g) k g best)
  | inr (f, e) ↦ elim (Bool-cases (displaces g f)) [
    | inl wins ↦ rw (e, wins) (get-put (key g) k g best)
    | inr loses ↦ elim (Bool-cases (at_key k g)) [
      | inl here ↦ rw (e, loses, here) (ap (λ j. get j best) (sym (eq_sound here)) ∙ e)
      | inr away ↦ rw (e, loses, away)
    ]
  ]
]

place-Chosen :
    (k : Key) (best : Best) (done : List ReviewFinding) (g : ReviewFinding)
    → Chosen (keep_if (at_key k) done) (get k best)
    → Chosen (keep_if (at_key k) (done ++ g ∷ [])) (get k (place best g))
place-Chosen k best done g w = elim (Bool-cases (at_key k g)) [
  | inl here ↦
      rw (keep_if-append (at_key k) done (g ∷ []), get-place best g k, here)
        (Chosen-snoc (keep_if (at_key k) done) (get (key g) best) g
          (subst (λ j. Chosen (keep_if (at_key k) done) (get j best)) (sym (eq_sound here)) w))
  | inr away ↦ rw (keep_if-append (at_key k) done (g ∷ []), get-place best g k, away, append-nil) w
]

place_all-Chosen :
    (k : Key) (best : Best) (done fs : List ReviewFinding)
    → Chosen (keep_if (at_key k) done) (get k best)
    → Chosen (keep_if (at_key k) (done ++ fs)) (get k (place_all best fs))
unfolding place_all
place_all-Chosen k best done [] w = rw (append-nil done) w
place_all-Chosen k best done (g ∷ fs) w =
    subst (λ gs. Chosen (keep_if (at_key k) gs) (get k (place_all (place best g) fs)))
      (append_assoc done (g ∷ []) fs)
      (place_all-Chosen k (place best g) (done ++ g ∷ []) fs (place-Chosen k best done g w))

-- each entry under its own key, no key twice
abbrev Indexed : Best → Type 0
Indexed [] = Unit
Indexed ((k, f) ∷ m) = (k ≡ key f) × (get k m ≡ none) × Indexed m

Indexed-put : (f : ReviewFinding) (m : Best) → Indexed m → Indexed (put (key f) f m)
unfolding put get
Indexed-put f [] h = (refl, refl, tt)
Indexed-put f ((k, g) ∷ m) (own, once, h) = elim (Bool-cases (eq k (key f))) [
  | inl e ↦ rw e (eq_sound e, once, h)
  | inr e ↦ rw e (own, get-put (key f) k f m ∙ rw (eq-swap k (key f) e) once, Indexed-put f m h)
]

Indexed-place : (m : Best) (f : ReviewFinding) → Indexed m → Indexed (place m f)
unfolding place
Indexed-place m f h = elim (Bool-cases (stays m f (get (key f) m))) [
  | inl e ↦ rw e h
  | inr e ↦ rw e (Indexed-put f m h)
]

Indexed-place_all : (m : Best) (fs : List ReviewFinding) → Indexed m → Indexed (place_all m fs)
unfolding place_all
Indexed-place_all m [] h = h
Indexed-place_all m (f ∷ fs) h = Indexed-place_all (place m f) fs (Indexed-place m f h)

keep_if-values :
    (k : Key) (m : Best) → Indexed m → keep_if (at_key k) (values m) ≡ to_list (get k m)
unfolding get
keep_if-values k [] h = refl
keep_if-values k ((j, f) ∷ m) (own, once, h) = elim (Bool-cases (eq j k)) [
  | inl e ↦
      let here : at_key k f ≡ true = ap (λ i. eq i k) (sym own) ∙ e in
      let alone = keep_if-values k m h ∙ ap to_list (ap (λ i. get i m) (sym (eq_sound e)) ∙ once) in
      rw (e, here) (ap (λ fs. f ∷ fs) alone)
  | inr e ↦
      let away : at_key k f ≡ false = ap (λ i. eq i k) (sym own) ∙ e in
      rw (e, away) (keep_if-values k m h)
]

Chosen-Winner : (fs : List ReviewFinding) (o : Option ReviewFinding) → Chosen fs o → Winner fs o
Chosen-Winner fs none e = e
Chosen-Winner fs (some f) (earlier, later, e, worse, not_better) = (
  earlier,
  later,
  e,
  All-imp _ _ (λ g. displaces-Worse f g) earlier worse,
  All-imp _ _ (λ g. Worse-displaces f g) later not_better,
)

-- At each key (path, line, side, and a scanner's title) `_dedupe` keeps one of the findings that share
-- it, or nothing if there are none: each earlier one is worse (an unanchored one than an anchored one,
-- then by severity, then by the length of the body), and it is worse than no later one.
pub dedupe-Winner :
    (findings : List ReviewFinding) (k : Key)
    → (kept : Option ReviewFinding) × (keep_if (at_key k) (dedupe findings) ≡ to_list kept)
      × Winner (keep_if (at_key k) findings) kept
unfolding dedupe
dedupe-Winner findings k =
    let best = place_all [] findings in
    (
      get k best,
      keep_if-values k best (Indexed-place_all [] findings tt),
      Chosen-Winner (keep_if (at_key k) findings) (get k best)
          (place_all-Chosen k [] [] findings (unfold get in refl)),
    )
