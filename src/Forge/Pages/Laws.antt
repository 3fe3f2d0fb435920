-- ===== src/Forge/Pages/Laws.antt =====
-- What `paginate_pages` of core/paginate.py collects from a forge that lists in pages.
use lgtmaybe.Prelude.{
  ℕ, zero, suc, ◌+◌, ◌-◌, ◌*◌, ◌≤◌, ◌<◌, ◌≡◌, ◌≢◌, ◌⊎◌, inl, inr, refl, sym, ap, ◌∙◌, subst, true,
  Option, none, some, List, [], ◌∷◌, ◌++◌, arith, leb, ltb, length, take, drop, take-append-drop,
  length-append, length-drop, drop-drop, append-nil, append_assoc, Bool-cases,
}
use lgtmaybe.Forge.Pages.{Response, Outcome, returned, done, receive, walk, paginate_pages}

module _ {ℓ} {A : Type ℓ} where
  take_whole : (k : ℕ) (ys : List A) → length ys ≤ length (take k ys) → take k ys ≡ ys
  take_whole zero [] h = refl
  take_whole zero (y ∷ ys) h = absurd (omega arith)
  take_whole (suc k) [] h = refl
  take_whole (suc k) (y ∷ ys) h = ap (λ l. y ∷ l) (take_whole k ys (omega arith))

  take_short : (k : ℕ) (ys : List A) → length (take k ys) < k → take k ys ≡ ys
  take_short zero ys h = absurd (omega arith)
  take_short (suc k) [] h = refl
  take_short (suc k) (y ∷ ys) h = ap (λ l. y ∷ l) (take_short k ys (omega arith))

next_start : (page s : ℕ) → 0 < page → (page - 1) * s + s ≡ (page + 1 - 1) * s
next_start zero s pos = absurd (omega arith)
next_start (suc p) s pos =
    let e : suc p - 1 ≡ p = omega arith in
    let f : suc p + 1 - 1 ≡ suc p = omega arith in rw (e, f) (grind arith)

first_start : (s : ℕ) → (1 - 1) * s ≡ 0
first_start s = grind arith

length-ne-nil {ℓ} : {A : Type ℓ} (ys : List A) → ys ≢ [] → 0 < length ys
length-ne-nil [] n = absurd (n refl)
length-ne-nil (y ∷ ys) n = omega arith

module _ {ℓ} {A : Type ℓ} (limit k : ℕ) (xs : List A) (total : Option ℕ) where
  -- a forge that lists `xs` in pages of `k + 1`, counted from 1
  abbrev pub serves : ℕ → Option (Response A)
  serves page =
      some (record { batch = some (take (suc k) (drop ((page - 1) * suc k) xs)); total = total })

  -- it reports the size of the listing, or it honours the page size that is asked for
  abbrev pub IsHonest : Type 0
  IsHonest = (total ≡ some (length xs)) ⊎ ((total ≡ none) × (suc k ≡ limit))

  done-whole :
      (items rest : List A) (x : A)
      → IsHonest
      → items ++ x ∷ rest ≡ xs
      → done limit total (items ++ x ∷ take k rest) (x ∷ take k rest) ≡ true
      → take k rest ≡ rest
  unfolding done
  done-whole items rest x (inl e) whole h =
      take_whole k rest
        (count (subst (λ t. done limit t (items ++ x ∷ take k rest) (x ∷ take k rest) ≡ true) e h))
    where
      count :
          leb (length xs) (length (items ++ x ∷ take k rest)) ≡ true
          → length rest ≤ length (take k rest)
      count t = ground (
        arith,
        ap length whole,
        length-append items (x ∷ rest),
        length-append items (x ∷ take k rest),
      )
  done-whole items rest x (inr (e, same)) whole h =
      take_short k rest
        (count (subst (λ t. done limit t (items ++ x ∷ take k rest) (x ∷ take k rest) ≡ true) e h))
    where
      count : ltb (suc (length (take k rest))) limit ≡ true → length (take k rest) < k
      count t = ground (arith, same)

  -- one round, by what is left
  receive-page :
      (items rest : List A) (next : List A → Outcome A)
      → IsHonest
      → items ++ rest ≡ xs
      → (rest ≢ [] → next (items ++ take (suc k) rest) ≡ returned xs)
      → receive limit items next (some (record { batch = some (take (suc k) rest); total = total }))
        ≡ returned xs
  unfolding receive
  receive-page items [] next honest whole h = ap returned (sym (append-nil items) ∙ whole)
  receive-page items (x ∷ rest) next honest whole h =
      elim (Bool-cases (done limit total (items ++ x ∷ take k rest) (x ∷ take k rest))) [
        | inl e ↦ rw e (
            ap returned (ap (λ l. items ++ x ∷ l) (done-whole items rest x honest whole e) ∙ whole))
        | inr e ↦ rw e (h (λ n. cc))
      ]

  walk-page :
      (fuel page : ℕ) (items : List A)
      → IsHonest
      → 0 < page
      → items ++ drop ((page - 1) * suc k) xs ≡ xs
      → length (drop ((page - 1) * suc k) xs) < fuel
      → walk limit serves fuel items page ≡ returned xs
  unfolding walk
  walk-page zero page items honest pos whole enough = absurd (omega arith)
  walk-page (suc fuel) page items honest pos whole enough =
      let rest = drop ((page - 1) * suc k) xs in
      let moved : drop (suc k) rest ≡ drop ((page + 1 - 1) * suc k) xs =
        drop-drop ((page - 1) * suc k) (suc k) ((page + 1 - 1) * suc k) xs
          (next_start page (suc k) pos) in
      receive-page items rest (λ collected. walk limit serves fuel collected (page + 1)) honest
        whole
        (λ more.
          walk-page fuel (page + 1) (items ++ take (suc k) rest) honest (omega arith)
            (append_assoc items (take (suc k) rest) _
              ∙ ap (λ l. items ++ (take (suc k) rest ++ l)) (sym moved)
              ∙ ap (λ l. items ++ l) (take-append-drop (suc k) rest)
              ∙ whole)
            (omega (arith, length-ne-nil rest more, length-drop (suc k) rest, ap length moved)))

  -- From a forge that lists items in pages of a fixed size of at least 1, and that reports the size of
  -- the listing or, where it reports none, pages as large as asked for, `paginate_pages` returns the
  -- listing, whole and in order; one round more than there are items is always enough.
  pub paginate_pages-whole :
      (fuel : ℕ) → IsHonest → length xs < fuel → paginate_pages limit serves fuel ≡ returned xs
  unfolding paginate_pages
  paginate_pages-whole fuel honest enough =
      let all : drop ((1 - 1) * suc k) xs ≡ xs = ap (λ n. drop n xs) (first_start (suc k)) in
      walk-page fuel 1 [] honest (omega arith) all (omega (arith, ap length all))
