-- ===== src/Recovery/Ending.antt =====
-- What holds of the result of an action of Recovery.Run, wherever it starts.
use lgtmaybe.Prelude.{
  ◌≡◌, ap, Bool, true, false, not, Option, none, some, List, ◌∷◌, is_some, if◌then◌else◌,
}
use lgtmaybe.Text.{Text}
use lgtmaybe.Recovery.Provider.{Request, Reply}
use lgtmaybe.Recovery.Run.{
  checked, Event, Session, Surroundings, Run, Action, pure, ◌>>=◌, ◌>>◌, ceiling_reached,
  unless_skipped, metered_complete,
}

pub record Yields {A : Type 0} (P : A → Type 0) (act : Action A) : Type 0 where
  pub apply : (s : Session) → P (act s).0

module _ {A : Type 0} {P : A → Type 0} where
  pub Yields-pure : (a : A) → P a → Yields P (pure a)
  Yields-pure a h = record { apply = λ s. h }

  pub Yields-bind :
      {B : Type 0} (Q : B → Type 0) {act : Action B} {f : B → Action A}
      → Yields Q act
      → ((b : B) → Q b → Yields P (f b))
      → Yields P (act >>= f)
  Yields-bind Q {act} h k = record { apply = λ s. (k (act s).0 (h.apply s)).apply (act s).1 }

  -- the first action's result does not matter
  pub Yields-last :
      {B : Type 0} (act : Action B) {f : B → Action A}
      → ((b : B) → Yields P (f b))
      → Yields P (act >>= f)
  Yields-last act k = record { apply = λ s. (k (act s).0).apply (act s).1 }

  pub Yields-then :
      {B : Type 0} (act : Action B) {next : Action A} → Yields P next → Yields P (act >> next)
  Yields-then act k = record { apply = λ s. k.apply (act s).1 }

  pub Yields-if :
      (b : Bool) {x y : Action A} → Yields P x → Yields P y → Yields P (if b then x else y)
  Yields-if true h k = h
  Yields-if false h k = k

  pub Yields-unless_skipped :
      (w : Surroundings) (run : Run) {stop : Text → Action A} {go : Action A}
      → ((t : Text) → Yields P (stop t))
      → Yields P go
      → Yields P (unless_skipped w run stop go)
  unfolding unless_skipped
  Yields-unless_skipped w run {stop} {go} h k = record {
    apply = λ s.
        by_cases (ceiling_reached w run s)
          (record s { log = checked (not (is_some (ceiling_reached w run s))) ∷ s.log });
  }
    where
      by_cases :
          (o : Option Text) (s : Session)
          → P (elim o as (λ _. Action A) [ some t ↦ stop t | none ↦ go ] s).0
      by_cases none s = k.apply s
      by_cases (some t) s = (h t).apply s

pub Yields-metered_complete :
    (w : Surroundings) (P : Reply → Type 0) (request : Request)
    → ((log : List Event) → P (w.complete log request))
    → Yields P (metered_complete w request)
unfolding metered_complete
Yields-metered_complete w P request h = record { apply = λ s. h s.log }

-- below every ceiling, a check goes ahead
pub unless_skipped-go :
    {A : Type 0} (w : Surroundings) (run : Run) (stop : Text → Action A) (go : Action A)
    (s : Session)
    → ceiling_reached w run s ≡ none
    → unless_skipped w run stop go s ≡ go (record s { log = checked true ∷ s.log })
unfolding unless_skipped
unless_skipped-go {A} w run stop go s e =
    ap
      (λ (o : Option Text).
        (elim o as (λ _. Action A) [ some t ↦ stop t | none ↦ go ])
          (record s { log = checked (not (is_some o)) ∷ s.log }))
      e
