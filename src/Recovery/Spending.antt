-- ===== src/Recovery/Spending.antt =====
-- What an action adds to the log of events of Recovery.Run: requests, and the checks in front of them.
use lgtmaybe.Prelude.{
  ℕ, suc, ◌+◌, ◌≤◌, ◌≡◌, refl, Bool, true, false, ◌&&◌, not, Option, none, some, List, [], ◌∷◌,
  arith, is_some, if◌then◌else◌, Bool-cases, inl, inr,
}
use lgtmaybe.Text.{Text}
use lgtmaybe.Recovery.Provider.{Request}
use lgtmaybe.Findings.Model.{ReviewFinding}
use lgtmaybe.Findings.Bound.{Lens}
use lgtmaybe.Recovery.Reasons.{Reason, LensOutcome}
use lgtmaybe.Recovery.Run.{
  RunState, Event, checked, sent, schema_off, ran_out, Session, Surroundings, Run, Action, pure,
  ◌>>=◌, ◌>>◌, modify, unless_skipped, ceiling_reached, metered_complete, contribute,
}

-- the requests that went out
abbrev pub sends : List Event → ℕ
sends [] = 0
sends (checked b ∷ l) = sends l
sends (sent r ∷ l) = suc (sends l)
sends (schema_off ∷ l) = sends l
sends (ran_out ∷ l) = sends l

-- the latest event is a check that allows to go ahead
abbrev pub allowed : List Event → Bool
allowed [] = false
allowed (checked b ∷ l) = b
allowed (sent r ∷ l) = false
allowed (schema_off ∷ l) = false
allowed (ran_out ∷ l) = false

-- each request stands directly behind a check that allowed it, and the fuel was enough
abbrev pub cleared : List Event → Bool
cleared [] = true
cleared (checked b ∷ l) = cleared l
cleared (sent r ∷ l) = allowed l && cleared l
cleared (schema_off ∷ l) = cleared l
cleared (ran_out ∷ l) = false

-- from `l` to `m`, at most `n` requests are sent, each cleared
abbrev pub Adds : ℕ → List Event → List Event → Type 0
Adds n l m = (sends m ≤ sends l + n) × (cleared m ≡ true)

-- the action sends at most `n` requests, each cleared
pub record Spends {A : Type 0} (n : ℕ) (act : Action A) : Type 0 where
  pub apply : (s : Session) → cleared s.log ≡ true → Adds n s.log (act s).1.log

-- the same of an action that begins behind a check
pub record Goes {A : Type 0} (n : ℕ) (act : Action A) : Type 0 where
  pub apply :
      (s : Session) → cleared s.log ≡ true → allowed s.log ≡ true → Adds n s.log (act s).1.log

pub Spends-Goes : {A : Type 0} {n : ℕ} {act : Action A} → Spends n act → Goes n act
Spends-Goes p = record { apply = λ s c a. p.apply s c }

pub Spends-le : {A : Type 0} {n : ℕ} (m : ℕ) {act : Action A} → Spends n act → n ≤ m → Spends m act
Spends-le m p h = record { apply = λ s c. (omega (arith, p.apply s c), (p.apply s c).1) }

pub Goes-le : {A : Type 0} {n : ℕ} (m : ℕ) {act : Action A} → Goes n act → n ≤ m → Goes m act
Goes-le m p h = record { apply = λ s c a. (omega (arith, p.apply s c a), (p.apply s c a).1) }

pub Spends-pure : {A : Type 0} (n : ℕ) (a : A) → Spends n (pure a)
Spends-pure n a = record { apply = λ s c. (omega arith, c) }

pub Spends-modify : (n : ℕ) (f : RunState → RunState) → Spends n (modify f)
Spends-modify n f = record { apply = λ s c. (omega arith, c) }

pub Spends-bind :
    {A B : Type 0} (m n : ℕ) {act : Action A} {f : A → Action B}
    → Spends m act
    → ((a : A) → Spends n (f a))
    → Spends (m + n) (act >>= f)
Spends-bind m n {act} {f} p q = record { apply = λ s c. step s c (p.apply s c) }
  where
    step :
        (s : Session)
        → cleared s.log ≡ true
        → Adds m s.log (act s).1.log
        → Adds (m + n) s.log ((act >>= f) s).1.log
    step s c h = let h' = (q (act s).0).apply (act s).1 h.1 in (omega (arith, h.0, h'.0), h'.1)

pub Goes-bind :
    {A B : Type 0} (m n : ℕ) {act : Action A} {f : A → Action B}
    → Goes m act
    → ((a : A) → Spends n (f a))
    → Goes (m + n) (act >>= f)
Goes-bind m n {act} {f} p q = record { apply = λ s c a. step s (p.apply s c a) }
  where
    step : (s : Session) → Adds m s.log (act s).1.log → Adds (m + n) s.log ((act >>= f) s).1.log
    step s h = let h' = (q (act s).0).apply (act s).1 h.1 in (omega (arith, h.0, h'.0), h'.1)

pub Spends-if :
    {A : Type 0} {n : ℕ} (b : Bool) {x y : Action A}
    → Spends n x
    → Spends n y
    → Spends n (if b then x else y)
Spends-if true p q = p
Spends-if false p q = q

pub Spends-if_false :
    {A : Type 0} {n : ℕ} {b : Bool} (x : Action A) {y : Action A}
    → b ≡ false
    → Spends n y
    → Spends n (if b then x else y)
Spends-if_false x e p = rw e p

-- what follows a check sends nothing, or begins behind a check that allows it
pub Spends-unless_skipped :
    {A : Type 0} (n : ℕ) (w : Surroundings) (run : Run) {stop : Text → Action A} {go : Action A}
    → ((t : Text) → Spends n (stop t))
    → Goes n go
    → Spends n (unless_skipped w run stop go)
unfolding unless_skipped
Spends-unless_skipped {A} n w run {stop} {go} p q = record {
  apply = λ s c. by_cases s c (ceiling_reached w run s);
}
  where
    Ends : Session → Option Text → Type 0
    Ends s o =
        Adds n s.log
          (elim o as (λ _. Action A) [ some t ↦ stop t | none ↦ go ]
            (record s { log = checked (not (is_some o)) ∷ s.log })).1.log

    by_cases : (s : Session) → cleared s.log ≡ true → (o : Option Text) → Ends s o
    by_cases s c none = q.apply (record s { log = checked true ∷ s.log }) c refl
    by_cases s c (some t) = (p t).apply (record s { log = checked false ∷ s.log }) c

pub Goes-metered_complete :
    (w : Surroundings) (request : Request) → Goes 1 (metered_complete w request)
unfolding metered_complete
Goes-metered_complete w request = record { apply = λ s c a. (omega arith, ground arith) }

pub Spends-contribute :
    (w : Surroundings) (run : Run) (lens : Lens) (findings : List ReviewFinding)
    → Spends 0 (contribute w run lens findings)
unfolding contribute
Spends-contribute w run lens findings = record { apply = λ s c. (omega arith, c) }

pub Spends-then :
    {A B : Type 0} (n : ℕ) {act : Action A} {next : Action B}
    → Spends 0 act
    → Spends n next
    → Spends n (act >> next)
Spends-then n {act} {next} p q = record { apply = λ s c. step s (p.apply s c) }
  where
    step : (s : Session) → Adds 0 s.log (act s).1.log → Adds n s.log ((act >> next) s).1.log
    step s h = let h' = q.apply (act s).1 h.1 in (omega (arith, h.0, h'.0), h'.1)

-- Of an action that may end with a reason of a certain kind: it sends at most `n` requests, and none
-- (one, where it begins behind a check) if it ends so.
pub record Quits (ends : Option Reason → Bool) (n : ℕ) (act : Action LensOutcome) : Type 0 where
  pub apply : (s : Session) → cleared s.log ≡ true → Adds n s.log (act s).1.log
  pub early :
      (s : Session)
      → cleared s.log ≡ true
      → ends (act s).0.error ≡ true
      → Adds 0 s.log (act s).1.log

pub record GoesOnce (ends : Option Reason → Bool) (n : ℕ) (act : Action LensOutcome) : Type 0 where
  pub apply :
      (s : Session) → cleared s.log ≡ true → allowed s.log ≡ true → Adds n s.log (act s).1.log
  pub early :
      (s : Session)
      → cleared s.log ≡ true
      → allowed s.log ≡ true
      → ends (act s).0.error ≡ true
      → Adds 1 s.log (act s).1.log

module _ {ends : Option Reason → Bool} where
  pub GoesOnce-Goes : {n : ℕ} {act : Action LensOutcome} → GoesOnce ends n act → Goes n act
  GoesOnce-Goes p = record { apply = p.apply }

  pub Quits-quiet : (n : ℕ) {act : Action LensOutcome} → Spends 0 act → Quits ends n act
  Quits-quiet n p = record {
    apply = λ s c. (omega (arith, (p.apply s c).0), (p.apply s c).1);
    early = λ s c e. p.apply s c;
  }

  pub Quits-never :
      (n : ℕ) {act : Action LensOutcome}
      → Spends n act
      → ((s : Session) → ends (act s).0.error ≡ false)
      → Quits ends n act
  Quits-never n p never = record {
    apply = λ s c. p.apply s c;
    early = λ s c e. absurd (cc (never s));
  }

  pub Quits-then :
      (n : ℕ) {A : Type 0} {act : Action A} {next : Action LensOutcome}
      → Spends 0 act
      → Quits ends n next
      → Quits ends n (act >> next)
  Quits-then n {act} {next} p q = record {
    apply = λ s c. step n s (p.apply s c) (q.apply (act s).1 (p.apply s c).1);
    early = λ s c e. step 0 s (p.apply s c) (q.early (act s).1 (p.apply s c).1 e);
  }
    where
      step :
          (k : ℕ) (s : Session)
          → Adds 0 s.log (act s).1.log
          → Adds k (act s).1.log (next (act s).1).1.log
          → Adds k s.log ((act >> next) s).1.log
      step k s h h' = (omega (arith, h.0, h'.0), h'.1)

  -- one request, and what follows its reply
  pub GoesOnce-bind :
      (n : ℕ) {A : Type 0} {act : Action A} {f : A → Action LensOutcome}
      → Goes 1 act
      → ((a : A) → Quits ends n (f a))
      → GoesOnce ends (suc n) (act >>= f)
  GoesOnce-bind n {A} {act} {f} p q = record {
    apply = λ s c a. step n s (p.apply s c a) ((q (act s).0).apply (act s).1 (p.apply s c a).1);
    early = λ s c a e. step 0 s (p.apply s c a) ((q (act s).0).early (act s).1 (p.apply s c a).1 e);
  }
    where
      step :
          (k : ℕ) (s : Session)
          → Adds 1 s.log (act s).1.log
          → Adds k (act s).1.log ((act >>= f) s).1.log
          → Adds (suc k) s.log ((act >>= f) s).1.log
      step k s h h' = (omega (arith, h.0, h'.0), h'.1)

  -- what follows is free, unless the first ended early
  pub Goes-branch :
      (n : ℕ) {act : Action LensOutcome} {f : LensOutcome → Action LensOutcome}
      → GoesOnce ends n act
      → ((o : LensOutcome) → ends o.error ≡ false → Spends 0 (f o))
      → ((o : LensOutcome) → Spends n (f o))
      → Goes (suc n) (act >>= f)
  Goes-branch n {act} {f} p free more = record {
    apply = λ s c a. elim (Bool-cases (ends (act s).0.error)) [
      | inl e ↦
          step 1 n (suc n) s (omega arith) (p.early s c a e)
            ((more (act s).0).apply (act s).1 (p.early s c a e).1)
      | inr e ↦
          step n 0 (suc n) s (omega arith) (p.apply s c a)
            ((free (act s).0 e).apply (act s).1 (p.apply s c a).1)
    ];
  }
    where
      step :
          (j k m : ℕ) (s : Session)
          → j + k ≤ m
          → Adds j s.log (act s).1.log
          → Adds k (act s).1.log ((act >>= f) s).1.log
          → Adds m s.log ((act >>= f) s).1.log
      step j k m s le h h' = (omega (arith, h.0, h'.0), h'.1)
