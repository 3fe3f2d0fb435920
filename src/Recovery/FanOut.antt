-- ===== src/Recovery/FanOut.antt =====
-- The pool of `_fan_out` of engine/engine.py: which calls are submitted, and when. A call stands for its
-- index, and any call in flight may be the next to complete.
pub mod Laws
use lgtmaybe.Prelude.{
  ℕ, zero, suc, ◌+◌, ◌≡◌, Bool, true, false, not, List, [], ◌∷◌, ◌++◌, if◌then◌else◌, ◌==◌, length,
  any,
}

-- `per_batch`: whether the batch warms the cache, and its calls
abbrev pub Batches {ℓ} : Type ℓ → Type ℓ
Batches Call = List (Bool × List Call)

-- `enumerate(batch_calls, start=index)`, the indices
abbrev pub indices_from {ℓ} : {Call : Type ℓ} → ℕ → List Call → List ℕ
indices_from index [] = []
indices_from index (c ∷ cs) = index ∷ indices_from (index + 1) cs

-- `pending.pop(future)`
abbrev pub remove_index : ℕ → List ℕ → List ℕ
remove_index i [] = []
remove_index i (j ∷ js) = let rest = remove_index i js in if i == j then js else j ∷ rest

-- the calls that a completed primer releases, and those that wait on
abbrev pub released : ℕ → List (ℕ × List ℕ) → List ℕ
released i [] = []
released i ((primer, rest) ∷ d) =
    let more = released i d in if i == primer then rest ++ more else more

abbrev pub still_deferred : ℕ → List (ℕ × List ℕ) → List (ℕ × List ℕ)
still_deferred i [] = []
still_deferred i ((primer, rest) ∷ d) =
    let more = still_deferred i d in if i == primer then more else (primer, rest) ∷ more

-- The futures in flight; the calls that wait for their batch's primer (`primer_batch` and `deferred`,
-- read together); and the results.
pub record Pool {ℓ} (Outcome : Type ℓ) : Type ℓ where
  pub pending : List ℕ
  pub deferred : List (ℕ × List ℕ)
  pub results : List (ℕ × Outcome)

module _ {ℓ} {Outcome : Type ℓ} where
  -- One batch is submitted: its first call alone if it warms the cache, else all of it. A batch that warms
  -- the cache has more than one lens, so it has a call; the source would raise an IndexError at one without.
  abbrev pub submit_batch : Bool → List ℕ → Pool Outcome → Pool Outcome
  submit_batch true [] p = p
  submit_batch true (primer ∷ rest) p = record p {
    pending = p.pending ++ primer ∷ [];
    deferred = p.deferred ++ (primer, rest) ∷ [];
  }
  submit_batch false indexed p = record p { pending = p.pending ++ indexed }

  unfoldable pub submit_from {κ} : {Call : Type κ} → ℕ → Batches Call → Pool Outcome → Pool Outcome
  submit_from index [] p = p
  submit_from index ((warm, calls) ∷ batches) p =
      submit_from (index + length calls) batches (submit_batch warm (indices_from index calls) p)

  -- the pool when the loop begins to wait
  unfoldable pub submit {κ} : {Call : Type κ} → Batches Call → Pool Outcome
  unfolding submit_from
  submit batches = submit_from 0 batches (record { pending = []; deferred = []; results = [] })

  -- a future is done, pass or fail
  unfoldable pub complete_call : ℕ → Outcome → Pool Outcome → Pool Outcome
  complete_call i outcome p = record {
    pending = remove_index i p.pending ++ released i p.deferred;
    deferred = still_deferred i p.deferred;
    results = (i, outcome) ∷ p.results;
  }

  -- one round: a call in flight completes
  pub data Completes (p q : Pool Outcome) : Type ℓ where
    completes :
        (i : ℕ) (outcome : Outcome)
        → any (λ j. i == j) p.pending ≡ true
        → q ≡ complete_call i outcome p
        → Completes p q

  -- so many rounds
  pub data Runs (p : Pool Outcome) : ℕ → Pool Outcome → Type ℓ where
    here : Runs p zero p
    next : {m : ℕ} {q r : Pool Outcome} → Runs p m q → Completes q r → Runs p (suc m) r
