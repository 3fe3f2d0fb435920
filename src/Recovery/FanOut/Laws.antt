-- ===== src/Recovery/FanOut/Laws.antt =====
-- In whatever order the calls of the pool of `_fan_out` (engine/engine.py) complete.
use lgtmaybe.Prelude.{
  ℕ, suc, ◌+◌, ◌<◌, ◌≡◌, ◌⊎◌, inl, inr, refl, ap, ◌∙◌, Bool, true, false, ◌&&◌, List, [], ◌∷◌, ◌++◌,
  arith, if◌then◌else◌, ◌==◌, ltb, leb, length, length-append, any, All, ◌||◌, subst, sym,
  Bool-cases,
}
use lgtmaybe.Recovery.FanOut.{
  Batches, indices_from, Pool, submit_batch, submit_from, submit, remove_index, released,
  still_deferred, complete_call, completes, Runs, here, next,
}

abbrev pub count : ℕ → List ℕ → ℕ
count i [] = 0
count i (j ∷ js) = (if i == j then 1 else 0) + count i js

-- all that wait for a primer
abbrev pub waiting : List (ℕ × List ℕ) → List ℕ
waiting [] = []
waiting ((primer, rest) ∷ d) = rest ++ waiting d

abbrev pub calls_in {ℓ} : {Call : Type ℓ} → Batches Call → ℕ
calls_in [] = 0
calls_in ((warm, calls) ∷ batches) = length calls + calls_in batches

count-append : (i : ℕ) (xs ys : List ℕ) → count i (xs ++ ys) ≡ count i xs + count i ys
count-append i [] ys = omega arith
count-append i (x ∷ xs) ys = omega (arith, count-append i xs ys)

waiting-append :
    (i : ℕ) (d e : List (ℕ × List ℕ))
    → count i (waiting (d ++ e)) ≡ count i (waiting d) + count i (waiting e)
waiting-append i [] e = omega arith
waiting-append i ((primer, rest) ∷ d) e = omega (
  arith,
  waiting-append i d e,
  count-append i rest (waiting d),
  count-append i rest (waiting (d ++ e)),
)

count-remove_index :
    (i j : ℕ) (js : List ℕ)
    → any (λ k. i == k) js ≡ true
    → count j (remove_index i js) + (if j == i then 1 else 0) ≡ count j js
count-remove_index i j [] h = absurd (cc h)
count-remove_index i j (k ∷ js) h = ground (arith, count-remove_index i j js)

count-released :
    (i j : ℕ) (d : List (ℕ × List ℕ))
    → count j (released i d) + count j (waiting (still_deferred i d)) ≡ count j (waiting d)
count-released i j [] = omega arith
count-released i j ((primer, rest) ∷ d) = ground (
  arith,
  count-released i j d,
  count-append j rest (waiting d),
  count-append j rest (released i d),
  count-append j rest (waiting (still_deferred i d)),
)

length-released :
    (i : ℕ) (d : List (ℕ × List ℕ))
    → length (released i d) + length (waiting (still_deferred i d)) ≡ length (waiting d)
length-released i [] = omega arith
length-released i ((primer, rest) ∷ d) = ground (
  arith,
  length-released i d,
  length-append rest (waiting d),
  length-append rest (released i d),
  length-append rest (waiting (still_deferred i d)),
)

length-waiting :
    (d : List (ℕ × List ℕ)) (i : ℕ) (rest : List ℕ)
    → length (waiting (d ++ (i, rest) ∷ [])) ≡ length (waiting d) + length rest
length-waiting [] i rest = omega (arith, length-append rest [])
length-waiting ((primer, js) ∷ d) i rest = omega (
  arith,
  length-waiting d i rest,
  length-append js (waiting d),
  length-append js (waiting (d ++ (i, rest) ∷ [])),
)

length-remove_index :
    (i : ℕ) (js : List ℕ)
    → any (λ k. i == k) js ≡ true
    → suc (length (remove_index i js)) ≡ length js
length-remove_index i [] h = absurd (cc h)
length-remove_index i (k ∷ js) h = ground (arith, length-remove_index i js)

any-append :
    (k : ℕ) (xs ys : List ℕ)
    → any (λ j. k == j) (xs ++ ys) ≡ any (λ j. k == j) xs || any (λ j. k == j) ys
any-append k [] ys = refl
any-append k (x ∷ xs) ys = ground (arith, any-append k xs ys)

any-remove_index :
    (i k : ℕ) (js : List ℕ)
    → (i == k) ≡ false
    → any (λ j. k == j) js ≡ true
    → any (λ j. k == j) (remove_index i js) ≡ true
any-remove_index i k [] e h = h
any-remove_index i k (j ∷ js) e h = ground (arith, any-remove_index i k js e)

-- the primer of every group that waits is in flight
abbrev pub IsPrimed : List ℕ → List (ℕ × List ℕ) → Type 0
IsPrimed pending = All (λ (e : ℕ × List ℕ). any (λ j. e.0 == j) pending ≡ true)

IsPrimed-append : (js ks : List ℕ) (d : List (ℕ × List ℕ)) → IsPrimed js d → IsPrimed (js ++ ks) d
IsPrimed-append js ks [] h = tt
IsPrimed-append js ks (e ∷ d) h =
    (ground (arith, any-append e.0 js ks, h.0), IsPrimed-append js ks d h.1)

IsPrimed-complete :
    (i : ℕ) (js ks : List ℕ) (d : List (ℕ × List ℕ))
    → IsPrimed js d
    → IsPrimed (remove_index i js ++ ks) (still_deferred i d)
IsPrimed-complete i js ks [] h = tt
IsPrimed-complete i js ks ((primer, rest) ∷ d) h = elim (Bool-cases (i == primer)) [
  | inl e ↦ rw e (IsPrimed-complete i js ks d h.1)
  | inr e ↦ rw e (
    ground (arith, any-append primer (remove_index i js) ks, any-remove_index i primer js e h.0),
    IsPrimed-complete i js ks d h.1,
  )
]

-- an entry for each result
abbrev pub answered_calls {ℓ} : {Outcome : Type ℓ} → List (ℕ × Outcome) → List ℕ
answered_calls [] = []
answered_calls ((i, o) ∷ rs) = i ∷ answered_calls rs

module _ {ℓ} {Outcome : Type ℓ} where
  -- each of the first `n` calls is in flight, or waits for its primer, or has a result: once
  record IsAccounted (n : ℕ) (p : Pool Outcome) : Type ℓ where
    once :
        (j : ℕ)
        → count j p.pending + count j (waiting p.deferred) + count j (answered_calls p.results)
          ≡ (if ltb j n then 1 else 0)
    primed : IsPrimed p.pending p.deferred
    size : length p.pending + length (waiting p.deferred) + length (answered_calls p.results) ≡ n

  complete_call-IsAccounted :
      (n i : ℕ) (o : Outcome) (p : Pool Outcome)
      → any (λ j. i == j) p.pending ≡ true
      → IsAccounted n p
      → IsAccounted n (complete_call i o p)
  unfolding complete_call
  complete_call-IsAccounted n i o p h v = record {
    once = λ j. omega (
      arith,
      v.once j,
      count-append j (remove_index i p.pending) (released i p.deferred),
      count-remove_index i j p.pending h,
      count-released i j p.deferred,
    );
    primed = IsPrimed-complete i p.pending (released i p.deferred) p.deferred v.primed;
    size = omega (
      arith,
      v.size,
      length-append (remove_index i p.pending) (released i p.deferred),
      length-remove_index i p.pending h,
      length-released i p.deferred,
    );
  }

count-indices_from {κ} :
    {Call : Type κ} (j index : ℕ) (calls : List Call)
    → count j (indices_from index calls)
      ≡ (if leb index j && ltb j (index + length calls) then 1 else 0)
count-indices_from j index [] = ground arith
count-indices_from j index (c ∷ cs) = ground (arith, count-indices_from j (index + 1) cs)

length-indices_from {κ} :
    {Call : Type κ} (index : ℕ) (calls : List Call)
    → length (indices_from index calls) ≡ length calls
length-indices_from index [] = refl
length-indices_from index (c ∷ cs) = omega (arith, length-indices_from (index + 1) cs)

any_self : (i : ℕ) (js : List ℕ) → any (λ j. i == j) (js ++ i ∷ []) ≡ true
any_self i [] = ground arith
any_self i (j ∷ js) = ground (arith, any_self i js)

IsPrimed-snoc :
    (js rest : List ℕ) (primer : ℕ) (d : List (ℕ × List ℕ))
    → IsPrimed js d
    → IsPrimed (js ++ primer ∷ []) (d ++ (primer, rest) ∷ [])
IsPrimed-snoc js rest primer d h = go d h
  where
    go :
        (e : List (ℕ × List ℕ))
        → IsPrimed js e
        → IsPrimed (js ++ primer ∷ []) (e ++ (primer, rest) ∷ [])
    go [] k = (any_self primer js, tt)
    go (x ∷ e) k = (ground (arith, any-append x.0 js (primer ∷ []), k.0), go e k.1)

-- how often `j` is among `k` indices from `index` on
abbrev span : ℕ → ℕ → ℕ → ℕ
span j index k = if leb index j && ltb j (index + k) then 1 else 0

module _ {ℓ} {Outcome : Type ℓ} where
  submit_batch-IsAccounted :
      (n k : ℕ) (warm : Bool) (indexed : List ℕ) (p : Pool Outcome)
      → ((j : ℕ) → count j indexed ≡ span j n k)
      → length indexed ≡ k
      → IsAccounted n p
      → IsAccounted (n + k) (submit_batch warm indexed p)
  submit_batch-IsAccounted n k false indexed p c l v = record {
    once = λ j. ground (arith, v.once j, count-append j p.pending indexed, c j);
    primed = IsPrimed-append p.pending indexed p.deferred v.primed;
    size = omega (arith, v.size, length-append p.pending indexed, l);
  }
  submit_batch-IsAccounted n k true [] p c l v = record {
    once = λ j. ground (arith, v.once j, c j);
    primed = v.primed;
    size = omega (arith, v.size, l);
  }
  submit_batch-IsAccounted n k true (i ∷ rest) p c l v = record {
    once = λ j. ground (
      arith,
      v.once j,
      count-append j p.pending (i ∷ []),
      waiting-append j p.deferred ((i, rest) ∷ []),
      count-append j rest [],
      c j,
    );
    primed = IsPrimed-snoc p.pending rest i p.deferred v.primed;
    size =
        omega
          (arith, v.size, length-append p.pending (i ∷ []), length-waiting p.deferred i rest, l);
  }

  submit_from-IsAccounted {κ} :
      {Call : Type κ} (index n : ℕ) (batches : Batches Call) (p : Pool Outcome)
      → index + calls_in batches ≡ n
      → IsAccounted index p
      → IsAccounted n (submit_from index batches p)
  unfolding submit_from
  submit_from-IsAccounted index n [] p e v =
      let e' : index ≡ n = omega (arith, e) in subst (λ m. IsAccounted m p) e' v
  submit_from-IsAccounted index n ((warm, calls) ∷ batches) p e v =
      submit_from-IsAccounted (index + length calls) n batches
        (submit_batch warm (indices_from index calls) p) (omega (arith, e))
        (submit_batch-IsAccounted index (length calls) warm (indices_from index calls) p
          (λ j. count-indices_from j index calls) (length-indices_from index calls) v)

  submit-IsAccounted {κ} :
      {Call : Type κ} (batches : Batches Call)
      → IsAccounted (calls_in batches) (submit {Outcome = Outcome} batches)
  unfolding submit
  submit-IsAccounted batches =
      submit_from-IsAccounted 0 (calls_in batches) batches
        (record { pending = []; deferred = []; results = [] }) (omega arith)
        (record { once = λ j. ground arith; primed = tt; size = omega arith })

  Runs-IsAccounted :
      {n : ℕ} {p : Pool Outcome} {m : ℕ} {q : Pool Outcome}
      → IsAccounted n p
      → Runs p m q
      → IsAccounted n q
  Runs-IsAccounted v here = v
  Runs-IsAccounted {n} v (next {q = q} r (completes i o h e)) =
      subst (IsAccounted n) (sym e) (complete_call-IsAccounted n i o q h (Runs-IsAccounted v r))

  Runs-results :
      {p : Pool Outcome} {m : ℕ} {q : Pool Outcome}
      → answered_calls p.results ≡ []
      → Runs p m q
      → length (answered_calls q.results) ≡ m
  unfolding complete_call
  Runs-results h here = rw h refl
  Runs-results h (next {q = q} r (completes i o a e)) = rw e (omega (arith, Runs-results h r))

  submit_batch-results :
      (warm : Bool) (indexed : List ℕ) (p : Pool Outcome)
      → (submit_batch warm indexed p).results ≡ p.results
  submit_batch-results false indexed p = refl
  submit_batch-results true [] p = refl
  submit_batch-results true (i ∷ rest) p = refl

  submit_from-results {κ} :
      {Call : Type κ} (index : ℕ) (batches : Batches Call) (p : Pool Outcome)
      → (submit_from index batches p).results ≡ p.results
  unfolding submit_from
  submit_from-results index [] p = refl
  submit_from-results index ((warm, calls) ∷ batches) p =
      submit_from-results (index + length calls) batches
        (submit_batch warm (indices_from index calls) p)
      ∙ submit_batch-results warm (indices_from index calls) p

-- a call in flight, or nothing that waits for one
in_flight :
    (js : List ℕ) (d : List (ℕ × List ℕ))
    → IsPrimed js d
    → ((i : ℕ) × (any (λ j. i == j) js ≡ true)) ⊎ ((js ≡ []) × (d ≡ []))
in_flight (i ∷ js) d h = inl (i, ground arith)
in_flight [] [] h = inr (refl, refl)
in_flight [] (x ∷ d) h = absurd (cc h.0)

-- In whatever order the calls in flight complete, pass or fail: as long as a call has no result one is in
-- flight, so the loop goes on; it ends after exactly as many rounds as there are calls, with nothing left
-- waiting for a primer and exactly one result for each call.
pub submit-settles {ℓ κ} :
    {Call : Type ℓ} {Outcome : Type κ} (batches : Batches Call) (m : ℕ) (q : Pool Outcome)
    → Runs (submit batches) m q
    → ((i : ℕ) × (any (λ j. i == j) q.pending ≡ true) × (m < calls_in batches))
      ⊎ ((m ≡ calls_in batches)
          × (q.pending ≡ [])
          × (q.deferred ≡ [])
          × ((j : ℕ)
              → count j (answered_calls q.results) ≡ (if ltb j (calls_in batches) then 1 else 0)))
unfolding submit
submit-settles batches m q r = by_flight (in_flight q.pending q.deferred v.primed)
  where
    v : IsAccounted (calls_in batches) q
    v = Runs-IsAccounted (submit-IsAccounted batches) r

    rounds : length (answered_calls q.results) ≡ m
    rounds =
        Runs-results
          (ap answered_calls
            (submit_from-results 0 batches (record { pending = []; deferred = []; results = [] })))
          r

    by_flight :
        ((i : ℕ) × (any (λ j. i == j) q.pending ≡ true)) ⊎ ((q.pending ≡ []) × (q.deferred ≡ []))
        → ((i : ℕ) × (any (λ j. i == j) q.pending ≡ true) × (m < calls_in batches))
          ⊎ ((m ≡ calls_in batches)
              × (q.pending ≡ [])
              × (q.deferred ≡ [])
              × ((j : ℕ)
                  → count j (answered_calls q.results)
                    ≡ (if ltb j (calls_in batches) then 1 else 0)))
    by_flight (inl (i, h)) =
        inl (i, h, omega (arith, v.size, rounds, length-remove_index i q.pending h))
    by_flight (inr (e, d)) = inr (
      omega (arith, v.size, rounds, ap length e, ap (λ w. length (waiting w)) d),
      e,
      d,
      λ j. omega (arith, v.once j, ap (count j) e, ap (λ w. count j (waiting w)) d),
    )
