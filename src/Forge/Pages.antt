-- ===== src/Forge/Pages.antt =====
-- `paginate_pages` of core/paginate.py. The forge is a parameter: what it answers for a page.
pub mod Laws
use lgtmaybe.Prelude.{
  ℕ, zero, suc, ◌+◌, Bool, true, false, Option, none, some, List, [], ◌∷◌, ◌++◌, if◌then◌else◌, leb,
  ltb, length,
}

-- An answer: `batch` is `none` where the payload is no list, and `total` is the number of the header
-- X-Total-Count, `none` where it is missing or no number.
pub record Response {ℓ} (A : Type ℓ) : Type ℓ where
  pub batch : Option (List A)
  pub total : Option ℕ

-- how the walk ends: with the items, with an HTTP error raised, or with no fuel left
pub data Outcome {ℓ} (A : Type ℓ) : Type ℓ where
  returned : List A → Outcome A
  raised : Outcome A
  out_of_fuel : Outcome A

module _ {ℓ} {A : Type ℓ} (limit : ℕ) where
  -- whether the page was the last, with `items` collected
  unfoldable pub done : Option ℕ → List A → List A → Bool
  done (some total) items batch = leb total (length items)
  done none items batch = ltb (length batch) limit

  -- what is done with an answer, `next` for the next round
  unfoldable pub receive : List A → (List A → Outcome A) → Option (Response A) → Outcome A
  unfolding done
  receive items next none = raised
  receive items next (some r) = elim r.batch [
    | none ↦ returned items
    | some batch ↦ elim batch [
      | [] ↦ returned items
      | x ∷ xs ↦
          let more = next (items ++ x ∷ xs) in
          if done r.total (items ++ x ∷ xs) (x ∷ xs) then returned (items ++ x ∷ xs) else more
    ]
  ]

  unfoldable pub walk : (ℕ → Option (Response A)) → ℕ → List A → ℕ → Outcome A
  unfolding receive
  walk fetch zero items page = out_of_fuel
  walk fetch (suc fuel) items page =
      receive items (λ collected. walk fetch fuel collected (page + 1)) (fetch page)

  unfoldable pub paginate_pages : (ℕ → Option (Response A)) → ℕ → Outcome A
  unfolding walk
  paginate_pages fetch fuel = walk fetch fuel [] 1
