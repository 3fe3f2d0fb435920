-- ===== src/Prelude/Filters.antt =====
-- Laws of comprehensions with a test.
use mathlib.Core.Path.{◌≡◌, refl}
use mathlib.Core.Logic.{inl, inr}
use mathlib.Core.Bool.{Bool, true, false}
use mathlib.Core.List.{List, [], ◌∷◌}
use Prim.Native.Nat.{◌≤◌}
use native.Mathlib.Omega.{arith}
use lgtmaybe.Prelude.Tests.{Bool-cases}
use lgtmaybe.Prelude.Lists.{keep_if, any, All, length}

module _ {ℓ} {A : Type ℓ} where
  pub any-false : (p : A → Bool) (xs : List A) → ((x : A) → p x ≡ false) → any p xs ≡ false
  any-false p [] h = refl
  any-false p (x ∷ xs) h = rw (h x) (any-false p xs h)

  -- a test that only kept elements pass
  pub any-keep_if :
      (p q : A → Bool) (xs : List A)
      → ((x : A) → p x ≡ true → q x ≡ true)
      → any p (keep_if q xs) ≡ any p xs
  any-keep_if p q [] h = refl
  any-keep_if p q (x ∷ xs) h = ground (arith, any-keep_if p q xs h, h x)

  pub keep_if-keep_if :
      (p q : A → Bool) (xs : List A)
      → ((x : A) → p x ≡ true → q x ≡ true)
      → keep_if p (keep_if q xs) ≡ keep_if p xs
  keep_if-keep_if p q [] h = refl
  keep_if-keep_if p q (x ∷ xs) h = ground (arith, keep_if-keep_if p q xs h, h x)

  pub keep_if-All : (p : A → Bool) (xs : List A) → All (λ x. p x ≡ true) (keep_if p xs)
  keep_if-All p [] = tt
  keep_if-All p (x ∷ xs) = elim (Bool-cases (p x)) [
    | inl e ↦ rw e (e, keep_if-All p xs)
    | inr e ↦ rw e (keep_if-All p xs)
  ]

  pub any-All : (p : A → Bool) (xs : List A) → any p xs ≡ false → All (λ x. p x ≡ false) xs
  any-All p [] h = tt
  any-All p (x ∷ xs) h = (ground arith, any-All p xs (ground arith))

  pub length-keep_if : (p : A → Bool) (xs : List A) → length (keep_if p xs) ≤ length xs
  length-keep_if p [] = omega arith
  length-keep_if p (x ∷ xs) = ground (arith, length-keep_if p xs)

module _ {ℓ κ} {A : Type ℓ} (P : A → Type κ) where
  pub All-keep_if : (q : A → Bool) (xs : List A) → All P xs → All P (keep_if q xs)
  All-keep_if q [] h = tt
  All-keep_if q (x ∷ xs) h = elim (Bool-cases (q x)) [
    | inl e ↦ rw e (h.0, All-keep_if q xs h.1)
    | inr e ↦ rw e (All-keep_if q xs h.1)
  ]
