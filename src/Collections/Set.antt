-- ===== src/Collections/Set.antt =====
-- `set.add` and `in`.
use lgtmaybe.Prelude.{◌≡◌, List, ◌∷◌, Bool, true, ◌||◌, arith, if◌then◌else◌, any}
use lgtmaybe.Collections.{Eq, eq}

module _ {ℓ} {A : Type ℓ} ⦃e : Eq A⦄ where
  unfoldable pub has : A → List A → Bool
  has a s = any (eq a) s

  unfoldable pub add : A → List A → List A
  unfolding has
  add a s = if has a s then s else a ∷ s

  has-eq : (a b : A) (s : List A) → eq a b ≡ true → has b s ≡ true → has a s ≡ true
  has-eq a b s p q = rw ((e.beq_iff a b).0 p) q

  pub has-add : (a b : A) (s : List A) → has a (add b s) ≡ eq a b || has a s
  unfolding add
  has-add a b s = ground (arith, has-eq a b s)
