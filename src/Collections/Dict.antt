-- ===== src/Collections/Dict.antt =====
-- `dict.setdefault(key, []).append(value)` and `dict.get`.
use lgtmaybe.Prelude.{◌≡◌, List, [], ◌∷◌, ◌++◌, arith, if◌then◌else◌, Option, none, some}
use lgtmaybe.Collections.{Eq, eq}

module _ {ℓ κ} {K : Type ℓ} {V : Type κ} ⦃e : Eq K⦄ where
  unfoldable pub get : K → List (K × V) → Option V
  get k [] = none
  get k ((j, v) ∷ m) = if eq j k then some v else get k m

  -- `m[k] = v`: a key that is there keeps its place
  unfoldable pub put : K → V → List (K × V) → List (K × V)
  put k v [] = (k, v) ∷ []
  put k v ((j, w) ∷ m) = let rest = put k v m in if eq j k then (j, v) ∷ m else (j, w) ∷ rest

  abbrev pub values : List (K × V) → List V
  values [] = []
  values ((j, v) ∷ m) = v ∷ values m

  -- the list at the key, none for a key that is not there
  unfoldable pub items : K → List (K × List V) → List V
  items k [] = []
  items k ((j, vs) ∷ m) = if eq j k then vs else items k m

  unfoldable pub append_at : K → V → List (K × List V) → List (K × List V)
  append_at k v [] = (k, v ∷ []) ∷ []
  append_at k v ((j, vs) ∷ m) =
      let rest = append_at k v m in if eq j k then (j, vs ++ v ∷ []) ∷ m else (j, vs) ∷ rest

  pub items-append_at :
      (k j : K) (v : V) (m : List (K × List V))
      → items j (append_at k v m) ≡ (if eq k j then items j m ++ v ∷ [] else items j m)
  unfolding items append_at
  items-append_at k j v [] = ground arith
  items-append_at k j v ((i, vs) ∷ m) =
      ground (arith, items-append_at k j v m, e.beq_iff i k, e.beq_iff i j, e.beq_iff k j)

  pub get-put :
      (k j : K) (v : V) (m : List (K × V))
      → get j (put k v m) ≡ (if eq k j then some v else get j m)
  unfolding get put
  get-put k j v [] = ground arith
  get-put k j v ((i, w) ∷ m) =
      ground (arith, get-put k j v m, e.beq_iff i k, e.beq_iff i j, e.beq_iff k j)
