-- ===== src/Prelude/Dict.antt =====
-- Python's `dict` as an association list: a key's first entry counts.
use mathlib.Core.Path.{◌≡◌, refl}
use mathlib.Core.Logic.{◌⊎◌, inl, inr}
use mathlib.Core.Bool.{false}
use mathlib.Core.Option.{Option, none, some}
use mathlib.Core.List.{List, [], ◌∷◌}
use native.Mathlib.Omega.{arith}
use nawat.Prelude.Tests.{if◌then◌else◌, Eq, same, Bool-cases}
use nawat.Prelude.Lists.{In}

abbrev pub Dict {ℓ κ} : Type ℓ → Type κ → Type (ℓ ⊔ κ)
Dict K V = List (K × V)

module _ {ℓ κ} {K : Type ℓ} {V : Type κ} ⦃e : Eq K⦄ where
  unfoldable pub get : K → Dict K V → Option V
  get k [] = none
  get k ((j, v) ∷ d) = if same j k then some v else get k d

  -- `d[k] = v`
  unfoldable pub put : K → V → Dict K V → Dict K V
  put k v [] = (k, v) ∷ []
  put k v ((j, w) ∷ d) = if same j k then (k, v) ∷ d else (j, w) ∷ put k v d

  -- `d.pop(k, None)`
  unfoldable pub remove : K → Dict K V → Dict K V
  remove k [] = []
  remove k ((j, w) ∷ d) = let rest = remove k d in if same j k then rest else (j, w) ∷ rest

  abbrev pub keys : Dict K V → List K
  keys [] = []
  keys ((j, w) ∷ d) = j ∷ keys d

  pub get-cons :
      (k j : K) (v w : V) (d : Dict K V)
      → get k ((j, w) ∷ d) ≡ some v
      → (k ≡ j) × (w ≡ v) ⊎ (get k d ≡ some v)
  unfolding get
  get-cons k j v w d h = ground arith

  pub get-put :
      (k j : K) (v : V) (d : Dict K V) → get j (put k v d) ≡ (if same k j then some v else get j d)
  unfolding get put
  get-put k j v [] = refl
  get-put k j v ((i, w) ∷ d) = ground (arith, get-put k j v d)

  pub get-remove :
      (k j : K) (d : Dict K V) → get j (remove k d) ≡ (if same k j then none else get j d)
  unfolding get remove
  get-remove k j [] = ground arith
  get-remove k j ((i, w) ∷ d) = ground (arith, get-remove k j d)

module _ {K V : Type 0} ⦃e : Eq K⦄ where
  pub In-keys : (k : K) (v : V) (d : Dict K V) → get k d ≡ some v → In k (keys d)
  unfolding get
  In-keys k v [] h = cc
  In-keys k v ((j, w) ∷ d) h = ground (arith, In-keys k v d)

  pub In-keys-get : (k : K) (d : Dict K V) → In k (keys d) → (v : V) × (get k d ≡ some v)
  unfolding get
  In-keys-get k [] m = absurd m
  In-keys-get k ((j, w) ∷ d) m = elim (Bool-cases (same j k)) [
    | inl t ↦ (w, rw t)
    | inr f ↦ let (v, h) = In-keys-get k d (later m f) in (v, rw f h)
  ]
    where
      later : (k ≡ j) ⊎ In k (keys d) → same j k ≡ false → In k (keys d)
      later m f = ground arith
